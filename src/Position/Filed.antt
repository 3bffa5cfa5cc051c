-- ===== src/Position/Filed.antt =====
-- The positions stand in order of their tokens, each under its own.
use cplusplus_arbitrage.Base.{
  ◌≡◌, sym, ◌∙◌, String, some, [], ◌∷◌, arith, All, Option-cases, inl, inr,
}
use cplusplus_arbitrage.Double.{Double}
use cplusplus_arbitrage.SortedMap.{Map, assign, find, IsSorted}
use cplusplus_arbitrage.SortedMap.Order.{assign-IsSorted, All-assign_entries}
use cplusplus_arbitrage.SortedMap.Text.{before, AnyKey, before-IsKeyOrder, eq_of_same}
use cplusplus_arbitrage.Types.{Fill, Timestamp}
use cplusplus_arbitrage.Position.{
  Position, PositionManager, record_fill, new_position, apply_fill_to_position, or_new,
  mark_to_market,
}

module _ {D : Type 0} where
  abbrev pub IsFiled : Map String (Position D) → Type 0
  IsFiled m = IsSorted before AnyKey m × All (λ e. e.0 ≡ e.1.token_id) m

  assign-IsFiled :
      (pos : Position D) (k : String) (m : Map String (Position D))
      → k ≡ pos.token_id
      → IsFiled m
      → IsFiled (assign before k pos m)
  assign-IsFiled pos k m e (s, f) = (
    assign-IsSorted before before-IsKeyOrder k pos m tt s,
    All-assign_entries before (λ x. x.0 ≡ x.1.token_id) k pos m e (λ j p q. eq_of_same j k p q ∙ e)
        f,
  )

  -- What a lookup finds holds of an entry under that key.
  find-token :
      (k : String) (m : Map String (Position D)) (pos : Position D)
      → All (λ e. e.0 ≡ e.1.token_id) m
      → find before k m ≡ some pos
      → k ≡ pos.token_id
  unfolding find
  find-token k [] pos f e = cc
  find-token k ((j, w) ∷ m) pos (f, fs) e = ground (arith, find-token k m pos fs, eq_of_same k j)

module _ {D : Type 0} ⦃d : Double D⦄ where
  token-apply_fill :
      (f : Fill D) (now : Timestamp) (m : PositionManager D) (pos : Position D)
      → (apply_fill_to_position f now m pos).1.token_id ≡ pos.token_id
  unfolding apply_fill_to_position
  token-apply_fill f now m pos = ground arith

  token-or_new :
      (f : Fill D) (now : Timestamp) (m : Map String (Position D))
      → All (λ e. e.0 ≡ e.1.token_id) m
      → f.token_id ≡ (or_new f now (find before f.token_id m)).token_id
  unfolding new_position
  token-or_new f now m h = elim (Option-cases (find before f.token_id m)) [
    | inl e ↦ rw e
    | inr (pos, e) ↦ rw e (find-token f.token_id m pos h e)
  ]

  -- A fill and a mark keep the positions in order, each under its token.
  pub record_fill-IsFiled :
      (f : Fill D) (now : Timestamp) (m : PositionManager D)
      → IsFiled m.positions
      → IsFiled (record_fill f now m).positions
  unfolding record_fill
  record_fill-IsFiled f now m h =
      let pos = or_new f now (find before f.token_id m.positions) in
      assign-IsFiled _ f.token_id m.positions
        (token-or_new f now m.positions h.1 ∙ sym (token-apply_fill f now m pos)) h

  pub mark_to_market-IsFiled :
      (token : String) (mark : D) (m : PositionManager D)
      → IsFiled m.positions
      → IsFiled (mark_to_market token mark m).positions
  unfolding mark_to_market
  mark_to_market-IsFiled token mark m h = elim (Option-cases (find before token m.positions)) [
    | inl e ↦ rw (e, mark_to_market) h
    | inr (pos, e) ↦
        rw (e, mark_to_market)
          (assign-IsFiled _ token m.positions (find-token token m.positions pos h.1 e) h)
  ]
