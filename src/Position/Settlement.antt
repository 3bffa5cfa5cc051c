-- ===== src/Position/Settlement.antt =====
-- What a settlement does to each position, once and twice.
use cplusplus_arbitrage.Base.{
  ◌≡◌, refl, ap, ◌∙◌, String, true, false, Option, none, some, [], ◌∷◌, Bool-cases, if◌then◌else◌,
  inl, inr,
}
use text.Mathlib.Text.{◌==◌}
use text.Mathlib.TextPositions.{eq_refl}
use cplusplus_arbitrage.Double.{Double, nought, ◌⊕◌, ◌⊖◌}
use cplusplus_arbitrage.SortedMap.{Map, find}
use cplusplus_arbitrage.SortedMap.Text.{before, eq_of_same}
use cplusplus_arbitrage.Types.{Timestamp}
use cplusplus_arbitrage.Position.{
  Position, PositionManager, settled, settlement_pnl, settle_loop, record_settlement, get_position,
}

module _ {D : Type 0} ⦃d : Double D⦄ where
  abbrev pub settle_entry : String → String → String → Timestamp → Position D → Position D
  settle_entry market winner id now pos =
      if pos.market_id == market then settled winner id now pos else pos

  abbrev pub on_found : (Position D → Position D) → Option (Position D) → Option (Position D)
  on_found f none = none
  on_found f (some pos) = some (f pos)

  find-settle_loop :
      (id market winner : String) (now : Timestamp) (m : Map String (Position D)) (total : D)
      → find before id (settle_loop market winner now m total).0
        ≡ on_found (settle_entry market winner id now) (find before id m)
  unfolding settle_loop find
  find-settle_loop id market winner now [] total = refl
  find-settle_loop id market winner now ((j, pos) ∷ m) total = elim (Bool-cases (before j id)) [
    | inl e ↦ rw e (find-settle_loop id market winner now m _)
    | inr e ↦ elim (Bool-cases (before id j)) [
      | inl f ↦ rw (e, f)
      | inr f ↦
          rw (e, f) (ap (λ k. some (settle_entry market winner k now pos)) (eq_of_same j id e f))
    ]
  ]

  -- The settlement of a market settles each position of the market, as its token won or not, and leaves
  -- every other position as it was.
  get_position-record_settlement :
      (id market winner : String) (now : Timestamp) (m : PositionManager D)
      → get_position id (record_settlement market winner now m)
        ≡ on_found (settle_entry market winner id now) (get_position id m)
  unfolding get_position record_settlement
  get_position-record_settlement id market winner now m =
      find-settle_loop id market winner now m.positions m.total_realized_pnl

  -- To settle a market twice charges the fees of each losing position a second time, though it holds
  -- nothing any more.
  settle_twice :
      (id market winner : String) (now later : Timestamp) (m : PositionManager D) (pos : Position D)
      → get_position id m ≡ some pos
      → pos.market_id ≡ market
      → (id == winner) ≡ false
      → let once = record_settlement market winner now m in
        get_position id (record_settlement market winner later once)
        ≡ some (record (settled winner id now pos) {
          realized_pnl =
              pos.realized_pnl
              ⊕ (d.neg pos.cost_basis ⊖ pos.total_fees)
              ⊕ (d.neg nought ⊖ pos.total_fees);
          last_update = later;
        })
  unfolding settlement_pnl
  settle_twice id market winner now later m pos e f lost =
      let hit : (pos.market_id == market) ≡ true = rw f (eq_refl market) in
      get_position-record_settlement id market winner later (record_settlement market winner now m)
      ∙ ap (on_found (settle_entry market winner id later)) (
          get_position-record_settlement id market winner now m
          ∙ ap (on_found (settle_entry market winner id now)) e)
      ∙ rw (hit, lost, hit)
