-- ===== src/DeltaNeutral/Hedge.antt =====
-- The hedge that check_hedge_needed orders.
use mathlib.Core.List.{Memᴰ}
use text.Mathlib.Text.{◌==◌}
use text.Mathlib.TextEquality.{eq_iff}
use cplusplus_arbitrage.Base.{
  ℕ, String, Bool, ◌≡◌, refl, sym, ◌∙◌, ap, subst, [], ◌∷◌, arith, true, false, ◌⊎◌, inl, inr,
  Bool-cases, if◌then◌else◌,
}
use cplusplus_arbitrage.Double.{Double, nought, ◌≼◌, ◌≺◌, ◌≻◌, ◌⊗◌}
use cplusplus_arbitrage.Double.Laws.{IsOrdered}
use cplusplus_arbitrage.SortedMap.{Map}
use cplusplus_arbitrage.Types.{Side, buy, sell}
use cplusplus_arbitrage.Funding.{Position}
use cplusplus_arbitrage.DeltaNeutral.{
  HedgeOrder, DeltaNeutralEnforcer, is_larger, hedge_venue_loop, hedge_order, compute_delta,
  check_hedge_needed,
}

module _ {D : Type 0} ⦃d : Double D⦄ where
  abbrev is_to_sell : D → Side → Bool
  is_to_sell qty sell = qty ≻ nought
  is_to_sell qty buy = qty ≺ nought

  -- The venue holds a position that an order of this side makes smaller.
  pub record Reduces (venue : String) (side : Side) (ps : Map String (Position D)) : Type 0 where
    pub key : String
    pub position : Position D
    pub among : Memᴰ (key, position) ps
    pub at_venue : position.venue ≡ venue
    pub right_side : is_to_sell position.qty side ≡ true

  Reduces-cons :
      {venue : String} {side : Side} (key : String) (p : Position D) {ps : Map String (Position D)}
      → Reduces venue side ps
      → Reduces venue side ((key, p) ∷ ps)
  Reduces-cons key p r = record {
    key = r.key;
    position = r.position;
    among = Memᴰ.tail r.among;
    at_venue = r.at_venue;
    right_side = r.right_side;
  }

module _ {D : Type 0} ⦃d : Double D⦄ (laws : IsOrdered D) where
  open laws use {lt_trans, lt_irrefl}

  abbrev side_of : D → Side
  side_of hedge_amount = if hedge_amount ≻ nought then sell else buy

  -- The largest quantity so far is still 0, or of the sign to reduce.
  abbrev IsRightSign : (hedge_amount max_pos : D) → Type 0
  IsRightSign hedge_amount max_pos =
      (max_pos ≡ nought) ⊎ (is_to_sell max_pos (side_of hedge_amount) ≡ true)

  is_larger-is_to_sell :
      (hedge_amount max_pos : D) (p : Position D)
      → IsRightSign hedge_amount max_pos
      → is_larger hedge_amount max_pos p ≡ true
      → is_to_sell p.qty (side_of hedge_amount) ≡ true
  is_larger-is_to_sell hedge_amount max_pos p h l = ground (
    arith,
    lt_trans nought max_pos p.qty,
    lt_trans p.qty max_pos nought,
    lt_trans nought hedge_amount nought,
    lt_irrefl nought,
  )

  hedge_venue_loop-Reduces :
      (hedge_amount : D) (ps : Map String (Position D)) (s : D × String)
      → IsRightSign hedge_amount s.0
      → let venue = (hedge_venue_loop hedge_amount ps s).1 in
        (venue ≡ s.1) ⊎ Reduces venue (side_of hedge_amount) ps
  unfolding hedge_venue_loop
  hedge_venue_loop-Reduces hedge_amount [] s h = inl refl
  hedge_venue_loop-Reduces hedge_amount ((key, p) ∷ ps) s h =
      let s' : D × String = if is_larger hedge_amount s.0 p then (p.qty, p.venue) else s in
      let chosen : Bool → String = λ b. (if b then (p.qty, p.venue) else s).1 in
      let sign = is_larger-is_to_sell hedge_amount s.0 p h in
      let h' : IsRightSign hedge_amount s'.0 = elim (Bool-cases (is_larger hedge_amount s.0 p)) [
        | inl e ↦ rw e (inr (sign e))
        | inr e ↦ rw e h
      ] in
      elim (hedge_venue_loop-Reduces hedge_amount ps s' h') [
        | inl q ↦ elim (Bool-cases (is_larger hedge_amount s.0 p)) [
          | inl e ↦ inr (record {
            key = key;
            position = p;
            among = Memᴰ.head refl;
            at_venue = sym (q ∙ ap chosen e);
            right_side = sign e;
          })
          | inr e ↦ inl (q ∙ ap chosen e)
        ]
        | inr r ↦ inr (Reduces-cons key p r)
      ]

  -- The order that is made if one is needed.
  abbrev hedge_amount_of : ℕ → DeltaNeutralEnforcer D → D
  hedge_amount_of now e = (compute_delta now e).net_delta ⊗ e.config.hedge_aggressiveness

  abbrev hedge_venue : ℕ → DeltaNeutralEnforcer D → String
  hedge_venue now e = (hedge_venue_loop (hedge_amount_of now e) e.positions (nought, "")).1

  abbrev the_order : ℕ → DeltaNeutralEnforcer D → HedgeOrder D
  the_order now e =
      hedge_order (hedge_amount_of now e) (compute_delta now e).net_delta (hedge_venue now e) e

  check_hedge_needed-cases :
      (now : ℕ) (e : DeltaNeutralEnforcer D)
      → (check_hedge_needed now e).1 ≡ (
          if d.abs (compute_delta now e).net_delta ≼ e.config.delta_hedge_threshold
          then []
          else if hedge_venue now e == ""
          then []
          else the_order now e ∷ [])
  unfolding check_hedge_needed
  check_hedge_needed-cases now e = ground arith

  the_order-Reduces :
      (now : ℕ) (e : DeltaNeutralEnforcer D)
      → (hedge_venue now e == "") ≡ false
      → Reduces (the_order now e).venue (the_order now e).side e.positions
  unfolding hedge_order
  the_order-Reduces now e h =
      elim (hedge_venue_loop-Reduces (hedge_amount_of now e) e.positions (nought, "") (inl refl)) [
        | inl q ↦ absurd (ground (arith, eq_iff (hedge_venue now e) ""))
        | inr r ↦ r
      ]

  only_order :
      (within none_found : Bool) (made o : HedgeOrder D)
      → let orders = if within then [] else if none_found then [] else made ∷ [] in
        Memᴰ o orders → (within ≡ false) × (none_found ≡ false) × (o ≡ made) × (orders ≡ o ∷ [])
  only_order true none_found made o m = elim m [ ]
  only_order false true made o m = elim m [ ]
  only_order false false made o (Memᴰ.head e) = (refl, refl, e, ap (λ x. x ∷ []) (sym e))
  only_order false false made o (Memᴰ.tail m) = elim m [ ]

  -- A hedge is ordered only if the net delta is not within the threshold. There is one order at most,
  -- and its venue holds a position that an order of its side makes smaller.
  pub check_hedge_needed_lem :
      (now : ℕ) (e : DeltaNeutralEnforcer D) (o : HedgeOrder D)
      → Memᴰ o (check_hedge_needed now e).1
      → ((check_hedge_needed now e).1 ≡ o ∷ [])
        × ((d.abs (compute_delta now e).net_delta ≼ e.config.delta_hedge_threshold) ≡ false)
        × Reduces o.venue o.side e.positions
  check_hedge_needed_lem now e o h =
      let only =
        only_order _ _ (the_order now e) o (subst (Memᴰ o) (check_hedge_needed-cases now e) h) in
      (
        check_hedge_needed-cases now e ∙ only.3,
        only.0,
        subst (λ x. Reduces x.venue x.side e.positions) (sym only.2)
            (the_order-Reduces now e only.1),
      )
