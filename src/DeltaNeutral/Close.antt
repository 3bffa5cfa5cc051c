-- ===== src/DeltaNeutral/Close.antt =====
-- The orders of generate_kill_orders against the positions that they close.
use cplusplus_arbitrage.Base.{
  String, ◌≡◌, refl, List, [], ◌∷◌, arith, true, false, All, inl, inr, Bool-cases,
}
use cplusplus_arbitrage.Double.{Double, IsNum, nought, ◌⊕◌}
use cplusplus_arbitrage.Double.Laws.{IsOrdered, HasMagnitude}
use cplusplus_arbitrage.SortedMap.{Map}
use cplusplus_arbitrage.Types.{Side, buy, sell}
use cplusplus_arbitrage.Funding.{Position}
use cplusplus_arbitrage.DeltaNeutral.{HedgeOrder, DeltaNeutralEnforcer}
use cplusplus_arbitrage.DeltaNeutral.Kill.{kill_order, kill_loop, generate_kill_orders}

module _ {D : Type 0} ⦃d : Double D⦄ where
  -- A number whose sum with its negative is 0: in IEEE 754, one that is neither NaN nor infinite.
  abbrev pub IsFinite : D → Type 0
  IsFinite x = IsNum x × (x ⊕ d.neg x ≡ nought)

  -- The quantity that is left once the order is filled.
  abbrev pub left_after : D → Side → D → D
  left_after held buy qty = held ⊕ qty
  left_after held sell qty = held ⊕ d.neg qty

  -- One order for each position that is not 0, in the same order, which leaves nothing of it.
  pub data Flattens : Map String (Position D) → List (HedgeOrder D) → Type 0 where
    all_flat : Flattens [] []
    is_flat :
        (key : String) (p : Position D) {ps : Map String (Position D)} {os : List (HedgeOrder D)}
        → d.eqv p.qty nought ≡ true
        → Flattens ps os
        → Flattens ((key, p) ∷ ps) os
    closes :
        (key : String) (p : Position D) (o : HedgeOrder D) {ps : Map String (Position D)}
        {os : List (HedgeOrder D)}
        → d.eqv p.qty nought ≡ false
        → o.venue ≡ p.venue
        → o.instrument ≡ p.instrument
        → left_after p.qty o.side o.qty ≡ nought
        → Flattens ps os
        → Flattens ((key, p) ∷ ps) (o ∷ os)

module _ {D : Type 0} ⦃d : Double D⦄ (laws : IsOrdered D) (magnitude : HasMagnitude D) where
  kill_order-left :
      (p : Position D)
      → IsFinite p.qty
      → d.eqv p.qty nought ≡ false
      → left_after p.qty (kill_order p).side (kill_order p).qty ≡ nought
  kill_order-left p (n, cancels) h = ground (
    arith,
    magnitude.abs_of_gt p.qty,
    magnitude.abs_of_lt p.qty,
    magnitude.eqv_of_le p.qty nought,
    laws.num_ratio 0 0,
    laws.le-eq-not-lt p.qty nought n,
    laws.le-eq-not-lt nought p.qty,
    cancels,
  )

  kill_loop-Flattens :
      (ps : Map String (Position D)) → All (λ e. IsFinite e.1.qty) ps → Flattens ps (kill_loop ps)
  unfolding kill_loop
  kill_loop-Flattens [] _ = all_flat
  kill_loop-Flattens ((key, p) ∷ ps) (n, ns) = elim (Bool-cases (d.eqv p.qty nought)) [
    | inl e ↦ rw e (is_flat key p e (kill_loop-Flattens ps ns))
    | inr e ↦
        rw e (
          closes key p (kill_order p) e refl refl (kill_order-left p n e)
            (kill_loop-Flattens ps ns))
  ]

  -- If every quantity is finite, a number whose sum with its negative is 0, there is one kill order for
  -- each position that is not 0, at its venue and instrument, and none other; once it is filled, nothing
  -- is left of the position.
  pub generate_kill_orders-Flattens :
      (e : DeltaNeutralEnforcer D)
      → All (λ entry. IsFinite entry.1.qty) e.positions
      → Flattens e.positions (generate_kill_orders e)
  unfolding generate_kill_orders
  generate_kill_orders-Flattens e n = kill_loop-Flattens e.positions n
