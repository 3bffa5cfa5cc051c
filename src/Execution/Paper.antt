-- ===== src/Execution/Paper.antt =====
-- The paper worker's turns, each of which is `paper_step`.
use cplusplus_arbitrage.Base.{
  ◌≡◌, ◌⊎◌, refl, sym, ap, ◌∙◌, ◌≤◌, String, Bool, true, false, Option, some, List, [], ◌∷◌, ◌++◌,
  arith, if◌then◌else◌, length, All, All-mono, Option-cases, inl, inr,
}
use mathlib.Core.List.{append-nil}
use cplusplus_arbitrage.Double.{Double, lit, ◌≼◌, ◌≻◌}
use cplusplus_arbitrage.SortedMap.{find, same}
use cplusplus_arbitrage.SortedMap.Text.{
  before, find-assign_self, before_irrefl, find-assign_text, find-same,
}
use cplusplus_arbitrage.Types.{Timestamp, OrderState, partial, filled, canceled}
use cplusplus_arbitrage.Order.{
  Order, is_terminal, mark_acknowledged, mark_canceled, mark_partial_fill,
}
use cplusplus_arbitrage.Risk
use cplusplus_arbitrage.Execution.{Engine, get_order}
use cplusplus_arbitrage.Execution.Change.{on_found}
use cplusplus_arbitrage.Execution.Simulation.{Draw, simulate_fill, simulated_fill, paper_step}
use cplusplus_arbitrage.Execution.Paired.{left_after}

List-cases {ℓ} :
    {A : Type ℓ} (xs : List A) → (xs ≡ []) ⊎ ((a : A) × (rest : List A) × (xs ≡ a ∷ rest))
List-cases [] = inl refl
List-cases (x ∷ xs) = inr (x, xs, refl)

-- The simulation is through with an order in one of these states.
abbrev pub served : OrderState → Bool
served OrderState.pending = false
served OrderState.sent = false
served OrderState.acknowledged = false
served _ = true

module _ {D : Type 0} ⦃d : Double D⦄ where
  abbrev pub is_served : Order D → Bool
  is_served o = served o.state

  -- A turn on a waiting order that is not terminal: with a roll above 0.4 the order is CANCELED and
  -- nothing else happens to it; otherwise it is FILLED or PARTIAL by what is left, and one and the
  -- same fill goes to the order, to the callback and to the risk manager.
  paper_step_lem :
      (exchange_id : String) (draw : Draw D) (now : Timestamp) (e : Engine D) (id : String)
      (waiting : List String) (o : Order D)
      → e.pending_paper_orders ≡ id ∷ waiting
      → get_order id e ≡ some o
      → is_terminal o ≡ false
      → let e' = paper_step exchange_id draw now e in
        let missed = draw.fill_roll ≻ lit 4 10 in
        let f = simulated_fill draw now o in
        (e'.pending_paper_orders ≡ waiting)
        × (on_found (λ x. x.state) (get_order id e')
            ≡ some (
                if missed
                then canceled
                else if left_after draw o ≼ lit 1 10_000
                then filled
                else partial))
        × (on_found (λ x. x.fills) (get_order id e')
            ≡ some (o.fills ++ (if missed then [] else f ∷ [])))
        × (e'.fill_log ≡ e.fill_log ++ (if missed then [] else f ∷ []))
        × (e'.risk ≡ (if missed then e.risk else Risk.record_fill f e.risk))
  unfolding paper_step get_order simulate_fill mark_acknowledged mark_canceled mark_partial_fill
      simulated_fill
  paper_step_lem exchange_id draw now e id waiting o q f t =
      let acked = mark_acknowledged exchange_id draw.acknowledged_ms now o in
      ground (
        arith,
        append-nil e.fill_log,
        append-nil o.fills,
        find-assign_self id (mark_canceled now acked) e.orders,
        find-assign_self id (mark_partial_fill (simulated_fill draw now acked) now acked) e.orders,
      )

  unfoldable pub paper_run : List (String × Draw D × Timestamp) → Engine D → Engine D
  unfolding paper_step
  paper_run [] e = e
  paper_run ((exchange_id, draw, now) ∷ turns) e =
      paper_run turns (paper_step exchange_id draw now e)

  abbrev pub found : String → Engine D → Option Bool
  found p e = on_found (λ o. true) (get_order p e)

  abbrev pub found_served : String → Engine D → Option Bool
  found_served p e = on_found is_served (get_order p e)

  simulate_fill-is_served :
      (draw : Draw D) (now : Timestamp) (o : Order D) (e : Engine D)
      → (is_served (simulate_fill draw now o e).1 ≡ true)
        × ((simulate_fill draw now o e).0.orders ≡ e.orders)
        × ((simulate_fill draw now o e).0.pending_paper_orders ≡ e.pending_paper_orders)
  unfolding simulate_fill mark_canceled mark_partial_fill
  simulate_fill-is_served draw now o e = ground arith

  found-paper_step :
      (p exchange_id : String) (draw : Draw D) (now : Timestamp) (e : Engine D) (id : String)
      (waiting : List String)
      → e.pending_paper_orders ≡ id ∷ waiting
      → let e' = paper_step exchange_id draw now e in
        (e'.pending_paper_orders ≡ waiting)
        × (found p e' ≡ found p e)
        × (found_served p e' ≡ (if same before p id then found p e else found_served p e))
  unfolding paper_step get_order is_terminal
  found-paper_step p exchange_id draw now e id waiting q =
      elim (Option-cases (find before id e.orders)) [
        | inl h ↦ ground (arith, find-same p id e.orders)
        | inr (o, h) ↦
            let acked = mark_acknowledged exchange_id draw.acknowledged_ms now o in
            let e1 : Engine D = record e { pending_paper_orders = waiting } in
            let o' = (simulate_fill draw now acked e1).1 in
            ground (
              arith,
              find-same p id e.orders,
              find-assign_text p id o' e.orders,
              simulate_fill-is_served draw now acked e1,
            )
      ]

  paper_step-idle :
      (exchange_id : String) (draw : Draw D) (now : Timestamp) (e : Engine D)
      → e.pending_paper_orders ≡ []
      → paper_step exchange_id draw now e ≡ e
  unfolding paper_step
  paper_step-idle exchange_id draw now e q = ground arith

  paper_step-keeps :
      (p exchange_id : String) (draw : Draw D) (now : Timestamp) (e : Engine D)
      → (found p (paper_step exchange_id draw now e) ≡ found p e)
        × (found_served p e ≡ found p e
            → found_served p (paper_step exchange_id draw now e) ≡ found p e)
  paper_step-keeps p exchange_id draw now e = elim (List-cases e.pending_paper_orders) [
    | inl q ↦
        let idle = paper_step-idle exchange_id draw now e q in
        (ap (found p) idle, λ h. ap (found_served p) idle ∙ h)
    | inr (id, waiting, q) ↦
        let (_, kept, now_served) = found-paper_step p exchange_id draw now e id waiting q in
        (kept, λ h. ground arith)
  ]

  paper_run-keeps :
      (p : String) (turns : List (String × Draw D × Timestamp)) (e : Engine D)
      → (found p (paper_run turns e) ≡ found p e)
        × (found_served p e ≡ found p e → found_served p (paper_run turns e) ≡ found p e)
  unfolding paper_run
  paper_run-keeps p [] e = (refl, λ h. h)
  paper_run-keeps p ((x, draw, now) ∷ turns) e =
      let (kept, then_served) = paper_step-keeps p x draw now e in
      let (later, later_served) = paper_run-keeps p turns (paper_step x draw now e) in
      (later ∙ kept, λ h. later_served (then_served h ∙ sym kept) ∙ kept)

  paper_run-idle :
      (turns : List (String × Draw D × Timestamp)) (e : Engine D)
      → e.pending_paper_orders ≡ []
      → paper_run turns e ≡ e
  unfolding paper_run
  paper_run-idle [] e q = refl
  paper_run-idle ((x, draw, now) ∷ turns) e q =
      let idle = paper_step-idle x draw now e q in
      ap (paper_run turns) idle ∙ paper_run-idle turns e q

  serve :
      (ids : List String) (turns : List (String × Draw D × Timestamp)) (e : Engine D)
      → e.pending_paper_orders ≡ ids
      → length ids ≤ length turns
      → let e' = paper_run turns e in
        (e'.pending_paper_orders ≡ []) × All (λ id. found_served id e' ≡ found id e) ids
  unfolding paper_run
  serve [] turns e q h = (ap (λ x. x.pending_paper_orders) (paper_run-idle turns e q) ∙ q, tt)
  serve (id ∷ ids) [] e q h = ground arith
  serve (id ∷ ids) ((x, draw, now) ∷ turns) e q h =
      let e1 = paper_step x draw now e in
      let (waiting, kept, now_served) = found-paper_step id x draw now e id ids q in
      let (empty, all) = serve ids turns e1 waiting (omega arith) in
      let first : found_served id e1 ≡ found id e1 = ground (arith, before_irrefl id) in
      (
        empty,
        (
          (paper_run-keeps id turns e1).1 first ∙ kept,
          All-mono (λ p. found_served p (paper_run turns e1) ≡ found p e1)
              (λ p. found_served p (paper_run turns e1) ≡ found p e) ids
              (λ p k. k ∙ (paper_step-keeps p x draw now e).0) all,
        ),
      )

  -- With no call in between, as many turns as there are waiting orders empty the queue, and every order that waited and is stored
  -- is then PARTIAL or terminal.
  pub paper_run-served :
      (turns : List (String × Draw D × Timestamp)) (e : Engine D)
      → length e.pending_paper_orders ≤ length turns
      → let e' = paper_run turns e in
        (e'.pending_paper_orders ≡ [])
        × All (λ id. found_served id e' ≡ found id e) e.pending_paper_orders
  paper_run-served turns e h = serve e.pending_paper_orders turns e refl h
