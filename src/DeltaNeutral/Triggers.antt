-- ===== src/DeltaNeutral/Triggers.antt =====
-- What makes the kill conditions hold.
use mathlib.Core.List.{Memᴰ}
use cplusplus_arbitrage.Base.{
  ℕ, String, ◌-◌, ◌/◌, ◌<◌, ◌≡◌, refl, ◌↔◌, List, [], ◌∷◌, arith, true, false, inl, inr, Bool-cases,
  Option, some, none, is_some, ltb, ltb→lt, lt→ltb, if◌then◌else◌, ◌⊎◌, ap, subst,
}
use cplusplus_arbitrage.Double.{Double, IsNum, nought, lit, ◌⊗◌, ◌≼◌, ◌≺◌, ◌≻◌}
use cplusplus_arbitrage.Double.Laws.{IsOrdered, HasHundredths, le_trans, le_of_lt, le_of_not_lt}
use cplusplus_arbitrage.SortedMap.{Map}
use cplusplus_arbitrage.DeltaNeutral.{DeltaNeutralEnforcer, KillSignal, compute_delta}
use cplusplus_arbitrage.DeltaNeutral.Market.{get_funding_spread}
use cplusplus_arbitrage.DeltaNeutral.Checks.{
  worst_loop, depeg_of, halted_exchanges, halt_signal, check_exchange_halt, check_adl_risk,
  check_stablecoin_depeg, check_spread_collapse,
}
use cplusplus_arbitrage.DeltaNeutral.Kill.{check_kill_conditions}
use cplusplus_arbitrage.DeltaNeutral.Priority.{
  first_signal, by_priority, check_kill_conditions-priority,
}

-- A venue of the map that has been silent for longer than the timeout.
pub record Silent (venue : String) (now timeout_ms : ℕ) (m : Map String ℕ) : Type 0 where
  pub last : ℕ
  pub among : Memᴰ (venue, last) m
  pub too_long : timeout_ms < (now - last) / 1000

Silent-cons :
    (venue : String) (now timeout_ms : ℕ) (v : String) (last : ℕ) (m : Map String ℕ)
    → Silent venue now timeout_ms m
    → Silent venue now timeout_ms ((v, last) ∷ m)
Silent-cons venue now timeout_ms v last m s = record {
  last = s.last;
  among = Memᴰ.tail s.among;
  too_long = s.too_long;
}

halted-Silent :
    (venue : String) (now timeout_ms : ℕ) (m : Map String ℕ)
    → Memᴰ venue (halted_exchanges now timeout_ms m)
    → Silent venue now timeout_ms m
unfolding halted_exchanges
halted-Silent venue now timeout_ms [] h = elim h [ ]
halted-Silent venue now timeout_ms ((v, last) ∷ m) h =
    elim (Bool-cases (ltb timeout_ms ((now - last) / 1000))) [
      | inl e ↦ elim (rw e at h) [
        | Memᴰ.head p ↦ record {
          last = last;
          among = Memᴰ.head (ap (λ x. (x, last)) p);
          too_long = ltb→lt _ _ e;
        }
        | Memᴰ.tail q ↦
            Silent-cons venue now timeout_ms v last m (halted-Silent venue now timeout_ms m q)
      ]
      | inr e ↦
          Silent-cons venue now timeout_ms v last m
            (halted-Silent venue now timeout_ms m (rw e at h))
    ]

Silent-halted :
    (venue : String) (now timeout_ms last : ℕ) (m : Map String ℕ)
    → Memᴰ (venue, last) m
    → timeout_ms < (now - last) / 1000
    → Memᴰ venue (halted_exchanges now timeout_ms m)
unfolding halted_exchanges
Silent-halted venue now timeout_ms last [] h p = elim h [ ]
Silent-halted venue now timeout_ms last ((v, l) ∷ m) (Memᴰ.head e) p =
    rw
      (lt→ltb timeout_ms ((now - l) / 1000)
        (subst (λ x. timeout_ms < (now - x) / 1000) (ap (λ x. x.1) e) p))
      (Memᴰ.head (ap (λ x. x.0) e))
Silent-halted venue now timeout_ms last ((v, l) ∷ m) (Memᴰ.tail q) p =
    let rest = Silent-halted venue now timeout_ms last m q p in
    elim (Bool-cases (ltb timeout_ms ((now - l) / 1000))) [
      | inl e ↦ rw e (Memᴰ.tail rest)
      | inr e ↦ rw e rest
    ]

module _ {D : Type 0} ⦃d : Double D⦄ where
  -- Some entry of the map measures at least the threshold.
  pub record Reaches (measure : D → D) (threshold : D) (m : Map String D) : Type 0 where
    pub name : String
    pub value : D
    pub among : Memᴰ (name, value) m
    pub at_least : (threshold ≼ measure value) ≡ true

module _ {D : Type 0} ⦃d : Double D⦄ (laws : IsOrdered D) where
  not_both : (t b : D) → (b ≺ t) ≡ true → (t ≼ b) ≡ true → ⊥
  not_both t b h p = let n = laws.num_of_le t b p in ground (arith, laws.le-eq-not-lt t b n.0 n.1)

  -- The worst after one more entry.
  abbrev next : (D → D) → String → D → D × String → D × String
  next measure k x s = if measure x ≻ s.0 then (measure x, k) else s

  next-grows :
      (measure : D → D) (k : String) (x : D) (s : D × String)
      → IsNum s.0
      → IsNum (next measure k x s).0 × ((s.0 ≼ (next measure k x s).0) ≡ true)
  next-grows measure k x s n =
      ground (arith, laws.num_of_lt s.0 (measure x), le_of_lt laws s.0 (measure x))

  worst_loop-grows :
      (measure : D → D) (m : Map String D) (s : D × String)
      → IsNum s.0
      → IsNum (worst_loop measure m s).0 × ((s.0 ≼ (worst_loop measure m s).0) ≡ true)
  unfolding worst_loop
  worst_loop-grows measure [] s n = (n, n)
  worst_loop-grows measure ((k, x) ∷ m) s n =
      let first = next-grows measure k x s n in
      let rest = worst_loop-grows measure m (next measure k x s) first.0 in
      (rest.0, le_trans laws s.0 (next measure k x s).0 _ first.1 rest.1)

  Reaches-cons :
      (measure : D → D) (t : D) (k : String) (x : D) (m : Map String D)
      → Reaches measure t m
      → Reaches measure t ((k, x) ∷ m)
  Reaches-cons measure t k x m r = record {
    name = r.name;
    value = r.value;
    among = Memᴰ.tail r.among;
    at_least = r.at_least;
  }

  worst_loop-Reaches :
      (measure : D → D) (t : D) (m : Map String D) (s : D × String)
      → (t ≼ (worst_loop measure m s).0) ≡ true
      → ((t ≼ s.0) ≡ true) ⊎ Reaches measure t m
  unfolding worst_loop
  worst_loop-Reaches measure t [] s h = inl h
  worst_loop-Reaches measure t ((k, x) ∷ m) s h =
      elim (worst_loop-Reaches measure t m (next measure k x s) h) [
        | inl p ↦ elim (Bool-cases (measure x ≻ s.0)) [
          | inl e ↦
              inr (record { name = k; value = x; among = Memᴰ.head refl; at_least = rw e at p })
          | inr e ↦ inl (rw e at p)
        ]
        | inr r ↦ inr (Reaches-cons measure t k x m r)
      ]

  at_least-next :
      (measure : D → D) (t : D) (k : String) (x : D) (s : D × String)
      → IsNum s.0
      → (t ≼ measure x) ≡ true
      → (t ≼ (next measure k x s).0) ≡ true
  at_least-next measure t k x s n p = elim (Bool-cases (measure x ≻ s.0)) [
    | inl e ↦ rw e p
    | inr e ↦ rw e (
        le_trans laws t (measure x) s.0 p
          (le_of_not_lt laws (measure x) s.0 (laws.num_of_le t (measure x) p).1 n e))
  ]

  Reaches-worst_loop :
      (measure : D → D) (t value : D) (name : String) (m : Map String D) (s : D × String)
      → IsNum s.0
      → Memᴰ (name, value) m
      → (t ≼ measure value) ≡ true
      → (t ≼ (worst_loop measure m s).0) ≡ true
  unfolding worst_loop
  Reaches-worst_loop measure t value name [] s n h p = elim h [ ]
  Reaches-worst_loop measure t value name ((k, x) ∷ m) s n (Memᴰ.head e) p =
      let q : (t ≼ measure x) ≡ true = subst (λ y. (t ≼ measure y) ≡ true) (ap (λ y. y.1) e) p in
      le_trans laws t (next measure k x s).0 _ (at_least-next measure t k x s n q)
        (worst_loop-grows measure m (next measure k x s) (next-grows measure k x s n).0).1
  Reaches-worst_loop measure t value name ((k, x) ∷ m) s n (Memᴰ.tail h) p =
      Reaches-worst_loop measure t value name m (next measure k x s) (next-grows measure k x s n).0
        h p

  -- The test of both checks, for a threshold above 0.
  worst_iff :
      (measure : D → D) (t : D) (m : Map String D)
      → (nought ≺ t) ≡ true
      → let worst = (worst_loop measure m (nought, "")).0 in
        ((worst ≺ t) ≡ false) ↔ Reaches measure t m
  worst_iff measure t m h =
      let worst = (worst_loop measure m (nought, "")).0 in
      let n : IsNum worst = (worst_loop-grows measure m (nought, "") (laws.num_ratio 0 0)).0 in
      let k = (laws.num_of_lt nought t h).1 in
      (
        (λ e. elim (worst_loop-Reaches measure t m (nought, "") (le_of_not_lt laws t worst k n e)) [
          | inl p ↦ absurd (not_both t nought h p)
          | inr r ↦ r
        ]),
        (λ r. ground (
          arith,
          Reaches-worst_loop measure t r.value r.name m (nought, "") (laws.num_ratio 0 0) r.among
              r.at_least,
          laws.le-eq-not-lt t worst k n,
        )),
      )

  -- Above a threshold greater than 0, the ADL check gives a signal exactly if the queue position at some
  -- venue is at least the threshold, and the stablecoin check exactly if some price is at least its
  -- threshold away from 1.
  pub adl_and_depeg_lem :
      (now : ℕ) (e : DeltaNeutralEnforcer D)
      → (nought ≺ e.config.adl_queue_critical) ≡ true
      → (nought ≺ e.config.stablecoin_depeg_critical) ≡ true
      → ((is_some (check_adl_risk now e).1 ≡ true)
          ↔ Reaches (λ x. x) e.config.adl_queue_critical e.adl_queue_positions)
        × ((is_some (check_stablecoin_depeg e).1 ≡ true)
            ↔ Reaches depeg_of e.config.stablecoin_depeg_critical e.stablecoin_prices)
  unfolding check_adl_risk check_stablecoin_depeg
  adl_and_depeg_lem now e h k =
      let adl = worst_iff (λ x. x) e.config.adl_queue_critical e.adl_queue_positions h in
      let depeg = worst_iff depeg_of e.config.stablecoin_depeg_critical e.stablecoin_prices k in
      (
        ((λ s. adl.0 (ground arith)), (λ r. rw (adl.1 r) refl)),
        ((λ s. depeg.0 (ground arith)), (λ r. rw (depeg.1 r) refl)),
      )

module _ {D : Type 0} ⦃d : Double D⦄ where
  -- A venue from which a heartbeat has come is named in the signal for halted exchanges exactly if its
  -- last one is older than the timeout; there is a signal exactly if there is such a venue.
  pub check_exchange_halt_lem :
      (now : ℕ) (e : DeltaNeutralEnforcer D)
      → (venues : List String) × ((check_exchange_halt now e).1
          ≡ halt_signal venues (compute_delta now e).net_delta)
        × ((venue : String)
            → Memᴰ venue venues ↔ Silent venue now e.config.exchange_timeout_ms e.last_heartbeat)
  unfolding check_exchange_halt
  check_exchange_halt_lem now e = (
    halted_exchanges now e.config.exchange_timeout_ms e.last_heartbeat,
    refl,
    λ venue. (
      halted-Silent venue now e.config.exchange_timeout_ms e.last_heartbeat,
      λ s.
          Silent-halted venue now e.config.exchange_timeout_ms s.last e.last_heartbeat s.among
            s.too_long,
    ),
  )

module _ {D : Type 0} ⦃d : Double D⦄ (laws : IsOrdered D) (hundredths : HasHundredths D) where
  first_signal-some :
      (s : Option (KillSignal D)) (xs : List (Option (KillSignal D)))
      → Memᴰ s xs
      → is_some s ≡ true
      → is_some (first_signal xs) ≡ true
  first_signal-some s [] m h = elim m [ ]
  first_signal-some s (some w ∷ xs) m h = refl
  first_signal-some s (none ∷ xs) (Memᴰ.head e) h = absurd (cc)
  first_signal-some s (none ∷ xs) (Memᴰ.tail m) h = first_signal-some s xs m h

  collapse_without_rates :
      (e : DeltaNeutralEnforcer D)
      → e.funding_rates ≡ []
      → (nought ≺ e.config.min_funding_spread) ≡ true
      → (nought ≺ (e.config.min_funding_spread ⊗ lit 5 10)) ≡ true
      → is_some (check_spread_collapse e).1 ≡ true
  unfolding check_spread_collapse get_funding_spread
  collapse_without_rates e none_known h k =
      let minimum = e.config.min_funding_spread in
      ground (
        arith,
        laws.num_of_lt nought minimum h,
        laws.num_of_lt nought (minimum ⊗ lit 5 10) k,
        laws.le-eq-not-lt minimum nought,
        laws.le-eq-not-lt (minimum ⊗ lit 5 10) nought,
      )

  -- As long as no funding rate is known, a minimum spread above 0 makes every kill check give a signal,
  -- whatever else is known.
  pub check_kill_conditions_no_rates :
      (now : ℕ) (e : DeltaNeutralEnforcer D)
      → e.funding_rates ≡ []
      → (nought ≺ e.config.min_funding_spread) ≡ true
      → (nought ≺ (e.config.min_funding_spread ⊗ lit 5 10)) ≡ true
      → is_some (check_kill_conditions now e).1 ≡ true
  check_kill_conditions_no_rates now e none_known h k =
      let last : Memᴰ (check_spread_collapse e).1 (by_priority now e) =
        Memᴰ.tail (
          Memᴰ.tail (Memᴰ.tail (Memᴰ.tail (Memᴰ.tail (Memᴰ.tail (Memᴰ.tail (Memᴰ.head refl))))))) in
      rw (check_kill_conditions-priority hundredths now e) (
        first_signal-some (check_spread_collapse e).1 (by_priority now e) last
          (collapse_without_rates e none_known h k))
