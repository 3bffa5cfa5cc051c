-- ===== src/Dispersion/Spread.antt =====
-- The best spread is that between the exchange with the highest rate and one with the lowest.
use mathlib.Core.List.{Memᴰ}
use text.Mathlib.Text.{◌==◌}
use text.Mathlib.TextEquality.{eq_iff}
use cplusplus_arbitrage.Base.{
  ltb, String, ◌≢◌, ◌≡◌, refl, sym, ap, subst, ◌∙◌, Bool, true, false, List, [], ◌∷◌, arith, All,
  All-mem, ◌⊎◌, inl, inr, Bool-cases, if◌then◌else◌, length, some,
}
use cplusplus_arbitrage.Double.{Double, ◌≺◌, ◌≻◌, ◌⊖◌}
use cplusplus_arbitrage.Double.Laws.{IsOrdered}
use cplusplus_arbitrage.SortedMap.{Map, IsSorted, find}
use cplusplus_arbitrage.SortedMap.Text.{before, AnyKey, before_irrefl}
use cplusplus_arbitrage.Dispersion.{
  Extremes, FundingRateSnapshot, FundingSpread, FundingDispersionStrategy, extremes_loop, start,
  compute_best_spread, visit_rate,
}

-- A map with sorted keys finds each of its entries.
pub find-mem {ℓ} :
    {V : Type ℓ} (k : String) (v : V) (m : Map String V)
    → IsSorted before AnyKey m
    → Memᴰ (k, v) m
    → find before k m ≡ some v
unfolding find
find-mem k v [] s h = elim h [ ]
find-mem k v ((j, w) ∷ m) s (Memᴰ.head e) =
    let keys : k ≡ j = ap (λ x. x.0) e in
    let values : v ≡ w = ap (λ x. x.1) e in rw (keys, before_irrefl j) (ap some (sym values))
find-mem k v ((j, w) ∷ m) (_, above, s) (Memᴰ.tail h) =
    rw (All-mem (λ x. before j x.0 ≡ true) m h above) (find-mem k v m s h)

not_one {ℓ} :
    {A : Type ℓ} {a b : A} (xs : List A) → Memᴰ a xs → Memᴰ b xs → a ≢ b → ltb (length xs) 2 ≡ false
not_one [] p q h = elim p [ ]
not_one (x ∷ []) (Memᴰ.head p) (Memᴰ.head q) h = absurd (h (p ∙ sym q))
not_one (x ∷ []) (Memᴰ.tail p) q h = elim p [ ]
not_one (x ∷ []) p (Memᴰ.tail q) h = elim q [ ]
not_one (x ∷ y ∷ xs) p q h = ground arith

-- The loop for one of the two extremes: `better` is `>` or `<`.
module _ {D : Type 0} (better : D → D → Bool) where
  best_loop : Map String (FundingRateSnapshot D) → D × String → D × String
  best_loop [] s = s
  best_loop ((exchange, snapshot) ∷ m) s =
      best_loop m
        (if better snapshot.funding_rate s.0 then (snapshot.funding_rate, exchange) else s)

  -- An entry of the map whose rate no other beats.
  pub record IsBest (exchange : String) (rate : D) (m : Map String (FundingRateSnapshot D))
      : Type 0 where
    pub snapshot : FundingRateSnapshot D
    pub among : Memᴰ (exchange, snapshot) m
    pub rate_is : snapshot.funding_rate ≡ rate
    pub unbeaten : All (λ entry. better entry.1.funding_rate rate ≡ false) m

  module _ (irrefl : (a : D) → better a a ≡ false)
      (trans : (a b c : D) → better a b ≡ true → better b c ≡ true → better a c ≡ true) where
    best_loop-unbeaten :
        (r : D) (m : Map String (FundingRateSnapshot D)) (s : D × String)
        → better r s.0 ≡ false
        → better r (best_loop m s).0 ≡ false
    unfolding best_loop
    best_loop-unbeaten r [] s h = h
    best_loop-unbeaten r ((exchange, snapshot) ∷ m) s h =
        let q = snapshot.funding_rate in
        best_loop-unbeaten r m (if better q s.0 then (q, exchange) else s)
          (ground (arith, trans r q s.0))

    best_loop-All :
        (m : Map String (FundingRateSnapshot D)) (s : D × String)
        → All (λ entry. better entry.1.funding_rate (best_loop m s).0 ≡ false) m
    unfolding best_loop
    best_loop-All [] s = tt
    best_loop-All ((exchange, snapshot) ∷ m) s =
        let q = snapshot.funding_rate in
        let s' : D × String = if better q s.0 then (q, exchange) else s in
        (best_loop-unbeaten q m s' (ground (arith, irrefl q)), best_loop-All m s')

    -- What an earlier value leaves: it is there still, or an entry has taken its place.
    Holds : Map String (FundingRateSnapshot D) → D × String → D × String → Type 0
    Holds m s t =
        (t ≡ s)
        ⊎ ((snapshot : FundingRateSnapshot D) × Memᴰ (t.1, snapshot) m
            × (snapshot.funding_rate ≡ t.0))

    best_loop-Holds :
        (m : Map String (FundingRateSnapshot D)) (s : D × String) → Holds m s (best_loop m s)
    unfolding best_loop Holds
    best_loop-Holds [] s = inl refl
    best_loop-Holds ((exchange, snapshot) ∷ m) s =
        let q = snapshot.funding_rate in
        let chosen : Bool → D × String = λ b. if b then (q, exchange) else s in
        elim (best_loop-Holds m (chosen (better q s.0))) [
          | inr (found, among, rate) ↦ inr (found, Memᴰ.tail among, rate)
          | inl e ↦ elim (Bool-cases (better q s.0)) [
            | inl b ↦
                let e' = e ∙ ap chosen b in
                inr (snapshot, Memᴰ.head (ap (λ t. (t.1, snapshot)) e'), sym (ap (λ t. t.0) e'))
            | inr b ↦ inl (e ∙ ap chosen b)
          ]
        ]

    -- If the first entry beats the start of the loop, the loop ends with the best entry.
    best_loop-IsBest :
        (m : Map String (FundingRateSnapshot D)) (s : D × String) (k : String)
        (snapshot : FundingRateSnapshot D)
        → Memᴰ (k, snapshot) m
        → better snapshot.funding_rate s.0 ≡ true
        → IsBest (best_loop m s).1 (best_loop m s).0 m
    unfolding Holds
    best_loop-IsBest m s k snapshot h b = elim (best_loop-Holds m s) [
      | inl e ↦
          let unbeaten : better snapshot.funding_rate (best_loop m s).0 ≡ false =
            All-mem (λ entry. better entry.1.funding_rate (best_loop m s).0 ≡ false) m h
              (best_loop-All m s) in
          absurd (ground (arith, ap (λ t. t.0) e))
      | inr (found, among, rate) ↦ record {
        snapshot = found;
        among = among;
        rate_is = rate;
        unbeaten = best_loop-All m s;
      }
    ]

module _ {D : Type 0} ⦃d : Double D⦄ where
  -- The code's loop does both at once.
  extremes_loop-max :
      (m : Map String (FundingRateSnapshot D)) (x : Extremes D)
      → ((extremes_loop m x).max_rate, (extremes_loop m x).max_ex)
        ≡ best_loop (◌≻◌) m (x.max_rate, x.max_ex)
  unfolding extremes_loop best_loop
  extremes_loop-max [] x = refl
  extremes_loop-max ((exchange, snapshot) ∷ m) x =
      extremes_loop-max m (visit_rate exchange snapshot.funding_rate x)
      ∙ ap (best_loop (◌≻◌) m) (ground arith)

  extremes_loop-min :
      (m : Map String (FundingRateSnapshot D)) (x : Extremes D)
      → ((extremes_loop m x).min_rate, (extremes_loop m x).min_ex)
        ≡ best_loop (◌≺◌) m (x.min_rate, x.min_ex)
  unfolding extremes_loop best_loop
  extremes_loop-min [] x = refl
  extremes_loop-min ((exchange, snapshot) ∷ m) x =
      extremes_loop-min m (visit_rate exchange snapshot.funding_rate x)
      ∙ ap (best_loop (◌≺◌) m) (ground arith)

  -- The rates lie between the two values with which the code starts its loop, -1e9 and 1e9.
  abbrev pub InRange : Map String (FundingRateSnapshot D) → Type 0
  InRange = All λ entry.
      ((entry.1.funding_rate ≻ start.max_rate) ≡ true)
      × ((entry.1.funding_rate ≺ start.min_rate) ≡ true)

  -- Two exchanges of the map have different rates.
  pub record Differ (m : Map String (FundingRateSnapshot D)) : Type 0 where
    pub low_exchange : String
    pub high_exchange : String
    pub low : FundingRateSnapshot D
    pub high : FundingRateSnapshot D
    pub low_among : Memᴰ (low_exchange, low) m
    pub high_among : Memᴰ (high_exchange, high) m
    pub apart : (low.funding_rate ≺ high.funding_rate) ≡ true

  -- The position goes short where no rate is higher and long where none is lower.
  pub record IsWidest (s : FundingSpread D) (m : Map String (FundingRateSnapshot D)) : Type 0 where
    pub max_rate : D
    pub min_rate : D
    pub short_leg : IsBest (◌≻◌) s.short_exchange max_rate m
    pub long_leg : IsBest (◌≺◌) s.long_exchange min_rate m
    pub short_is : s.short_funding ≡ some max_rate
    pub long_is : s.long_funding ≡ some min_rate
    pub spread_is : s.spread ≡ max_rate ⊖ min_rate
    pub two : s.short_exchange ≢ s.long_exchange

module _ {D : Type 0} ⦃d : Double D⦄ (laws : IsOrdered D) where
  open laws use {lt_irrefl, lt_trans, lt_cotrans, num_of_lt}

  extremes-IsBest :
      (m : Map String (FundingRateSnapshot D))
      → InRange m
      → Differ m
      → IsBest (◌≻◌) (extremes_loop m start).max_ex (extremes_loop m start).max_rate m
        × IsBest (◌≺◌) (extremes_loop m start).min_ex (extremes_loop m start).min_rate m
  extremes-IsBest m within differ =
      let entry = All-mem _ m differ.low_among within in
      (
        subst (λ t. IsBest (◌≻◌) t.1 t.0 m) (sym (extremes_loop-max m start))
            (best_loop-IsBest (◌≻◌) lt_irrefl (λ a b c p q. lt_trans c b a q p) m
              ((start {D = D}).max_rate, "") differ.low_exchange differ.low differ.low_among
              entry.0),
        subst (λ t. IsBest (◌≺◌) t.1 t.0 m) (sym (extremes_loop-min m start))
            (best_loop-IsBest (◌≺◌) lt_irrefl lt_trans m ((start {D = D}).min_rate, "")
              differ.low_exchange differ.low differ.low_among entry.1),
      )

  -- Where two rates differ, the same exchange has not both the highest and the lowest.
  extremes-apart :
      (m : Map String (FundingRateSnapshot D)) (short long : String) (max_rate min_rate : D)
      → IsSorted before AnyKey m
      → InRange m
      → Differ m
      → IsBest (◌≻◌) short max_rate m
      → IsBest (◌≺◌) long min_rate m
      → short ≢ long
  extremes-apart m short long max_rate min_rate sorted within differ best least e =
      let found : some best.snapshot ≡ some least.snapshot =
        sym (find-mem short best.snapshot m sorted best.among)
        ∙ ap (λ k. find before k m) e
        ∙ find-mem long least.snapshot m sorted least.among in
      let high : (differ.high.funding_rate ≻ max_rate) ≡ false =
        All-mem (λ entry. (entry.1.funding_rate ≻ max_rate) ≡ false) m differ.high_among
          best.unbeaten in
      let low : (differ.low.funding_rate ≺ min_rate) ≡ false =
        All-mem (λ entry. (entry.1.funding_rate ≺ min_rate) ≡ false) m differ.low_among
          least.unbeaten in
      let in_range = All-mem _ m best.among within in
      let number = (num_of_lt best.snapshot.funding_rate _ in_range.1).0 in
      ground (
        arith,
        best.rate_is,
        least.rate_is,
        lt_cotrans differ.low.funding_rate best.snapshot.funding_rate differ.high.funding_rate
            number,
      )

  two_entries : (m : Map String (FundingRateSnapshot D)) → Differ m → ltb (length m) 2 ≡ false
  two_entries m differ =
      not_one m differ.low_among differ.high_among
        (λ e. ground (arith, lt_irrefl differ.high.funding_rate))

  -- Of two exchanges with different rates at least, the best spread is the widest: it goes short where no
  -- rate is higher and long where none is lower, at two exchanges, and is the difference of their rates.
  pub compute_best_spread-IsWidest :
      (e : FundingDispersionStrategy D)
      → IsSorted before AnyKey e.current_rates
      → All (λ entry. (entry.0 == "") ≡ false) e.current_rates
      → InRange e.current_rates
      → Differ e.current_rates
      → IsWidest (compute_best_spread e) e.current_rates
  unfolding compute_best_spread
  compute_best_spread-IsWidest e sorted named within differ =
      let m = e.current_rates in
      let x : Extremes D = extremes_loop m start in
      let (best, least) = extremes-IsBest m within differ in
      let apart =
        extremes-apart m x.max_ex x.min_ex x.max_rate x.min_rate sorted within differ best least in
      let short_named : (x.max_ex == "") ≡ false =
        All-mem (λ entry. (entry.0 == "") ≡ false) m best.among named in
      let long_named : (x.min_ex == "") ≡ false =
        All-mem (λ entry. (entry.0 == "") ≡ false) m least.among named in
      let different : (x.max_ex == x.min_ex) ≡ false = elim (Bool-cases (x.max_ex == x.min_ex)) [
        | inl h ↦ absurd (apart ((eq_iff x.max_ex x.min_ex).0 h))
        | inr h ↦ h
      ] in
      rw (two_entries m differ, short_named, long_named, different)
        (record {
          max_rate = x.max_rate;
          min_rate = x.min_rate;
          short_leg = best;
          long_leg = least;
          short_is = refl;
          long_is = refl;
          spread_is = refl;
          two = apart;
        })
