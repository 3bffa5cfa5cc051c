-- ===== src/Dispersion/History.antt =====
-- The history of spreads from which the volatility is taken, over any calls.
use cplusplus_arbitrage.Base.{
  ℕ, suc, ◌+◌, ◌≤◌, min, ◌≡◌, refl, sym, ap, ◌∙◌, List, [], ◌∷◌, ◌++◌, arith, length, length-append,
  if◌then◌else◌, ltb, Bool-cases, inl, inr,
}
use cplusplus_arbitrage.Double.{Double, nought, ◌≻◌}
use cplusplus_arbitrage.Dispersion.{
  FundingDispersionConfig, FundingDispersionStrategy, FundingRateSnapshot, FundingPosition,
  update_funding_rate, create, compute_best_spread,
}
use cplusplus_arbitrage.Dispersion.Analyze.{analyze, drop_first, max_history, record_spread}
use cplusplus_arbitrage.Dispersion.Signals.{evaluate_entry, evaluate_exit, compute_risk_metrics}

pub data Call (D : Type 0) : Type 0 where
  updates : FundingRateSnapshot D → Call D
  analyzes : Call D
  asks_entry : (available_capital : D) → Call D
  asks_exit : FundingPosition D → Call D
  asks_risk : Call D

-- The last n elements of a list.
abbrev pub last_of {ℓ} : {A : Type ℓ} → ℕ → List A → List A
last_of n [] = []
last_of n (x ∷ xs) = let rest = last_of n xs in if ltb n (suc (length xs)) then rest else x ∷ xs

length-last_of {ℓ} : {A : Type ℓ} (n : ℕ) (xs : List A) → length (last_of n xs) ≡ min n (length xs)
length-last_of n [] = omega arith
length-last_of n (x ∷ xs) = ground (arith, length-last_of n xs)

last_of-short {ℓ} : {A : Type ℓ} (n : ℕ) (xs : List A) → length xs ≤ n → last_of n xs ≡ xs
last_of-short n [] h = refl
last_of-short n (x ∷ xs) h = ground arith

-- A list that is one too long loses its first element.
last_of-drop_first {ℓ} :
    {A : Type ℓ} (n : ℕ) (xs : List A) → length xs ≡ suc n → last_of n xs ≡ drop_first xs
last_of-drop_first n [] h = refl
last_of-drop_first n (x ∷ xs) h = ground (arith, last_of-short n xs)

last_of-append {ℓ} :
    {A : Type ℓ} (n : ℕ) (xs : List A) (y : A)
    → last_of n (last_of n xs ++ y ∷ []) ≡ last_of n (xs ++ y ∷ [])
last_of-append n [] y = refl
last_of-append n (x ∷ xs) y = ground (arith, last_of-append n xs y, length-append xs (y ∷ []))

-- A vector of at most n elements, to which one is added, and which loses its first if it is too long.
keep_last {ℓ} :
    {A : Type ℓ} (n : ℕ) (xs : List A) (y : A)
    → let longer = last_of n xs ++ y ∷ [] in
      (if ltb n (length longer) then drop_first longer else longer) ≡ last_of n (xs ++ y ∷ [])
keep_last n xs y =
    let longer = last_of n xs ++ y ∷ [] in
    let size : length longer ≡ min n (length xs) + 1 =
      omega (arith, length-append (last_of n xs) (y ∷ []), length-last_of n xs) in
    elim (Bool-cases (ltb n (length longer))) [
      | inl e ↦ rw e (sym (last_of-drop_first n longer (ground arith)) ∙ last_of-append n xs y)
      | inr e ↦ rw e (sym (last_of-short n longer (ground arith)) ∙ last_of-append n xs y)
    ]

module _ {D : Type 0} ⦃d : Double D⦄ where
  record_spread-last_of :
      (spread : D) (seen : List D)
      → record_spread spread (last_of max_history seen)
        ≡ last_of max_history (if spread ≻ nought then seen ++ spread ∷ [] else seen)
  record_spread-last_of spread seen = elim (Bool-cases (spread ≻ nought)) [
    | inl e ↦ rw e (keep_last max_history seen spread)
    | inr e ↦ rw e refl
  ]

  module _ (sqrt : D → D) where
    unfoldable pub perform : Call D → FundingDispersionStrategy D → FundingDispersionStrategy D
    unfolding update_funding_rate analyze evaluate_entry evaluate_exit compute_risk_metrics
    perform (updates snapshot) e = update_funding_rate snapshot e
    perform analyzes e = (analyze e).0
    perform (asks_entry available_capital) e = (evaluate_entry sqrt available_capital e).0
    perform (asks_exit position) e = (evaluate_exit position e).0
    perform asks_risk e = (compute_risk_metrics sqrt e).0

    unfoldable pub perform_all :
        List (Call D) → FundingDispersionStrategy D → FundingDispersionStrategy D
    unfolding perform
    perform_all [] e = e
    perform_all (c ∷ cs) e = perform_all cs (perform c e)

    -- The best spread at the time of each call of `analyze`, if it is above 0, the earliest first.
    abbrev pub add_seen : Call D → FundingDispersionStrategy D → List D → List D
    add_seen analyzes e seen =
        let spread = (compute_best_spread e).spread in
        if spread ≻ nought then seen ++ spread ∷ [] else seen
    add_seen (updates snapshot) e seen = seen
    add_seen (asks_entry available_capital) e seen = seen
    add_seen (asks_exit position) e seen = seen
    add_seen asks_risk e seen = seen

    unfoldable pub spreads_seen : List (Call D) → FundingDispersionStrategy D → List D → List D
    unfolding perform
    spreads_seen [] e seen = seen
    spreads_seen (c ∷ cs) e seen = spreads_seen cs (perform c e) (add_seen c e seen)

    perform-history :
        (c : Call D) (e : FundingDispersionStrategy D) (seen : List D)
        → e.spread_history ≡ last_of max_history seen
        → (perform c e).spread_history ≡ last_of max_history (add_seen c e seen)
    unfolding perform
    perform-history (updates snapshot) e seen h = h
    perform-history analyzes e seen h =
        ap (record_spread (compute_best_spread e).spread) h
        ∙ record_spread-last_of (compute_best_spread e).spread seen
    perform-history (asks_entry available_capital) e seen h = ground arith
    perform-history (asks_exit position) e seen h = h
    perform-history asks_risk e seen h = h

    perform_all-history_from :
        (cs : List (Call D)) (e : FundingDispersionStrategy D) (seen : List D)
        → e.spread_history ≡ last_of max_history seen
        → (perform_all cs e).spread_history ≡ last_of max_history (spreads_seen cs e seen)
    unfolding perform_all spreads_seen
    perform_all-history_from [] e seen h = h
    perform_all-history_from (c ∷ cs) e seen h =
        perform_all-history_from cs (perform c e) (add_seen c e seen) (perform-history c e seen h)

    -- After any calls the history is the last 1,000 of the spreads above 0 that `analyze` has seen.
    pub perform_all-spread_history :
        (config : FundingDispersionConfig D) (cs : List (Call D))
        → (perform_all cs (create config)).spread_history
          ≡ last_of 1000 (spreads_seen cs (create config) [])
    unfolding create
    perform_all-spread_history config cs = perform_all-history_from cs (create config) [] refl
