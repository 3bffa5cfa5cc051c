-- ===== src/DeltaNeutral/Priority.antt =====
-- Which of several kill conditions check_kill_conditions reports.
use cplusplus_arbitrage.Base.{
  ℕ, ◌≡◌, refl, ap, ◌∙◌, ◌≤◌, ◌<◌, String, Option, none, some, List, [], ◌∷◌, arith, ltb,
  if◌then◌else◌, All, Bool-cases, inl, inr, ◌||◌,
}
use cplusplus_arbitrage.Double.{Double, lit, ◌≼◌, nought}
use cplusplus_arbitrage.Double.Laws.{HasHundredths}
use cplusplus_arbitrage.DeltaNeutral.{DeltaNeutralEnforcer, KillSignal}
use cplusplus_arbitrage.DeltaNeutral.Checks.{
  check_basis_divergence, check_funding_flip, check_spread_collapse, check_exchange_halt,
  check_drawdown_limit, check_adl_risk, check_stablecoin_depeg, check_liquidation_cascade,
  halt_signal,
}
use cplusplus_arbitrage.DeltaNeutral.Kill.{worse, worst_signal, all_checks, check_kill_conditions}

-- A result of a check, with the urgency in hundredths that its signal has.
abbrev Ranked : Type 0 → Type 0
Ranked D = ℕ × Option (KillSignal D)

module _ {D : Type 0} where
  abbrev pub first_signal : List (Option (KillSignal D)) → Option (KillSignal D)
  first_signal [] = none
  first_signal (some s ∷ xs) = some s
  first_signal (none ∷ xs) = first_signal xs

  abbrev rank_insert : Ranked D → List (Ranked D) → List (Ranked D)
  rank_insert x [] = x ∷ []
  rank_insert x (y ∷ ys) =
      let rest = rank_insert x ys in if ltb y.0 x.0 then x ∷ y ∷ ys else y ∷ rest

  abbrev rank_all : List (Ranked D) → List (Ranked D) → List (Ranked D)
  rank_all [] acc = acc
  rank_all (x ∷ xs) acc = rank_all xs (rank_insert x acc)

  abbrev results : List (Ranked D) → List (Option (KillSignal D))
  results [] = []
  results (x ∷ xs) = x.1 ∷ results xs

  abbrev IsDescending : List (Ranked D) → Type 0
  IsDescending [] = Unit
  IsDescending (x ∷ xs) = All (λ (y : Ranked D). y.0 ≤ x.0) xs × IsDescending xs

module _ {D : Type 0} ⦃d : Double D⦄ where
  -- The results of the checks, by falling urgency.
  abbrev pub by_priority : ℕ → DeltaNeutralEnforcer D → List (Option (KillSignal D))
  by_priority now e =
      (check_exchange_halt now e).1
      ∷ (check_adl_risk now e).1
      ∷ (check_stablecoin_depeg e).1
      ∷ (check_basis_divergence now e).1
      ∷ (check_liquidation_cascade e).1
      ∷ (check_drawdown_limit e).1
      ∷ (check_funding_flip e).1
      ∷ (check_spread_collapse e).1
      ∷ []

module _ {D : Type 0} ⦃d : Double D⦄ (laws : HasHundredths D) where
  open laws use {lt_hundredths}

  abbrev HasRank : Ranked D → Type 0
  HasRank (r, none) = r ≤ 100
  HasRank (r, some s) = (r ≤ 100) × (s.urgency ≡ lit r 100)

  rank_insert-below :
      (b : ℕ) (x : Ranked D) (ys : List (Ranked D))
      → x.0 ≤ b
      → All (λ (y : Ranked D). y.0 ≤ b) ys
      → All (λ (y : Ranked D). y.0 ≤ b) (rank_insert x ys)
  rank_insert-below b x [] h _ = (h, tt)
  rank_insert-below b x (y ∷ ys) h (p, ps) = ground (arith, rank_insert-below b x ys h ps)

  below_trans :
      (a b : ℕ) (ys : List (Ranked D))
      → a ≤ b
      → All (λ (y : Ranked D). y.0 ≤ a) ys
      → All (λ (y : Ranked D). y.0 ≤ b) ys
  below_trans a b [] h _ = tt
  below_trans a b (y ∷ ys) h (p, ps) = (omega arith, below_trans a b ys h ps)

  rank_insert-IsDescending :
      (x : Ranked D) (ys : List (Ranked D)) → IsDescending ys → IsDescending (rank_insert x ys)
  rank_insert-IsDescending x [] _ = (tt, tt)
  rank_insert-IsDescending x (y ∷ ys) (p, ps) = elim (Bool-cases (ltb y.0 x.0)) [
    | inl e ↦ rw e ((ground arith, below_trans y.0 x.0 ys (ground arith) p), (p, ps))
    | inr e ↦ rw e (rank_insert-below y.0 x ys (ground arith) p, rank_insert-IsDescending x ys ps)
  ]

  -- A signal whose rank is above all is taken.
  worse-above :
      (r : ℕ) (s : KillSignal D) (b : ℕ) (ys : List (Ranked D))
      → HasRank (r, some s)
      → b < r
      → All (λ (y : Ranked D). y.0 ≤ b) ys
      → All HasRank ys
      → worse (first_signal (results ys)) (some s) ≡ some s
  worse-above r s b [] hs lt _ _ = refl
  worse-above r s b ((k, none) ∷ ys) hs lt (p, ps) (n, ns) = worse-above r s b ys hs lt ps ns
  worse-above r s b ((k, some w) ∷ ys) hs lt (p, ps) (n, ns) = ground (arith, lt_hundredths k r)

  worse-none : (w : Option (KillSignal D)) → worse w none ≡ w
  worse-none none = refl
  worse-none (some w) = refl

  worse-rank_insert :
      (x : Ranked D) (ys : List (Ranked D))
      → HasRank x
      → All HasRank ys
      → IsDescending ys
      → worse (first_signal (results ys)) x.1 ≡ first_signal (results (rank_insert x ys))
  worse-rank_insert (r, none) [] hx _ _ = refl
  worse-rank_insert (r, some s) [] hx _ _ = refl
  worse-rank_insert (r, none) ((k, none) ∷ ys) hx (n, ns) (p, ps) =
      ground
        (arith, worse-none (first_signal (results ys)), worse-rank_insert (r, none) ys hx ns ps)
  worse-rank_insert (r, none) ((k, some w) ∷ ys) hx (n, ns) (p, ps) = ground arith
  worse-rank_insert (r, some s) ((k, none) ∷ ys) hx (n, ns) (p, ps) =
      ground (arith, worse-above r s k ys hx, worse-rank_insert (r, some s) ys hx ns ps)
  worse-rank_insert (r, some s) ((k, some w) ∷ ys) hx (n, ns) (p, ps) =
      ground (arith, lt_hundredths k r)

  rank_insert-HasRank :
      (x : Ranked D) (ys : List (Ranked D))
      → HasRank x
      → All HasRank ys
      → All HasRank (rank_insert x ys)
  rank_insert-HasRank x [] h _ = (h, tt)
  rank_insert-HasRank x (y ∷ ys) h (n, ns) = elim (Bool-cases (ltb y.0 x.0)) [
    | inl e ↦ rw e (h, (n, ns))
    | inr e ↦ rw e (n, rank_insert-HasRank x ys h ns)
  ]

  -- The loop that keeps the most urgent signal finds the first of the signals sorted by urgency.
  worst_signal-rank_all :
      (xs ys : List (Ranked D))
      → All HasRank xs
      → All HasRank ys
      → IsDescending ys
      → worst_signal (results xs) (first_signal (results ys))
        ≡ first_signal (results (rank_all xs ys))
  unfolding worst_signal
  worst_signal-rank_all [] ys _ ns ps = refl
  worst_signal-rank_all (x ∷ xs) ys (h, hs) ns ps =
      ap (worst_signal (results xs)) (worse-rank_insert x ys h ns ps)
      ∙ (worst_signal-rank_all xs (rank_insert x ys) hs (rank_insert-HasRank x ys h ns)
          (rank_insert-IsDescending x ys ps))

  halt_rank : (venues : List String) (net_delta : D) → HasRank (95, halt_signal venues net_delta)
  halt_rank [] net_delta = omega arith
  halt_rank (venue ∷ venues) net_delta = (omega arith, refl)

  module _ (now : ℕ) (e : DeltaNeutralEnforcer D) where
    abbrev ranked : List (Ranked D)
    ranked =
        (90, (check_basis_divergence now e).1)
        ∷ (70, (check_funding_flip e).1)
        ∷ (50, (check_spread_collapse e).1)
        ∷ (95, (check_exchange_halt now e).1)
        ∷ (80, (check_drawdown_limit e).1)
        ∷ (95, (check_adl_risk now e).1)
        ∷ (92, (check_stablecoin_depeg e).1)
        ∷ (85, (check_liquidation_cascade e).1)
        ∷ []

    all_checks-results : (all_checks now e).1 ≡ results ranked
    unfolding all_checks
    all_checks-results =
        elim (Bool-cases ((e.high_water_mark ≼ nought) || (e.current_equity ≼ nought))) [
          | inl h ↦ rw h refl
          | inr h ↦ rw h refl
        ]

    ranked-HasRank : All HasRank ranked
    unfolding check_basis_divergence check_funding_flip check_spread_collapse check_exchange_halt
        check_drawdown_limit check_adl_risk check_stablecoin_depeg check_liquidation_cascade
    ranked-HasRank = (
      ground arith,
      (
        ground arith,
        (
          ground arith,
          (halt_rank _ _, (ground arith, (ground arith, (ground arith, (ground arith, tt))))),
        ),
      ),
    )

    -- The signal is that of the first condition that holds, in the order: halted exchange, ADL, depeg,
    -- basis, cascade, drawdown, flipped funding, collapsed spread. Each check gives what it gives on the
    -- enforcer as it was before the call.
    pub check_kill_conditions-priority :
        (check_kill_conditions now e).1 ≡ first_signal (by_priority now e)
    unfolding check_kill_conditions
    check_kill_conditions-priority =
        ap (λ l. worst_signal l none) all_checks-results
        ∙ (worst_signal-rank_all ranked [] ranked-HasRank tt tt)
