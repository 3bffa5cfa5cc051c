-- ===== src/Mechanics/Profiles.antt =====
-- The table of exchange profiles.
use cplusplus_arbitrage.Base.{
  ℕ, ◌/◌, ◌==◌, subst, Bool-cases, inl, inr, String, ◌≡◌, refl, some, [], ◌∷◌, arith, All,
  if◌then◌else◌,
}
use cplusplus_arbitrage.Double.{Double, lit, ◌⊗◌}
use cplusplus_arbitrage.SortedMap.{Map, assign, find}
use cplusplus_arbitrage.SortedMap.Text.{before, eq_of_same}
use cplusplus_arbitrage.Mechanics.{ExchangeMechanics, get_all_exchange_mechanics, normalize_to_8h}

subst_entry {ℓ κ} :
    {V : Type ℓ} (P : String → V → Type κ) {j k : String} {w v : V} → j ≡ k → w ≡ v → P j w → P k v
subst_entry P {j} {k} {w} {v} p q x = subst (λ v'. P k v') q (subst (λ k'. P k' w) p x)

-- An entry that a lookup finds is in the map, under the key that was asked for.
find-All {ℓ κ} :
    {V : Type ℓ} (P : String → V → Type κ) (k : String) (v : V) (m : Map String V)
    → All (λ e. P e.0 e.1) m
    → find before k m ≡ some v
    → P k v
unfolding find
find-All P k v [] a h = absurd (ground arith)
find-All P k v ((j, w) ∷ m) (p, a) h = elim (Bool-cases (before j k)) [
  | inl e ↦ find-All P k v m a (rw e at h)
  | inr e ↦ elim (Bool-cases (before k j)) [
    | inl b ↦ absurd (ground arith)
    | inr b ↦ let values : w ≡ v = ground arith in subst_entry P (eq_of_same j k e b) values p
  ]
]

module _ {D : Type 0} ⦃d : Double D⦄ where
  -- The rate over eight hours of a venue that charges its rate once in so many seconds, or in each second.
  abbrev pub over_8h : D → ℕ → D
  over_8h rate seconds =
      if seconds == 0
      then rate ⊗ lit 28_800 1
      else if seconds == 28_800
      then rate
      else rate ⊗ lit (28_800 / seconds) 1

  -- Every profile of the table stands under its own venue, and the rate that the code puts on the basis of
  -- eight hours is the venue's rate times the number of the venue's funding periods in eight hours.
  pub normalize_to_8h_periods :
      (venue : String) (m : ExchangeMechanics D) (rate : D)
      → find before venue get_all_exchange_mechanics ≡ some m
      → (m.venue ≡ venue) × (normalize_to_8h rate m ≡ over_8h rate m.funding_period_seconds)
  unfolding get_all_exchange_mechanics normalize_to_8h before assign
  normalize_to_8h_periods venue m rate h =
      find-All
        (λ k w. (w.venue ≡ k) × (normalize_to_8h rate w ≡ over_8h rate w.funding_period_seconds))
        venue m get_all_exchange_mechanics
        (
          (refl, refl),
          ((refl, refl), ((refl, refl), ((refl, refl), ((refl, refl), ((refl, refl), tt))))),
        )
        h
