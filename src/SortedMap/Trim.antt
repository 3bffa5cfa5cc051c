-- ===== src/SortedMap/Trim.antt =====
-- The trimming loop ends, and keeps the first entries.
use cplusplus_arbitrage.Base.{
  ℕ, zero, suc, ◌+◌, ◌-◌, ◌≤◌, ◌<◌, ◌≡◌, refl, ap, sym, ◌∙◌, List, [], ◌∷◌, arith, length, take,
  length-take, All-take, ltb, Bool-cases, ltb→lt, not-ltb→le, inl, inr, Bool, false,
}
use cplusplus_arbitrage.SortedMap.{Map, assign, erase, IsSorted, drop_last, trim_loop, trim}

module _ {ℓ} {A : Type ℓ} where
  length-drop_last : (xs : List A) → length (drop_last xs) ≡ length xs - 1
  unfolding drop_last
  length-drop_last [] = omega arith
  length-drop_last (x ∷ []) = omega arith
  length-drop_last (x ∷ y ∷ xs) = omega (arith, length-drop_last (y ∷ xs))

  take-drop_last : (n : ℕ) (xs : List A) → n < length xs → take n (drop_last xs) ≡ take n xs
  unfolding drop_last
  take-drop_last zero xs h = refl
  take-drop_last (suc n) [] h = elim h [ ]
  take-drop_last (suc n) (x ∷ []) h = absurd (omega arith)
  take-drop_last (suc n) (x ∷ y ∷ xs) h = ap (◌∷◌ x) (take-drop_last n (y ∷ xs) (omega arith))

  pub take_nil : (n : ℕ) → take {A = A} n [] ≡ []
  take_nil zero = refl
  take_nil (suc n) = refl

  pub take_all : (n : ℕ) (xs : List A) → length xs ≤ n → take n xs ≡ xs
  take_all zero [] h = refl
  take_all zero (x ∷ xs) h = absurd (omega arith)
  take_all (suc n) [] h = refl
  take_all (suc n) (x ∷ xs) h = ap (◌∷◌ x) (take_all n xs (omega arith))

  trim_loop-eq-take :
      (fuel limit : ℕ) (xs : List A)
      → length xs ≤ fuel + limit
      → trim_loop fuel limit xs ≡ take limit xs
  unfolding trim_loop
  trim_loop-eq-take zero limit xs h = sym (take_all limit xs (omega arith))
  trim_loop-eq-take (suc fuel) limit xs h = elim (Bool-cases (ltb limit (length xs))) [
    | inl long ↦
        let shorter =
          trim_loop-eq-take fuel limit (drop_last xs) (omega (arith, length-drop_last xs)) in
        rw long (shorter ∙ take-drop_last limit xs (ltb→lt _ _ long))
    | inr short ↦ rw short (sym (take_all limit xs (not-ltb→le _ _ short)))
  ]

  -- The loop `while (size() > limit) erase(--end())` ends: with as much fuel as the entries beyond the limit,
  -- or more, it stops by its test, with the first entries up to the limit left and no others.
  pub trim_loop_ends :
      (fuel limit : ℕ) (xs : List A)
      → length xs ≤ fuel + limit
      → (ltb limit (length (trim_loop fuel limit xs)) ≡ false)
        × (trim_loop fuel limit xs ≡ take limit xs)
  trim_loop_ends fuel limit xs h =
      let kept = trim_loop-eq-take fuel limit xs h in
      (rw kept (ground (arith, length-take limit xs)), kept)

  pub trim-eq-take : (limit : ℕ) (xs : List A) → trim limit xs ≡ take limit xs
  unfolding trim
  trim-eq-take limit xs = trim_loop-eq-take (length xs) limit xs (omega arith)

  pub length-trim : (limit : ℕ) (xs : List A) → length (trim limit xs) ≤ limit
  length-trim limit xs = rw (trim-eq-take limit xs) (omega (arith, length-take limit xs))

  pub take-take : (m n : ℕ) (xs : List A) → m ≤ n → take m (take n xs) ≡ take m xs
  take-take zero n xs h = refl
  take-take (suc m) zero xs h = absurd (omega arith)
  take-take (suc m) (suc n) [] h = refl
  take-take (suc m) (suc n) (x ∷ xs) h = ap (◌∷◌ x) (take-take m n xs (omega arith))

  take-cons_take : (n : ℕ) (x : A) (xs : List A) → take n (x ∷ take n xs) ≡ take n (x ∷ xs)
  take-cons_take zero x xs = refl
  take-cons_take (suc n) x xs = ap (◌∷◌ x) (take-take n (suc n) xs (omega arith))

module _ {ℓ κ} {K : Type ℓ} {V : Type κ} (before : K → K → Bool) where
  -- To trim before a write changes nothing that is left by trimming after it.
  pub take-assign-take :
      (n : ℕ) (k : K) (v : V) (m : Map K V)
      → take n (assign before k v (take n m)) ≡ take n (assign before k v m)
  unfolding assign
  take-assign-take zero k v m = refl
  take-assign-take (suc n) k v [] = refl
  take-assign-take (suc n) k v ((j, w) ∷ m) = elim (Bool-cases (before j k)) [
    | inl e ↦ rw e (ap (◌∷◌ (j, w)) (take-assign-take n k v m))
    | inr e ↦ rw e (elim (Bool-cases (before k j)) [
      | inl f ↦ rw f (ap (◌∷◌ (k, v)) (take-cons_take n (j, w) m))
      | inr f ↦ rw f (ap (◌∷◌ (j, v)) (take-take n n m (omega arith)))
    ])
  ]

  pub length-assign : (k : K) (v : V) (m : Map K V) → length (assign before k v m) ≤ length m + 1
  unfolding assign
  length-assign k v [] = omega arith
  length-assign k v ((j, w) ∷ m) = elim (Bool-cases (before j k)) [
    | inl e ↦ rw e (omega (arith, length-assign k v m))
    | inr e ↦
        rw e (elim (Bool-cases (before k j)) [
          | inl f ↦ rw f (omega arith)
          | inr f ↦ rw f (omega arith)
        ])
  ]

  pub length-erase : (k : K) (m : Map K V) → length (erase before k m) ≤ length m
  unfolding erase
  length-erase k [] = omega arith
  length-erase k ((j, w) ∷ m) = elim (Bool-cases (before j k)) [
    | inl e ↦ rw e (omega (arith, length-erase k m))
    | inr e ↦
        rw e (elim (Bool-cases (before k j)) [
          | inl f ↦ rw f (omega arith)
          | inr f ↦ rw f (omega arith)
        ])
  ]

  pub take-IsSorted :
      (IsKey : K → Type 0) (n : ℕ) (m : Map K V)
      → IsSorted before IsKey m
      → IsSorted before IsKey (take n m)
  take-IsSorted P zero m s = tt
  take-IsSorted P (suc n) [] s = tt
  take-IsSorted P (suc n) ((k, v) ∷ m) (a, b, c) = (a, All-take _ n m b, take-IsSorted P n m c)
