-- ===== src/Scanner/Pairs.antt =====
-- The pairs of a symbol's quotes in the two loops of `scan_cross_exchange`.
use mathlib.Core.List.{Memᴰ}
use mathlib.Core.List.Memᴰ
use cplusplus_arbitrage.Base.{
  ℕ, length, ltb, ◌≡◌, refl, subst, String, true, false, List, [], ◌∷◌, ◌++◌, arith, Bool-cases,
  inl, inr,
}
use cplusplus_arbitrage.Double.{Double, nought, ◌≻◌}
use cplusplus_arbitrage.SortedMap.{Map, find}
use cplusplus_arbitrage.SortedMap.Text.{before}
use cplusplus_arbitrage.Scanner.{ExchangeQuote, MultiExchangeScanner}
use cplusplus_arbitrage.Scanner.Evaluate.{evaluate_pair}
use cplusplus_arbitrage.Scanner.Scan.{list_at, pairs_with, pairs_from, detect}

-- The two values stand at different places of the list.
pub data Apart {ℓ} {A : Type ℓ} (b s : A) : List A → Type ℓ where
  first : {x : A} {xs : List A} → b ≡ x → Memᴰ s xs → Apart b s (x ∷ xs)
  second : {x : A} {xs : List A} → s ≡ x → Memᴰ b xs → Apart b s (x ∷ xs)
  later : {x : A} {xs : List A} → Apart b s xs → Apart b s (x ∷ xs)

module _ {ℓ} {A : Type ℓ} {b s : A} where
  Apart-length : (xs : List A) → Apart b s xs → ltb (length xs) 2 ≡ false
  Apart-length [] a = elim a [ ]
  Apart-length (x ∷ y ∷ xs) a = ground arith
  Apart-length (x ∷ []) (first e m) = elim m [ ]
  Apart-length (x ∷ []) (second e m) = elim m [ ]
  Apart-length (x ∷ []) (later a) = elim a [ ]

  pub Apart-first : (xs ys : List A) → Memᴰ b xs → Memᴰ s ys → Apart b s (xs ++ ys)
  Apart-first [] ys h m = elim h [ ]
  Apart-first (x ∷ xs) ys (Memᴰ.head e) m = first e (Memᴰ.append_right xs m)
  Apart-first (x ∷ xs) ys (Memᴰ.tail h) m = later (Apart-first xs ys h m)

  pub Apart-second : (xs ys : List A) → Memᴰ s xs → Memᴰ b ys → Apart b s (xs ++ ys)
  Apart-second [] ys h m = elim h [ ]
  Apart-second (x ∷ xs) ys (Memᴰ.head e) m = second e (Memᴰ.append_right xs m)
  Apart-second (x ∷ xs) ys (Memᴰ.tail h) m = later (Apart-second xs ys h m)

  pub Apart-later : (xs ys : List A) → Apart b s ys → Apart b s (xs ++ ys)
  Apart-later [] ys a = a
  Apart-later (x ∷ xs) ys a = later (Apart-later xs ys a)

-- `list_at` at the first entry of a map.
module _ {ℓ} {A : Type ℓ} (k symbol : String) (l : List A) (m : Map String (List A)) where
  later_list : before k symbol ≡ true → list_at symbol ((k, l) ∷ m) ≡ list_at symbol m
  unfolding find
  later_list h = ground arith

  no_list : before k symbol ≡ false → before symbol k ≡ true → list_at symbol ((k, l) ∷ m) ≡ []
  unfolding find
  no_list h g = ground arith

  this_list : before k symbol ≡ false → before symbol k ≡ false → list_at symbol ((k, l) ∷ m) ≡ l
  unfolding find
  this_list h g = ground arith

module _ {D : Type 0} ⦃d : Double D⦄ (now : ℕ) (e : MultiExchangeScanner D) where
  module _ (b s : ExchangeQuote D)
      (pays : ((evaluate_pair b s now e).net_spread_bps ≻ nought) ≡ true) where
    pairs_with-mem :
        (qs : List (ExchangeQuote D))
        → Memᴰ s qs
        → Memᴰ (evaluate_pair b s now e) (pairs_with b qs now e)
    unfolding pairs_with
    pairs_with-mem [] m = elim m [ ]
    pairs_with-mem (q ∷ qs) (Memᴰ.head p) =
        subst (λ x. Memᴰ (evaluate_pair b s now e) (pairs_with b (x ∷ qs) now e)) p
          (rw pays (Memᴰ.head refl))
    pairs_with-mem (q ∷ qs) (Memᴰ.tail m) =
        elim (Bool-cases ((evaluate_pair b q now e).net_spread_bps ≻ nought)) [
          | inl h ↦ rw h (Memᴰ.tail (pairs_with-mem qs m))
          | inr h ↦ rw h (pairs_with-mem qs m)
        ]

    pairs_of-mem :
        (q : ExchangeQuote D) (qs : List (ExchangeQuote D))
        → b ≡ q
        → Memᴰ s qs
        → Memᴰ (evaluate_pair b s now e) (pairs_with q qs now e)
    pairs_of-mem q qs p m =
        subst (λ x. Memᴰ (evaluate_pair b s now e) (pairs_with x qs now e)) p (pairs_with-mem qs m)

    pairs_from-seen :
        (seen qs : List (ExchangeQuote D))
        → Memᴰ s seen
        → Memᴰ b qs
        → Memᴰ (evaluate_pair b s now e) (pairs_from seen qs now e)
    unfolding pairs_from
    pairs_from-seen seen [] m h = elim h [ ]
    pairs_from-seen seen (q ∷ qs) m (Memᴰ.head p) =
        Memᴰ.append_left (pairs_from (seen ++ q ∷ []) qs now e)
          (pairs_of-mem q (seen ++ qs) p (Memᴰ.append_left qs m))
    pairs_from-seen seen (q ∷ qs) m (Memᴰ.tail h) =
        Memᴰ.append_right (pairs_with q (seen ++ qs) now e)
          (pairs_from-seen (seen ++ q ∷ []) qs (Memᴰ.append_left (q ∷ []) m) h)

    pairs_from-mem :
        (seen qs : List (ExchangeQuote D))
        → Apart b s qs
        → Memᴰ (evaluate_pair b s now e) (pairs_from seen qs now e)
    unfolding pairs_from
    pairs_from-mem seen [] a = elim a [ ]
    pairs_from-mem seen (q ∷ qs) (first p m) =
        Memᴰ.append_left (pairs_from (seen ++ q ∷ []) qs now e)
          (pairs_of-mem q (seen ++ qs) p (Memᴰ.append_right seen m))
    pairs_from-mem seen (q ∷ qs) (second p m) =
        Memᴰ.append_right (pairs_with q (seen ++ qs) now e)
          (pairs_from-seen (seen ++ q ∷ []) qs (Memᴰ.append_right seen (Memᴰ.head p)) m)
    pairs_from-mem seen (q ∷ qs) (later a) =
        Memᴰ.append_right (pairs_with q (seen ++ qs) now e) (pairs_from-mem (seen ++ q ∷ []) qs a)

    pub detect-mem :
        (symbol : String) (grouped : Map String (List (ExchangeQuote D)))
        → Apart b s (list_at symbol grouped)
        → Memᴰ (evaluate_pair b s now e) (detect grouped now e)
    unfolding detect find
    detect-mem symbol [] a = elim a [ ]
    detect-mem symbol ((k, l) ∷ m) a = elim (Bool-cases (before k symbol)) [
      | inl h ↦
          let rest = detect-mem symbol m (subst (λ x. Apart b s x) (later_list k symbol l m h) a) in
          elim (Bool-cases (ltb (length l) 2)) [
            | inl g ↦ rw g rest
            | inr g ↦ rw g (Memᴰ.append_right (pairs_from [] l now e) rest)
          ]
      | inr h ↦ elim (Bool-cases (before symbol k)) [
        | inl g ↦ elim (subst (λ x. Apart b s x) (no_list k symbol l m h g) a) [ ]
        | inr g ↦
            let here = subst (λ x. Apart b s x) (this_list k symbol l m h g) a in
            rw (Apart-length l here) (Memᴰ.append_left (detect m now e) (pairs_from-mem [] l here))
      ]
    ]
