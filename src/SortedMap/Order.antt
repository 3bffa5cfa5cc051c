-- ===== src/SortedMap/Order.antt =====
-- `assign` and `erase` keep the map in order.
use cplusplus_arbitrage.Base.{◌≡◌, Bool, true, false, [], ◌∷◌, arith, All}
use cplusplus_arbitrage.SortedMap.{Map, assign, erase, IsKeyOrder, Above, IsSorted}

module _ {ℓ κ} {K : Type ℓ} {V : Type κ} (before : K → K → Bool) where
  -- What holds of the written entry and of the old ones holds of the new ones. `P` sees a replaced
  -- value under its old key.
  pub All-assign :
      (P : K → Type 0) (k : K) (v : V) (m : Map K V)
      → P k
      → All (λ e. P e.0) m
      → All (λ e. P e.0) (assign before k v m)
  unfolding assign
  All-assign P k v [] p q = (p, tt)
  All-assign P k v ((j, w) ∷ m) p (q, qs) = ground (arith, All-assign P k v m p qs)

  pub All-assign_values :
      (P : V → Type 0) (k : K) (v : V) (m : Map K V)
      → P v
      → All (λ e. P e.1) m
      → All (λ e. P e.1) (assign before k v m)
  unfolding assign
  All-assign_values P k v [] p q = (p, tt)
  All-assign_values P k v ((j, w) ∷ m) p (q, qs) = ground (arith, All-assign_values P k v m p qs)

  pub All-assign_entries :
      (P : K × V → Type 0) (k : K) (v : V) (m : Map K V)
      → P (k, v)
      → ((j : K) → before j k ≡ false → before k j ≡ false → P (j, v))
      → All P m
      → All P (assign before k v m)
  unfolding assign
  All-assign_entries P k v [] p f q = (p, tt)
  All-assign_entries P k v ((j, w) ∷ m) p f (q, qs) =
      ground (arith, All-assign_entries P k v m p f qs, f j)

  pub All-erase : (P : K × V → Type 0) (k : K) (m : Map K V) → All P m → All P (erase before k m)
  unfolding erase
  All-erase P k [] q = tt
  All-erase P k ((j, w) ∷ m) (q, qs) = ground (arith, All-erase P k m qs)

  module _ {IsKey : K → Type 0} (L : IsKeyOrder before IsKey) where
    Above-mono : (a b : K) (m : Map K V) → before a b ≡ true → Above before b m → Above before a m
    Above-mono a b [] h _ = tt
    Above-mono a b ((k, v) ∷ m) h (p, ps) = (L.trans a b k h p, Above-mono a b m h ps)

    pub assign-IsSorted :
        (k : K) (v : V) (m : Map K V)
        → IsKey k
        → IsSorted before IsKey m
        → IsSorted before IsKey (assign before k v m)
    unfolding assign
    assign-IsSorted k v [] n s = (n, tt, tt)
    assign-IsSorted k v ((j, w) ∷ m) n s = ground (
      arith,
      assign-IsSorted k v m n s.2,
      λ (h : before j k ≡ true). All-assign (λ i. before j i ≡ true) k v m h s.1,
      λ (h : before k j ≡ true). Above-mono k j m h s.1,
    )

    pub erase-IsSorted :
        (k : K) (m : Map K V) → IsSorted before IsKey m → IsSorted before IsKey (erase before k m)
    unfolding erase
    erase-IsSorted k [] s = tt
    erase-IsSorted k ((j, w) ∷ m) s =
        ground (arith, erase-IsSorted k m s.2, All-erase (λ e. before j e.0 ≡ true) k m s.1)
