-- ===== src/SortedMap/Text.antt =====
-- The order of `std::map<std::string, ...>`.
use Prim.Native.Nat.{Ordering}
use Prim.Native.String.compare as compare_lem
use Prim.Native.String.{compare}
use text.Mathlib.TextPositions.{compare_refl}
use text.Mathlib.TextEquality.{codes_equal}
use cplusplus_arbitrage.Base.{
  String, ◌≡◌, ◌⊎◌, refl, ap, Bool, true, false, some, none, [], ◌∷◌, arith, if◌then◌else◌,
}
use cplusplus_arbitrage.SortedMap.{Map, assign, erase, find, same, IsKeyOrder, IsSorted, Keys}
use cplusplus_arbitrage.SortedMap.Lookup.{find-assign}
use cplusplus_arbitrage.SortedMap.Erase.{find-erase}

unfoldable pub before : String → String → Bool
before s t = elim (compare s t) [ Ordering.lt ↦ true | _ ↦ false ]

abbrev pub AnyKey : String → Type 0
AnyKey s = Unit

pub before_irrefl : (s : String) → before s s ≡ false
unfolding before
before_irrefl s = ground (arith, compare_refl s)

before_trans : (s t u : String) → before s t ≡ true → before t u ≡ true → before s u ≡ true
unfolding before
before_trans String.[] String.[] u p q = ground (arith, compare_lem.nil-nil)
before_trans String.[] (String.◌∷◌ d t) String.[] p q = ground (arith, compare_lem.cons-nil d t)
before_trans String.[] (String.◌∷◌ d t) (String.◌∷◌ e u) p q =
    ground (arith, compare_lem.nil-cons e u)
before_trans (String.◌∷◌ c s) String.[] u p q = ground (arith, compare_lem.cons-nil c s)
before_trans (String.◌∷◌ c s) (String.◌∷◌ d t) String.[] p q =
    ground (arith, compare_lem.cons-nil d t)
before_trans (String.◌∷◌ c s) (String.◌∷◌ d t) (String.◌∷◌ e u) p q = ground (
  arith,
  compare_lem.cons-cons c d s t,
  compare_lem.cons-cons d e t u,
  compare_lem.cons-cons c e s u,
  before_trans s t u,
)

before-cotrans : (s t u : String) → before s u ≡ true → (before s t ≡ true) ⊎ (before t u ≡ true)
unfolding before
before-cotrans String.[] String.[] u p = ground arith
before-cotrans String.[] (String.◌∷◌ d t) u p = ground (arith, compare_lem.nil-cons d t)
before-cotrans (String.◌∷◌ c s) t String.[] p = ground (arith, compare_lem.cons-nil c s)
before-cotrans (String.◌∷◌ c s) String.[] (String.◌∷◌ e u) p =
    ground (arith, compare_lem.nil-cons e u)
before-cotrans (String.◌∷◌ c s) (String.◌∷◌ d t) (String.◌∷◌ e u) p = ground (
  arith,
  compare_lem.cons-cons c d s t,
  compare_lem.cons-cons d e t u,
  compare_lem.cons-cons c e s u,
  before-cotrans s t u,
)

pub before-IsKeyOrder : IsKeyOrder before AnyKey
before-IsKeyOrder = record {
  irrefl = before_irrefl;
  trans = before_trans;
  cotrans = λ a b c _. before-cotrans a b c;
}

-- Two texts that are one key are equal.
pub eq_of_same : (s t : String) → before s t ≡ false → before t s ≡ false → s ≡ t
unfolding before
eq_of_same String.[] String.[] p q = refl
eq_of_same String.[] (String.◌∷◌ d t) p q = ground (arith, compare_lem.nil-cons d t)
eq_of_same (String.◌∷◌ c s) String.[] p q = ground (arith, compare_lem.nil-cons c s)
eq_of_same (String.◌∷◌ c s) (String.◌∷◌ d t) p q =
    let heads : c ≡ d =
      codes_equal c d
        (ground (arith, compare_lem.cons-cons c d s t, compare_lem.cons-cons d c t s)) in
    let tails : s ≡ t =
      eq_of_same s t (ground (arith, compare_lem.cons-cons c d s t, compare_lem.cons-cons d c t s))
        (ground (arith, compare_lem.cons-cons c d s t, compare_lem.cons-cons d c t s)) in
    λ i. String.◌∷◌ (heads i) (tails i)

module _ {ℓ} {V : Type ℓ} where
  pub Keys-any : (m : Map String V) → Keys AnyKey m
  Keys-any [] = tt
  Keys-any (e ∷ m) = (tt, Keys-any m)

  -- The laws of lookup over texts.
  pub find-assign_text :
      (p k : String) (v : V) (m : Map String V)
      → find before p (assign before k v m) ≡ (if same before p k then some v else find before p m)
  find-assign_text p k v m = find-assign before before-IsKeyOrder p k v m tt tt (Keys-any m)

  pub find-assign_self :
      (k : String) (v : V) (m : Map String V) → find before k (assign before k v m) ≡ some v
  find-assign_self k v m = ground (arith, find-assign_text k k v m, before_irrefl k)

  pub find-erase_text :
      (p k : String) (m : Map String V)
      → IsSorted before AnyKey m
      → find before p (erase before k m) ≡ (if same before p k then none else find before p m)
  find-erase_text p k m s = find-erase before before-IsKeyOrder p k m tt tt s

  pub find-same :
      (p k : String) (m : Map String V) → same before p k ≡ true → find before p m ≡ find before k m
  find-same p k m h = ap (λ x. find before x m) (eq_of_same p k (ground arith) (ground arith))
