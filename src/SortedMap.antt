-- ===== src/SortedMap.antt =====
-- `std::map` as the code uses it: its entries in the order of the keys. `before` is the map's comparison;
-- two keys neither of which is before the other are one key.
pub mod Order
pub mod Lookup
pub mod Erase
pub mod Trim
pub mod Text
pub mod Examples
use cplusplus_arbitrage.Base.{
  ℕ, zero, suc, ◌≡◌, ◌⊎◌, Bool, true, false, ◌&&◌, not, Option, none, some, List, [], ◌∷◌,
  if◌then◌else◌, ltb, length, All,
}

abbrev pub Map {ℓ κ} : Type ℓ → Type κ → Type (ℓ ⊔ κ)
Map K V = List (K × V)

module _ {ℓ κ} {K : Type ℓ} {V : Type κ} (before : K → K → Bool) where
  -- `m[k] = v`: a key that is there stays, with the new value.
  unfoldable pub assign : K → V → Map K V → Map K V
  assign k v [] = (k, v) ∷ []
  assign k v ((j, w) ∷ m) =
      if before j k
      then (j, w) ∷ assign k v m
      else if before k j
      then (k, v) ∷ (j, w) ∷ m
      else (j, v) ∷ m

  unfoldable pub find : K → Map K V → Option V
  find k [] = none
  find k ((j, w) ∷ m) = if before j k then find k m else if before k j then none else some w

  unfoldable pub erase : K → Map K V → Map K V
  erase k [] = []
  erase k ((j, w) ∷ m) =
      if before j k then (j, w) ∷ erase k m else if before k j then (j, w) ∷ m else m

module _ {ℓ} {A : Type ℓ} where
  -- `erase(--end())`.
  unfoldable pub drop_last : List A → List A
  drop_last [] = []
  drop_last (x ∷ []) = []
  drop_last (x ∷ y ∷ xs) = x ∷ drop_last (y ∷ xs)

  -- `while (size() > limit) erase(--end())`, on fuel.
  unfoldable pub trim_loop : ℕ → ℕ → List A → List A
  unfolding drop_last
  trim_loop zero limit m = m
  trim_loop (suc fuel) limit m =
      let rest = trim_loop fuel limit (drop_last m) in if ltb limit (length m) then rest else m

  -- The size of the map is fuel enough (`Trim.trim-eq-take`).
  unfoldable pub trim : ℕ → List A → List A
  unfolding trim_loop
  trim limit m = trim_loop (length m) limit m

-- A strict weak order on those values that are proper keys: for doubles, all but NaN.
pub record IsKeyOrder {ℓ} {K : Type ℓ} (before : K → K → Bool) (IsKey : K → Type 0) : Type ℓ where
  pub irrefl : (a : K) → before a a ≡ false
  pub trans : (a b c : K) → before a b ≡ true → before b c ≡ true → before a c ≡ true
  pub cotrans :
      (a b c : K) → IsKey b → before a c ≡ true → (before a b ≡ true) ⊎ (before b c ≡ true)

abbrev pub same {ℓ} : {K : Type ℓ} → (K → K → Bool) → K → K → Bool
same before a b = not (before a b) && not (before b a)

-- Every key of the map comes after `k`.
abbrev pub Above {ℓ κ} : {K : Type ℓ} {V : Type κ} → (K → K → Bool) → K → Map K V → Type 0
Above before k = All λ e. before k e.0 ≡ true

abbrev pub Keys {ℓ κ} : {K : Type ℓ} {V : Type κ} → (K → Type 0) → Map K V → Type 0
Keys IsKey = All λ e. IsKey e.0

-- Strictly ascending, with proper keys.
abbrev pub IsSorted {ℓ κ} :
    {K : Type ℓ} {V : Type κ} → (K → K → Bool) → (K → Type 0) → Map K V → Type 0
IsSorted before IsKey [] = Unit
IsSorted before IsKey ((k, v) ∷ m) = IsKey k × Above before k m × IsSorted before IsKey m
