-- ===== src/SortedMap/Erase.antt =====
-- What a lookup finds after an erasure.
use cplusplus_arbitrage.Base.{◌≡◌, refl, Bool, false, none, [], ◌∷◌, arith, if◌then◌else◌}
use cplusplus_arbitrage.SortedMap.{Map, erase, find, IsKeyOrder, Above, IsSorted, same}

module _ {ℓ κ} {K : Type ℓ} {V : Type κ} (before : K → K → Bool) {IsKey : K → Type 0}
    (L : IsKeyOrder before IsKey) where
  pub find-Above :
      (p j : K) (m : Map K V)
      → before j p ≡ false
      → IsKey p
      → Above before j m
      → find before p m ≡ none
  unfolding find
  find-Above p j [] h np a = refl
  find-Above p j ((k, v) ∷ m) h np (a, rest) = ground (
    arith,
    find-Above p j m h np rest,
    L.cotrans j p k np,
    L.trans k p k,
    L.trans p k p,
    L.irrefl k,
    L.irrefl p,
  )

  pub find-erase :
      (p k : K) (m : Map K V)
      → IsKey p
      → IsKey k
      → IsSorted before IsKey m
      → find before p (erase before k m) ≡ (if same before p k then none else find before p m)
  unfolding erase find
  find-erase p k [] np nk s = ground arith
  find-erase p k ((j, w) ∷ m) np nk s = ground (
    arith,
    find-erase p k m np nk s.2,
    λ (h : before j p ≡ false). find-Above p j m h np s.1,
    L.trans p k j,
    L.trans p j p,
    L.irrefl p,
    L.cotrans j p k np,
    L.cotrans j k p nk,
    L.cotrans p k j nk,
    L.cotrans k p j np,
    L.cotrans p j k s.0,
    L.cotrans k j p s.0,
  )
