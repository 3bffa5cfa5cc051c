-- ===== src/SortedMap/Lookup.antt =====
-- What a lookup finds after a write.
use cplusplus_arbitrage.Base.{◌≡◌, Bool, some, [], ◌∷◌, arith, if◌then◌else◌}
use cplusplus_arbitrage.SortedMap.{Map, assign, find, IsKeyOrder, Keys, same}

module _ {ℓ κ} {K : Type ℓ} {V : Type κ} (before : K → K → Bool) {IsKey : K → Type 0}
    (L : IsKeyOrder before IsKey) where
  pub find-assign :
      (p k : K) (v : V) (m : Map K V)
      → IsKey p
      → IsKey k
      → Keys IsKey m
      → find before p (assign before k v m) ≡ (if same before p k then some v else find before p m)
  unfolding assign find
  find-assign p k v [] np nk ks = ground arith
  find-assign p k v ((j, w) ∷ m) np nk (nj, ks) = ground (
    arith,
    find-assign p k v m np nk ks,
    L.trans p k j,
    L.trans p j p,
    L.trans j k j,
    L.irrefl p,
    L.irrefl j,
    L.cotrans j p k np,
    L.cotrans j k p nk,
    L.cotrans p k j nk,
    L.cotrans p j k nj,
    L.cotrans k j p nj,
  )
