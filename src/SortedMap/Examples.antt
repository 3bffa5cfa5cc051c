-- ===== src/SortedMap/Examples.antt =====
-- The trimming loop on a map of four entries.
use cplusplus_arbitrage.Base.{ℕ, ◌≡◌, false, [], ◌∷◌, arith, length, ltb}
use cplusplus_arbitrage.SortedMap.{Map, trim_loop}
use cplusplus_arbitrage.SortedMap.Trim.{trim_loop_ends}

abbrev levels : Map ℕ ℕ
levels = (1, 10) ∷ (2, 20) ∷ (3, 30) ∷ (4, 40) ∷ []

trim_loop_ends_example :
    (ltb 2 (length (trim_loop 3 2 levels)) ≡ false)
    × (trim_loop 3 2 levels ≡ (1, 10) ∷ (2, 20) ∷ [])
trim_loop_ends_example = trim_loop_ends 3 2 levels (omega arith)
