-- ===== src/Execution/Latency.antt =====
-- `get_latency_metrics` (execution_engine.cpp) with LatencyMetrics of include/common/types.hpp.
use cplusplus_arbitrage.Base.{
  ℕ, zero, suc, ◌+◌, ◌-◌, ◌*◌, ◌/◌, ◌≤◌, ◌<◌, min, ◌≡◌, refl, Bool, true, List, [], ◌∷◌, arith,
  if◌then◌else◌, ltb, leb, length, All, All-mono,
}
use cplusplus_arbitrage.Types.{Duration}
use cplusplus_arbitrage.Execution.{Engine}

-- The code sets the last three fields alone, and with no samples only the last; the others are left
-- uninitialised.
pub record LatencyMetrics : Type 0 where
  pub market_update_to_decision : Duration
  pub decision_to_order_send : Duration
  pub order_send_to_ack : Duration
  pub ack_to_fill : Duration
  pub total_round_trip : Duration
  pub p50_decision_to_send : Duration
  pub p95_decision_to_send : Duration
  pub samples : ℕ

-- `std::sort`, whose result depends on the elements alone.
unfoldable pub insert : ℕ → List ℕ → List ℕ
insert a [] = a ∷ []
insert a (x ∷ xs) = if leb a x then a ∷ x ∷ xs else x ∷ insert a xs

unfoldable pub sort : List ℕ → List ℕ
unfolding insert
sort [] = []
sort (x ∷ xs) = insert x (sort xs)

-- `sorted[i]`, which the code takes only inside of the vector.
abbrev pub at : ℕ → List ℕ → ℕ
at n [] = 0
at zero (x ∷ xs) = x
at (suc n) (x ∷ xs) = at n xs

unfoldable pub percentiles : LatencyMetrics → List Duration → LatencyMetrics
unfolding sort
percentiles blank times =
    let n = length times in
    let sorted = sort times in
    if leb n 0 then record blank { samples = n } else record blank {
      p50_decision_to_send = at (n * 50 / 100) sorted;
      p95_decision_to_send = at (min (n * 95 / 100) (n - 1)) sorted;
      samples = n;
    }

unfoldable pub get_latency_metrics : {D : Type 0} → LatencyMetrics → Engine D → LatencyMetrics
unfolding percentiles
get_latency_metrics blank e = percentiles blank e.decision_to_send_times

-- How many values pass a test.
abbrev pub count : (ℕ → Bool) → List ℕ → ℕ
count test [] = 0
count test (x ∷ xs) = (if test x then 1 else 0) + count test xs

abbrev Ascends : List ℕ → Type 0
Ascends [] = Unit
Ascends (x ∷ xs) = All (λ y. x ≤ y) xs × Ascends xs

count-insert :
    (test : ℕ → Bool) (a : ℕ) (xs : List ℕ) → count test (insert a xs) ≡ count test (a ∷ xs)
unfolding insert
count-insert test a [] = refl
count-insert test a (x ∷ xs) = ground (arith, count-insert test a xs)

count-sort : (test : ℕ → Bool) (xs : List ℕ) → count test (sort xs) ≡ count test xs
unfolding sort
count-sort test [] = refl
count-sort test (x ∷ xs) = omega (arith, count-insert test x (sort xs), count-sort test xs)

All-insert : (P : ℕ → Type 0) (a : ℕ) (xs : List ℕ) → P a → All P xs → All P (insert a xs)
unfolding insert
All-insert P a [] p q = (p, tt)
All-insert P a (x ∷ xs) p (q, qs) = ground (arith, All-insert P a xs p qs)

insert-Ascends : (a : ℕ) (xs : List ℕ) → Ascends xs → Ascends (insert a xs)
unfolding insert
insert-Ascends a [] s = (tt, tt)
insert-Ascends a (x ∷ xs) s = ground (
  arith,
  insert-Ascends a xs s.1,
  λ (h : x ≤ a). All-insert (λ y. x ≤ y) a xs h s.0,
  λ (h : a ≤ x). All-mono (λ y. x ≤ y) (λ y. a ≤ y) xs (λ y k. omega arith) s.0,
)

sort-Ascends : (xs : List ℕ) → Ascends (sort xs)
unfolding sort
sort-Ascends [] = tt
sort-Ascends (x ∷ xs) = insert-Ascends x (sort xs) (sort-Ascends xs)

length-count : (xs : List ℕ) → count (λ x. true) xs ≡ length xs
length-count [] = refl
length-count (x ∷ xs) = omega (arith, length-count xs)

count-none : (x : ℕ) (xs : List ℕ) → All (λ y. x ≤ y) xs → count (λ y. ltb y x) xs ≡ 0
count-none x [] q = refl
count-none x (y ∷ xs) (q, qs) = ground (arith, count-none x xs qs)

All-at : (x i : ℕ) (xs : List ℕ) → All (λ y. x ≤ y) xs → i < length xs → x ≤ at i xs
All-at x i [] q h = omega arith
All-at x zero (y ∷ xs) (q, qs) h = q
All-at x (suc i) (y ∷ xs) (q, qs) h = All-at x i xs qs (omega arith)

-- In ascending values the one at an index has few below it and many at most it.
rank :
    (i : ℕ) (xs : List ℕ)
    → Ascends xs
    → i < length xs
    → (count (λ y. ltb y (at i xs)) xs ≤ i) × (suc i ≤ count (λ y. leb y (at i xs)) xs)
rank i [] s h = omega arith
rank zero (x ∷ xs) s h = ground (arith, count-none x xs s.0)
rank (suc i) (x ∷ xs) s h =
    ground (arith, rank i xs s.1 (omega arith), All-at x i xs s.0 (omega arith))

at_mono : (i j : ℕ) (xs : List ℕ) → Ascends xs → i ≤ j → j < length xs → at i xs ≤ at j xs
at_mono i j [] s h k = omega arith
at_mono zero zero (x ∷ xs) s h k = omega arith
at_mono zero (suc j) (x ∷ xs) s h k = All-at x j xs s.0 (omega arith)
at_mono (suc i) zero (x ∷ xs) s h k = omega arith
at_mono (suc i) (suc j) (x ∷ xs) s h k = at_mono i j xs s.1 (omega arith) (omega arith)

length-sort : (xs : List ℕ) → length (sort xs) ≡ length xs
length-sort xs = omega (arith, count-sort (λ x. true) xs, length-count xs, length-count (sort xs))

rank_of :
    (i : ℕ) (xs : List ℕ)
    → i < length xs
    → let x = at i (sort xs) in (count (λ y. ltb y x) xs ≤ i) × (suc i ≤ count (λ y. leb y x) xs)
rank_of i xs h =
    let x = at i (sort xs) in
    omega (
      arith,
      rank i (sort xs) (sort-Ascends xs) (omega (arith, length-sort xs)),
      count-sort (λ y. ltb y x) xs,
      count-sort (λ y. leb y x) xs,
    )

-- The reported percentiles of n sent orders: at most half of the times are below the p50 and more than
-- half of n are at most it; likewise 95% for the p95; and the p50 is at most the p95. Both indices
-- are inside of the vector.
pub get_latency_metrics_lem :
    {D : Type 0} (blank : LatencyMetrics) (e : Engine D)
    → 0 < length e.decision_to_send_times
    → let m = get_latency_metrics blank e in
      let times = e.decision_to_send_times in
      (m.samples ≡ length times)
      × (count (λ t. ltb t m.p50_decision_to_send) times ≤ length times * 50 / 100)
      × (length times * 50 / 100 < count (λ t. leb t m.p50_decision_to_send) times)
      × (count (λ t. ltb t m.p95_decision_to_send) times ≤ length times * 95 / 100)
      × (length times * 95 / 100 < count (λ t. leb t m.p95_decision_to_send) times)
      × (m.p50_decision_to_send ≤ m.p95_decision_to_send)
unfolding get_latency_metrics percentiles
get_latency_metrics_lem blank e h =
    let times = e.decision_to_send_times in
    let n = length times in
    let i = n * 50 / 100 in
    let j = min (n * 95 / 100) (n - 1) in
    ground (
      arith,
      rank_of i times (omega arith),
      rank_of j times (omega arith),
      at_mono i j (sort times) (sort-Ascends times) (omega arith)
          (omega (arith, length-sort times)),
    )
