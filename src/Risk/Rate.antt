-- ===== src/Risk/Rate.antt =====
-- The rate limit: `can_place_order` and `record_order_placed` against the log of all orders.
use cplusplus_arbitrage.Base.{
  ℕ, ◌+◌, ◌≤◌, ◌≡◌, refl, ap, ◌∙◌, Bool, true, false, List, [], ◌∷◌, ◌++◌, arith, length, All,
  All-append, All-mono, Bool-cases, if◌then◌else◌, ltb, leb, inl, inr, length-append,
}
use cplusplus_arbitrage.Types.{Timestamp, one_minute}
use cplusplus_arbitrage.Risk.{RiskManager, drop_old, can_place_order, record_order_placed}

-- How many of the orders are at most a minute old.
abbrev pub recent : Timestamp → List Timestamp → ℕ
recent now [] = 0
recent now (t ∷ ts) = (if ltb (t + one_minute) now then 0 else 1) + recent now ts

recent-append :
    (now : Timestamp) (xs ys : List Timestamp)
    → recent now (xs ++ ys) ≡ recent now xs + recent now ys
recent-append now [] ys = omega arith
recent-append now (x ∷ xs) ys = omega (arith, recent-append now xs ys)

recent-le-length : (now : Timestamp) (ts : List Timestamp) → recent now ts ≤ length ts
recent-le-length now [] = omega arith
recent-le-length now (t ∷ ts) = ground (arith, recent-le-length now ts)

length-drop_old-le : (now : Timestamp) (ts : List Timestamp) → length (drop_old now ts) ≤ length ts
unfolding drop_old
length-drop_old-le now [] = omega arith
length-drop_old-le now (t ∷ ts) = ground (arith, length-drop_old-le now ts)

recent-drop_old :
    (now later : Timestamp) (ts : List Timestamp)
    → now ≤ later
    → recent later (drop_old now ts) ≡ recent later ts
unfolding drop_old
recent-drop_old now later [] h = refl
recent-drop_old now later (t ∷ ts) h = ground (arith, recent-drop_old now later ts h)

-- The times do not fall.
abbrev pub IsRising : List Timestamp → Type 0
IsRising [] = Unit
IsRising (t ∷ ts) = All (λ u. t ≤ u) ts × IsRising ts

recent-All :
    (now t : Timestamp) (ts : List Timestamp)
    → now ≤ t + one_minute
    → All (λ u. t ≤ u) ts
    → recent now ts ≡ length ts
recent-All now t [] h a = refl
recent-All now t (u ∷ ts) h (a, as') = ground (arith, recent-All now t ts h as')

length-drop_old :
    (now : Timestamp) (ts : List Timestamp) → IsRising ts → length (drop_old now ts) ≡ recent now ts
unfolding drop_old
length-drop_old now [] s = refl
length-drop_old now (t ∷ ts) s =
    ground
      (arith, length-drop_old now ts s.1, λ (h : now ≤ t + one_minute). recent-All now t ts h s.0)

drop_old-All :
    (P : Timestamp → Type 0) (now : Timestamp) (ts : List Timestamp)
    → All P ts
    → All P (drop_old now ts)
unfolding drop_old
drop_old-All P now [] a = tt
drop_old-All P now (t ∷ ts) (a, rest) = elim (Bool-cases (ltb (t + one_minute) now)) [
  | inl e ↦ rw e (drop_old-All P now ts rest)
  | inr e ↦ rw e (a, rest)
]

drop_old-IsRising :
    (now : Timestamp) (ts : List Timestamp) → IsRising ts → IsRising (drop_old now ts)
unfolding drop_old
drop_old-IsRising now [] s = tt
drop_old-IsRising now (t ∷ ts) s = elim (Bool-cases (ltb (t + one_minute) now)) [
  | inl e ↦ rw e (drop_old-IsRising now ts s.1)
  | inr e ↦ rw e s
]

IsRising-append :
    (ts : List Timestamp) (u : Timestamp)
    → IsRising ts
    → All (λ t. t ≤ u) ts
    → IsRising (ts ++ u ∷ [])
IsRising-append [] u s a = (tt, tt)
IsRising-append (t ∷ ts) u s (a, rest) =
    (All-append _ ts (u ∷ []) s.0 (a, tt), IsRising-append ts u s.1 rest)

-- The clock does not go back from `last` on, over the attempts and up to `end`.
abbrev pub InOrder : Timestamp → List (Timestamp × Timestamp) → Timestamp → Type 0
InOrder last [] end = last ≤ end
InOrder last ((now, placed) ∷ ts) end = (last ≤ now) × (now ≤ placed) × InOrder placed ts end

All-le_mono :
    (a b : Timestamp) (ts : List Timestamp) → a ≤ b → All (λ t. t ≤ a) ts → All (λ t. t ≤ b) ts
All-le_mono a b ts h = All-mono _ _ ts (λ t p. omega arith)

module _ {D : Type 0} where
  -- The engine asks at `now`, and records the order at `placed` if it may place one. The log is of all
  -- orders so far.
  unfoldable pub attempt :
      (now placed : Timestamp) → RiskManager D × List Timestamp → RiskManager D × List Timestamp
  unfolding can_place_order record_order_placed
  attempt now placed (r, log) =
      let (r', may) = can_place_order now r in
      if may then (record_order_placed placed r', log ++ placed ∷ []) else (r', log)

  unfoldable pub attempts :
      List (Timestamp × Timestamp) → RiskManager D × List Timestamp → RiskManager D × List Timestamp
  unfolding attempt
  attempts [] s = s
  attempts ((now, placed) ∷ ts) s = attempts ts (attempt now placed s)

  pub record Follows (last : Timestamp) (s : RiskManager D × List Timestamp) : Type 0 where
    pub counts : (now : Timestamp) → last ≤ now → recent now s.0.order_timestamps ≡ recent now s.1
    pub within : length s.0.order_timestamps ≤ s.0.config.max_orders_per_minute
    pub rising : IsRising s.0.order_timestamps
    pub past : All (λ t. t ≤ last) s.0.order_timestamps

  start : (r : RiskManager D) → r.order_timestamps ≡ [] → Follows 0 (r, [])
  start r e = record {
    counts = λ now h. rw e;
    within = rw e (omega arith);
    rising = rw e tt;
    past = rw e tt;
  }

  module _ (last now placed : Timestamp) (r : RiskManager D) (log : List Timestamp)
      (f : Follows last (r, log)) (h : last ≤ now) (h' : now ≤ placed) where
    attempt-Follows_lem :
        (may : Bool)
        → (if leb r.config.max_orders_per_minute (length (drop_old now r.order_timestamps))
            then false
            else true)
          ≡ may
        → let r' : RiskManager D = record r {
          order_timestamps = drop_old now r.order_timestamps;
        } in
          Follows placed
            (if may then (record_order_placed placed r', log ++ placed ∷ []) else (r', log))
    unfolding record_order_placed
    attempt-Follows_lem true e = record {
      counts = λ later l. omega (
        arith,
        recent-append later (drop_old now r.order_timestamps) (placed ∷ []),
        recent-append later log (placed ∷ []),
        recent-drop_old now later r.order_timestamps,
        f.counts later,
      );
      within = ground (arith, length-append (drop_old now r.order_timestamps) (placed ∷ []));
      rising =
          IsRising-append _ placed (drop_old-IsRising now _ f.rising)
            (drop_old-All _ now _ (All-le_mono last placed _ (omega arith) f.past));
      past =
          All-append _ _ (placed ∷ [])
            (drop_old-All _ now _ (All-le_mono last placed _ (omega arith) f.past))
            (omega arith, tt);
    }
    attempt-Follows_lem false e = record {
      counts =
          λ later l. omega (arith, recent-drop_old now later r.order_timestamps, f.counts later);
      within = omega (arith, length-drop_old-le now r.order_timestamps, f.within);
      rising = drop_old-IsRising now _ f.rising;
      past = drop_old-All _ now _ (All-le_mono last placed _ (omega arith) f.past);
    }

    attempt-Follows : Follows placed (attempt now placed (r, log))
    unfolding attempt
    attempt-Follows = attempt-Follows_lem _ refl

  attempts-Follows :
      (ts : List (Timestamp × Timestamp)) (last end : Timestamp)
      (s : RiskManager D × List Timestamp)
      → InOrder last ts end
      → Follows last s
      → Follows end (attempts ts s)
  unfolding attempts
  attempts-Follows [] last end (r, log) o f = record {
    counts = λ now h. f.counts now (omega arith);
    within = f.within;
    rising = f.rising;
    past = All-le_mono last end _ o f.past;
  }
  attempts-Follows ((now, placed) ∷ ts) last end (r, log) o f =
      attempts-Follows ts placed end _ o.2 (attempt-Follows last now placed r log f o.0 o.1)

  attempts-config :
      (ts : List (Timestamp × Timestamp)) (s : RiskManager D × List Timestamp)
      → (attempts ts s).0.config ≡ s.0.config
  unfolding attempts record_order_placed
  attempts-config [] s = refl
  attempts-config ((now, placed) ∷ ts) (r, log) =
      attempts-config ts (attempt now placed (r, log)) ∙ ground arith

  -- Orders that are placed one after the other, each if `can_place_order` allows it, by a manager that
  -- starts without orders, and a clock that does not go back: at any time since the last of them, at
  -- most `max_orders_per_minute` of all orders are a minute old or younger, and `can_place_order` allows
  -- one more exactly if fewer are.
  pub rate_limit :
      (ts : List (Timestamp × Timestamp)) (end : Timestamp) (r : RiskManager D)
      → r.order_timestamps ≡ []
      → InOrder 0 ts end
      → let (r', log) = attempts ts (r, []) in
        (recent end log ≤ r.config.max_orders_per_minute)
        × ((can_place_order end r').1 ≡ ltb (recent end log) r.config.max_orders_per_minute)
  unfolding can_place_order
  rate_limit ts end r e o =
      let f = attempts-Follows ts 0 end (r, []) o (start r e) in
      let r' = (attempts ts (r, [])).0 in
      ground (
        arith,
        f.counts end (omega arith),
        recent-le-length end r'.order_timestamps,
        f.within,
        length-drop_old end r'.order_timestamps f.rising,
        ap (λ c. c.max_orders_per_minute) (attempts-config ts (r, [])),
      )
