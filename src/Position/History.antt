-- ===== src/Position/History.antt =====
-- Any history of the position manager.
use cplusplus_arbitrage.Base.{◌≡◌, refl, String, true, List, [], ◌∷◌, All, Bool-cases, inl, inr}
use text.Mathlib.Text.{◌==◌}
use cplusplus_arbitrage.Double.{Double}
use cplusplus_arbitrage.Double.Laws.{IsExact}
use cplusplus_arbitrage.SortedMap.{Map, IsSorted}
use cplusplus_arbitrage.SortedMap.Text.{before, AnyKey}
use cplusplus_arbitrage.Types.{Fill, Timestamp}
use cplusplus_arbitrage.Position.{
  Position, PositionManager, create, record_fill, mark_to_market, settle_loop, record_settlement,
  reset_daily_pnl,
}
use cplusplus_arbitrage.Position.Filed.{IsFiled, record_fill-IsFiled, mark_to_market-IsFiled}
use cplusplus_arbitrage.Position.Totals.{
  IsBalanced, record_fill-IsBalanced, mark_to_market-IsBalanced, record_settlement-IsBalanced,
}

pub data Call (D : Type 0) : Type 0 where
  fills : Fill D → Call D
  marks : String → D → Call D
  settles : (market_id winning_token_id : String) → Call D
  starts_day : Call D

module _ {D : Type 0} ⦃d : Double D⦄ where
  unfoldable pub perform : Timestamp × Call D → PositionManager D → PositionManager D
  unfolding record_fill mark_to_market record_settlement reset_daily_pnl
  perform (now, fills f) m = record_fill f now m
  perform (now, marks token mark) m = mark_to_market token mark m
  perform (now, settles market winner) m = record_settlement market winner now m
  perform (now, starts_day) m = reset_daily_pnl m

  unfoldable pub perform_all : List (Timestamp × Call D) → PositionManager D → PositionManager D
  unfolding perform
  perform_all [] m = m
  perform_all (c ∷ cs) m = perform_all cs (perform c m)

  settle_loop-All :
      (P : String → Type 0) (market winner : String) (now : Timestamp) (m : Map String (Position D))
      (total : D)
      → All (λ e. P e.0) m
      → All (λ e. P e.0) (settle_loop market winner now m total).0
  unfolding settle_loop
  settle_loop-All P market winner now [] total a = tt
  settle_loop-All P market winner now ((id, pos) ∷ m) total (a, rest) =
      (a, settle_loop-All P market winner now m _ rest)

  settle_loop-IsSorted :
      (market winner : String) (now : Timestamp) (m : Map String (Position D)) (total : D)
      → IsSorted before AnyKey m
      → IsSorted before AnyKey (settle_loop market winner now m total).0
  unfolding settle_loop
  settle_loop-IsSorted market winner now [] total s = tt
  settle_loop-IsSorted market winner now ((id, pos) ∷ m) total (k, a, s) = (
    k,
    settle_loop-All (λ i. before id i ≡ true) market winner now m _ a,
    settle_loop-IsSorted market winner now m _ s,
  )

  settle_loop-tokens :
      (market winner : String) (now : Timestamp) (m : Map String (Position D)) (total : D)
      → All (λ e. e.0 ≡ e.1.token_id) m
      → All (λ e. e.0 ≡ e.1.token_id) (settle_loop market winner now m total).0
  unfolding settle_loop
  settle_loop-tokens market winner now [] total a = tt
  settle_loop-tokens market winner now ((id, pos) ∷ m) total (a, rest) =
      elim (Bool-cases (pos.market_id == market)) [
        | inl e ↦ rw e (a, settle_loop-tokens market winner now m _ rest)
        | inr e ↦ rw e (a, settle_loop-tokens market winner now m _ rest)
      ]

  record_settlement-IsFiled :
      (market winner : String) (now : Timestamp) (m : PositionManager D)
      → IsFiled m.positions
      → IsFiled (record_settlement market winner now m).positions
  unfolding record_settlement
  record_settlement-IsFiled market winner now m (s, f) = (
    settle_loop-IsSorted market winner now m.positions m.total_realized_pnl s,
    settle_loop-tokens market winner now m.positions m.total_realized_pnl f,
  )

  abbrev pub IsSound : PositionManager D → Type 0
  IsSound m = IsFiled m.positions × IsBalanced m

  module _ (laws : IsExact D) where
    perform-IsSound :
        (c : Timestamp × Call D) (m : PositionManager D) → IsSound m → IsSound (perform c m)
    unfolding perform
    perform-IsSound (now, fills f) m (i, b) =
        (record_fill-IsFiled f now m i, record_fill-IsBalanced laws f now m b)
    perform-IsSound (now, marks token mark) m (i, b) =
        (mark_to_market-IsFiled token mark m i, mark_to_market-IsBalanced laws token mark m b)
    perform-IsSound (now, settles market winner) m (i, b) = (
      record_settlement-IsFiled market winner now m i,
      record_settlement-IsBalanced laws market winner now m b,
    )
    perform-IsSound (now, starts_day) m (i, b) = (i, record { pnl = b.pnl; fees = b.fees })

    perform_all-IsSound :
        (cs : List (Timestamp × Call D)) (m : PositionManager D)
        → IsSound m
        → IsSound (perform_all cs m)
    unfolding perform_all
    perform_all-IsSound [] m s = s
    perform_all-IsSound (c ∷ cs) m s = perform_all-IsSound cs (perform c m) (perform-IsSound c m s)

    -- After any fills, marks, settlements and daily resets of a new manager its positions stand in order,
    -- each under its token, and its totals of realized profit and of fees are the sums over its
    -- positions, if sums do not round.
    pub history-IsSound : (cs : List (Timestamp × Call D)) → IsSound (perform_all cs create)
    unfolding create
    history-IsSound cs =
        perform_all-IsSound cs create ((tt, tt), record { pnl = refl; fees = refl })
