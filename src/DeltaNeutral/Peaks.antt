-- ===== src/DeltaNeutral/Peaks.antt =====
-- The drawdown limit over a whole session of calls.
use mathlib.Core.List.{Memᴰ}
use cplusplus_arbitrage.Base.{
  ℕ, String, Bool, ◌≡◌, refl, ap, ◌∙◌, sym, List, [], ◌∷◌, arith, true, false, not, ◌||◌,
  if◌then◌else◌, All, All-mono, All-mem, is_some, inl, inr, Bool-cases, subst,
}
use cplusplus_arbitrage.Double.{Double, IsNum, nought, ◌≼◌, ◌≺◌, ◌≻◌, ◌⊖◌, ◌⊘◌}
use cplusplus_arbitrage.Double.Laws.{IsOrdered, HasMagnitude, le_trans, le_of_lt, le_of_not_lt}
use cplusplus_arbitrage.DeltaNeutral.{
  DeltaNeutralConfig, DeltaNeutralEnforcer, create, update_equity, update_position,
  update_mark_price, record_heartbeat, update_funding_rate, update_adl_position,
  update_stablecoin_price, update_market_metrics,
}
use cplusplus_arbitrage.DeltaNeutral.Checks.{check_drawdown_limit}
use cplusplus_arbitrage.DeltaNeutral.History.{
  Call, updates_position, updates_mark, beats, updates_equity, updates_rate, updates_adl,
  updates_stablecoin, updates_metrics, checks_hedge, checks_kill, records_kill, SameFeeds, perform,
  perform_all, check_hedge_needed-feeds, check_kill_conditions-feeds, record_kill-feeds,
  perform-config,
}

module _ {D : Type 0} where
  -- The equities that the calls report after those in `seen`, the latest first.
  abbrev pub equities : List (ℕ × Call D) → List D → List D
  equities [] seen = seen
  equities ((now, updates_equity equity) ∷ cs) seen = equities cs (equity ∷ seen)
  equities (c ∷ cs) seen = equities cs seen

  abbrev pub latest : D → List D → D
  latest q [] = q
  latest q (x ∷ xs) = x

module _ {D : Type 0} ⦃d : Double D⦄ where
  abbrev pub NumEquities : List (ℕ × Call D) → Type 0
  NumEquities [] = Unit
  NumEquities ((now, updates_equity equity) ∷ cs) = IsNum equity × NumEquities cs
  NumEquities (c ∷ cs) = NumEquities cs

  -- The greatest of the equities seen.
  pub record IsPeak (peak : D) (seen : List D) : Type 0 where
    pub among : Memᴰ peak seen
    pub above : All (λ x. (x ≼ peak) ≡ true) seen

  -- The fields of an enforcer that the drawdown depends on, after some equities.
  record Tracks (seen : List D) (starting current mark : D) : Type 0 where
    started : d.eqv starting nought ≡ false
    current_is : current ≡ latest nought seen
    peak : IsPeak mark seen

  abbrev TracksIn : List D → DeltaNeutralEnforcer D → Type 0
  TracksIn seen e = Tracks seen e.starting_equity e.current_equity e.high_water_mark

  Tracks-feeds :
      (seen : List D) (e' e : DeltaNeutralEnforcer D)
      → SameFeeds e' e
      → TracksIn seen e
      → TracksIn seen e'
  Tracks-feeds seen e' e h t = record {
    started = ap (λ x. d.eqv x nought) h.starting_equity ∙ t.started;
    current_is = h.current_equity ∙ t.current_is;
    peak = subst (λ x. IsPeak x seen) (sym h.high_water_mark) t.peak;
  }

  check_drawdown_limit-signal :
      (e : DeltaNeutralEnforcer D)
      → let mark = e.high_water_mark in
        let last = e.current_equity in
        is_some (check_drawdown_limit e).1
        ≡ not (
            (mark ≼ nought)
            || (last ≼ nought)
            || (((mark ⊖ last) ⊘ mark) ≺ e.config.max_session_drawdown))
  unfolding check_drawdown_limit
  check_drawdown_limit-signal e = ground arith

module _ {D : Type 0} ⦃d : Double D⦄ (laws : IsOrdered D) (magnitude : HasMagnitude D)
    (show : D → String) where
  open laws use {num_of_le, num_ratio, lt_irrefl}

  IsPeak-cons :
      (x peak : D) (seen : List D)
      → IsNum x
      → IsPeak peak seen
      → IsPeak (if x ≻ peak then x else peak) (x ∷ seen)
  IsPeak-cons x peak seen n p = elim (Bool-cases (x ≻ peak)) [
    | inl e ↦ rw e (record {
      among = Memᴰ.head refl;
      above =
          (n, All-mono _ _ seen (λ a h. le_trans laws a peak x h (le_of_lt laws peak x e)) p.above);
    })
    | inr e ↦ rw e (record {
      among = Memᴰ.tail p.among;
      above = (
        le_of_not_lt laws x peak n (num_of_le peak peak (All-mem _ seen p.among p.above)).0 e,
        p.above,
      );
    })
  ]

  update_equity-Tracks :
      (x : D) (seen : List D) (e : DeltaNeutralEnforcer D)
      → IsNum x
      → TracksIn seen e
      → TracksIn (x ∷ seen) (update_equity x e)
  unfolding update_equity
  update_equity-Tracks x seen e n t = rw t.started (record {
    started = t.started;
    current_is = refl;
    peak = IsPeak-cons x e.high_water_mark seen n t.peak;
  })

  perform_all-Tracks :
      (cs : List (ℕ × Call D)) (seen : List D) (e : DeltaNeutralEnforcer D)
      → NumEquities cs
      → TracksIn seen e
      → TracksIn (equities cs seen) (perform_all show cs e)
  unfolding perform_all perform update_position update_mark_price record_heartbeat
      update_funding_rate update_adl_position update_stablecoin_price update_market_metrics
  perform_all-Tracks [] seen e n t = t
  perform_all-Tracks ((now, updates_position p) ∷ cs) seen e n t =
      perform_all-Tracks cs seen (perform show (now, updates_position p) e) n t
  perform_all-Tracks ((now, updates_mark venue instrument mark_price index_price) ∷ cs) seen e n t =
      perform_all-Tracks cs seen
        (perform show (now, updates_mark venue instrument mark_price index_price) e) n t
  perform_all-Tracks ((now, beats venue) ∷ cs) seen e n t =
      perform_all-Tracks cs seen (perform show (now, beats venue) e) n t
  perform_all-Tracks ((now, updates_rate venue rate) ∷ cs) seen e n t =
      perform_all-Tracks cs seen (perform show (now, updates_rate venue rate) e) n t
  perform_all-Tracks ((now, updates_adl venue queue_position) ∷ cs) seen e n t =
      perform_all-Tracks cs seen (perform show (now, updates_adl venue queue_position) e) n t
  perform_all-Tracks ((now, updates_stablecoin symbol price) ∷ cs) seen e n t =
      perform_all-Tracks cs seen (perform show (now, updates_stablecoin symbol price) e) n t
  perform_all-Tracks ((now, updates_metrics total_oi long_oi short_oi volume average) ∷ cs) seen e n
        t =
      perform_all-Tracks cs seen
        (perform show (now, updates_metrics total_oi long_oi short_oi volume average) e) n t
  perform_all-Tracks ((now, updates_equity x) ∷ cs) seen e (k, n) t =
      perform_all-Tracks cs (x ∷ seen) (update_equity x e) n (update_equity-Tracks x seen e k t)
  perform_all-Tracks ((now, checks_hedge) ∷ cs) seen e n t =
      perform_all-Tracks cs seen (perform show (now, checks_hedge) e) n
        (Tracks-feeds seen _ e (check_hedge_needed-feeds now e) t)
  perform_all-Tracks ((now, checks_kill) ∷ cs) seen e n t =
      perform_all-Tracks cs seen (perform show (now, checks_kill) e) n
        (Tracks-feeds seen _ e (check_kill_conditions-feeds now e) t)
  perform_all-Tracks ((now, records_kill s ps) ∷ cs) seen e n t =
      perform_all-Tracks cs seen (perform show (now, records_kill s ps) e) n
        (Tracks-feeds seen _ e (record_kill-feeds show s ps now e) t)

  perform_all-config :
      (cs : List (ℕ × Call D)) (e : DeltaNeutralEnforcer D)
      → (perform_all show cs e).config ≡ e.config
  unfolding perform_all
  perform_all-config [] e = refl
  perform_all-config (c ∷ cs) e = perform_all-config cs (perform show c e) ∙ perform-config show c e

  first-Tracks :
      (has_db : Bool) (session_id : String) (config : DeltaNeutralConfig D) (q : D)
      → d.eqv q nought ≡ false
      → IsNum q
      → TracksIn (q ∷ []) (update_equity q (create has_db session_id config))
  unfolding update_equity create
  first-Tracks has_db session_id config q h n =
      rw (magnitude.eqv_of_le nought nought (num_ratio 0 0) (num_ratio 0 0), lt_irrefl q)
        (record {
          started = h;
          current_is = refl;
          peak = record { among = Memᴰ.head refl; above = (n, tt) };
        })

  -- After any calls, the first of which reports an equity that is not 0, and none of which reports NaN,
  -- the drawdown limit gives a signal exactly if both the greatest equity reported and the last are
  -- above 0 and the fall from the one to the other, as a part of the greatest, is not below the limit.
  pub drawdown_of_IsPeak :
      (has_db : Bool) (session_id : String) (config : DeltaNeutralConfig D) (now : ℕ) (q : D)
      (cs : List (ℕ × Call D))
      → d.eqv q nought ≡ false
      → NumEquities ((now, updates_equity q) ∷ cs)
      → let e = perform_all show ((now, updates_equity q) ∷ cs) (create has_db session_id config) in
        let seen = equities ((now, updates_equity q) ∷ cs) [] in
        let last = latest nought seen in
        (peak : D) × IsPeak peak seen
        × (is_some (check_drawdown_limit e).1
            ≡ not (
                (peak ≼ nought)
                || (last ≼ nought)
                || (((peak ⊖ last) ⊘ peak) ≺ config.max_session_drawdown)))
  unfolding perform_all perform create
  drawdown_of_IsPeak has_db session_id config now q cs h (k, n) =
      let calls : List (ℕ × Call D) = (now, updates_equity q) ∷ cs in
      let start = create has_db session_id config in
      let e = perform_all show calls start in
      let t =
        perform_all-Tracks cs (q ∷ []) (update_equity q start) n
          (first-Tracks has_db session_id config q h k) in
      (
        e.high_water_mark,
        t.peak,
        check_drawdown_limit-signal e ∙ (λ i.
            let mark = e.high_water_mark in
            let last = t.current_is i in
            not (
              (mark ≼ nought)
              || (last ≼ nought)
              || (((mark ⊖ last) ⊘ mark)
                  ≺ (perform_all-config calls start i).max_session_drawdown))),
      )
