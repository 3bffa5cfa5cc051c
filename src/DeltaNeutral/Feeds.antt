-- ===== src/DeltaNeutral/Feeds.antt =====
-- What a DeltaNeutralEnforcer knows after any sequence of calls: for each key what the last call said.
use text.Mathlib.Text.{◌==◌}
use text.Mathlib.TextEquality.{eq_iff}
use cplusplus_arbitrage.Base.{
  ℕ, String, ◌≡◌, refl, ap, ◌∙◌, Option, none, some, List, [], ◌∷◌, arith, if◌then◌else◌,
}
use cplusplus_arbitrage.Double.{Double}
use cplusplus_arbitrage.Funding.{Position}
use cplusplus_arbitrage.SortedMap.{find, same, assign, Map}
use cplusplus_arbitrage.SortedMap.Text.{before, eq_of_same, before_irrefl, find-assign_text}
use cplusplus_arbitrage.DeltaNeutral.{DeltaNeutralEnforcer, make_key}
use cplusplus_arbitrage.DeltaNeutral.History.{
  Call, updates_position, updates_mark, beats, updates_equity, updates_rate, updates_adl,
  updates_stablecoin, updates_metrics, checks_hedge, checks_kill, records_kill, SameFeeds, perform,
  perform_all, check_hedge_needed-feeds, check_kill_conditions-feeds, record_kill-feeds,
}

-- The abstract view of a map: a partial function from keys, of which a write changes one value.
abbrev pub update {ℓ} : {V : Type ℓ} → String → V → (String → Option V) → String → Option V
update k v f p = if p == k then some v else f p

abbrev pub write {ℓ} : {V : Type ℓ} → Option (String × V) → (String → Option V) → String → Option V
write none f = f
write (some (k, v)) f = update k v f

same-eq : (s t : String) → same before s t ≡ (s == t)
same-eq s t = ground (arith, eq_iff s t, eq_of_same s t, before_irrefl s)

find-update {ℓ} :
    {V : Type ℓ} (p k : String) (v : V) (m : Map String V)
    → find before p (assign before k v m) ≡ update k v (λ q. find before q m) p
find-update p k v m = rw (find-assign_text p k v m, same-eq p k)

pub record View (D : Type 0) : Type 0 where
  pub positions : String → Option (Position D)
  pub mark_prices : String → Option D
  pub index_prices : String → Option D
  pub funding_rates : String → Option D
  pub last_heartbeat : String → Option ℕ
  pub adl_queue_positions : String → Option D
  pub stablecoin_prices : String → Option D

module _ {D : Type 0} where
  unfoldable pub view_of : DeltaNeutralEnforcer D → View D
  view_of e = record {
    positions = λ p. find before p e.positions;
    mark_prices = λ p. find before p e.mark_prices;
    index_prices = λ p. find before p e.index_prices;
    funding_rates = λ p. find before p e.funding_rates;
    last_heartbeat = λ p. find before p e.last_heartbeat;
    adl_queue_positions = λ p. find before p e.adl_queue_positions;
    stablecoin_prices = λ p. find before p e.stablecoin_prices;
  }

  -- What a call does to the view: a feed writes one value, and all other calls nothing.
  unfoldable pub tell : ℕ × Call D → View D → View D
  tell (now, updates_position p) v = record v {
    positions = update (make_key p.venue p.instrument) p v.positions;
  }
  tell (now, updates_mark venue instrument mark_price index_price) v = record v {
    mark_prices = update (make_key venue instrument) mark_price v.mark_prices;
    index_prices = update (make_key venue instrument) index_price v.index_prices;
  }
  tell (now, beats venue) v = record v { last_heartbeat = update venue now v.last_heartbeat }
  tell (now, updates_rate venue rate) v = record v {
    funding_rates = update venue rate v.funding_rates;
  }
  tell (now, updates_adl venue queue_position) v = record v {
    adl_queue_positions = update venue queue_position v.adl_queue_positions;
  }
  tell (now, updates_stablecoin symbol price) v = record v {
    stablecoin_prices = update symbol price v.stablecoin_prices;
  }
  tell (now, updates_equity equity) v = v
  tell (now, updates_metrics total_oi long_oi short_oi volume average) v = v
  tell (now, checks_hedge) v = v
  tell (now, checks_kill) v = v
  tell (now, records_kill s closed_positions) v = v

  unfoldable pub replay : List (ℕ × Call D) → View D → View D
  unfolding tell
  replay [] v = v
  replay (c ∷ cs) v = replay cs (tell c v)

  view_of-same : (e' e : DeltaNeutralEnforcer D) → SameFeeds e' e → view_of e' ≡ view_of e
  unfolding view_of
  view_of-same e' e h = λ i. record {
    positions = λ p. find before p (h.positions i);
    mark_prices = λ p. find before p (h.mark_prices i);
    index_prices = λ p. find before p (h.index_prices i);
    funding_rates = λ p. find before p (h.funding_rates i);
    last_heartbeat = λ p. find before p (h.last_heartbeat i);
    adl_queue_positions = λ p. find before p (h.adl_queue_positions i);
    stablecoin_prices = λ p. find before p (h.stablecoin_prices i);
  }

module _ {D : Type 0} ⦃d : Double D⦄ (show : D → String) where
  perform-refines :
      (c : ℕ × Call D) (e : DeltaNeutralEnforcer D)
      → view_of (perform show c e) ≡ tell c (view_of e)
  unfolding perform tell view_of
  perform-refines (now, updates_position p) e = λ i. record (view_of e) {
    positions = λ q. find-update q (make_key p.venue p.instrument) p e.positions i;
  }
  perform-refines (now, updates_mark venue instrument mark_price index_price) e = λ i.
      record (view_of e) {
        mark_prices = λ q. find-update q (make_key venue instrument) mark_price e.mark_prices i;
        index_prices = λ q. find-update q (make_key venue instrument) index_price e.index_prices i;
      }
  perform-refines (now, beats venue) e =
      λ i. record (view_of e) { last_heartbeat = λ q. find-update q venue now e.last_heartbeat i }
  perform-refines (now, updates_rate venue rate) e =
      λ i. record (view_of e) { funding_rates = λ q. find-update q venue rate e.funding_rates i }
  perform-refines (now, updates_adl venue queue_position) e = λ i. record (view_of e) {
    adl_queue_positions = λ q. find-update q venue queue_position e.adl_queue_positions i;
  }
  perform-refines (now, updates_stablecoin symbol price) e = λ i. record (view_of e) {
    stablecoin_prices = λ q. find-update q symbol price e.stablecoin_prices i;
  }
  perform-refines (now, updates_equity equity) e = refl
  perform-refines (now, updates_metrics total_oi long_oi short_oi volume average) e = refl
  perform-refines (now, checks_hedge) e = view_of-same _ e (check_hedge_needed-feeds now e)
  perform-refines (now, checks_kill) e = view_of-same _ e (check_kill_conditions-feeds now e)
  perform-refines (now, records_kill s closed_positions) e =
      view_of-same _ e (record_kill-feeds show s closed_positions now e)

  -- After any sequence of calls, hedges and kill checks between them included, a lookup in each map of
  -- positions, prices, rates and heartbeats gives what the last call with that key said, or else what
  -- was there before: the maps refine partial functions.
  pub perform_all-refines :
      (cs : List (ℕ × Call D)) (e : DeltaNeutralEnforcer D)
      → view_of (perform_all show cs e) ≡ replay cs (view_of e)
  unfolding perform_all replay
  perform_all-refines [] e = refl
  perform_all-refines (c ∷ cs) e =
      perform_all-refines cs (perform show c e) ∙ ap (replay cs) (perform-refines c e)
