-- ===== src/Position/Restore.antt =====
-- A snapshot of the manager and its restoration.
use mathlib.Core.List.{append_assoc, append-nil}
use cplusplus_arbitrage.Base.{◌≡◌, refl, sym, ap, ◌∙◌, String, true, [], ◌∷◌, ◌++◌, All, All-append}
use cplusplus_arbitrage.SortedMap.{Map, assign, Above}
use cplusplus_arbitrage.SortedMap.Text.{before}
use cplusplus_arbitrage.Types.{Timestamp}
use cplusplus_arbitrage.Position.{
  Position, PositionManager, values, create_snapshot, refile, restore_from_snapshot,
}
use cplusplus_arbitrage.Position.Filed.{IsFiled}

module _ {D : Type 0} where
  assign_last :
      (k : String) (pos : Position D) (m : Map String (Position D))
      → All (λ e. before e.0 k ≡ true) m
      → assign before k pos m ≡ m ++ (k, pos) ∷ []
  unfolding assign
  assign_last k pos [] h = refl
  assign_last k pos ((j, w) ∷ m) (h, hs) = rw h (ap (◌∷◌ (j, w)) (assign_last k pos m hs))

  -- Every key of the first map comes before every key of the second.
  abbrev Before : Map String (Position D) → Map String (Position D) → Type 0
  Before done [] = Unit
  Before done ((k, v) ∷ m) = All (λ e. before e.0 k ≡ true) done × Before done m

  Before-step :
      (done m : Map String (Position D)) (k : String) (v : Position D)
      → Before done m
      → Above before k m
      → Before (done ++ (k, v) ∷ []) m
  Before-step done [] k v b a = tt
  Before-step done ((j, w) ∷ m) k v (b, bs) (a, rest) =
      (All-append _ done ((k, v) ∷ []) b (a, tt), Before-step done m k v bs rest)

  refile-values :
      (m done : Map String (Position D))
      → IsFiled m
      → Before done m
      → refile (values m) done ≡ done ++ m
  unfolding refile
  refile-values [] done f b = sym (append-nil done)
  refile-values ((k, v) ∷ m) done ((_, above, s), (e, es)) (b, bs) =
      ap (λ id. refile (values m) (assign before id v done)) (sym e)
      ∙ ap (refile (values m)) (assign_last k v done b)
      ∙ refile-values m (done ++ (k, v) ∷ []) (s, es) (Before-step done m k v bs above)
      ∙ append_assoc done ((k, v) ∷ []) m

  Before-nil : (m : Map String (Position D)) → Before [] m
  Before-nil [] = tt
  Before-nil (e ∷ m) = (tt, Before-nil m)

  -- A manager that is restored from the snapshot of another has the other's positions and totals, if
  -- those stand under their tokens; only the profit of the day stays its own.
  pub restore-create_snapshot :
      (now : Timestamp) (m other : PositionManager D)
      → IsFiled m.positions
      → restore_from_snapshot (create_snapshot now m) other
        ≡ record m { daily_realized_pnl = other.daily_realized_pnl }
  unfolding restore_from_snapshot create_snapshot
  restore-create_snapshot now m other f =
      ap (λ x. record m { positions = x; daily_realized_pnl = other.daily_realized_pnl })
        (refile-values m.positions [] f (Before-nil m.positions))
