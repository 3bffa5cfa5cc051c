-- ===== src/Scanner/Told.antt =====
-- What a scan over all exchanges does with the opportunities that it has detected: it counts them, tells the
-- actionable ones, and sorts them.
use mathlib.Core.List.{Perm, perm_middle, append-nil, append_assoc}
use mathlib.Core.List.Perm
use cplusplus_arbitrage.Base.{
  ◌+◌, length, ◌≡◌, refl, sym, ◌∙◌, subst, true, false, List, [], ◌∷◌, ◌++◌, if◌then◌else◌, arith,
  Bool, Bool-cases, inl, inr,
}
use cplusplus_arbitrage.Double.{Double, ◌≺◌}
use cplusplus_arbitrage.Scanner.{CrossExchangeOpportunity, MultiExchangeScanner}
use cplusplus_arbitrage.Scanner.Scan.{count, count_all, insert_opp, sort_opps}

abbrev pub keep {ℓ} : {A : Type ℓ} → Bool → A → List A → List A
keep t a rest = if t then a ∷ rest else rest

module _ {ℓ} {A : Type ℓ} where
  keep-perm : (t : Bool) (a : A) {xs ys : List A} → Perm xs ys → Perm (keep t a xs) (keep t a ys)
  keep-perm true a p = Perm.cons a p
  keep-perm false a p = p

  keep-swap :
      (s t : Bool) (a b : A) (xs : List A) → Perm (keep t b (keep s a xs)) (keep s a (keep t b xs))
  keep-swap true true a b xs = Perm.swap a b xs
  keep-swap true false a b xs = Perm.refl (a ∷ xs)
  keep-swap false true a b xs = Perm.refl (b ∷ xs)
  keep-swap false false a b xs = Perm.refl xs

  -- The values `xs`, in some order, were put before `earlier`.
  abbrev pub Prepended : (xs earlier later : List A) → Type ℓ
  Prepended xs earlier later = (told : List A) × (later ≡ told ++ earlier) × Perm told xs

  Prepended-keep :
      (t : Bool) (a : A) (xs earlier later : List A)
      → Prepended xs (keep t a earlier) later
      → Prepended (keep t a xs) earlier later
  Prepended-keep true a xs earlier later (told, e, p) = (
    told ++ a ∷ [],
    e ∙ sym (append_assoc told (a ∷ []) earlier),
    Perm.trans (perm_middle told [])
        (Perm.cons a (subst (λ l. Perm l xs) (sym (append-nil told)) p)),
  )
  Prepended-keep false a xs earlier later h = h

module _ {D : Type 0} where
  abbrev pub actionable_of : List (CrossExchangeOpportunity D) → List (CrossExchangeOpportunity D)
  actionable_of [] = []
  actionable_of (a ∷ rest) = keep a.is_actionable a (actionable_of rest)

module _ {D : Type 0} ⦃d : Double D⦄ where
  insert_opp-perm :
      (a : CrossExchangeOpportunity D) (bs : List (CrossExchangeOpportunity D))
      → Perm (insert_opp a bs) (a ∷ bs)
        × Perm (actionable_of (insert_opp a bs)) (actionable_of (a ∷ bs))
  unfolding insert_opp
  insert_opp-perm a [] = (Perm.refl (a ∷ []), Perm.refl (actionable_of (a ∷ [])))
  insert_opp-perm a (b ∷ bs) = elim (Bool-cases (a.net_spread_bps ≺ b.net_spread_bps)) [
    | inl h ↦
        let (all, some_of) = insert_opp-perm a bs in
        rw h (
          Perm.trans (Perm.cons b all) (Perm.swap a b bs),
          Perm.trans (keep-perm b.is_actionable b some_of)
              (keep-swap a.is_actionable b.is_actionable a b (actionable_of bs)),
        )
    | inr h ↦ rw h (Perm.refl (a ∷ b ∷ bs), Perm.refl (actionable_of (a ∷ b ∷ bs)))
  ]

  insert_opp-counts :
      (a : CrossExchangeOpportunity D) (bs : List (CrossExchangeOpportunity D))
      → (length (insert_opp a bs) ≡ length bs + 1)
        × (length (actionable_of (insert_opp a bs)) ≡ length (actionable_of (a ∷ bs)))
  unfolding insert_opp
  insert_opp-counts a [] = (refl, refl)
  insert_opp-counts a (b ∷ bs) = ground (arith, insert_opp-counts a bs)

  pub sort_opps-counts :
      (bs : List (CrossExchangeOpportunity D))
      → (length (sort_opps bs) ≡ length bs)
        × (length (actionable_of (sort_opps bs)) ≡ length (actionable_of bs))
  unfolding sort_opps
  sort_opps-counts [] = (refl, refl)
  sort_opps-counts (b ∷ bs) =
      ground (arith, insert_opp-counts b (sort_opps bs), sort_opps-counts bs)

  pub sort_opps-perm :
      (bs : List (CrossExchangeOpportunity D))
      → Perm (sort_opps bs) bs × Perm (actionable_of (sort_opps bs)) (actionable_of bs)
  unfolding sort_opps
  sort_opps-perm [] = (Perm.refl [], Perm.refl [])
  sort_opps-perm (b ∷ bs) =
      let (all, some_of) = insert_opp-perm b (sort_opps bs) in
      let (rest, some_of_rest) = sort_opps-perm bs in
      (
        Perm.trans all (Perm.cons b rest),
        Perm.trans some_of (keep-perm b.is_actionable b some_of_rest),
      )

  pub count_all-Prepended :
      (opps : List (CrossExchangeOpportunity D)) (e : MultiExchangeScanner D)
      → let e' = count_all opps e in
        (e' ≡ record e { stats = e'.stats; opportunity_log = e'.opportunity_log })
        × Prepended (actionable_of opps) e.opportunity_log e'.opportunity_log
        × (e'.stats.opportunities_detected ≡ e.stats.opportunities_detected + length opps)
        × (e'.stats.actionable_opportunities
            ≡ e.stats.actionable_opportunities + length (actionable_of opps))
        × (e'.stats.scan_count ≡ e.stats.scan_count)
  unfolding count_all
  count_all-Prepended [] e = (refl, ([], refl, Perm.refl []), omega arith, omega arith, refl)
  count_all-Prepended (opp ∷ opps) e =
      let (frame, told, detected, actionable, scans) = count_all-Prepended opps (count opp e) in
      (
        frame,
        Prepended-keep opp.is_actionable opp (actionable_of opps) e.opportunity_log _ told,
        ground (arith, detected),
        ground (arith, actionable),
        scans,
      )
