-- ===== src/Funding/Due.antt =====
-- When the funding settlement engine takes a settlement to be due, and how keys are read back.
use Prim.Native.String.append as append_lem
use Prim.Native.Char.{Char}
use Prim.Native.String.{◌++◌}
use mathlib.Core.List.{Memᴰ}
use mathlib.Core.Option.{some-injective}
use cplusplus_arbitrage.Base.{
  ℕ, ◌≡◌, ◌≤◌, ◌*◌, ap, sym, ◌∙◌, refl, String, Bool, true, false, some, List, [], ◌∷◌, arith,
  if◌then◌else◌, inl, inr, ◌⊎◌,
}
use cplusplus_arbitrage.Double.{Double}
use cplusplus_arbitrage.SortedMap.{Map, find, IsSorted, Above}
use cplusplus_arbitrage.SortedMap.Text.{
  before, find-assign_self, AnyKey, before_irrefl, before-IsKeyOrder,
}
use cplusplus_arbitrage.SortedMap.Order.{assign-IsSorted}
use cplusplus_arbitrage.Funding.{
  FundingSettlementEngine, FundingRate, make_key, parse_key, is_colon, settle_funding,
  update_funding_rate, check_funding_due, due_loop, is_due, get_funding_rate, one_second,
}

-- No character of the text is a colon.
abbrev pub NoColon : String → Type 0
NoColon String.[] = Unit
NoColon (String.◌∷◌ c s) = (is_colon c ≡ false) × NoColon s

parse_key-colon :
    (c : Char) (t : String) → is_colon c ≡ true → parse_key (String.◌∷◌ c "" ++ t) ≡ some ("", t)
unfolding parse_key
parse_key-colon c t h = rw (append_lem.cons c "" t, append_lem.nil t, h)

-- A key is read back as the venue and the instrument that it was made of, if the venue has no colon.
pub parse_key-make_key :
    (venue instrument : String)
    → NoColon venue
    → parse_key (make_key venue instrument) ≡ some (venue, instrument)
unfolding parse_key make_key
parse_key-make_key String.[] instrument h =
    rw (append_lem.nil (":" ++ instrument)) (parse_key-colon ":" instrument refl)
parse_key-make_key (String.◌∷◌ c venue) instrument (h, hs) =
    rw (append_lem.cons c venue (":" ++ instrument), h, parse_key-make_key venue instrument hs)

listed-cases :
    (b : Bool) (key k : String) (rest : List String)
    → Memᴰ key (if b then k ∷ rest else rest)
    → ((b ≡ true) × (key ≡ k)) ⊎ Memᴰ key rest
listed-cases true key k rest (Memᴰ.head e) = inl (refl, e)
listed-cases true key k rest (Memᴰ.tail m) = inr m
listed-cases false key k rest m = inr m

module _ {D : Type 0} where
  due_loop-Above :
      (now : ℕ) (last : Map String ℕ) (key k : String) (m : Map String (FundingRate D))
      → Above before k m
      → Memᴰ key (due_loop now last m)
      → before k key ≡ true
  unfolding due_loop
  due_loop-Above now last key k [] a h = elim h [ ]
  due_loop-Above now last key k ((j, rate) ∷ m) (a, above) h =
      elim (listed-cases (is_due now (find before j last) rate) key j (due_loop now last m) h) [
        | inl (_, e) ↦ rw e a
        | inr h' ↦ due_loop-Above now last key k m above h'
      ]

  -- What is listed as due is the key of a stored rate that is due.
  due_loop-is_due :
      (now : ℕ) (last : Map String ℕ) (key : String) (m : Map String (FundingRate D))
      → IsSorted before AnyKey m
      → Memᴰ key (due_loop now last m)
      → (rate : FundingRate D) × (find before key m ≡ some rate)
        × (is_due now (find before key last) rate ≡ true)
  unfolding due_loop find
  due_loop-is_due now last key [] s h = elim h [ ]
  due_loop-is_due now last key ((k, rate) ∷ m) (_, above, s) h =
      elim (listed-cases (is_due now (find before k last) rate) key k (due_loop now last m) h) [
        | inl (due, e) ↦ (rate, rw (e, before_irrefl k), rw e due)
        | inr h' ↦
            let (x, f, due) = due_loop-is_due now last key m s h' in
            (x, rw (due_loop-Above now last key k m above h') f, due)
      ]

  -- A key whose rate was applied no later than its last settlement is not due, at any time.
  not_due :
      (now t : ℕ) (key : String) (rate : FundingRate D) (e : FundingSettlementEngine D)
      → IsSorted before AnyKey e.funding_rates
      → find before key e.funding_rates ≡ some rate
      → find before key e.last_settlement_time ≡ some t
      → rate.current_funding_time * one_second ≤ t
      → Memᴰ key (check_funding_due now e)
      → ⊥
  unfolding check_funding_due
  not_due now t key rate e s f g h m =
      let (x, f', due) = due_loop-is_due now e.last_settlement_time key e.funding_rates s m in
      let same_rate : rate ≡ x = some-injective _ _ (sym f ∙ f') in
      ground (arith, due, ap (λ r. r.current_funding_time) same_rate)

module _ {D : Type 0} ⦃d : Double D⦄ where
  settle_funding-times :
      (venue instrument : String) (qty mark : D) (now : ℕ) (rate : FundingRate D)
      (e : FundingSettlementEngine D)
      → get_funding_rate venue instrument e ≡ some rate
      → let e' = (settle_funding venue instrument qty mark now e).0 in
        (find before (make_key venue instrument) e'.last_settlement_time ≡ some now)
        × (e'.funding_rates ≡ e.funding_rates)
  unfolding settle_funding get_funding_rate
  settle_funding-times venue instrument qty mark now rate e f =
      ground (arith, find-assign_self (make_key venue instrument) now e.last_settlement_time)

  -- What has been settled is not due again while its rate stays the same, however late it is: from a
  -- settlement not before the time of the current rate, with the stored rates in order of their keys.
  settled_not_due :
      (venue instrument : String) (qty mark : D) (now later : ℕ) (rate : FundingRate D)
      (e : FundingSettlementEngine D)
      → IsSorted before AnyKey e.funding_rates
      → get_funding_rate venue instrument e ≡ some rate
      → rate.current_funding_time * one_second ≤ now
      → ¬ Memᴰ
          (make_key venue instrument)
          (check_funding_due later (settle_funding venue instrument qty mark now e).0)
  unfolding get_funding_rate
  settled_not_due venue instrument qty mark now later rate e s f h =
      let (g, same_rates) = settle_funding-times venue instrument qty mark now rate e f in
      not_due later now (make_key venue instrument) rate _ (rw same_rates s) (rw same_rates f) g h

  -- When a due settlement has been made and the venue then moves on to its next period, whose rate is
  -- applied at the old rate's next funding time, that period is never due: it is taken for settled.
  pub next_period_not_due :
      (qty mark : D) (now later : ℕ) (rate new : FundingRate D) (e : FundingSettlementEngine D)
      → IsSorted before AnyKey e.funding_rates
      → get_funding_rate new.venue new.instrument e ≡ some rate
      → Memᴰ (make_key new.venue new.instrument) (check_funding_due now e)
      → new.current_funding_time ≡ rate.next_funding_time
      → ¬ Memᴰ (make_key new.venue new.instrument) (
          check_funding_due later
            (update_funding_rate new (settle_funding new.venue new.instrument qty mark now e).0))
  unfolding get_funding_rate update_funding_rate check_funding_due
  next_period_not_due qty mark now later rate new e s f m c =
      let key = make_key new.venue new.instrument in
      let (g, same_rates) = settle_funding-times new.venue new.instrument qty mark now rate e f in
      let (x, f', due) = due_loop-is_due now e.last_settlement_time key e.funding_rates s m in
      let same_rate : rate ≡ x = some-injective _ _ (sym f ∙ f') in
      let past : new.current_funding_time * one_second ≤ now =
        ground (arith, due, c, ap (λ r. r.next_funding_time) same_rate) in
      let e' = update_funding_rate new (settle_funding new.venue new.instrument qty mark now e).0 in
      not_due later now key new e'
        (assign-IsSorted before before-IsKeyOrder key new _ tt (rw same_rates s))
        (find-assign_self key new _) g past
