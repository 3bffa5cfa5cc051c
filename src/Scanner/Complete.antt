-- ===== src/Scanner/Complete.antt =====
-- Which opportunities of a scan are detected: the grouping of the quotes by symbol, against their lookup.
use mathlib.Core.List.{Mem, Memᴰ, append-nil, append_assoc}
use mathlib.Core.List.Memᴰ
use cplusplus_arbitrage.Base.{
  ℕ, ◌≡◌, refl, sym, ap, ◌∙◌, subst, String, Bool, true, false, Option, none, some, List, [], ◌∷◌,
  ◌++◌, if◌then◌else◌, arith, All, Bool-cases, inl, inr,
}
use cplusplus_arbitrage.Double.{Double, nought, ◌≻◌}
use cplusplus_arbitrage.SortedMap.{Map, assign, find, same}
use cplusplus_arbitrage.SortedMap.Text.{
  before, before_irrefl, eq_of_same, find-assign_text, find-same,
}
use cplusplus_arbitrage.Scanner.{ExchangeQuote, CrossExchangeOpportunity, MultiExchangeScanner}
use cplusplus_arbitrage.Scanner.Evaluate.{evaluate_pair}
use cplusplus_arbitrage.Scanner.Scan.{is_usable, list_at, group_symbols, group_exchanges, detect}
use cplusplus_arbitrage.Scanner.Told.{keep}
use cplusplus_arbitrage.Scanner.Pairs.{Apart, Apart-first, Apart-second, Apart-later, detect-mem}

module _ {D : Type 0} ⦃d : Double D⦄ (now : ℕ) (e : MultiExchangeScanner D) where
  -- The usable quotes of one symbol, at one exchange and at all.
  unfoldable listed : String → Map String (ExchangeQuote D) → List (ExchangeQuote D)
  listed symbol [] = []
  listed symbol ((k, q) ∷ m) =
      let rest = listed symbol m in
      if same before symbol k then keep (is_usable now e q) q rest else rest

  unfoldable listed_all :
      String → Map String (Map String (ExchangeQuote D)) → List (ExchangeQuote D)
  unfolding listed
  listed_all symbol [] = []
  listed_all symbol ((exchange, m) ∷ rest) = listed symbol m ++ listed_all symbol rest

  -- One turn of the grouping.
  list_at-grown :
      (symbol k : String) (q : ExchangeQuote D) (grouped : Map String (List (ExchangeQuote D)))
      → list_at symbol (
          if is_usable now e q
          then assign before k (list_at k grouped ++ q ∷ []) grouped
          else grouped)
        ≡ list_at symbol grouped
          ++ (if same before symbol k then keep (is_usable now e q) q [] else [])
  list_at-grown symbol k q grouped = ground (
    arith,
    find-assign_text symbol k (list_at k grouped ++ q ∷ []) grouped,
    find-same symbol k grouped,
    append-nil (list_at symbol grouped),
  )

  keep-append :
      (t u : Bool) (q : ExchangeQuote D) (rest : List (ExchangeQuote D))
      → (if t then keep u q [] else []) ++ rest ≡ (if t then keep u q rest else rest)
  keep-append true true q rest = refl
  keep-append true false q rest = refl
  keep-append false u q rest = refl

  list_at-group_symbols :
      (symbol : String) (m : Map String (ExchangeQuote D))
      (grouped : Map String (List (ExchangeQuote D)))
      → list_at symbol (group_symbols now e m grouped) ≡ list_at symbol grouped ++ listed symbol m
  unfolding group_symbols listed
  list_at-group_symbols symbol [] grouped = sym (append-nil (list_at symbol grouped))
  list_at-group_symbols symbol ((k, q) ∷ m) grouped =
      let grown =
        if is_usable now e q
        then assign before k (list_at k grouped ++ q ∷ []) grouped
        else grouped in
      list_at-group_symbols symbol m grown
      ∙ ap (λ l. l ++ listed symbol m) (list_at-grown symbol k q grouped)
      ∙ append_assoc (list_at symbol grouped) _ (listed symbol m)
      ∙ ap (λ l. list_at symbol grouped ++ l)
          (keep-append (same before symbol k) (is_usable now e q) q (listed symbol m))

  list_at-group_exchanges :
      (symbol : String) (quotes : Map String (Map String (ExchangeQuote D)))
      (grouped : Map String (List (ExchangeQuote D)))
      → list_at symbol (group_exchanges now e quotes grouped)
        ≡ list_at symbol grouped ++ listed_all symbol quotes
  unfolding group_exchanges listed_all
  list_at-group_exchanges symbol [] grouped = sym (append-nil (list_at symbol grouped))
  list_at-group_exchanges symbol ((exchange, m) ∷ rest) grouped =
      list_at-group_exchanges symbol rest (group_symbols now e m grouped)
      ∙ ap (λ l. l ++ listed_all symbol rest) (list_at-group_symbols symbol m grouped)
      ∙ append_assoc (list_at symbol grouped) (listed symbol m) (listed_all symbol rest)

  -- The usable quote of a symbol at one exchange, if there is one.
  abbrev pub usable_at : String → Option (Map String (ExchangeQuote D)) → Option (ExchangeQuote D)
  usable_at symbol none = none
  usable_at symbol (some m) = elim (find before symbol m) [
    | none ↦ none
    | some q ↦ if is_usable now e q then some q else none
  ]

  listed-mem :
      (symbol : String) (q : ExchangeQuote D) (m : Map String (ExchangeQuote D))
      → usable_at symbol (some m) ≡ some q
      → Memᴰ q (listed symbol m)
  unfolding listed find
  listed-mem symbol q [] h = absurd (ground arith)
  listed-mem symbol q ((k, r) ∷ m) h = elim (Bool-cases (before k symbol)) [
    | inl f ↦
        let other : same before symbol k ≡ false = ground arith in
        rw other (listed-mem symbol q m (ground arith))
    | inr f ↦ elim (Bool-cases (before symbol k)) [
      | inl g ↦ absurd (ground arith)
      | inr g ↦ elim (Bool-cases (is_usable now e r)) [
        | inl u ↦
            let this : same before symbol k ≡ true = ground arith in
            rw (this, u) (Memᴰ.head (ground arith))
        | inr u ↦ absurd (ground arith)
      ]
    ]
  ]

  listed_all-mem :
      (symbol x : String) (q : ExchangeQuote D) (quotes : Map String (Map String (ExchangeQuote D)))
      → usable_at symbol (find before x quotes) ≡ some q
      → Memᴰ q (listed_all symbol quotes)
  unfolding listed_all find
  listed_all-mem symbol x q [] h = absurd (ground arith)
  listed_all-mem symbol x q ((k, m) ∷ rest) h = elim (Bool-cases (before k x)) [
    | inl f ↦ Memᴰ.append_right (listed symbol m) (listed_all-mem symbol x q rest (ground arith))
    | inr f ↦ elim (Bool-cases (before x k)) [
      | inl g ↦ absurd (ground arith)
      | inr g ↦ Memᴰ.append_left (listed_all symbol rest) (listed-mem symbol q m (ground arith))
    ]
  ]

  listed_all-Apart :
      (symbol x y : String) (b s : ExchangeQuote D)
      (quotes : Map String (Map String (ExchangeQuote D)))
      → same before x y ≡ false
      → usable_at symbol (find before x quotes) ≡ some b
      → usable_at symbol (find before y quotes) ≡ some s
      → Apart b s (listed_all symbol quotes)
  unfolding listed_all find
  listed_all-Apart symbol x y b s [] differ h g = absurd (ground arith)
  listed_all-Apart symbol x y b s ((k, m) ∷ rest) differ h g = elim (Bool-cases (before k x)) [
    | inl kx ↦ elim (Bool-cases (before k y)) [
      | inl ky ↦
          Apart-later (listed symbol m) (listed_all symbol rest)
            (listed_all-Apart symbol x y b s rest differ (ground arith) (ground arith))
      | inr ky ↦
          Apart-second (listed symbol m) (listed_all symbol rest)
            (listed-mem symbol s m (ground arith)) (listed_all-mem symbol x b rest (ground arith))
    ]
    | inr kx ↦ elim (Bool-cases (before k y)) [
      | inl ky ↦
          Apart-first (listed symbol m) (listed_all symbol rest)
            (listed-mem symbol b m (ground arith)) (listed_all-mem symbol y s rest (ground arith))
      | inr ky ↦ elim (Bool-cases (before x k)) [
        | inl xk ↦ absurd (ground arith)
        | inr xk ↦ elim (Bool-cases (before y k)) [
          | inl yk ↦ absurd (ground arith)
          | inr yk ↦
              let equal = sym (eq_of_same k x kx xk) ∙ eq_of_same k y ky yk in
              absurd (
                ground
                  (arith, before_irrefl x, equal, ap (before x) equal, ap (λ z. before z x) equal))
        ]
      ]
    ]
  ]

  -- The opportunity to buy at one exchange's quote and sell at another's, if it pays.
  abbrev pub pays_of :
      Option (ExchangeQuote D) → Option (ExchangeQuote D) → List (CrossExchangeOpportunity D)
  pays_of (some b) (some s) =
      let opp = evaluate_pair b s now e in keep (opp.net_spread_bps ≻ nought) opp []
  pays_of (some b) none = []
  pays_of none s = []

module _ {D : Type 0} ⦃d : Double D⦄ where
  -- The opportunity to buy a symbol at the exchange `x` and to sell it at `y`, if there is one.
  abbrev pub opportunity_between :
      (symbol x y : String) → ℕ → MultiExchangeScanner D → List (CrossExchangeOpportunity D)
  opportunity_between symbol x y now e =
      if same before x y
      then []
      else pays_of now e (usable_at now e symbol (find before x e.quotes))
          (usable_at now e symbol (find before y e.quotes))

  pays_of-found :
      (symbol x y : String) (now : ℕ) (e : MultiExchangeScanner D)
      (buys sells : Option (ExchangeQuote D))
      → same before x y ≡ false
      → usable_at now e symbol (find before x e.quotes) ≡ buys
      → usable_at now e symbol (find before y e.quotes) ≡ sells
      → All
          (λ opp. Mem opp (detect (group_exchanges now e e.quotes []) now e))
          (pays_of now e buys sells)
  unfolding find
  pays_of-found symbol x y now e none sells differ h g = tt
  pays_of-found symbol x y now e (some b) none differ h g = tt
  pays_of-found symbol x y now e (some b) (some s) differ h g =
      elim (Bool-cases ((evaluate_pair b s now e).net_spread_bps ≻ nought)) [
        | inl pays ↦
            let apart =
              subst (λ l. Apart b s l) (sym (list_at-group_exchanges now e symbol e.quotes []))
                (listed_all-Apart now e symbol x y b s e.quotes differ h g) in
            let found =
              detect-mem now e b s pays symbol (group_exchanges now e e.quotes []) apart in
            rw pays (∣ found ∣₁, tt)
        | inr pays ↦ rw pays tt
      ]

  pub detect_complete :
      (symbol x y : String) (now : ℕ) (e : MultiExchangeScanner D)
      → All
          (λ opp. Mem opp (detect (group_exchanges now e e.quotes []) now e))
          (opportunity_between symbol x y now e)
  detect_complete symbol x y now e = elim (Bool-cases (same before x y)) [
    | inl h ↦ rw h tt
    | inr h ↦ rw h (pays_of-found symbol x y now e _ _ h refl refl)
  ]
