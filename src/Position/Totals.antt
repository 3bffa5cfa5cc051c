-- ===== src/Position/Totals.antt =====
-- The manager's totals against the sums over its positions.
use cplusplus_arbitrage.Base.{
  ◌≡◌, refl, sym, ap, ◌∙◌, String, Option, none, some, [], ◌∷◌, arith, Option-cases, Bool-cases,
  if◌then◌else◌, inl, inr,
}
use text.Mathlib.Text.{◌==◌}
use cplusplus_arbitrage.Double.{Double, nought, ◌⊕◌, ◌⊖◌}
use cplusplus_arbitrage.Double.Laws.{IsExact}
use cplusplus_arbitrage.SortedMap.{Map, assign, find}
use cplusplus_arbitrage.SortedMap.Text.{before}
use cplusplus_arbitrage.Types.{Fill, Timestamp}
use cplusplus_arbitrage.Position.{
  Position, PositionManager, sum_of, record_fill, or_new, new_position, apply_fill_to_position,
  mark_to_market, mark_position, settle_loop, settlement_pnl, record_settlement, adds_to, realized,
}

module _ {D : Type 0} ⦃d : Double D⦄ where
  -- The totals are the sums over all positions.
  pub record IsBalanced (m : PositionManager D) : Type 0 where
    pub pnl : m.total_realized_pnl ≡ sum_of (λ pos. pos.realized_pnl) nought m.positions
    pub fees : m.total_fees ≡ sum_of (λ pos. pos.total_fees) nought m.positions

  abbrev value_or_nought : (Position D → D) → Option (Position D) → D
  value_or_nought value none = nought
  value_or_nought value (some pos) = value pos

  module _ (laws : IsExact D) where
    open laws use {add_assoc, add_comm, add-zero}

    zero_add : (a : D) → nought ⊕ a ≡ a
    zero_add a = add_comm nought a ∙ add-zero a

    add_right_comm : (a b c : D) → a ⊕ b ⊕ c ≡ a ⊕ c ⊕ b
    add_right_comm a b c = add_assoc a b c ∙ ap (d.add a) (add_comm b c) ∙ sym (add_assoc a c b)

    sum_of_shift :
        (value : Position D → D) (total extra : D) (m : Map String (Position D))
        → sum_of value (total ⊕ extra) m ≡ sum_of value total m ⊕ extra
    sum_of_shift value total extra [] = refl
    sum_of_shift value total extra ((id, pos) ∷ m) =
        rw (add_right_comm total extra (value pos)) (sum_of_shift value (total ⊕ value pos) extra m)

    -- A written position moves the sum by what it moves the value that stood under its key.
    sum_of-assign :
        (value : Position D → D) (k : String) (pos : Position D) (change : D) (total : D)
        (m : Map String (Position D))
        → value pos ≡ value_or_nought value (find before k m) ⊕ change
        → sum_of value total (assign before k pos m) ≡ sum_of value total m ⊕ change
    unfolding assign find
    sum_of-assign value k pos change total [] h = rw (h, zero_add change)
    sum_of-assign value k pos change total ((j, w) ∷ m) h = elim (Bool-cases (before j k)) [
      | inl e ↦ rw e (sum_of-assign value k pos change (total ⊕ value w) m (rw e at h))
      | inr e ↦ elim (Bool-cases (before k j)) [
        | inl f ↦
            let new : value pos ≡ change = (rw (e, f) at h) ∙ zero_add change in
            let moved : total ⊕ value pos ⊕ value w ≡ total ⊕ value w ⊕ change =
              rw new (add_right_comm total change (value w)) in
            rw (e, f)
              (ap (λ t. sum_of value t m) moved ∙ sum_of_shift value (total ⊕ value w) change m)
        | inr f ↦
            let old : value pos ≡ value w ⊕ change = rw (e, f) at h in
            let moved : total ⊕ value pos ≡ total ⊕ value w ⊕ change =
              rw old (sym (add_assoc total (value w) change)) in
            rw (e, f)
              (ap (λ t. sum_of value t m) moved ∙ sum_of_shift value (total ⊕ value w) change m)
      ]
    ]

    or_new-value :
        (value : Position D → D) (f : Fill D) (now : Timestamp) (o : Option (Position D))
        → value (new_position f now) ≡ nought
        → value (or_new f now o) ≡ value_or_nought value o
    or_new-value value f now none h = h
    or_new-value value f now (some pos) h = refl

    -- What a fill adds to the profit.
    profit : Fill D → Position D → D
    profit f pos = if adds_to f pos then nought else realized f pos ⊖ f.fee

    apply_fill-profit :
        (f : Fill D) (now : Timestamp) (m : PositionManager D) (pos : Position D)
        → let (m', pos') = apply_fill_to_position f now m pos in
          (m'.total_realized_pnl ≡ m.total_realized_pnl ⊕ profit f pos)
          × (pos'.realized_pnl ≡ pos.realized_pnl ⊕ profit f pos)
          × (pos'.total_fees ≡ pos.total_fees ⊕ f.fee)
    unfolding apply_fill_to_position profit
    apply_fill-profit f now m pos =
        ground (arith, add-zero m.total_realized_pnl, add-zero pos.realized_pnl)

    -- A fill keeps the totals of profit and fees equal to the sums over the positions, if sums do not
    -- round.
    pub record_fill-IsBalanced :
        (f : Fill D) (now : Timestamp) (m : PositionManager D)
        → IsBalanced m
        → IsBalanced (record_fill f now m)
    unfolding record_fill new_position
    record_fill-IsBalanced f now m b =
        let o = find before f.token_id m.positions in
        let pos = or_new f now o in
        let (booked, profits, fees) = apply_fill-profit f now m pos in
        let pos' = (apply_fill_to_position f now m pos).1 in
        record {
          pnl =
              booked
              ∙ ap (λ t. t ⊕ profit f pos) b.pnl
              ∙ sym (
                  sum_of-assign (λ x. x.realized_pnl) f.token_id pos' (profit f pos) nought
                    m.positions
                    (profits
                      ∙ ap (λ t. t ⊕ profit f pos)
                          (or_new-value (λ x. x.realized_pnl) f now o refl)));
          fees =
              ap (λ t. t ⊕ f.fee) b.fees
              ∙ sym (
                  sum_of-assign (λ x. x.total_fees) f.token_id pos' f.fee nought m.positions
                    (fees ∙ ap (λ t. t ⊕ f.fee) (or_new-value (λ x. x.total_fees) f now o refl)));
        }

    -- A mark changes neither the profits nor the fees.
    pub mark_to_market-IsBalanced :
        (token : String) (mark : D) (m : PositionManager D)
        → IsBalanced m
        → IsBalanced (mark_to_market token mark m)
    unfolding mark_to_market
    mark_to_market-IsBalanced token mark m b = elim (Option-cases (find before token m.positions)) [
      | inl e ↦ rw (e, mark_to_market) b
      | inr (pos, e) ↦
          rw (e, mark_to_market)
            (record {
              pnl =
                  b.pnl
                  ∙ sym (add-zero _)
                  ∙ sym (
                      sum_of-assign (λ x. x.realized_pnl) token (mark_position mark pos) nought
                        nought m.positions (rw e (sym (add-zero _))));
              fees =
                  b.fees
                  ∙ sym (add-zero _)
                  ∙ sym (
                      sum_of-assign (λ x. x.total_fees) token (mark_position mark pos) nought nought
                        m.positions (rw e (sym (add-zero _))));
            })
    ]

    settle_loop-pnl :
        (market winner : String) (now : Timestamp) (m : Map String (Position D)) (total t : D)
        → total ≡ sum_of (λ pos. pos.realized_pnl) t m
        → let (m', end) = settle_loop market winner now m total in
          end ≡ sum_of (λ pos. pos.realized_pnl) t m'
    unfolding settle_loop
    settle_loop-pnl market winner now [] total t h = h
    settle_loop-pnl market winner now ((id, pos) ∷ m) total t h =
        elim (Bool-cases (pos.market_id == market)) [
          | inl e ↦
              let p = settlement_pnl winner id pos in
              rw e (
                settle_loop-pnl market winner now m (total ⊕ p) (t ⊕ (pos.realized_pnl ⊕ p)) (
                  ap (λ x. x ⊕ p) h
                  ∙ sym (sum_of_shift (λ x. x.realized_pnl) (t ⊕ pos.realized_pnl) p m)
                  ∙ ap (λ x. sum_of (λ y. y.realized_pnl) x m) (add_assoc t pos.realized_pnl p)))
          | inr e ↦ rw e (settle_loop-pnl market winner now m total (t ⊕ pos.realized_pnl) h)
        ]

    settle_loop-fees :
        (market winner : String) (now : Timestamp) (m : Map String (Position D)) (total t : D)
        → sum_of (λ pos. pos.total_fees) t (settle_loop market winner now m total).0
          ≡ sum_of (λ pos. pos.total_fees) t m
    unfolding settle_loop
    settle_loop-fees market winner now [] total t = refl
    settle_loop-fees market winner now ((id, pos) ∷ m) total t =
        elim (Bool-cases (pos.market_id == market)) [
          | inl e ↦ rw e (settle_loop-fees market winner now m _ (t ⊕ pos.total_fees))
          | inr e ↦ rw e (settle_loop-fees market winner now m total (t ⊕ pos.total_fees))
        ]

    -- So does the settlement of a market, whatever it pays.
    pub record_settlement-IsBalanced :
        (market winner : String) (now : Timestamp) (m : PositionManager D)
        → IsBalanced m
        → IsBalanced (record_settlement market winner now m)
    unfolding record_settlement
    record_settlement-IsBalanced market winner now m b = record {
      pnl = settle_loop-pnl market winner now m.positions m.total_realized_pnl nought b.pnl;
      fees =
          b.fees ∙ sym (settle_loop-fees market winner now m.positions m.total_realized_pnl nought);
    }
