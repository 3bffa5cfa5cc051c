-- ===== src/Order/Accounts.antt =====
-- The sizes and fees of an order over its whole life.
use mathlib.Core.List.{append_assoc, append-nil}
use cplusplus_arbitrage.Base.{ℕ, String, ◌≡◌, refl, sym, ap, ◌∙◌, List, [], ◌∷◌, ◌++◌, arith}
use cplusplus_arbitrage.Double.{Double, nought, ◌⊕◌}
use cplusplus_arbitrage.Types.{Fill, Timestamp, Side, OrderType}
use cplusplus_arbitrage.Order.{
  Order, mark_sent, mark_acknowledged, mark_canceled, mark_rejected, mark_partial_fill, mark_filled,
  new_order,
}

-- One call of an order's method.
pub data Event (D : Type 0) : Type 0 where
  goes_out : Event D
  is_acked : String → ℕ → Event D
  fills_part : Fill D → Event D
  fills_whole : Event D
  is_canceled : Event D
  is_refused : String → Event D

module _ {D : Type 0} where
  abbrev pub fill_of : Event D → List (Fill D)
  fill_of (fills_part f) = f ∷ []
  fill_of _ = []

  abbrev pub all_fills : List (Timestamp × Event D) → List (Fill D)
  all_fills [] = []
  all_fills ((t, e) ∷ es) = fill_of e ++ all_fills es

module _ {D : Type 0} ⦃d : Double D⦄ where
  unfoldable pub occur : Timestamp → Event D → Order D → Order D
  unfolding mark_sent mark_acknowledged mark_canceled mark_rejected mark_filled mark_partial_fill
  occur now goes_out o = mark_sent now o
  occur now (is_acked id ms) o = mark_acknowledged id ms now o
  occur now (fills_part f) o = mark_partial_fill f now o
  occur now fills_whole o = mark_filled now o
  occur now is_canceled o = mark_canceled now o
  occur now (is_refused r) o = mark_rejected r now o

  unfoldable pub life : List (Timestamp × Event D) → Order D → Order D
  unfolding occur
  life [] o = o
  life ((t, e) ∷ es) o = life es (occur t e o)

  abbrev pub sum_fills : (Fill D → D) → D → List (Fill D) → D
  sum_fills value total [] = total
  sum_fills value total (f ∷ fs) = sum_fills value (total ⊕ value f) fs

  sum_fills-append :
      (value : Fill D → D) (total : D) (xs ys : List (Fill D))
      → sum_fills value total (xs ++ ys) ≡ sum_fills value (sum_fills value total xs) ys
  sum_fills-append value total [] ys = refl
  sum_fills-append value total (x ∷ xs) ys = sum_fills-append value (total ⊕ value x) xs ys

  -- The order's own record of its fills.
  pub record IsAccounted (o : Order D) : Type 0 where
    pub sizes : o.filled_size ≡ sum_fills (λ f. f.size) nought o.fills
    pub fees : o.total_fees ≡ sum_fills (λ f. f.fee) nought o.fills

  occur-IsAccounted :
      (now : Timestamp) (e : Event D) (o : Order D) → IsAccounted o → IsAccounted (occur now e o)
  unfolding occur
  occur-IsAccounted now goes_out o a = record { sizes = a.sizes; fees = a.fees }
  occur-IsAccounted now (is_acked id ms) o a = record { sizes = a.sizes; fees = a.fees }
  occur-IsAccounted now (fills_part f) o a = ground (
    arith,
    sum_fills-append (λ x. x.size) nought o.fills (f ∷ []),
    sum_fills-append (λ x. x.fee) nought o.fills (f ∷ []),
  )
  occur-IsAccounted now fills_whole o a = record { sizes = a.sizes; fees = a.fees }
  occur-IsAccounted now is_canceled o a = record { sizes = a.sizes; fees = a.fees }
  occur-IsAccounted now (is_refused r) o a = record { sizes = a.sizes; fees = a.fees }

  fills-occur :
      (now : Timestamp) (e : Event D) (o : Order D) → (occur now e o).fills ≡ o.fills ++ fill_of e
  unfolding occur
  fills-occur now goes_out o = sym (append-nil o.fills)
  fills-occur now (is_acked id ms) o = sym (append-nil o.fills)
  fills-occur now (fills_part f) o = ground arith
  fills-occur now fills_whole o = sym (append-nil o.fills)
  fills-occur now is_canceled o = sym (append-nil o.fills)
  fills-occur now (is_refused r) o = sym (append-nil o.fills)

  life-fills :
      (es : List (Timestamp × Event D)) (o : Order D) → (life es o).fills ≡ o.fills ++ all_fills es
  unfolding life
  life-fills [] o = sym (append-nil o.fills)
  life-fills ((t, e) ∷ es) o =
      life-fills es (occur t e o)
      ∙ ap (λ x. x ++ all_fills es) (fills-occur t e o)
      ∙ append_assoc o.fills (fill_of e) (all_fills es)

  life-IsAccounted :
      (es : List (Timestamp × Event D)) (o : Order D) → IsAccounted o → IsAccounted (life es o)
  unfolding life
  life-IsAccounted [] o a = a
  life-IsAccounted ((t, e) ∷ es) o a = life-IsAccounted es _ (occur-IsAccounted t e o a)

  -- After any calls of its methods a new order holds just the fills that it was given, in order;
  -- its filled size and its fees are their sizes and their fees, added up from 0.0 in that order.
  pub life_of_new_order :
      (id strategy_name market_id token_id : String) (side : Side) (type : OrderType)
      (price size : D) (now : Timestamp) (es : List (Timestamp × Event D))
      → let o = life es (new_order id strategy_name market_id token_id side type price size now) in
        (o.fills ≡ all_fills es)
        × (o.filled_size ≡ sum_fills (λ f. f.size) nought (all_fills es))
        × (o.total_fees ≡ sum_fills (λ f. f.fee) nought (all_fills es))
  unfolding new_order
  life_of_new_order id strategy_name market_id token_id side type price size now es =
      let start = new_order id strategy_name market_id token_id side type price size now in
      let a = life-IsAccounted es start (record { sizes = refl; fees = refl }) in
      let f = life-fills es start in
      (
        f,
        a.sizes ∙ ap (sum_fills (λ x. x.size) nought) f,
        a.fees ∙ ap (sum_fills (λ x. x.fee) nought) f,
      )
