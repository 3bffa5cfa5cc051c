-- ===== src/Execution/Cancel.antt =====
-- What `cancel_order` and `cancel_all` do to every order.
use mathlib.Core.List.{append-nil}
use cplusplus_arbitrage.Base.{
  ◌≡◌, refl, String, Bool, true, false, ◌&&◌, not, Option, none, some, List, [], ◌∷◌, ◌++◌, map,
  arith, Option-cases, inl, inr, if◌then◌else◌,
}
use cplusplus_arbitrage.SortedMap.{Map, find, same}
use cplusplus_arbitrage.SortedMap.Text.{before, find-assign_text, find-assign_self}
use cplusplus_arbitrage.Types.{Timestamp}
use cplusplus_arbitrage.Order.{Order, is_terminal, mark_canceled, mark_acknowledged}
use cplusplus_arbitrage.Execution.{
  Engine, cancel_order, cancel_all, cancel_loop, select, get_open_orders, get_order,
  exchange_cancels, handle_order_response, respond,
}
use cplusplus_arbitrage.Execution.Exchange.{OrderResponse}
use cplusplus_arbitrage.Execution.Change.{on_found, get_order-change_order}

abbrev pub to_list {ℓ} : {A : Type ℓ} → Option A → List A
to_list none = []
to_list (some a) = a ∷ []

module _ {D : Type 0} where
  abbrev pub may_cancel : Engine D → Option (Order D) → Bool
  may_cancel e none = false
  may_cancel e (some o) = not (is_terminal o) && exchange_cancels o e

  -- `cancel_order` succeeds exactly on a stored order that is not terminal and that the exchange, where it
  -- is asked, lets go. It then marks that order CANCELED, tells the callback of it, and changes no other
  -- order and nothing else of the engine; if it fails it changes nothing at all.
  pub cancel_order_lem :
      (id p : String) (now : Timestamp) (e : Engine D)
      → let (e', done) = cancel_order id now e in
        (done ≡ may_cancel e (get_order id e))
        × (get_order p e' ≡ (
            if done && same before p id
            then on_found (mark_canceled now) (get_order id e)
            else get_order p e))
        × (e'.order_log ≡ e.order_log ++ (if done then to_list (get_order id e') else []))
        × (e' ≡ (if done then record e { orders = e'.orders; order_log = e'.order_log } else e))
  unfolding cancel_order get_order
  cancel_order_lem id p now e = elim (Option-cases (find before id e.orders)) [
    | inl h ↦ ground (arith, append-nil e.order_log)
    | inr (o, h) ↦ ground (
      arith,
      find-assign_text p id (mark_canceled now o) e.orders,
      append-nil e.order_log,
      find-assign_self id (mark_canceled now o) e.orders,
      find-assign_text id id (mark_canceled now o) e.orders,
    )
  ]

  abbrev pub end_open : Timestamp → Order D → Order D
  end_open now o = if is_terminal o then o else mark_canceled now o

  select-cancel_loop :
      (now : Timestamp) (m : Map String (Order D))
      → (select (λ o. not (is_terminal o)) (cancel_loop now m).0 ≡ [])
        × ((cancel_loop now m).1 ≡ map (mark_canceled now) (select (λ o. not (is_terminal o)) m))
  unfolding select cancel_loop is_terminal mark_canceled
  select-cancel_loop now [] = (refl, refl)
  select-cancel_loop now ((id, o) ∷ m) = ground (arith, select-cancel_loop now m)

  find-cancel_loop :
      (p : String) (now : Timestamp) (m : Map String (Order D))
      → find before p (cancel_loop now m).0 ≡ on_found (end_open now) (find before p m)
  unfolding find cancel_loop
  find-cancel_loop p now [] = refl
  find-cancel_loop p now ((id, o) ∷ m) = ground (arith, find-cancel_loop p now m)

  -- `cancel_all` leaves no order open: every order that was not terminal is CANCELED, a terminal one stays
  -- as it was, and the callback hears of the canceled ones in the order of their names.
  pub cancel_all_lem :
      (p : String) (now : Timestamp) (e : Engine D)
      → let e' = (cancel_all now e).0 in
        (get_open_orders e' ≡ [])
        × (get_order p e' ≡ on_found (end_open now) (get_order p e))
        × (e'.order_log ≡ e.order_log ++ map (mark_canceled now) (get_open_orders e))
  unfolding cancel_all get_open_orders get_order
  cancel_all_lem p now e =
      ground (arith, find-cancel_loop p now e.orders, select-cancel_loop now e.orders)

  -- An answer of the exchange that comes after an order's cancellation opens the order again.
  reopened :
      (id : String) (o : Order D) (response : OrderResponse) (now later : Timestamp) (e : Engine D)
      → get_order id e ≡ some o
      → response.success ≡ true
      → on_found is_terminal
          (get_order id (handle_order_response id response later (cancel_order id now e).0))
        ≡ some false
  unfolding get_order handle_order_response is_terminal mark_acknowledged
  reopened id o response now later e f h = ground (
    arith,
    get_order-change_order id (respond response later) (cancel_order id now e).0,
    cancel_order_lem id id now e,
  )
