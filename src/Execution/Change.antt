-- ===== src/Execution/Change.antt =====
-- How the engine's helpers change the order that a name finds.
use cplusplus_arbitrage.Base.{◌≡◌, String, Option, none, some, arith, Option-cases, inl, inr}
use cplusplus_arbitrage.SortedMap.{find}
use cplusplus_arbitrage.SortedMap.Text.{before, find-assign_self}
use cplusplus_arbitrage.Order.{Order}
use cplusplus_arbitrage.Execution.{Engine, change_order, get_order, store}

module _ {D : Type 0} where
  abbrev pub on_found {ℓ} : {A : Type ℓ} → (Order D → A) → Option (Order D) → Option A
  on_found f none = none
  on_found f (some o) = some (f o)

  pub get_order-change_order :
      (id : String) (f : Order D → Order D) (e : Engine D)
      → get_order id (change_order id f e) ≡ on_found f (get_order id e)
  unfolding get_order change_order
  get_order-change_order id f e = elim (Option-cases (find before id e.orders)) [
    | inl h ↦ ground arith
    | inr (o, h) ↦ ground (arith, find-assign_self id (f o) e.orders)
  ]

  pub get_order-store :
      (o : Order D) (e : Engine D) → get_order o.client_order_id (store o e) ≡ some o
  unfolding get_order store
  get_order-store o e = find-assign_self o.client_order_id o e.orders
