-- ===== src/Orders/Lifecycle.antt =====
-- The database of the orders domain under any sequence of its transactions, one after the other: a
-- step relation, and what every sequence keeps.
pub mod Held
use rd_shop_backend.Base.{
  ◌≡◌, refl, ◌∙◌, ◌≢◌, true, Bool, Option, none, some, List, [], ◌∷◌, arith, RowId, Option-cases,
  inl, inr, is_some, any, if◌then◌else◌,
}
use rd_shop_backend.Base.Int.{ℤ, pos, ◌+ℤ◌, ◌-ℤ◌, int_laws}
use rd_shop_backend.Base.Table.{find, save, find_fields, find-save}
use rd_shop_backend.Base.Outcome.{Result, ok, err}
use rd_shop_backend.Orders.Model.{
  OrderStatus, cancelled, created, pending, processed, paid, Product, product_entity, User, Order,
  order_entity, StockItem, CreateOrder, ProcessMessage, Db,
}
use rd_shop_backend.Orders.Stock.Demand.{demand, deduct, refill}
use rd_shop_backend.Orders.Command.{
  Env, product_ids_of, order_transaction, check_cancellable, cancel_and_restore, stock_items,
}
use rd_shop_backend.Orders.Command.Keys.{order_transaction-Committed}
use rd_shop_backend.Orders.Command.Creation.{transaction_stores}
use rd_shop_backend.Orders.Command.Cancellation.{
  cancelled_row, check_cancellable_lem, cancel_and_restore_lem,
}
use rd_shop_backend.Orders.Processing.{WorkEnv, claim, set_paid}
use rd_shop_backend.Orders.Lifecycle.Held.{
  weight, held, held-order_transaction, held-cancel_and_restore, held-claim, held-set_paid,
}

-- One transaction of the domain. A new order has an unused id; a payment is recorded for an order
-- that is not cancelled.
pub data Step : Db → Db → Type 0 where
  places :
      {d d' : Db} (env : Env) (dto : CreateOrder) (user : User) (o : Order)
      → find env.order_id d.orders ≡ none
      → order_transaction env dto user (product_ids_of dto) d ≡ (ok o, d')
      → Step d d'
  cancels :
      {d : Db} (order_id user_id : RowId) (o : Order)
      → check_cancellable order_id user_id d ≡ (ok o, d)
      → Step d (cancel_and_restore o d).1
  claims :
      {d d' : Db} (env : WorkEnv) (msg : ProcessMessage) (r : Option Order)
      → claim env msg d ≡ (ok r, d')
      → Step d d'
  pays :
      {d d' : Db} (order_id payment_id : RowId) (o : Order)
      → find order_id d.orders ≡ some o
      → o.status ≢ cancelled
      → set_paid order_id payment_id d ≡ (ok tt, d')
      → Step d d'

pub data Reach (d : Db) : Db → Type 0 where
  here : Reach d d
  next : {d' d'' : Db} → Reach d d' → Step d' d'' → Reach d d''

abbrev pub stock_of : Option Product → ℤ
stock_of none = pos 0
stock_of (some p) = p.stock

-- What there is of a product: its stock, and what the orders hold that are not cancelled.
pub balance : RowId → Db → ℤ
balance k d = stock_of (find k d.products) +ℤ held k d.orders

refill_stock :
    (n : ℤ) (o : Option Product) → is_some o ≡ true → stock_of (refill n o) ≡ stock_of o +ℤ n
refill_stock n none h = cc
refill_stock n (some p) h = refl

deduct_stock :
    (n : ℤ) (o : Option Product) → is_some o ≡ true → stock_of (deduct n o) ≡ stock_of o -ℤ n
deduct_stock n none h = cc
deduct_stock n (some p) h = refl

moved_out : (s n h : ℤ) → s -ℤ n +ℤ (h +ℤ n) ≡ s +ℤ h
moved_out s n h = omega int_laws

moved_back : (s n h : ℤ) → s +ℤ n +ℤ h ≡ s +ℤ (h +ℤ n)
moved_back s n h = omega int_laws

Step-balance :
    (k : RowId) {d d' : Db}
    → Step d d'
    → is_some (find k d.products) ≡ true
    → (is_some (find k d'.products) ≡ true) × (balance k d' ≡ balance k d)
unfolding balance
Step-balance k {d} {d'} (places env dto user o fresh h) there =
    let c = order_transaction-Committed env dto user (product_ids_of dto) o d d' h in
    let n = demand k dto.items in
    ground (
      arith,
      (transaction_stores env dto user o d d' c k).1,
      held-order_transaction k env dto user o d d' fresh h,
      deduct_stock n (find k d.products),
      moved_out (stock_of (find k d.products)) n (held k d.orders),
    )
Step-balance k {d} (cancels order_id user_id o h) there =
    let n = demand k (stock_items o.items) in
    let (found, owner, open_before, _) = (check_cancellable_lem order_id user_id o d).0 h in
    let d' = (cancel_and_restore o d).1 in
    let own : find o.id d.orders ≡ some o = ground (arith, find_fields order_id o d.orders found) in
    ground (
      arith,
      (cancel_and_restore_lem o d k).2,
      held-cancel_and_restore k o d own open_before,
      refill_stock n (find k d.products),
      moved_back (stock_of (find k d.products)) n (held k d'.orders),
    )
Step-balance k {d} {d'} (claims env msg r h) there = ground (arith, held-claim k env msg r d d' h)
Step-balance k {d} {d'} (pays order_id payment_id o found open_before h) there =
    ground (arith, held-set_paid k order_id payment_id o d d' found open_before h)

-- Stock is conserved: in any sequence of transactions one after the other (creations under unused
-- ids, cancellations, processed messages, and payments recorded for orders that are not cancelled),
-- the stock of a live product and what the orders that are not cancelled hold of it always add up
-- to the same number, and the product stays live.
pub Reach-balance :
    (k : RowId) {d d' : Db}
    → is_some (find k d.products) ≡ true
    → Reach d d'
    → (is_some (find k d'.products) ≡ true) × (balance k d' ≡ balance k d)
Reach-balance k there here = (there, refl)
Reach-balance k there (next {d' = d1} r s) =
    let (there1, same1) = Reach-balance k there r in
    let (there2, same2) = Step-balance k s there1 in (there2, same2 ∙ same1)
