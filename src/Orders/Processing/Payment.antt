-- ===== src/Orders/Processing/Payment.antt =====
-- The payment of a processed order: what a success writes, what a failure leaves for the retry, and
-- what happens to an order that is cancelled meanwhile.
use rd_shop_backend.Base.{
  ◌≡◌, ◌≢◌, refl, false, some, List, [], ◌∷◌, ◌++◌, arith, RowId, truthy, any,
}
use rd_shop_backend.Base.Table.{find, save, find-save, find_fields}
use rd_shop_backend.Base.Outcome.{ok}
use rd_shop_backend.Orders.Model.{
  paid, product_entity, User, user_entity, Order, order_entity, Db, World, order_paid,
}
use rd_shop_backend.Orders.Rules.{total_in_cents}
use rd_shop_backend.Orders.Stock.Demand.{demand, refill}
use rd_shop_backend.Orders.Command.{stock_items, cancel_and_restore}
use rd_shop_backend.Orders.Command.Cancellation.{cancelled_row, cancel_and_restore_lem}
use rd_shop_backend.Orders.Processing.{WorkEnv, has_payment, set_paid, settle, authorize_payment}

-- No row has this payment id.
abbrev pub IsUnused : RowId → List Order → Type 0
IsUnused payment_id [] = Unit
IsUnused payment_id (o ∷ orders) = (o.payment_id ≢ some payment_id) × IsUnused payment_id orders

no_clash :
    (order_id payment_id : RowId) (orders : List Order)
    → IsUnused payment_id orders
    → any (has_payment order_id payment_id) orders ≡ false
unfolding has_payment
no_clash order_id payment_id [] h = refl
no_clash order_id payment_id (o ∷ orders) h =
    ground (arith, no_clash order_id payment_id orders h.1, h.0)

set_paid_lem :
    (order_id payment_id : RowId) (o : Order) (d : Db)
    → IsUnused payment_id d.orders
    → find order_id d.orders ≡ some o
    → set_paid order_id payment_id d ≡ (
      ok tt,
      record d {
        orders = save (record o { payment_id = some payment_id; status = paid }) d.orders;
      },
    )
unfolding set_paid
set_paid_lem order_id payment_id o d unused found =
    ground (arith, no_clash order_id payment_id d.orders unused)

-- When the payments service answers with a payment id that is not empty and that no order has, and the
-- order is still there, as is its user when the order is loaded, the row that the order then has in the
-- database, whatever its status, gets that id and the status PAID, and one event is emitted to the
-- order's user.
pub authorize_payment_pays :
    (env : WorkEnv) (order loaded row : Order) (user : User) (payment_id : RowId) (w : World)
    → find order.id w.db.orders ≡ some loaded
    → find loaded.user_id w.db.users ≡ some user
    → env.authorize (total_in_cents loaded) order.id ≡ ok (some payment_id)
    → truthy (some payment_id) ≡ some payment_id
    → find order.id (env.meanwhile w.db).orders ≡ some row
    → IsUnused payment_id (env.meanwhile w.db).orders
    → let (r, w') = authorize_payment env order w in
      (r ≡ ok tt)
      × (find order.id w'.db.orders
          ≡ some (record row { payment_id = some payment_id; status = paid }))
      × (w'.db.products ≡ (env.meanwhile w.db).products)
      × (w'.events ≡ w.events ++ order_paid order.id user.email ∷ [])
unfolding authorize_payment settle
authorize_payment_pays env order loaded row user payment_id w known owner answer given waiting
      unused =
    let d = env.meanwhile w.db in
    let same = (find_fields order.id row d.orders waiting).0 in
    ground (
      arith,
      set_paid_lem order.id payment_id row d unused waiting,
      find-save order.id (record row { payment_id = some payment_id; status = paid }) d.orders refl,
    )

-- An order that its user cancels while its payment is authorized ends PAID, with the stock that its
-- items took given back.
authorize_payment_after_cancellation :
    (env : WorkEnv) (order : Order) (user : User) (payment_id : RowId) (w : World)
    → find order.id w.db.orders ≡ some order
    → find order.user_id w.db.users ≡ some user
    → env.authorize (total_in_cents order) order.id ≡ ok (some payment_id)
    → truthy (some payment_id) ≡ some payment_id
    → env.meanwhile w.db ≡ (cancel_and_restore order w.db).1
    → IsUnused payment_id (env.meanwhile w.db).orders
    → (k : RowId)
    → let (r, w') = authorize_payment env order w in
      (r ≡ ok tt)
      × (find order.id w'.db.orders
          ≡ some (record order { payment_id = some payment_id; status = paid }))
      × (find k w'.db.products ≡ refill (demand k (stock_items order.items)) (find k w.db.products))
authorize_payment_after_cancellation env order user payment_id w known owner answer given cancels
      unused k =
    let (_, stored, given_back) = cancel_and_restore_lem order w.db k in
    let waiting : find order.id (env.meanwhile w.db).orders ≡ some (cancelled_row order) =
      rw cancels stored in
    let (done, paid_row, products, _) =
      authorize_payment_pays env order order (cancelled_row order) user payment_id w known owner
        answer given waiting unused in
    (done, paid_row, rw (products, cancels) given_back)
