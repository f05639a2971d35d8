-- ===== src/Orders/Tests/Cancellation.antt =====
-- The theorems on cancellations, and on the life of the database, at concrete inputs.
use rd_shop_backend.Base.{◌≡◌, refl, true, none, is_some}
use rd_shop_backend.Base.Table.{find}
use rd_shop_backend.Base.Outcome.{ok}
use rd_shop_backend.Orders.Model.{product_entity, user_entity, Order, order_entity, Db, World}
use rd_shop_backend.Orders.Command.{
  order_transaction, check_cancellable, cancel_and_restore, cancel_order, product_ids_of,
}
use rd_shop_backend.Orders.Command.Cancellation.{Cancelled, cancelled_row, cancel_order-Cancelled}
use rd_shop_backend.Orders.Lifecycle.{Reach, here, next, places, cancels, balance, Reach-balance}
use rd_shop_backend.Orders.Tests.{code, ann, shop, env, request, bought, after_request}

abbrev after_cancellation : World
after_cancellation = (cancel_order (λ d. d) 7 70 100 (after_request none)).1

cancellation_runs :
    cancel_order (λ d. d) 7 70 100 (after_request none)
    ≡ (ok (cancelled_row (bought none)), after_cancellation)
unfolding code
cancellation_runs = refl

cancel_order-Cancelled_example :
    (read : Order) × Cancelled 7 70 100 read
      (cancelled_row (bought none))
      (after_request none).db
      (after_request none)
      after_cancellation
cancel_order-Cancelled_example =
    cancel_order-Cancelled (λ d. d) 7 70 100 (cancelled_row (bought none)) (after_request none)
      after_cancellation cancellation_runs

abbrev sold : Db
sold = (order_transaction env (request none) ann (product_ids_of (request none)) shop).1

sale_runs :
    order_transaction env (request none) ann (product_ids_of (request none)) shop
    ≡ (ok (bought none), sold)
unfolding code
sale_runs = refl

cancellable_runs : check_cancellable 100 7 sold ≡ (ok (bought none), sold)
unfolding code
cancellable_runs = refl

fresh_id : find 100 shop.orders ≡ none
unfolding code
fresh_id = refl

abbrev history : Reach shop (cancel_and_restore (bought none) sold).1
history =
    next (next here (places env (request none) ann (bought none) fresh_id sale_runs))
      (cancels 100 7 (bought none) cancellable_runs)

Reach-balance_example :
    let d' = (cancel_and_restore (bought none) sold).1 in
    (is_some (find 1 d'.products) ≡ true) × (balance 1 d' ≡ balance 1 shop)
Reach-balance_example = Reach-balance 1 (unfold code in refl) history
