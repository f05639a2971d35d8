-- ===== src/Orders/Tests.antt =====
-- A small shop on which the theorems of the orders domain are run.
mod Stock
mod Creation
mod Cancellation
mod Processing
mod Queries
use rd_shop_backend.Base.{
  ◌≡◌, refl, ◌≢◌, ◌↔◌, ◌⊎◌, true, false, Option, none, some, List, [], ◌∷◌, ◌++◌, arith, RowId,
  dedup, truthy, is_some,
}
use rd_shop_backend.Base.Int.{pos, ◌+ℤ◌, ◌-ℤ◌, ◌≤ℤ◌}
use rd_shop_backend.Base.Table.{find, save, save_all, find_in}
use rd_shop_backend.Base.Outcome.{
  ok, err, http, internal, not_found, conflict, unavailable, driver, unique_violation, nothing,
}
use rd_shop_backend.Orders.Model.{
  cancelled, created, paid, pending, processed, Product, product_entity, Address, User, user_entity,
  Order, order_entity, StockItem, CreateOrder, ProcessMessage, Db, World, idempotent_hit,
  order_paid,
}
use rd_shop_backend.Orders.Rules.{
  validate_order_items, assert_order_ownership, line_cents, total_in_cents,
}
use rd_shop_backend.Orders.Stock.{
  validate_stock_and_availability, decrement_stock, restore_stock, validate_exist, take_stock,
  lock_validate_and_decrement, lock_and_restore,
}
use rd_shop_backend.Orders.Stock.Demand.{demand, deduct, refill}
use rd_shop_backend.Orders.Stock.Laws.{
  locked_ids, IsStocked, twice, lock_validate_and_decrement-demand,
  lock_validate_and_decrement_error, restore-decrement,
}
use rd_shop_backend.Orders.Command.{
  is_unique_violation, stock_items, Env, find_by_key, map_timeout, handle_creation_error,
  check_idempotency, shipping_of, key_taken, insert_order, order_items, order_transaction,
  publish_order_processing, place_order, creation_error, validate_user, create_new_order,
  create_order, check_cancellable, cancel_and_restore, cancel_order, product_ids_of,
}
use rd_shop_backend.Orders.Command.Keys.{
  create_order-find_by_key, create_order_replay, creation_error-owner,
}
use rd_shop_backend.Orders.Command.Creation.{
  Placed, create_order-Placed, create_order_error, create_new_order_unpublished,
}
use rd_shop_backend.Orders.Command.Cancellation.{
  Cancelled, cancelled_row, check_cancellable_lem, cancel_order-Cancelled, cancel_order_again,
}
use rd_shop_backend.Orders.Processing.Claims.{Claimed, claim-Claimed}
use rd_shop_backend.Orders.Processing.Payment.{authorize_payment_pays}
use rd_shop_backend.Orders.Processing.{
  WorkEnv, already_processed, insert_processed, mark, mark_processed, claim, set_paid, settle,
  authorize_payment, process_order_message,
}
use rd_shop_backend.Orders.Lifecycle.{Reach, here, next, places, cancels, balance, Reach-balance}

unfoldable pub code : Unit {0}
unfolding ◌+ℤ◌ ◌-ℤ◌ find save save_all find_in dedup validate_order_items assert_order_ownership
    line_cents total_in_cents validate_stock_and_availability decrement_stock restore_stock
    validate_exist take_stock lock_validate_and_decrement lock_and_restore demand find_by_key
    map_timeout handle_creation_error check_idempotency shipping_of key_taken insert_order
    order_items order_transaction publish_order_processing place_order creation_error validate_user
    create_new_order create_order check_cancellable cancel_and_restore cancel_order
    already_processed insert_processed mark mark_processed claim set_paid settle authorize_payment
    process_order_message
code = tt

abbrev pub home : Address
home = record {
  city = some 1;
  country = some 2;
  first_name = none;
  last_name = none;
  phone = none;
  postcode = none;
}

abbrev pub ann : User
ann = record { id = 7; email = 70; address = home; deleted = false }

abbrev pub shelf : List Product
shelf =
    record { id = 1; price = 499; stock = pos 5; is_active = true; deleted = false }
    ∷ record { id = 2; price = 150; stock = pos 9; is_active = true; deleted = false }
    ∷ []

abbrev pub basket : List StockItem
basket =
    record { product_id = 1; quantity = pos 2 } ∷ record { product_id = 2; quantity = pos 3 } ∷ []

abbrev pub shop : Db
shop = record { users = ann ∷ []; products = shelf; orders = []; processed_messages = [] }

abbrev pub env : Env
env = record {
  order_id = 100;
  message_id = 200;
  correlation_id = 300;
  forced_message_id = none;
  channel_open = true;
  lock_fault = none;
  others = λ d. d;
}

abbrev pub shop_world : World
shop_world = record { db = shop; queue = []; events = []; audit = [] }

abbrev pub request : Option RowId → CreateOrder
request key = record { idempotency_key = key; items = basket; shipping = none }

abbrev pub bought : Option RowId → Order
bought key = record {
  id = 100;
  user_id = 7;
  status = pending;
  idempotency_key = key;
  payment_id = none;
  shipping = home;
  items =
      record { product_id = 1; quantity = pos 2; price_at_purchase = 499 }
      ∷ record { product_id = 2; quantity = pos 3; price_at_purchase = 150 }
      ∷ [];
}

-- The world after the request.
abbrev pub after_request : Option RowId → World
after_request key = (create_order env 7 (request key) shop_world).1
