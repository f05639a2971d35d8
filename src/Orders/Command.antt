-- ===== src/Orders/Command.antt =====
-- OrdersCommandService, PgErrorMapperService and OrderPublisherService (orders/services). What the
-- rest of the system decides during a call is in `Env`: `others` is what other transactions commit
-- while the call waits, between its reads and the locks of its own transaction.
pub mod Keys
pub mod Creation
pub mod Cancellation
use rd_shop_backend.Base.{
  Bool, true, false, not, ◌||◌, Option, none, some, List, [], ◌∷◌, ◌++◌, map, ◌==◌, if◌then◌else◌,
  RowId, truthy, or_else, is_some, dedup,
}
use rd_shop_backend.Base.Int.{pos}
use rd_shop_backend.Base.Table.{find, save}
use rd_shop_backend.Base.Outcome.{
  Action, Result, ok, err, Error, http, driver, internal, bad_request, not_found, conflict,
  unique_violation, query_canceled, lock_not_available, PgCode, Mentions, statement_timeout,
  lock_timeout, nothing, pure, throw, gets, modify, throw_if, or_throw, lift, transaction, catch,
  ◌>>=◌, ◌>>◌,
}
use rd_shop_backend.Orders.Model.{
  OrderStatus, cancelled, created, pending, Product, product_entity, Address, User, user_entity,
  OrderItem, Order, order_entity, StockItem, CreateOrder, ProcessMessage, Db, Event, order_created,
  order_cancelled, Audit, idempotent_hit, creation_done, cancellation, creation_failed, World,
  in_db,
}
use rd_shop_backend.Orders.Rules.{validate_order_items, assert_order_ownership}
use rd_shop_backend.Orders.Stock.{validate_exist, lock_validate_and_decrement, lock_and_restore}

-- The ids are those that the generators give; `lock_fault` is an error of the driver while the
-- transaction acquires its locks; `forced_message_id` is RABBITMQ_SIMULATE_DUPLICATE_MESSAGE_ID.
pub record Env : Type 0 where
  pub order_id : RowId
  pub message_id : RowId
  pub correlation_id : RowId
  pub forced_message_id : Option RowId
  pub channel_open : Bool
  pub lock_fault : Option (PgCode × Mentions)
  pub others : Db → Db

abbrev pub audit : Audit → Action World (Unit {0})
audit a = modify (λ w. record w { audit = w.audit ++ a ∷ [] })

abbrev pub emit : Event → Action World (Unit {0})
emit e = modify (λ w. record w { events = w.events ++ e ∷ [] })

-- Waiting lets other transactions commit.
abbrev pub await : (Db → Db) → Action World (Unit {0})
await others = modify (λ w. record w { db = others w.db })

-- `where: { idempotencyKey }`
unfoldable pub find_by_key : RowId → List Order → Option Order
find_by_key key [] = none
find_by_key key (o ∷ orders) = elim o.idempotency_key [
  | none ↦ find_by_key key orders
  | some k ↦ if k == key then some o else find_by_key key orders
]

abbrev is_mention : Mentions → Mentions → Bool
is_mention statement_timeout statement_timeout = true
is_mention lock_timeout lock_timeout = true
is_mention _ _ = false

abbrev is_query_canceled : PgCode → Bool
is_query_canceled query_canceled = true
is_query_canceled _ = false

abbrev is_lock_not_available : PgCode → Bool
is_lock_not_available lock_not_available = true
is_lock_not_available _ = false

abbrev pub is_unique_violation : Error → Bool
is_unique_violation (driver unique_violation _) = true
is_unique_violation _ = false

-- The part of `handleCreationError` below the unique violation.
unfoldable pub map_timeout : Error → Error
map_timeout (driver code text) =
    if is_query_canceled code || is_mention text statement_timeout
    then internal
    else if is_lock_not_available code || is_mention text lock_timeout
    then http conflict
    else driver code text
map_timeout error = error

unfoldable pub handle_creation_error : Error → RowId → Option RowId → Action World Order
handle_creation_error error user_id key w = elim (truthy key) [
  | none ↦ (err (map_timeout error), w)
  | some k ↦
      if is_unique_violation error
      then elim (find_by_key k w.db.orders) [
        | none ↦ (err (map_timeout error), w)
        | some existing ↦ (if existing.user_id == user_id then ok existing else err error, w)
      ]
      else (err (map_timeout error), w)
]

unfoldable pub check_idempotency : Option RowId → Action World (Option Order)
check_idempotency key w = elim (truthy key) [
  | none ↦ (ok none, w)
  | some k ↦ (ok (find_by_key k w.db.orders), w)
]

-- `shipping?.city ?? user.city`, for each field
unfoldable pub shipping_of : Option Address → Address → Address
shipping_of none profile = profile
shipping_of (some a) profile = record {
  city = or_else a.city profile.city;
  country = or_else a.country profile.country;
  first_name = or_else a.first_name profile.first_name;
  last_name = or_else a.last_name profile.last_name;
  phone = or_else a.phone profile.phone;
  postcode = or_else a.postcode profile.postcode;
}

-- `INSERT` under the unique index on `idempotency_key`, which does not compare nulls.
unfoldable pub key_taken : Option RowId → List Order → Bool
unfolding find_by_key
key_taken none orders = false
key_taken (some k) orders = is_some (find_by_key k orders)

-- The row of a new order, before its items are saved.
abbrev pub draft : RowId → Option RowId → Address → RowId → Order
draft id key shipping user_id = record {
  id = id;
  user_id = user_id;
  status = pending;
  idempotency_key = key;
  payment_id = none;
  shipping = shipping;
  items = [];
}

-- `OrdersRepository.createOrder`
unfoldable pub insert_order : RowId → Option RowId → Address → RowId → Action Db Order
unfolding key_taken
insert_order id key shipping user_id d =
    let order = draft id key shipping user_id in
    if key_taken key d.orders
    then (err (driver unique_violation nothing), d)
    else (ok order, record d { orders = save order d.orders })

-- `orderItemsData`; `productMap.get(id)!` of a missing product is a TypeError.
unfoldable pub order_items : List StockItem → List Product → Result (List OrderItem)
order_items [] product_map = ok []
order_items (i ∷ items) product_map =
    let rest = order_items items product_map in
    elim (find i.product_id product_map) [
      | none ↦ err internal
      | some p ↦ elim rest [
        | err e ↦ err e
        | ok is ↦
            ok (
              record { product_id = p.id; quantity = i.quantity; price_at_purchase = p.price } ∷ is)
      ]
    ]

-- The body of `executeOrderTransaction`.
unfoldable pub order_transaction : Env → CreateOrder → User → List RowId → Action Db Order
unfolding insert_order
order_transaction env dto user product_ids = do
  lift (elim env.lock_fault [ none ↦ ok tt | some (code, text) ↦ err (driver code text) ])
  product_map ← lock_validate_and_decrement dto.items product_ids
  order ←
      insert_order env.order_id dto.idempotency_key (shipping_of dto.shipping user.address) user.id
  items ← lift (order_items dto.items product_map)
  modify (λ d. record d { orders = save (record order { items = items }) d.orders })
  pure (record order { items = items })

-- `new OrderProcessMessageDto(order.id, correlationId, forcedMessageId)`
abbrev pub message_of : Env → Order → Option RowId → ProcessMessage
message_of env order correlation_id = record {
  message_id = elim (truthy env.forced_message_id) [ none ↦ env.message_id | some m ↦ m ];
  order_id = order.id;
  correlation_id = some (elim correlation_id [ none ↦ env.correlation_id | some c ↦ c ]);
  attempt = pos 1;
}

unfoldable pub publish_order_processing : Env → Order → Option RowId → Action World (Unit {0})
publish_order_processing env order correlation_id = do
  throw_if (not env.channel_open) internal
  modify (λ w. record w { queue = w.queue ++ message_of env order correlation_id ∷ [] })

-- The `try` block of `createOrder`: the transaction, and what follows its commit.
unfoldable pub place_order : Env → CreateOrder → User → List RowId → Action World Order
place_order env dto user product_ids = do
  order ← in_db (transaction (order_transaction env dto user product_ids))
  publish_order_processing env order dto.idempotency_key
  emit (order_created order.id user.email)
  audit (creation_done user.id order.id)
  pure order

-- The `catch` block of `createOrder`.
unfoldable pub creation_error : RowId → Option RowId → Error → Action World Order
creation_error user_id key error =
    catch (handle_creation_error error user_id key)
      λ final. do audit (creation_failed user_id); throw final

unfoldable pub validate_user : RowId → Action World User
validate_user user_id w = elim (find user_id w.db.users) [
  | none ↦ (err (http not_found), w)
  | some user ↦ (ok user, w)
]

abbrev pub product_ids_of : CreateOrder → List RowId
product_ids_of dto = dedup (map (λ i. i.product_id) dto.items)

-- `createOrder` from the pre-check of the products on.
unfoldable pub create_new_order : Env → User → CreateOrder → Action World Order
create_new_order env user dto = do
  lift (← gets (λ w. validate_exist (product_ids_of dto) w.db.products))
  await env.others
  catch (place_order env dto user (product_ids_of dto)) (creation_error user.id dto.idempotency_key)

unfoldable pub create_order : Env → RowId → CreateOrder → Action World Order
create_order env user_id dto = do
  user ← validate_user user_id
  lift (validate_order_items dto.items)
  existing ← check_idempotency dto.idempotency_key
  elim existing [
    | some order ↦ audit (idempotent_hit user_id order.id) >> pure order
    | none ↦ create_new_order env user dto
  ]

abbrev pub is_cancelled : OrderStatus → Bool
is_cancelled cancelled = true
is_cancelled _ = false

abbrev is_created : OrderStatus → Bool
is_created created = true
is_created _ = false

-- The reads and guards of `executeCancelTransaction`, before it waits for the product locks.
unfoldable pub check_cancellable : RowId → RowId → Action Db Order
check_cancellable order_id user_id = do
  order ← lift (← gets (λ d. assert_order_ownership (find order_id d.orders) user_id))
  throw_if (is_cancelled order.status) (http conflict)
  throw_if (is_created order.status) (http bad_request)
  or_throw (← gets (λ d. find order_id d.orders)) (http not_found)

abbrev pub stock_items : List OrderItem → List StockItem
stock_items = map (λ i. record { product_id = i.product_id; quantity = i.quantity })

-- The writes of `executeCancelTransaction`, under the product locks, on the order that was read.
unfoldable pub cancel_and_restore : Order → Action Db Order
cancel_and_restore order = do
  lock_and_restore (stock_items order.items) (dedup (map (λ i. i.product_id) order.items))
  modify (λ d. record d { orders = save (record order { status = cancelled }) d.orders })
  or_throw (← gets (λ d. find order.id d.orders)) internal

unfoldable pub cancel_order : (Db → Db) → RowId → RowId → RowId → Action World Order
cancel_order others user_id email order_id = do
  read ← in_db (check_cancellable order_id user_id)
  await others
  order ← in_db (transaction (cancel_and_restore read))
  emit (order_cancelled order.id email)
  audit (cancellation user_id order.id)
  pure order
