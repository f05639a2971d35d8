-- ===== src/Orders/Processing.antt =====
-- OrderProcessingService (orders/services/order-processing.service.ts). What the rest of the system
-- decides is in `WorkEnv`: the configuration, an error of the driver on the insertion, the answer of
-- the payments service, and what other transactions commit after the transaction of this call
-- (`others`) and while the payment is authorized (`meanwhile`).
pub mod Claims
pub mod Payment
use rd_shop_backend.Base.{
  Bool, true, false, ◌||◌, not, ◌&&◌, Option, none, some, List, [], ◌∷◌, ◌++◌, ◌==◌, if◌then◌else◌,
  RowId, truthy, is_some, any,
}
use rd_shop_backend.Base.Int.{ℤ}
use rd_shop_backend.Base.Table.{find, save}
use rd_shop_backend.Base.Outcome.{
  Action, Result, ok, err, Error, http, driver, internal, not_found, unique_violation, PgCode,
  Mentions, nothing, pure, throw, gets, modify, throw_if, or_throw, lift, transaction, catch, ◌>>=◌,
  ◌>>◌,
}
use rd_shop_backend.Orders.Model.{
  OrderStatus, pending, processed, paid, User, user_entity, Order, order_entity, ProcessedMessage,
  ProcessMessage, Db, order_paid, payment_authorized, payment_failed, World, in_db,
}
use rd_shop_backend.Orders.Rules.{total_in_cents}
use rd_shop_backend.Orders.Command.{audit, emit, await, is_unique_violation}

pub record WorkEnv : Type 0 where
  pub simulate_failure : Bool
  pub payments_disabled : Bool
  pub insert_fault : Option (PgCode × Mentions)
  pub authorize : ℤ → RowId → Result (Option RowId)
  pub others : Db → Db
  pub meanwhile : Db → Db

-- `findOne({ where: { messageId } })`
unfoldable pub already_processed : RowId → List ProcessedMessage → Bool
already_processed message_id messages = any (λ m. m.message_id == message_id) messages

has_key : RowId → ProcessedMessage → Bool
has_key key m = elim m.idempotency_key [ none ↦ false | some k ↦ k == key ]

abbrev pub message_row : ProcessMessage → ProcessedMessage
message_row msg = record {
  message_id = msg.message_id;
  idempotency_key = msg.correlation_id;
  order_id = msg.order_id;
}

abbrev key_used : Option RowId → List ProcessedMessage → Bool
key_used none messages = false
key_used (some key) messages = any (has_key key) messages

-- The insertion into `processed_messages`, under its two unique indices, which let any number of rows
-- be without a key.
unfoldable pub insert_processed : WorkEnv → ProcessMessage → Db → Result Db
unfolding has_key already_processed
insert_processed env msg d = elim env.insert_fault [
  | some (code, text) ↦ err (driver code text)
  | none ↦
      if already_processed msg.message_id d.processed_messages
        || key_used msg.correlation_id d.processed_messages
      then err (driver unique_violation nothing)
      else ok (record d { processed_messages = d.processed_messages ++ message_row msg ∷ [] })
]

abbrev pub is_pending : OrderStatus → Bool
is_pending pending = true
is_pending _ = false

-- The branch of a pending order.
unfoldable pub mark : WorkEnv → Order → Action Db (Option Order)
mark env order = do
  throw_if env.simulate_failure internal
  modify (λ d. record d { orders = save (record order { status = processed }) d.orders })
  pure (some (record order { status = processed }))

-- From the read of the order on, inside the transaction.
unfoldable pub mark_processed : WorkEnv → RowId → Action Db (Option Order)
unfolding mark
mark_processed env order_id = do
  order ← or_throw (← gets (λ d. find order_id d.orders)) (http not_found)
  if is_pending order.status then mark env order else pure none

-- The body of the transaction: the order that it has marked, or none where it skips the message.
unfoldable pub claim : WorkEnv → ProcessMessage → Action Db (Option Order)
claim env msg d =
    if already_processed msg.message_id d.processed_messages
    then (ok none, d)
    else elim (insert_processed env msg d) [
      | err e ↦ (if is_unique_violation e then ok none else err internal, d)
      | ok d1 ↦ mark_processed env msg.order_id d1
    ]

pub has_payment : RowId → RowId → Order → Bool
has_payment order_id payment_id o = elim o.payment_id [
  | none ↦ false
  | some p ↦ (p == payment_id) && not (o.id == order_id)
]

-- `update({ id }, { paymentId, status: PAID })`, whatever the row's status, under the unique index
-- on `payment_id`; without a row it updates nothing.
unfoldable pub set_paid : RowId → RowId → Action Db (Unit {0})
unfolding has_payment
set_paid order_id payment_id d =
    if any (has_payment order_id payment_id) d.orders
    then (err (driver unique_violation nothing), d)
    else elim (find order_id d.orders) [
      | none ↦ (ok tt, d)
      | some o ↦ (
        ok tt,
        record d {
          orders = save (record o { payment_id = some payment_id; status = paid }) d.orders;
        },
      )
    ]

-- The `try` block of `authorizePayment`, on the order that it was given, and the row and the user that it has
-- loaded. Reading the
-- email of a user that is gone is a TypeError.
unfoldable pub settle : WorkEnv → Order → Order → Option User → Action World (Unit {0})
settle env order loaded user = do
  response ← lift (env.authorize (total_in_cents loaded) order.id)
  await env.meanwhile
  elim (truthy response) [
    | none ↦ pure tt
    | some payment_id ↦ do
      in_db (set_paid order.id payment_id)
      audit (payment_authorized order.user_id order.id)
      owner ← or_throw user internal
      emit (order_paid order.id owner.email)
  ]

unfoldable pub authorize_payment : WorkEnv → Order → Action World (Unit {0})
authorize_payment env order = do
  loaded ← or_throw (← gets (λ w. find order.id w.db.orders)) (http not_found)
  user ← gets (λ w. find loaded.user_id w.db.users)
  catch (settle env order loaded user)
      λ e. do audit (payment_failed order.user_id order.id); throw e

unfoldable pub process_order_message : WorkEnv → ProcessMessage → Action World (Unit {0})
process_order_message env msg = do
  order ← in_db (transaction (claim env msg))
  await env.others
  elim order [
    | none ↦ pure tt
    | some o ↦
        if env.payments_disabled || is_some (truthy o.payment_id)
        then pure tt
        else authorize_payment env o
  ]
