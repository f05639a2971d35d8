-- ===== src/Payments.antt =====
-- The payments service (apps/payments/src/payments.service.ts), and its client in the shop,
-- PaymentsGrpcService with mapGrpcError (apps/shop/src/payments). The circuit breaker, the time-out
-- and the transport are libraries: what a call through them comes to is a `Fired`.
pub mod Authorization
pub mod Client
mod Tests
use rd_shop_backend.Base.{
  Bool, true, not, ◌||◌, Option, none, some, List, [], ◌∷◌, ◌++◌, ◌==◌, if◌then◌else◌, RowId, any,
  truthy,
}
use rd_shop_backend.Base.Int.{ℤ, pos, leb_ℤ}
use rd_shop_backend.Base.Outcome.{
  Action, Result, ok, err, Error, http, rpc, driver, HttpStatus, bad_request, not_found, conflict,
  unavailable, gateway_timeout, GrpcStatus, grpc_not_found, invalid_argument, already_exists,
  grpc_unavailable, deadline_exceeded, other_status, unique_violation, nothing, pure, gets, modify,
  throw_if, or_throw, ◌>>=◌, ◌>>◌,
}

pub data PaymentStatus : Type 0 where
  authorized captured refunded failed pending : PaymentStatus

-- `amount` is in cents: the column is numeric(12, 2).
pub record Payment : Type 0 where
  pub payment_id : RowId
  pub order_id : RowId
  pub amount : ℤ
  pub currency : RowId
  pub status : PaymentStatus

-- `amount` is in cents; an absent field has the default of its type.
pub record AuthorizeRequest : Type 0 where
  pub order_id : RowId
  pub amount : ℤ
  pub currency : RowId

-- The generated payment id, and what other calls commit between the read and the write of this one.
pub record PayEnv : Type 0 where
  pub payment_id : RowId
  pub others : List Payment → List Payment

-- `findOne({ where: { orderId } })`
unfoldable pub find_by_order : RowId → List Payment → Option Payment
find_by_order order_id [] = none
find_by_order order_id (p ∷ payments) =
    if p.order_id == order_id then some p else find_by_order order_id payments

unfoldable pub find_by_payment : RowId → List Payment → Option Payment
find_by_payment payment_id [] = none
find_by_payment payment_id (p ∷ payments) =
    if p.payment_id == payment_id then some p else find_by_payment payment_id payments

-- `INSERT` under the unique indices on `order_id` and `payment_id`
unfoldable pub insert_payment : Payment → Action (List Payment) Payment
insert_payment payment payments =
    if any (λ p. (p.order_id == payment.order_id) || (p.payment_id == payment.payment_id)) payments
    then (err (driver unique_violation nothing), payments)
    else (ok payment, payments ++ payment ∷ [])

abbrev pub new_payment : PayEnv → AuthorizeRequest → Payment
new_payment env request = record {
  payment_id = env.payment_id;
  order_id = request.order_id;
  amount = request.amount;
  currency = request.currency;
  status = authorized;
}

unfoldable pub authorize : PayEnv → AuthorizeRequest → Action (List Payment) Payment
unfolding insert_payment
authorize env request = do
  throw_if (request.order_id == 0) (rpc invalid_argument)
  throw_if (leb_ℤ request.amount (pos 0)) (rpc invalid_argument)
  existing ← gets (find_by_order request.order_id)
  elim existing [
    | some payment ↦ pure payment
    | none ↦ do modify env.others; insert_payment (new_payment env request)
  ]

unfoldable pub payment_status : RowId → Action (List Payment) Payment
payment_status payment_id = do
  found ← gets (find_by_payment payment_id)
  or_throw found (rpc grpc_not_found)

-- What `breaker.fire` comes to. An error of the transport may lack a status.
pub data Fired (A : Type 0) : Type 0 where
  answered : A → Fired A
  timed_out breaker_open : Fired A
  refused : Option GrpcStatus → Fired A

unfoldable pub map_grpc_error : Option GrpcStatus → HttpStatus
map_grpc_error (some grpc_not_found) = not_found
map_grpc_error (some invalid_argument) = bad_request
map_grpc_error (some already_exists) = conflict
map_grpc_error (some grpc_unavailable) = unavailable
map_grpc_error (some deadline_exceeded) = gateway_timeout
map_grpc_error (some other_status) = unavailable
map_grpc_error none = unavailable

-- `PaymentsGrpcService.authorize`, after the call
unfoldable pub client_authorize : {A : Type 0} → Fired A → Result A
unfolding map_grpc_error
client_authorize (answered response) = ok response
client_authorize timed_out = err (http gateway_timeout)
client_authorize breaker_open = err (http unavailable)
client_authorize (refused status) = err (http (map_grpc_error status))

-- `PaymentsGrpcService.getPaymentStatus`
unfoldable pub client_payment_status : {A : Type 0} → Option RowId → (RowId → Fired A) → Result A
unfolding client_authorize
client_payment_status payment_id fire = elim (truthy payment_id) [
  | none ↦ err (http bad_request)
  | some id ↦ client_authorize (fire id)
]
