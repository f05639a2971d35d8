-- ===== src/Orders/Queries/Payment.antt =====
-- The payment of an order, over the client of the payments service.
use rd_shop_backend.Base.{
  ◌≡◌, ◌⊎◌, zero, suc, refl, Option, none, some, List, arith, ◌==◌, RowId, truthy, Option-cases,
  Bool-cases, inl, inr,
}
use rd_shop_backend.Base.Table.{find}
use rd_shop_backend.Base.Outcome.{
  ok, err, HttpStatus, http, not_found, bad_request, gateway_timeout, unavailable,
}
use rd_shop_backend.Orders.Model.{Order, order_entity}
use rd_shop_backend.Orders.Rules.{assert_order_ownership}
use rd_shop_backend.Payments.{
  Fired, answered, timed_out, breaker_open, refused, client_authorize, client_payment_status,
  map_grpc_error,
}
use rd_shop_backend.Orders.Queries.{get_order_payment}

-- The order of the user that an answer belongs to, and its payment.
pub record Answered {A : Type 0} (fire : RowId → Fired A) (user_id order_id : RowId)
    (orders : List Order) (a : A) : Type 0 where
  pub order : Order
  pub payment_id : RowId
  pub known : find order_id orders ≡ some order
  pub own : order.user_id ≡ user_id
  pub paid : truthy order.payment_id ≡ some payment_id
  pub answer : fire payment_id ≡ answered a

-- A payment is shown only for an order of the user that has one, and it is the answer of the payments
-- service for the payment of that order; every failure is an HTTP exception.
get_order_payment-Answered :
    {A : Type 0} (fire : RowId → Fired A) (user_id order_id : RowId) (orders : List Order)
    → ((a : A) × (get_order_payment fire user_id order_id orders ≡ ok a)
        × Answered fire user_id order_id orders a)
      ⊎ ((s : HttpStatus) × (get_order_payment fire user_id order_id orders ≡ err (http s)))
unfolding get_order_payment assert_order_ownership client_payment_status client_authorize
get_order_payment-Answered {A = A} fire user_id order_id orders =
    elim (Option-cases (find order_id orders)) [
      | inl e ↦ inr (not_found, ground arith)
      | inr (o, e) ↦ elim (Bool-cases (o.user_id == user_id)) [
        | inr f ↦ inr (not_found, ground arith)
        | inl f ↦ by_payment o e (ground arith) o.payment_id refl
      ]
    ]
  where
    by_payment :
        (o : Order)
        → find order_id orders ≡ some o
        → o.user_id ≡ user_id
        → (p : Option RowId) → o.payment_id ≡ p
        → ((a : A) × (get_order_payment fire user_id order_id orders ≡ ok a)
            × Answered fire user_id order_id orders a)
          ⊎ ((s : HttpStatus) × (get_order_payment fire user_id order_id orders ≡ err (http s)))
    by_payment o e own none g = inr (bad_request, ground arith)
    by_payment o e own (some zero) g = inr (bad_request, ground arith)
    by_payment o e own (some (suc k)) g = by_answer (fire (suc k)) refl
      where
        by_answer :
            (f : Fired A)
            → fire (suc k) ≡ f
            → ((a : A) × (get_order_payment fire user_id order_id orders ≡ ok a)
                × Answered fire user_id order_id orders a)
              ⊎ ((s : HttpStatus) × (get_order_payment fire user_id order_id orders ≡ err (http s)))
        by_answer (answered a) h = inl (
          a,
          ground arith,
          record {
            order = o;
            payment_id = suc k;
            known = e;
            own = own;
            paid = ground arith;
            answer = h;
          },
        )
        by_answer timed_out h = inr (gateway_timeout, ground arith)
        by_answer breaker_open h = inr (unavailable, ground arith)
        by_answer (refused status) h = inr (map_grpc_error status, ground arith)
