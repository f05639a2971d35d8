-- ===== src/Payments/Authorization.antt =====
-- An order has one payment, however often its authorization is asked for.
use rd_shop_backend.Base.{
  ◌||◌, ◌≡◌, inl, inr, true, false, none, some, List, [], ◌∷◌, ◌++◌, arith, ◌==◌, any, Option-cases,
}
use rd_shop_backend.Base.Int.{pos, leb_ℤ}
use rd_shop_backend.Base.Outcome.{ok, err, driver, unique_violation, nothing}
use rd_shop_backend.Payments.{
  Payment, AuthorizeRequest, PayEnv, find_by_order, find_by_payment, insert_payment, new_payment,
  authorize, payment_status,
}

find_by_order-append :
    (p : Payment) (ps : List Payment)
    → any (λ x. (x.order_id == p.order_id) || (x.payment_id == p.payment_id)) ps ≡ false
    → (find_by_order p.order_id (ps ++ p ∷ []) ≡ some p)
      × (find_by_payment p.payment_id (ps ++ p ∷ []) ≡ some p)
unfolding find_by_order find_by_payment
find_by_order-append p [] free = (ground arith, ground arith)
find_by_order-append p (x ∷ ps) free =
    let rest = find_by_order-append p ps (ground arith) in
    (ground (arith, rest.0), ground (arith, rest.1))

taken_of_find :
    (p q : Payment) (ps : List Payment)
    → find_by_order p.order_id ps ≡ some q
    → any (λ x. (x.order_id == p.order_id) || (x.payment_id == p.payment_id)) ps ≡ true
unfolding find_by_order
taken_of_find p q [] h = cc
taken_of_find p q (x ∷ ps) h = ground (arith, taken_of_find p q ps)

-- What an authorization returns is stored as the payment of its order.
authorize-find_by_order :
    (env : PayEnv) (request : AuthorizeRequest) (p : Payment) (ps ps' : List Payment)
    → authorize env request ps ≡ (ok p, ps')
    → find_by_order request.order_id ps' ≡ some p
unfolding authorize insert_payment
authorize-find_by_order env request p ps ps' h =
    elim (Option-cases (find_by_order request.order_id ps)) [
      | inr (q, e) ↦ ground (arith, e)
      | inl e ↦ ground (arith, e, find_by_order-append (new_payment env request) (env.others ps))
    ]

-- Once an order has been authorized, a further request for it, whatever its positive amount, returns
-- the same payment and writes nothing; one that found no payment and writes after the first fails
-- on the unique index and writes nothing either. The payment is also found by its own id.
pub authorize_once :
    (env env' : PayEnv) (request request' : AuthorizeRequest) (p : Payment) (ps ps' : List Payment)
    → authorize env request ps ≡ (ok p, ps')
    → find_by_order request.order_id ps ≡ none
    → request'.order_id ≡ request.order_id
    → leb_ℤ request'.amount (pos 0) ≡ false
    → env'.others ps ≡ ps'
    → (authorize env' request' ps' ≡ (ok p, ps'))
      × (authorize env' request' ps ≡ (err (driver unique_violation nothing), ps'))
      × (payment_status p.payment_id ps' ≡ (ok p, ps'))
unfolding payment_status authorize insert_payment
authorize_once env env' request request' p ps ps' h unpaid same positive waits =
    let stored = authorize-find_by_order env request p ps ps' h in
    (
      ground (arith, stored),
      ground (arith, stored, taken_of_find (new_payment env' request') p ps'),
      ground (arith, find_by_order-append (new_payment env request) (env.others ps)),
    )
