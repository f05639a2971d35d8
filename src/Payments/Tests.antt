-- ===== src/Payments/Tests.antt =====
-- The theorem on payments at a concrete input.
use rd_shop_backend.Base.{◌≡◌, refl, none, [], ◌∷◌}
use rd_shop_backend.Base.Int.{pos}
use rd_shop_backend.Base.Outcome.{ok, err, driver, unique_violation, nothing}
use rd_shop_backend.Payments.{
  Payment, AuthorizeRequest, PayEnv, find_by_order, insert_payment, new_payment, authorize,
  payment_status,
}
use rd_shop_backend.Payments.Authorization.{authorize_once}

abbrev request : AuthorizeRequest
request = record { order_id = 100; amount = pos 500; currency = 840 }

abbrev env : PayEnv
env = record { payment_id = 900; others = λ ps. ps }

abbrev late : PayEnv
late = record { payment_id = 901; others = λ ps. new_payment env request ∷ [] }

abbrev payment : Payment
payment = new_payment env request

authorize_runs : authorize env request [] ≡ (ok payment, payment ∷ [])
unfolding authorize insert_payment find_by_order
authorize_runs = refl

nothing_yet : find_by_order 100 [] ≡ none
unfolding find_by_order
nothing_yet = refl

authorize_once_example :
    (authorize late request (payment ∷ []) ≡ (ok payment, payment ∷ []))
    × (authorize late request [] ≡ (err (driver unique_violation nothing), payment ∷ []))
    × (payment_status 900 (payment ∷ []) ≡ (ok payment, payment ∷ []))
authorize_once_example =
    authorize_once env late request request payment [] (payment ∷ []) authorize_runs nothing_yet
      refl refl refl
