-- ===== src/Orders/Tests/Processing.antt =====
-- The theorems on the processing of orders at concrete inputs.
use rd_shop_backend.Base.{◌≡◌, refl, false, none, some, [], ◌∷◌, ◌++◌}
use rd_shop_backend.Base.Int.{pos}
use rd_shop_backend.Base.Table.{find}
use rd_shop_backend.Base.Outcome.{ok, err, http, unavailable}
use rd_shop_backend.Orders.Model.{
  paid, processed, product_entity, user_entity, Order, order_entity, ProcessMessage, Db, World,
  order_paid,
}
use rd_shop_backend.Orders.Command.{cancel_and_restore}
use rd_shop_backend.Orders.Processing.Payment.{authorize_payment_pays}
use rd_shop_backend.Orders.Processing.{WorkEnv, claim, authorize_payment}
use rd_shop_backend.Orders.Tests.{code, ann, bought, after_request}

abbrev work : WorkEnv
work = record {
  simulate_failure = false;
  payments_disabled = false;
  insert_fault = none;
  authorize = λ amount order. ok (some 900);
  others = λ d. d;
  meanwhile = λ d. d;
}

abbrev down : WorkEnv
down = record work { authorize = λ amount order. err (http unavailable) }

abbrev message : ProcessMessage
message = record { message_id = 200; order_id = 100; correlation_id = some 300; attempt = pos 1 }

abbrev done : Order
done = record (bought none) { status = processed }

abbrev after_claim : Db
after_claim = (claim work message (after_request none).db).1

abbrev claimed_world : World
claimed_world = record (after_request none) { db = after_claim }

authorize_payment_pays_example :
    let (r, w') = authorize_payment work done claimed_world in
    (r ≡ ok tt)
    × (find 100 w'.db.orders ≡ some (record done { payment_id = some 900; status = paid }))
    × (w'.db.products ≡ claimed_world.db.products)
    × (w'.events ≡ claimed_world.events ++ order_paid 100 70 ∷ [])
authorize_payment_pays_example =
    authorize_payment_pays work done done done ann 900 claimed_world (unfold code in refl)
      (unfold code in refl) refl refl (unfold code in refl) (unfold code in ((λ h. cc h), tt))

abbrev overtaken : WorkEnv
overtaken = record work { meanwhile = λ d. (cancel_and_restore done d).1 }
