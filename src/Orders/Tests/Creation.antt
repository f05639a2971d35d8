-- ===== src/Orders/Tests/Creation.antt =====
-- The theorems on the creation of orders at concrete inputs.
use rd_shop_backend.Base.{◌≡◌, refl, false, none, some, [], ◌∷◌, ◌++◌}
use rd_shop_backend.Base.Table.{find}
use rd_shop_backend.Base.Outcome.{ok, err, http, not_found, driver, unique_violation, nothing}
use rd_shop_backend.Orders.Model.{
  product_entity, User, user_entity, order_entity, World, idempotent_hit,
}
use rd_shop_backend.Orders.Command.{Env, creation_error, create_order}
use rd_shop_backend.Orders.Command.Keys.{create_order_replay}
use rd_shop_backend.Orders.Command.Creation.{Placed, create_order-Placed}
use rd_shop_backend.Orders.Tests.{code, ann, shop, env, shop_world, request, bought, after_request}

request_runs :
    create_order env 7 (request (some 5)) shop_world
    ≡ (ok (bought (some 5)), after_request (some 5))
unfolding code
request_runs = refl

keyless_runs : create_order env 7 (request none) shop_world ≡ (ok (bought none), after_request none)
unfolding code
keyless_runs = refl

create_order_replay_example : create_order env 7 (request (some 5)) (after_request (some 5)) ≡ (
  ok (bought (some 5)),
  record (after_request (some 5)) {
    audit = (after_request (some 5)).audit ++ idempotent_hit 7 100 ∷ [];
  },
)
create_order_replay_example =
    create_order_replay env env 7 5 (request (some 5)) (request (some 5)) (bought (some 5))
      shop_world (after_request (some 5)) refl refl (unfold code in refl) (unfold code in refl)
      (unfold code in refl) request_runs

create_order-Placed_example :
    (user : User) × (find 7 shop.users ≡ some user)
    × Placed env (request none) user (bought none) shop shop_world (after_request none)
create_order-Placed_example =
    create_order-Placed env 7 (request none) (bought none) shop_world (after_request none) refl
      keyless_runs

stranger_fails : create_order env 8 (request none) shop_world ≡ (err (http not_found), shop_world)
unfolding code
stranger_fails = refl

abbrev shut : Env
shut = record env { channel_open = false }

abbrev bob : User
bob = record ann { id = 8 }

abbrev with_bob : World
with_bob = record (after_request (some 5)) {
  db = record ((after_request (some 5)).db) { users = ann ∷ bob ∷ [] };
}

lost_race :
    creation_error 7 (some 5) (driver unique_violation nothing) (after_request (some 5))
    ≡ (ok (bought (some 5)), after_request (some 5))
unfolding code
lost_race = refl
