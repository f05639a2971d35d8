-- ===== src/Cart/Tests.antt =====
-- The theorems on carts at concrete inputs.
use rd_shop_backend.Base.{◌≡◌, refl, ◌≢◌, none, some, [], ◌∷◌, ◌++◌, arith}
use rd_shop_backend.Base.Int.{ℤ, pos}
use rd_shop_backend.Base.Table.{find, save}
use rd_shop_backend.Base.Outcome.{ok, err, http, bad_request}
use rd_shop_backend.Orders.Model.{product_entity, User, user_entity}
use rd_shop_backend.Orders.Stock.Laws.{IsStocked}
use rd_shop_backend.Orders.Command.Creation.{Placed}
use rd_shop_backend.Orders.Tests.{code as orders_code, shop, env, shop_world, bought, after_request}
use rd_shop_backend.Cart.Model.{
  Cart, CartItem, Shop, AddCartItem, CartCheckout, CartEnv, CartResponse,
}
use rd_shop_backend.Cart.{
  load, cart_of, items_of, item_totals, sum_totals, to_cart_response, find_cart_with_items,
  find_cart_with_items_or_fail, insert_cart, get_or_create_cart_entity, find_line, upsert, put_line,
  add_item, remove_rows, clear_cart, checkout_dto, place_cart, checkout,
}
use rd_shop_backend.Cart.{find_owned_cart_item, update_item}
use rd_shop_backend.Cart.Editing.{Edited, update_item-Edited}
use rd_shop_backend.Cart.Adding.{alone, Added, add_item-Added}
use rd_shop_backend.Cart.Checkout.{checkout-Placed}

code : Unit {0}
unfolding orders_code save find_owned_cart_item update_item item_totals sum_totals to_cart_response
    cart_of items_of find_cart_with_items find_cart_with_items_or_fail insert_cart
    get_or_create_cart_entity find_line upsert put_line add_item remove_rows clear_cart place_cart
    checkout
code = tt

abbrev cart : Cart
cart = record { id = 50; user_id = 7 }

abbrev line : CartItem
line = record { id = 60; cart_id = 50; product_id = 1; quantity = pos 2 }

abbrev line_2 : CartItem
line_2 = record { id = 61; cart_id = 50; product_id = 2; quantity = pos 3 }

abbrev store : Shop
store = record { world = shop_world; carts = cart ∷ []; cart_items = line ∷ line_2 ∷ [] }

abbrev cart_env : CartEnv
cart_env = record { cart_id = 51; item_id = 62; meanwhile = λ s. s; others = λ s. s }

abbrev one : AddCartItem
one = record { product_id = 1; quantity = pos 1 }

abbrev answer : ℤ → CartResponse
answer n = record {
  cart = cart;
  items = (record line { quantity = n }, pos 1497) ∷ (line_2, pos 450) ∷ [];
  total = pos 1947;
}

abbrev added : Shop
added = (add_item (alone cart_env) 7 one store).1

adding_runs : add_item (alone cart_env) 7 one store ≡ (ok (answer (pos 3)), added)
unfolding code
adding_runs = refl

add_item-Added_example : Added 7 one store added
add_item-Added_example =
    add_item-Added cart_env 7 one (answer (pos 3)) store added (refl, (refl, tt)) adding_runs

abbrev raced : Shop
raced = (add_item (record cart_env { others = λ _. added }) 7 one store).1

race_runs :
    add_item (record cart_env { others = λ _. added }) 7 one store ≡ (ok (answer (pos 3)), raced)
unfolding code
race_runs = refl

own : cart_of 7 store.carts ≡ some cart
unfolding code
own = refl

abbrev keyless : CartCheckout
keyless = record { idempotency_key = none; shipping = none }

abbrev keyed : CartCheckout
keyed = record { idempotency_key = some 5; shipping = none }

abbrev sold : Shop
sold = (checkout env (alone cart_env) 7 keyless store).1

sale_runs : checkout env (alone cart_env) 7 keyless store ≡ (ok (bought none), sold)
unfolding code
sale_runs = refl

shop-IsStocked : IsStocked shop.products
unfolding find
shop-IsStocked k p found = ground arith

checkout-Placed_example :
    (user : User) × (find 7 shop.users ≡ some user)
    × Placed env
        (checkout_dto keyless (load store cart).1)
        user
        (bought none)
        shop
        shop_world
        sold.world
    × IsStocked sold.world.db.products
    × (items_of 50 sold.cart_items ≡ [])
checkout-Placed_example =
    checkout-Placed env cart_env 7 keyless (bought none) cart store sold refl (refl, (refl, tt)) own
      shop-IsStocked sale_runs

abbrev late : CartItem
late = record { id = 63; cart_id = 50; product_id = 9; quantity = pos 1 }

abbrev adding : CartEnv
adding = record cart_env { others = λ x. record x { cart_items = x.cart_items ++ late ∷ [] } }

abbrev dropped : Shop
dropped = (checkout env adding 7 keyless store).1

drop_runs : checkout env adding 7 keyless store ≡ (ok (bought none), dropped)
unfolding code
drop_runs = refl

abbrev again : Shop
again = record store { world = after_request (some 5) }

full : items_of 50 again.cart_items ≢ []
unfolding code
full e = cc

abbrev stranger : Shop
stranger = (checkout env cart_env 8 keyless store).1

refusal_runs : checkout env cart_env 8 keyless store ≡ (err (http bad_request), stranger)
unfolding code
refusal_runs = refl

abbrev changed : Shop
changed = (update_item (alone cart_env) 7 60 (pos 3) store).1

change_runs : update_item (alone cart_env) 7 60 (pos 3) store ≡ (ok (answer (pos 3)), changed)
unfolding code
change_runs = refl

update_item-Edited_example : Edited 7 60 (pos 3) store changed
update_item-Edited_example =
    update_item-Edited cart_env 7 60 (pos 3) (answer (pos 3)) store changed change_runs
