-- ===== src/Cart.antt =====
-- CartService (cart/cart.service.ts, cart/utils). What other requests commit while a call waits is in
-- `CartEnv`: before a new cart is inserted (`meanwhile`), and between the last read of a call and its
-- write (`others`); an order is created in the world of the orders domain, with its own `Env`.
pub mod Model
pub mod Lines
pub mod Adding
pub mod Editing
pub mod Checkout
mod Tests
use rd_shop_backend.Base.{
  Bool, true, false, not, ◌&&◌, Option, none, some, List, [], ◌∷◌, ◌++◌, map, ◌==◌, if◌then◌else◌,
  RowId, any,
}
use rd_shop_backend.Base.Int.{ℤ, pos, ◌+ℤ◌, ltb_ℤ}
use rd_shop_backend.Base.Table.{Entity, find, save}
use rd_shop_backend.Base.Outcome.{
  Action, Result, ok, err, Error, http, driver, internal, bad_request, not_found, conflict,
  unique_violation, nothing, pure, gets, modify, throw_if, or_throw, lift, ◌>>=◌, ◌>>◌,
}
use rd_shop_backend.Orders.Model.{
  Product, product_entity, Address, Order, StockItem, CreateOrder, World,
}
use rd_shop_backend.Orders.Rules.{line_cents}
use rd_shop_backend.Cart.Model.{
  Cart, CartItem, cart_item_entity, Shop, AddCartItem, CartCheckout, Line, Loaded, CartResponse,
  CartEnv,
}
use rd_shop_backend.Orders.Command.{Env, create_order}

unfoldable pub item_totals : List Line → Result (List (CartItem × ℤ))
item_totals [] = ok []
item_totals ((i, none) ∷ lines) = err internal
item_totals ((i, some p) ∷ lines) = elim (item_totals lines) [
  | err e ↦ err e
  | ok rest ↦ ok ((i, line_cents p.price i.quantity) ∷ rest)
]

-- the `reduce` from the left
unfoldable pub sum_totals : ℤ → List (CartItem × ℤ) → ℤ
sum_totals sum [] = sum
sum_totals sum ((i, t) ∷ items) = sum_totals (sum +ℤ t) items

-- `toCartResponse`: a line without its product is a TypeError.
unfoldable pub to_cart_response : Loaded → Result CartResponse
unfolding item_totals sum_totals
to_cart_response (cart, lines) = elim (item_totals lines) [
  | err e ↦ err e
  | ok items ↦ ok (record { cart = cart; items = items; total = sum_totals (pos 0) items })
]

-- `where: { userId }`
unfoldable pub cart_of : RowId → List Cart → Option Cart
cart_of user_id [] = none
cart_of user_id (c ∷ carts) = if c.user_id == user_id then some c else cart_of user_id carts

unfoldable pub items_of : RowId → List CartItem → List CartItem
items_of cart_id [] = []
items_of cart_id (i ∷ items) =
    let rest = items_of cart_id items in if i.cart_id == cart_id then i ∷ rest else rest

abbrev pub load : Shop → Cart → Loaded
load s c = (c, map (λ i. (i, find i.product_id s.world.db.products)) (items_of c.id s.cart_items))

unfoldable pub find_cart_with_items : RowId → Shop → Option Loaded
find_cart_with_items user_id s = elim (cart_of user_id s.carts) [
  | none ↦ none
  | some c ↦ some (load s c)
]

unfoldable pub find_cart_with_items_or_fail : RowId → Action Shop Loaded
find_cart_with_items_or_fail user_id = do
  cart ← gets (find_cart_with_items user_id)
  or_throw cart (http not_found)

-- `INSERT` under the unique constraint on `user_id`
unfoldable pub insert_cart : Cart → Action Shop (Unit {0})
insert_cart c s =
    if any (λ x. x.user_id == c.user_id) s.carts
    then (err (driver unique_violation nothing), s)
    else (ok tt, record s { carts = s.carts ++ c ∷ [] })

unfoldable pub get_or_create_cart_entity : CartEnv → RowId → Action Shop Loaded
unfolding insert_cart find_cart_with_items_or_fail
get_or_create_cart_entity env user_id = do
  existing ← gets (find_cart_with_items user_id)
  elim existing [
    | some cart ↦ pure cart
    | none ↦ do
      modify env.meanwhile
      insert_cart (record { id = env.cart_id; user_id = user_id })
      find_cart_with_items_or_fail user_id
  ]

-- `cart.items.find(p)`
unfoldable pub find_line : (CartItem → Bool) → List Line → Option Line
find_line p [] = none
find_line p ((i, q) ∷ lines) = if p i then some (i, q) else find_line p lines

-- `existingItem?.quantity ?? 0`
abbrev pub quantity_of : Option Line → ℤ
quantity_of none = pos 0
quantity_of (some (i, q)) = i.quantity

-- `INSERT … ON CONFLICT (cart_id, product_id) DO UPDATE`
unfoldable pub upsert : CartItem → List CartItem → List CartItem
upsert new [] = new ∷ []
upsert new (i ∷ items) =
    if (i.cart_id == new.cart_id) && (i.product_id == new.product_id)
    then record i { quantity = new.quantity } ∷ items
    else i ∷ upsert new items

abbrev is_zero : ℤ → Bool
is_zero (pos n) = n == 0
is_zero _ = false

-- The write of `addItem`, and the answer.
unfoldable pub put_line : CartEnv → RowId → RowId → RowId → ℤ → Action Shop CartResponse
unfolding find_cart_with_items_or_fail
put_line env user_id cart_id product_id quantity = do
  modify env.others
  modify (λ s. record s {
    cart_items =
        upsert
          (record {
            id = env.item_id;
            cart_id = cart_id;
            product_id = product_id;
            quantity = quantity;
          })
          s.cart_items;
  })
  lift (to_cart_response (← find_cart_with_items_or_fail user_id))

unfoldable pub add_item : CartEnv → RowId → AddCartItem → Action Shop CartResponse
unfolding get_or_create_cart_entity put_line
add_item env user_id dto = do
  product ← or_throw (← gets (λ s. find dto.product_id s.world.db.products)) (http not_found)
  throw_if (not product.is_active) (http conflict)
  throw_if (is_zero product.stock) (http conflict)
  loaded ← get_or_create_cart_entity env user_id
  let line = find_line (λ i. i.product_id == dto.product_id) loaded.1
  let new_quantity = quantity_of line +ℤ dto.quantity
  throw_if (ltb_ℤ product.stock new_quantity) (http conflict)
  put_line env user_id (loaded.0).id dto.product_id new_quantity

-- `remove(rows)`, by their ids
unfoldable pub remove_rows : List CartItem → List CartItem → List CartItem
remove_rows rows [] = []
remove_rows rows (i ∷ items) =
    let rest = remove_rows rows items in if any (λ r. r.id == i.id) rows then rest else i ∷ rest

unfoldable pub clear_cart : RowId → Action Shop (Unit {0})
clear_cart user_id = do
  cart ← gets (find_cart_with_items user_id)
  elim cart [
    | none ↦ pure tt
    | some (c, lines) ↦
        modify (λ s. record s { cart_items = remove_rows (map (λ l. l.0) lines) s.cart_items })
  ]

unfoldable pub get_cart : CartEnv → RowId → Action Shop CartResponse
unfolding get_or_create_cart_entity
get_cart env user_id = do cart ← get_or_create_cart_entity env user_id; lift (to_cart_response cart)

unfoldable pub find_owned_cart_item : RowId → RowId → Action Shop Line
find_owned_cart_item user_id item_id = do
  cart ← gets (find_cart_with_items user_id)
  elim cart [
    | none ↦ or_throw none (http not_found)
    | some (c, lines) ↦ or_throw (find_line (λ i. i.id == item_id) lines) (http not_found)
  ]

unfoldable pub remove_item : CartEnv → RowId → RowId → Action Shop CartResponse
unfolding find_owned_cart_item find_cart_with_items_or_fail
remove_item env user_id item_id = do
  line ← find_owned_cart_item user_id item_id
  modify env.others
  modify (λ s. record s { cart_items = remove_rows (line.0 ∷ []) s.cart_items })
  lift (to_cart_response (← find_cart_with_items_or_fail user_id))

-- Reading the stock of a product that is gone is a TypeError.
unfoldable pub update_item : CartEnv → RowId → RowId → ℤ → Action Shop CartResponse
unfolding find_owned_cart_item find_cart_with_items_or_fail
update_item env user_id item_id quantity = do
  line ← find_owned_cart_item user_id item_id
  product ← or_throw line.1 internal
  throw_if (ltb_ℤ product.stock quantity) (http conflict)
  modify env.others
  modify
      (λ s. record s { cart_items = save (record (line.0) { quantity = quantity }) s.cart_items })
  lift (to_cart_response (← find_cart_with_items_or_fail user_id))

abbrev pub in_world : {A : Type 0} → Action World A → Action Shop A
in_world m s = let (r, w) = m s.world in (r, record s { world = w })

abbrev pub ordered : Line → StockItem
ordered l = record { product_id = (l.0).product_id; quantity = (l.0).quantity }

abbrev pub checkout_dto : CartCheckout → List Line → CreateOrder
checkout_dto dto lines = record {
  idempotency_key = dto.idempotency_key;
  items = map ordered lines;
  shipping = dto.shipping;
}

-- The order, and then the clearing of the cart, which reads the cart again.
unfoldable pub place_cart : Env → CartEnv → RowId → CreateOrder → Action Shop Order
unfolding clear_cart
place_cart env cart_env user_id dto = do
  order ← in_world (create_order env user_id dto)
  modify cart_env.others
  clear_cart user_id
  pure order

unfoldable pub checkout : Env → CartEnv → RowId → CartCheckout → Action Shop Order
unfolding place_cart
checkout env cart_env user_id dto = do
  cart ← gets (find_cart_with_items user_id)
  elim cart [
    | none ↦ or_throw none (http bad_request)
    | some (c, []) ↦ or_throw none (http bad_request)
    | some (c, l ∷ lines) ↦ place_cart env cart_env user_id (checkout_dto dto (l ∷ lines))
  ]
