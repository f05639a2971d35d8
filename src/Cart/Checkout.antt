-- ===== src/Cart/Checkout.antt =====
-- The checkout: the cart through the orders domain.
use rd_shop_backend.Base.{
  ◌≡◌, refl, ◌≢◌, ◌⊎◌, ◌++◌, true, none, some, List, [], ◌∷◌, map, arith, RowId, truthy, inl, inr,
  Option-cases,
}
use rd_shop_backend.Base.Table.{find}
use rd_shop_backend.Base.Outcome.{Error, Result, ok, err}
use rd_shop_backend.Orders.Model.{
  Product, product_entity, User, user_entity, Order, CreateOrder, World, idempotent_hit,
}
use rd_shop_backend.Orders.Rules.{validate_order_items}
use rd_shop_backend.Orders.Stock.Laws.{IsStocked, lock_validate_and_decrement-IsStocked}
use rd_shop_backend.Orders.Command.{
  Env, create_order, product_ids_of, find_by_key, validate_user, check_idempotency,
}
use rd_shop_backend.Orders.Command.Keys.{order_transaction-Committed}
use rd_shop_backend.Orders.Command.Creation.{Placed, create_order-Placed, create_order_error}
use rd_shop_backend.Cart.Adding.{alone}
use rd_shop_backend.Cart.Model.{Cart, CartItem, Shop, CartCheckout, CartEnv, Line}
use rd_shop_backend.Cart.{
  load, cart_of, items_of, find_cart_with_items, clear_cart, checkout_dto, place_cart, checkout,
}
use rd_shop_backend.Cart.Lines.{HasUniqueLines, items_of-HasDistinctProducts, clear_cart_lem}

clear_cart_ok : (user_id : RowId) (s : Shop) → (clear_cart user_id s).0 ≡ ok tt
unfolding clear_cart
clear_cart_ok user_id s = ground arith

-- A checkout that succeeds is a call of `createOrder` with the lines of the cart that it has read,
-- and a clearing after it.
record Ordered (env : Env) (cart_env : CartEnv) (user_id : RowId) (dto : CartCheckout) (o : Order)
    (c : Cart) (s s' : Shop) : Type 0 where
  world : World
  ordered : create_order env user_id (checkout_dto dto (load s c).1) s.world ≡ (ok o, world)
  cleared : s' ≡ (clear_cart user_id (cart_env.others (record s { world = world }))).1

place_cart-Ordered :
    (env : Env) (cart_env : CartEnv) (user_id : RowId) (dto : CartCheckout) (o : Order) (c : Cart)
    (s s' : Shop)
    → place_cart env cart_env user_id (checkout_dto dto (load s c).1) s ≡ (ok o, s')
    → Ordered env cart_env user_id dto o c s s'
unfolding place_cart
place_cart-Ordered env cart_env user_id dto o c s s' h =
    by_order (create_order env user_id (checkout_dto dto (load s c).1) s.world) refl
  where
    by_order :
        (r : Result Order × World)
        → create_order env user_id (checkout_dto dto (load s c).1) s.world ≡ r
        → Ordered env cart_env user_id dto o c s s'
    by_order (err e, w) r = absurd (ground arith)
    by_order (ok p, w) r = record {
      world = w;
      ordered = ground arith;
      cleared = ground (arith, clear_cart_ok user_id (cart_env.others (record s { world = w })));
    }

checkout-Ordered :
    (env : Env) (cart_env : CartEnv) (user_id : RowId) (dto : CartCheckout) (o : Order) (c : Cart)
    (s s' : Shop)
    → cart_of user_id s.carts ≡ some c
    → checkout env cart_env user_id dto s ≡ (ok o, s')
    → Ordered env cart_env user_id dto o c s s'
unfolding checkout find_cart_with_items
checkout-Ordered env cart_env user_id dto o c s s' own h = by_lines (load s c).1 refl
  where
    by_lines : (ls : List Line) → (load s c).1 ≡ ls → Ordered env cart_env user_id dto o c s s'
    by_lines [] e = absurd (ground arith)
    by_lines (l ∷ ls) e = place_cart-Ordered env cart_env user_id dto o c s s' (ground arith)

-- A checkout without an idempotency key that succeeds while no other request writes to carts has
-- placed an order for exactly the lines of the user's cart, which is left empty. As a cart has one
-- line for a product, no stock falls below zero.
pub checkout-Placed :
    (env : Env) (cart_env : CartEnv) (user_id : RowId) (dto : CartCheckout) (o : Order) (c : Cart)
    (s s' : Shop)
    → truthy dto.idempotency_key ≡ none
    → HasUniqueLines s.cart_items
    → cart_of user_id s.carts ≡ some c
    → IsStocked (env.others s.world.db).products
    → checkout env (alone cart_env) user_id dto s ≡ (ok o, s')
    → (user : User) × (find user_id s.world.db.users ≡ some user)
      × Placed env (checkout_dto dto (load s c).1) user o (env.others s.world.db) s.world s'.world
      × IsStocked s'.world.db.products
      × (items_of c.id s'.cart_items ≡ [])
checkout-Placed env cart_env user_id dto o c s s' keyless unique own stocked h =
    let r = checkout-Ordered env (alone cart_env) user_id dto o c s s' own h in
    let after : Shop = record s { world = r.world } in
    let lines = checkout_dto dto (load s c).1 in
    let (user, known, placed) =
      create_order-Placed env user_id lines o s.world r.world keyless r.ordered in
    let (done, emptied, same) = clear_cart_lem user_id c after own in
    let world : s'.world ≡ r.world = ground (arith, r.cleared, same) in
    let t =
      order_transaction-Committed env lines user (product_ids_of lines) o (env.others s.world.db)
        r.world.db placed.committed in
    let covered : IsStocked t.reserved.products =
      lock_validate_and_decrement-IsStocked lines.items (env.others s.world.db) t.reserved
        t.product_map (items_of-HasDistinctProducts c.id s.world.db.products s.cart_items unique)
        stocked t.took in
    let reserved : s'.world.db.products ≡ t.reserved.products = ground (arith, world, t.written) in
    (user, known, rw world placed, rw reserved covered, ground (arith, r.cleared, emptied))

-- A line that another request puts into the cart between the order and the clearing is lost: it is
-- not in the order, and the cart is empty afterwards.
checkout_drops :
    (env : Env) (cart_env : CartEnv) (user_id : RowId) (dto : CartCheckout) (o : Order) (c : Cart)
    (late : CartItem) (s s' : Shop)
    → cart_of user_id s.carts ≡ some c
    → late.cart_id ≡ c.id
    → cart_env.others ≡ (λ x. record x { cart_items = x.cart_items ++ late ∷ [] })
    → checkout env cart_env user_id dto s ≡ (ok o, s')
    → ((create_order env user_id (checkout_dto dto (load s c).1) s.world).0 ≡ ok o)
      × (items_of c.id s'.cart_items ≡ [])
checkout_drops env cart_env user_id dto o c late s s' own in_cart adds h =
    let r = checkout-Ordered env cart_env user_id dto o c s s' own h in
    let after : Shop = record s { world = r.world; cart_items = s.cart_items ++ late ∷ [] } in
    let (done, emptied, same) = clear_cart_lem user_id c after own in
    let seen : cart_env.others (record s { world = r.world }) ≡ after = rw adds in
    (ground (arith, r.ordered), ground (arith, r.cleared, seen, emptied))

load-empty :
    (products : List Product) (items : List CartItem)
    → map {B = Line} (λ i. (i, find i.product_id products)) items ≡ []
    → items ≡ []
load-empty products [] h = refl
load-empty products (i ∷ items) h = cc

-- With a key that already has an order, the checkout returns that order and still empties the cart:
-- the lines are neither ordered nor kept, and no order and no stock changes.
checkout_replay :
    (env : Env) (cart_env : CartEnv) (user_id k : RowId) (dto : CartCheckout) (o : Order)
    (user : User) (c : Cart) (s : Shop)
    → cart_of user_id s.carts ≡ some c
    → items_of c.id s.cart_items ≢ []
    → find user_id s.world.db.users ≡ some user
    → validate_order_items (checkout_dto dto (load s c).1).items ≡ ok tt
    → truthy dto.idempotency_key ≡ some k
    → find_by_key k s.world.db.orders ≡ some o
    → let (r, s') = checkout env (alone cart_env) user_id dto s in
      (r ≡ ok o) × (s'.world.db ≡ s.world.db) × (items_of c.id s'.cart_items ≡ [])
unfolding checkout place_cart find_cart_with_items create_order validate_user check_idempotency
checkout_replay env cart_env user_id k dto o user c s own full known valid key used =
    by_lines (load s c).1 refl
  where
    by_lines :
        (ls : List Line)
        → (load s c).1 ≡ ls
        → let (r, s') = checkout env (alone cart_env) user_id dto s in
          (r ≡ ok o) × (s'.world.db ≡ s.world.db) × (items_of c.id s'.cart_items ≡ [])
    by_lines [] e = absurd (full (load-empty s.world.db.products (items_of c.id s.cart_items) e))
    by_lines (l ∷ ls) e =
        let after : Shop = record s {
          world = record (s.world) { audit = s.world.audit ++ idempotent_hit user_id o.id ∷ [] };
        } in
        ground (arith, clear_cart_lem user_id c after own)

place_cart_error :
    (env : Env) (cart_env : CartEnv) (user_id : RowId) (d : CreateOrder) (e : Error) (s s' : Shop)
    → place_cart env cart_env user_id d s ≡ (err e, s')
    → (w : World) × (create_order env user_id d s.world ≡ (err e, w))
      × (s' ≡ record s { world = w })
unfolding place_cart
place_cart_error env cart_env user_id d e s s' h =
    by_order (create_order env user_id d s.world) refl
  where
    by_order :
        (r : Result Order × World)
        → create_order env user_id d s.world ≡ r
        → (w : World) × (create_order env user_id d s.world ≡ (err e, w))
          × (s' ≡ record s { world = w })
    by_order (err x, w) r = (w, ground arith, ground arith)
    by_order (ok o, w) r =
        absurd (ground (arith, clear_cart_ok user_id (cart_env.others (record s { world = w }))))

-- A checkout that fails leaves every cart as it was; the database is as the other requests of the
-- orders domain have left it, if the channel to the broker is open.
checkout_error :
    (env : Env) (cart_env : CartEnv) (user_id : RowId) (dto : CartCheckout) (e : Error)
    (s s' : Shop)
    → env.channel_open ≡ true
    → checkout env cart_env user_id dto s ≡ (err e, s')
    → (s'.cart_items ≡ s.cart_items)
      × (s'.carts ≡ s.carts)
      × ((s'.world.db ≡ s.world.db) ⊎ (s'.world.db ≡ env.others s.world.db))
unfolding checkout find_cart_with_items
checkout_error env cart_env user_id dto e s s' opened h =
    elim (Option-cases (cart_of user_id s.carts)) [
      | inl none_yet ↦ ground arith
      | inr (c, own) ↦ by_lines c own (load s c).1 refl
    ]
  where
    by_lines :
        (c : Cart)
        → cart_of user_id s.carts ≡ some c
        → (ls : List Line) → (load s c).1 ≡ ls
        → (s'.cart_items ≡ s.cart_items)
          × (s'.carts ≡ s.carts)
          × ((s'.world.db ≡ s.world.db) ⊎ (s'.world.db ≡ env.others s.world.db))
    by_lines c own [] e = ground arith
    by_lines c own (l ∷ ls) loaded =
        let d = checkout_dto dto (l ∷ ls) in
        let (w, failed, same) = place_cart_error env cart_env user_id d e s s' (ground arith) in
        ground (arith, same, create_order_error env user_id d e s.world w opened failed)
