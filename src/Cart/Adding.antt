-- ===== src/Cart/Adding.antt =====
-- Adding to a cart: the quantity of the line, its bound, and an update that is lost.
use rd_shop_backend.Base.{
  ◌≡◌, refl, true, false, ◌&&◌, some, [], ◌∷◌, ◌++◌, arith, ◌==◌, if◌then◌else◌, RowId, inl, inr,
  Option-cases,
}
use rd_shop_backend.Base.Int.{ℤ, ◌+ℤ◌, ◌≤ℤ◌, ltb_ℤ}
use rd_shop_backend.Base.Table.{find}
use rd_shop_backend.Base.Outcome.{Result, ok, err}
use rd_shop_backend.Orders.Model.{Product, product_entity}
use rd_shop_backend.Cart.Model.{Cart, CartItem, Shop, AddCartItem, Loaded, CartResponse, CartEnv}
use rd_shop_backend.Cart.{
  load, cart_of, find_cart_with_items, get_or_create_cart_entity, find_line, quantity_of, upsert,
  put_line, add_item,
}
use rd_shop_backend.Cart.Lines.{
  HasUniqueLines, upsert-HasUniqueLines, quantity_in, quantity_in-upsert, quantity_of-find_line,
}

-- No other request writes during the call.
abbrev pub alone : CartEnv → CartEnv
alone env = record env { meanwhile = λ s. s; others = λ s. s }

-- The cart that a call works on, loaded from the table.
pub record Opened (user_id : RowId) (l : Loaded) (s s' : Shop) : Type 0 where
  pub found : cart_of user_id s'.carts ≡ some (l.0)
  pub lines : l ≡ load s' l.0
  pub items : s'.cart_items ≡ s.cart_items
  pub world : s'.world ≡ s.world

get_or_create-Opened :
    (env : CartEnv) (user_id : RowId) (l : Loaded) (s s' : Shop)
    → get_or_create_cart_entity (alone env) user_id s ≡ (ok l, s')
    → Opened user_id l s s'
unfolding get_or_create_cart_entity find_cart_with_items
get_or_create-Opened env user_id l s s' h = elim (Option-cases (cart_of user_id s.carts)) [
  | inr (c, e) ↦ record {
    found = ground arith;
    lines = ground arith;
    items = ground arith;
    world = ground arith;
  }
  | inl e ↦
      let new : Cart = record { id = env.cart_id; user_id = user_id } in
      elim (Option-cases (cart_of user_id (s.carts ++ new ∷ []))) [
        | inl f ↦ absurd (ground arith)
        | inr (c, f) ↦ record {
          found = ground arith;
          lines = ground arith;
          items = ground arith;
          world = ground arith;
        }
      ]
]

-- What an addition that succeeds has done.
pub record Added (user_id : RowId) (dto : AddCartItem) (s s' : Shop) : Type 0 where
  pub product : Product
  pub cart : Cart
  pub known : find dto.product_id s.world.db.products ≡ some product
  pub active : product.is_active ≡ true
  pub own : cart_of user_id s'.carts ≡ some cart
  pub fits : quantity_in cart.id dto.product_id s.cart_items +ℤ dto.quantity ≤ℤ product.stock
  pub quantities :
      (c p : RowId)
      → quantity_in c p s'.cart_items ≡ (
          if (cart.id == c) && (dto.product_id == p)
          then quantity_in cart.id dto.product_id s.cart_items +ℤ dto.quantity
          else quantity_in c p s.cart_items)
  pub unique : HasUniqueLines s'.cart_items

fits_of_ltb : (a b : ℤ) → ltb_ℤ a b ≡ false → b ≤ℤ a
fits_of_ltb a b h = ground arith

put_line-upsert :
    (env : CartEnv) (user_id cart_id product_id : RowId) (n : ℤ) (s : Shop)
    → let s' = (put_line env user_id cart_id product_id n s).1 in
      (s'.cart_items
        ≡ upsert
            (record { id = env.item_id; cart_id = cart_id; product_id = product_id; quantity = n })
            (env.others s).cart_items)
      × (s'.carts ≡ (env.others s).carts)
unfolding put_line
put_line-upsert env user_id cart_id product_id n s = ground arith

-- The write of an addition that succeeds, on what it has read.
record Wrote (env : CartEnv) (user_id : RowId) (dto : AddCartItem) (l : Loaded) (s1 s s' : Shop)
    : Type 0 where
  product : Product
  known : find dto.product_id s.world.db.products ≡ some product
  active : product.is_active ≡ true
  fits :
      quantity_of (find_line (λ i. i.product_id == dto.product_id) l.1) +ℤ dto.quantity
      ≤ℤ product.stock
  written :
      s'
      ≡ (put_line env user_id
          (l.0).id
          dto.product_id
          (quantity_of (find_line (λ i. i.product_id == dto.product_id) l.1) +ℤ dto.quantity)
          s1).1

add_item-Wrote :
    (env : CartEnv) (user_id : RowId) (dto : AddCartItem) (r : CartResponse) (s s' : Shop)
    → add_item env user_id dto s ≡ (ok r, s')
    → (l : Loaded) × (s1 : Shop) × (get_or_create_cart_entity env user_id s ≡ (ok l, s1))
      × Wrote env user_id dto l s1 s s'
unfolding add_item
add_item-Wrote env user_id dto r s s' h = by_cart (get_or_create_cart_entity env user_id s) refl
  where
    by_cart :
        (o : Result Loaded × Shop)
        → get_or_create_cart_entity env user_id s ≡ o
        → (l : Loaded) × (s1 : Shop) × (get_or_create_cart_entity env user_id s ≡ (ok l, s1))
          × Wrote env user_id dto l s1 s s'
    by_cart (err e, s1) g = absurd (ground arith)
    by_cart (ok l, s1) g = elim (Option-cases (find dto.product_id s.world.db.products)) [
      | inl e ↦ absurd (ground arith)
      | inr (p, e) ↦
          let n =
            quantity_of (find_line (λ i. i.product_id == dto.product_id) l.1) +ℤ dto.quantity in
          (
            l,
            s1,
            g,
            record {
              product = p;
              known = e;
              active = ground arith;
              fits = fits_of_ltb p.stock n (ground arith);
              written = ground arith;
            },
          )
    ]

-- An addition that succeeds while no other request writes: the product is active, its quantity in the
-- user's cart grows by what was asked and stays within the stock, every other quantity is as it was,
-- and no cart gets two lines for one product.
pub add_item-Added :
    (env : CartEnv) (user_id : RowId) (dto : AddCartItem) (r : CartResponse) (s s' : Shop)
    → HasUniqueLines s.cart_items
    → add_item (alone env) user_id dto s ≡ (ok r, s')
    → Added user_id dto s s'
add_item-Added env user_id dto r s s' unique h =
    let (l, s1, g, w) = add_item-Wrote (alone env) user_id dto r s s' h in
    let opened = get_or_create-Opened env user_id l s s1 g in
    let old = quantity_of-find_line (l.0).id dto.product_id s1.world.db.products s1.cart_items in
    let n = quantity_in (l.0).id dto.product_id s.cart_items +ℤ dto.quantity in
    let new : CartItem = record {
      id = env.item_id;
      cart_id = (l.0).id;
      product_id = dto.product_id;
      quantity = n;
    } in
    let same : quantity_of (find_line (λ i. i.product_id == dto.product_id) l.1) +ℤ dto.quantity
        ≡ n =
      ground (arith, opened.lines, opened.items, old) in
    let (items, carts) = put_line-upsert (alone env) user_id (l.0).id dto.product_id n s1 in
    let written : s'.cart_items ≡ upsert new s.cart_items =
      ground (arith, w.written, same, items, opened.items) in
    record {
      product = w.product;
      cart = l.0;
      known = w.known;
      active = w.active;
      own = ground (arith, w.written, same, carts, opened.found);
      fits = rw same at (w.fits);
      quantities = λ c p. ground (arith, written, quantity_in-upsert c p new s.cart_items);
      unique = rw written (upsert-HasUniqueLines new s.cart_items unique);
    }

-- What is written is what was read and the request, whatever the others wrote in between.
add_item_overwrites :
    (env : CartEnv) (user_id : RowId) (dto : AddCartItem) (r : CartResponse) (c : Cart)
    (s s' : Shop)
    → cart_of user_id s.carts ≡ some c
    → add_item env user_id dto s ≡ (ok r, s')
    → quantity_in c.id dto.product_id s'.cart_items
      ≡ quantity_in c.id dto.product_id s.cart_items +ℤ dto.quantity
unfolding get_or_create_cart_entity find_cart_with_items
add_item_overwrites env user_id dto r c s s' own h =
    let (l, s1, g, w) = add_item-Wrote env user_id dto r s s' h in
    let n = quantity_in c.id dto.product_id s.cart_items +ℤ dto.quantity in
    let new : CartItem = record {
      id = env.item_id;
      cart_id = c.id;
      product_id = dto.product_id;
      quantity = n;
    } in
    let read : l ≡ load s c = ground arith in
    ground (
      arith,
      read,
      quantity_of-find_line c.id dto.product_id s.world.db.products s.cart_items,
      w.written,
      put_line-upsert env user_id c.id dto.product_id n s1,
      quantity_in-upsert c.id dto.product_id new (env.others s1).cart_items,
    )

-- Two additions of one product to a cart, where the second has read before the first writes, and
-- writes after it: both succeed, and what the first has added is lost.
add_item_race :
    (env env' : CartEnv) (user_id : RowId) (dto dto' : AddCartItem) (r r' : CartResponse) (c : Cart)
    (s s1 s' : Shop)
    → cart_of user_id s.carts ≡ some c
    → dto'.product_id ≡ dto.product_id
    → add_item (alone env') user_id dto' s ≡ (ok r', s1)
    → add_item (record env { others = λ _. s1 }) user_id dto s ≡ (ok r, s')
    → let quantity = λ (x : Shop). quantity_in c.id dto.product_id x.cart_items in
      (quantity s1 ≡ quantity s +ℤ dto'.quantity) × (quantity s' ≡ quantity s +ℤ dto.quantity)
add_item_race env env' user_id dto dto' r r' c s s1 s' own same first second = (
  ground (arith, same, add_item_overwrites (alone env') user_id dto' r' c s s1 own first),
  add_item_overwrites (record env { others = λ _. s1 }) user_id dto r c s s' own second,
)
