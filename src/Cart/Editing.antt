-- ===== src/Cart/Editing.antt =====
-- Changing and removing a line: only one of the user's own cart.
use rd_shop_backend.Base.{
  false, ◌≡◌, refl, Option, none, some, List, [], ◌∷◌, map, arith, ◌==◌, RowId, Option-cases,
  Bool-cases, inl, inr,
}
use rd_shop_backend.Base.Int.{ℤ, ltb_ℤ}
use rd_shop_backend.Base.Table.{find, save}
use rd_shop_backend.Base.Outcome.{Result, ok, err, lift, ◌>>=◌}
use rd_shop_backend.Orders.Model.{Product, product_entity}
use rd_shop_backend.Cart.Model.{Cart, CartItem, cart_item_entity, Shop, Line, CartResponse, CartEnv}
use rd_shop_backend.Cart.{
  load, cart_of, items_of, find_cart_with_items, find_cart_with_items_or_fail, find_line,
  find_owned_cart_item, remove_rows, remove_item, update_item, to_cart_response,
}
use rd_shop_backend.Cart.Adding.{alone}

-- A line of the user's cart with the id that was asked for.
pub record Owned (user_id item_id : RowId) (l : Line) (s : Shop) : Type 0 where
  pub cart : Cart
  pub own : cart_of user_id s.carts ≡ some cart
  pub in_cart : (l.0).cart_id ≡ cart.id
  pub named : (l.0).id ≡ item_id
  pub product : l.1 ≡ find (l.0).product_id s.world.db.products

find_line-load :
    (c k : RowId) (products : List Product) (items : List CartItem) (l : Line)
    → find_line (λ i. i.id == k) (map (λ i. (i, find i.product_id products)) (items_of c items))
      ≡ some l
    → ((l.0).cart_id ≡ c) × ((l.0).id ≡ k) × (l.1 ≡ find (l.0).product_id products)
unfolding find_line items_of
find_line-load c k products [] l h = cc
find_line-load c k products (i ∷ items) l h = ground (arith, find_line-load c k products items l)

find_owned_cart_item-Owned :
    (user_id item_id : RowId) (l : Line) (s s' : Shop)
    → find_owned_cart_item user_id item_id s ≡ (ok l, s')
    → Owned user_id item_id l s × (s' ≡ s)
unfolding find_owned_cart_item find_cart_with_items
find_owned_cart_item-Owned user_id item_id l s s' h =
    elim (Option-cases (cart_of user_id s.carts)) [
      | inl e ↦ absurd (ground arith)
      | inr (c, e) ↦ elim (Option-cases (find_line (λ i. i.id == item_id) (load s c).1)) [
        | inl f ↦ absurd (ground arith)
        | inr (m, f) ↦
            let same : m ≡ l = ground arith in
            let (in_cart, named, product) =
              find_line-load c.id item_id s.world.db.products s.cart_items m f in
            (
              record {
                cart = c;
                own = e;
                in_cart = ground (arith, same);
                named = ground (arith, same);
                product = ground (arith, same);
              },
              ground arith,
            )
      ]
    ]

-- What a change of a quantity that succeeds has done.
pub record Edited (user_id item_id : RowId) (quantity : ℤ) (s s' : Shop) : Type 0 where
  pub line : Line
  pub product : Product
  pub owned : Owned user_id item_id line s
  pub sold : line.1 ≡ some product
  pub enough : ltb_ℤ product.stock quantity ≡ false
  pub written :
      s' ≡ record s { cart_items = save (record (line.0) { quantity = quantity }) s.cart_items }

-- Answering with the cart writes nothing.
answered :
    (user_id : RowId) (response : CartResponse) (s s' : Shop)
    → (find_cart_with_items_or_fail user_id >>= λ c. lift (to_cart_response c)) s
      ≡ (ok response, s')
    → s' ≡ s
unfolding find_cart_with_items_or_fail
answered user_id response s s' h = elim (Option-cases (find_cart_with_items user_id s)) [
  | inl e ↦ absurd (ground arith)
  | inr (c, e) ↦ ground arith
]

-- A change of a quantity that succeeds, while no other request writes, has changed the quantity of one
-- line of the user's own cart, within the stock of its product, and nothing else.
pub update_item-Edited :
    (env : CartEnv) (user_id item_id : RowId) (quantity : ℤ) (response : CartResponse) (s s' : Shop)
    → update_item (alone env) user_id item_id quantity s ≡ (ok response, s')
    → Edited user_id item_id quantity s s'
unfolding update_item
update_item-Edited env user_id item_id quantity response s s' h =
    by_owned (find_owned_cart_item user_id item_id s) refl
  where
    by_product :
        (l : Line)
        → find_owned_cart_item user_id item_id s ≡ (ok l, s)
        → Owned user_id item_id l s
        → (o : Option Product) → l.1 ≡ o
        → Edited user_id item_id quantity s s'
    by_product l e owned none g = absurd (ground (arith, e, g))
    by_product l e owned (some p) g = elim (Bool-cases (ltb_ℤ p.stock quantity)) [
      | inl t ↦ absurd (ground (arith, e, g))
      | inr t ↦
          let after : Shop = record s {
            cart_items = save (record (l.0) { quantity = quantity }) s.cart_items;
          } in
          record {
            line = l;
            product = p;
            owned = owned;
            sold = g;
            enough = t;
            written = answered user_id response after s' (ground (arith, e, g));
          }
    ]

    by_owned :
        (r : Result Line × Shop)
        → find_owned_cart_item user_id item_id s ≡ r
        → Edited user_id item_id quantity s s'
    by_owned (err x, s1) e = absurd (ground (arith, e))
    by_owned (ok l, s1) e =
        let (owned, same) = find_owned_cart_item-Owned user_id item_id l s s1 e in
        by_product l (ground (arith, e, same)) owned l.1 refl

-- What a removal that succeeds has done.
pub record Removed (user_id item_id : RowId) (s s' : Shop) : Type 0 where
  pub line : Line
  pub owned : Owned user_id item_id line s
  pub written : s' ≡ record s { cart_items = remove_rows (line.0 ∷ []) s.cart_items }

-- A removal that succeeds, while no other request writes, has removed one line of the user's own cart,
-- and nothing else.
pub remove_item-Removed :
    (env : CartEnv) (user_id item_id : RowId) (response : CartResponse) (s s' : Shop)
    → remove_item (alone env) user_id item_id s ≡ (ok response, s')
    → Removed user_id item_id s s'
unfolding remove_item
remove_item-Removed env user_id item_id response s s' h =
    by_owned (find_owned_cart_item user_id item_id s) refl
  where
    by_owned :
        (r : Result Line × Shop)
        → find_owned_cart_item user_id item_id s ≡ r
        → Removed user_id item_id s s'
    by_owned (err x, s1) e = absurd (ground (arith, e))
    by_owned (ok l, s1) e =
        let (owned, same) = find_owned_cart_item-Owned user_id item_id l s s1 e in
        let after : Shop = record s { cart_items = remove_rows (l.0 ∷ []) s.cart_items } in
        record {
          line = l;
          owned = owned;
          written = answered user_id response after s' (ground (arith, e, same));
        }
