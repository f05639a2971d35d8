-- ===== src/Cart/Lines.antt =====
-- The lines of a cart: what loading, the upsert and the clearing do to them.
use rd_shop_backend.Base.{
  ◌≡◌, refl, Bool, true, false, ◌&&◌, ◌||◌, some, List, [], ◌∷◌, map, arith, ◌==◌, if◌then◌else◌,
  RowId, any, all, contains,
}
use rd_shop_backend.Base.Int.{ℤ, pos}
use rd_shop_backend.Base.Table.{find}
use rd_shop_backend.Base.Outcome.{ok}
use rd_shop_backend.Orders.Model.{Product, product_entity}
use rd_shop_backend.Orders.Stock.Validation.{ids_of, HasDistinctProducts}
use rd_shop_backend.Cart.Model.{Cart, CartItem, Shop, Line}
use rd_shop_backend.Cart.{
  cart_of, items_of, find_cart_with_items, find_line, quantity_of, upsert, remove_rows, ordered,
  clear_cart,
}

abbrev pub is_line : RowId → RowId → CartItem → Bool
is_line cart_id product_id i = (i.cart_id == cart_id) && (i.product_id == product_id)

-- The unique index of `cart_items`: a cart has one line for a product.
abbrev pub HasUniqueLines : List CartItem → Type 0
HasUniqueLines [] = Unit
HasUniqueLines (i ∷ items) =
    (any (is_line i.cart_id i.product_id) items ≡ false) × HasUniqueLines items

any_line-upsert :
    (c p : RowId) (new : CartItem) (items : List CartItem)
    → any (is_line c p) (upsert new items) ≡ (is_line c p new || any (is_line c p) items)
unfolding upsert
any_line-upsert c p new [] = ground arith
any_line-upsert c p new (i ∷ items) = ground (arith, any_line-upsert c p new items)

-- The upsert keeps the index.
pub upsert-HasUniqueLines :
    (new : CartItem) (items : List CartItem)
    → HasUniqueLines items
    → HasUniqueLines (upsert new items)
unfolding upsert
upsert-HasUniqueLines new [] u = (refl, tt)
upsert-HasUniqueLines new (i ∷ items) (free, u) =
    ground
      (arith, any_line-upsert i.cart_id i.product_id new items, upsert-HasUniqueLines new items u)

any_line-remove_rows :
    (c p : RowId) (rows items : List CartItem)
    → any (is_line c p) items ≡ false
    → any (is_line c p) (remove_rows rows items) ≡ false
unfolding remove_rows
any_line-remove_rows c p rows [] h = refl
any_line-remove_rows c p rows (i ∷ items) h = ground (arith, any_line-remove_rows c p rows items)

pub remove_rows-HasUniqueLines :
    (rows items : List CartItem) → HasUniqueLines items → HasUniqueLines (remove_rows rows items)
unfolding remove_rows
remove_rows-HasUniqueLines rows [] u = tt
remove_rows-HasUniqueLines rows (i ∷ items) (free, u) = ground (
  arith,
  any_line-remove_rows i.cart_id i.product_id rows items,
  remove_rows-HasUniqueLines rows items u,
)

-- The quantity of a product in a cart, 0 without a line for it.
unfoldable pub quantity_in : RowId → RowId → List CartItem → ℤ
quantity_in c p [] = pos 0
quantity_in c p (i ∷ items) = if is_line c p i then i.quantity else quantity_in c p items

pub quantity_in-upsert :
    (c p : RowId) (new : CartItem) (items : List CartItem)
    → quantity_in c p (upsert new items)
      ≡ (if is_line c p new then new.quantity else quantity_in c p items)
unfolding quantity_in upsert
quantity_in-upsert c p new [] = refl
quantity_in-upsert c p new (i ∷ items) = ground (arith, quantity_in-upsert c p new items)

-- The line that `addItem` looks for is the one of the table.
pub quantity_of-find_line :
    (c p : RowId) (products : List Product) (items : List CartItem)
    → quantity_of (
        find_line
          (λ i. i.product_id == p)
          (map (λ i. (i, find i.product_id products)) (items_of c items)))
      ≡ quantity_in c p items
unfolding find_line items_of quantity_in
quantity_of-find_line c p products [] = refl
quantity_of-find_line c p products (i ∷ items) =
    ground (arith, quantity_of-find_line c p products items)

ids_of-items_of :
    (k c : RowId) (products : List Product) (items : List CartItem)
    → contains k
        (ids_of (map ordered (map (λ i. (i, find i.product_id products)) (items_of c items))))
      ≡ any (is_line c k) items
unfolding items_of
ids_of-items_of k c products [] = refl
ids_of-items_of k c products (i ∷ items) = ground (arith, ids_of-items_of k c products items)

-- So an order from a cart lists no product twice.
pub items_of-HasDistinctProducts :
    (c : RowId) (products : List Product) (items : List CartItem)
    → HasUniqueLines items
    → HasDistinctProducts
        (map ordered (map (λ i. (i, find i.product_id products)) (items_of c items)))
unfolding items_of
items_of-HasDistinctProducts c products [] u = tt
items_of-HasDistinctProducts c products (i ∷ items) (free, u) = ground (
  arith,
  ids_of-items_of i.product_id c products items,
  items_of-HasDistinctProducts c products items u,
)

abbrev covers : List CartItem → List CartItem → Bool
covers rows = all (λ i. any (λ r. r.id == i.id) rows)

covers-cons :
    (r : CartItem) (rows xs : List CartItem) → covers rows xs ≡ true → covers (r ∷ rows) xs ≡ true
covers-cons r rows [] h = refl
covers-cons r rows (x ∷ xs) h = ground (arith, covers-cons r rows xs)

covers_self : (xs : List CartItem) → covers xs xs ≡ true
covers_self [] = refl
covers_self (x ∷ xs) = ground (arith, covers-cons x xs xs (covers_self xs))

items_of-remove_rows :
    (c : RowId) (rows items : List CartItem)
    → covers rows (items_of c items) ≡ true
    → items_of c (remove_rows rows items) ≡ []
unfolding items_of remove_rows
items_of-remove_rows c rows [] h = refl
items_of-remove_rows c rows (i ∷ items) h = ground (arith, items_of-remove_rows c rows items)

rows-load :
    (products : List Product) (items : List CartItem)
    → map (λ (l : Line). l.0) (map (λ i. (i, find i.product_id products)) items) ≡ items
rows-load products [] = refl
rows-load products (i ∷ items) = ground (arith, rows-load products items)

-- Clearing leaves the cart without lines, and the carts as they are.
pub clear_cart_lem :
    (user_id : RowId) (c : Cart) (s : Shop)
    → cart_of user_id s.carts ≡ some c
    → let s' = (clear_cart user_id s).1 in
      ((clear_cart user_id s).0 ≡ ok tt) × (items_of c.id s'.cart_items ≡ []) × (s'.world ≡ s.world)
unfolding clear_cart find_cart_with_items
clear_cart_lem user_id c s h =
    let own = items_of c.id s.cart_items in
    ground (
      arith,
      rows-load s.world.db.products own,
      items_of-remove_rows c.id own s.cart_items (covers_self own),
    )
