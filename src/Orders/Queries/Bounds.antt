-- ===== src/Orders/Queries/Bounds.antt =====
-- One page of orders: its bounds, and rows that the following page skips.
use rd_shop_backend.Base.{
  ℕ, zero, suc, ◌∙◌, ◌≡◌, refl, Bool, true, ◌&&◌, ◌||◌, not, some, List, [], ◌∷◌, arith, ltb, ◌==◌,
  RowId, length, take, all, ◌≤◌,
}
use rd_shop_backend.Base.Outcome.{Result, ok, err}
use rd_shop_backend.Orders.Model.{Order}
use rd_shop_backend.Cursors.{Readable}
use rd_shop_backend.Cursors.Keyset.{filter, is_after, is_newer, is_other, millis, all-newest_first}
use rd_shop_backend.Orders.Queries.{
  Dated, id_of, created_at, FindOrders, Listing, QueryEnv, limit_of, build_order_ids_subquery,
  apply_cursor_pagination, order_cursor, find_orders_with_filters,
}
use rd_shop_backend.Orders.Queries.Pages.{
  HasUniqueIds, sorted, apply_cursor_pagination-order_cursor,
}
use rd_shop_backend.Orders.Queries.Listings.{orders_of, meets, find_orders_with_filters-page_of}

length-orders_of-take : (n : ℕ) (xs : List Dated) → length (orders_of (take n xs)) ≤ n
length-orders_of-take zero xs = omega arith
length-orders_of-take (suc n) [] = omega arith
length-orders_of-take (suc n) (x ∷ xs) = omega (arith, length-orders_of-take n xs)

all-orders_of-take :
    (q : Order → Bool) (n : ℕ) (xs : List Dated)
    → all (λ x. q x.order) xs ≡ true
    → all q (orders_of (take n xs)) ≡ true
all-orders_of-take q zero xs h = refl
all-orders_of-take q (suc n) [] h = refl
all-orders_of-take q (suc n) (x ∷ xs) h = ground (arith, all-orders_of-take q n xs)

-- What holds of every row of the table that meets the condition holds of the orders of the page.
all_page :
    (q : Order → Bool) (n : ℕ) (p : Dated → Bool) (rows : List Dated)
    → all (λ x. not (p x) || q x.order) rows ≡ true
    → all q (orders_of (take n (filter p (sorted rows)))) ≡ true
unfolding filter
all_page q n p rows h =
    all-orders_of-take q n (filter p (sorted rows)) (
      kept (sorted rows) (all-newest_first id_of created_at (λ x. not (p x) || q x.order) rows ∙ h))
  where
    kept :
        (xs : List Dated)
        → all (λ x. not (p x) || q x.order) xs ≡ true
        → all (λ x. q x.order) (filter p xs) ≡ true
    kept [] h = refl
    kept (x ∷ xs) h = ground (arith, kept xs)

all_of : (p : Dated → Bool) (xs : List Dated) → ((x : Dated) → p x ≡ true) → all p xs ≡ true
all_of p [] h = refl
all_of p (x ∷ xs) h = ground (arith, h x, all_of p xs h)

-- A query that succeeds has read its cursor.
found_page :
    (env : QueryEnv) (user_id : RowId) (params : FindOrders) (rows : List Dated) (listing : Listing)
    → HasUniqueIds rows
    → find_orders_with_filters env user_id params rows ≡ ok listing
    → (after : Dated → Bool) × (apply_cursor_pagination env.texts params.cursor ≡ ok after)
      × (listing.orders
          ≡ orders_of (
              take
                (limit_of params)
                (filter (λ x. meets env user_id params x && after x) (sorted rows))))
unfolding find_orders_with_filters
found_page env user_id params rows listing unique h =
    by_cursor (apply_cursor_pagination env.texts params.cursor) refl
  where
    by_cursor :
        (a : Result (Dated → Bool))
        → apply_cursor_pagination env.texts params.cursor ≡ a
        → (after : Dated → Bool) × (apply_cursor_pagination env.texts params.cursor ≡ ok after)
          × (listing.orders
              ≡ orders_of (
                  take
                    (limit_of params)
                    (filter (λ x. meets env user_id params x && after x) (sorted rows))))
    by_cursor (err x) e = absurd (ground arith)
    by_cursor (ok after) e = (
      after,
      e,
      ground (arith, find_orders_with_filters-page_of env user_id params after rows unique e),
    )

-- Whatever the cursor and the filters, if ids are unique: a page has at most as many orders as the
-- limit, and only orders of the user.
pub find_orders_with_filters-bounds :
    (env : QueryEnv) (user_id : RowId) (params : FindOrders) (rows : List Dated) (listing : Listing)
    → HasUniqueIds rows
    → find_orders_with_filters env user_id params rows ≡ ok listing
    → (length listing.orders ≤ limit_of params)
      × (all (λ o. o.user_id == user_id) listing.orders ≡ true)
unfolding build_order_ids_subquery
find_orders_with_filters-bounds env user_id params rows listing unique h =
    let (after, read, page) = found_page env user_id params rows listing unique h in
    let p : Dated → Bool = λ x. meets env user_id params x && after x in
    let own : Order → Bool = λ o. o.user_id == user_id in
    (
      rw page (length-orders_of-take (limit_of params) (filter p (sorted rows))),
      rw page (
          all_page own (limit_of params) p rows
            (all_of (λ x. not (p x) || own x.order) rows (λ x. ground arith))),
    )

none_after :
    (m : Dated → Bool) (x y : Dated) (rows : List Dated)
    → millis id_of created_at x ≡ millis id_of created_at y
    → ltb (id_of x) (id_of y) ≡ true
    → all (λ z. is_other id_of created_at z y || z.created_at == y.created_at) rows ≡ true
    → all
        (λ z.
          not (m z && is_after id_of created_at (millis id_of created_at x) (id_of x) z)
          || not (id_of z == id_of y))
        rows
      ≡ true
none_after m x y [] same larger row = refl
none_after m x y (z ∷ rows) same larger row = ground (arith, none_after m x y rows same larger)

-- Of two orders that were created within one millisecond, the older one comes later in the listing.
-- If it has the larger id, the page after the newer one's cursor does not have it, if ids are unique
-- and are read back from their texts.
find_orders_with_filters_skips :
    (env : QueryEnv) (user_id : RowId) (params : FindOrders) (rows : List Dated) (listing : Listing)
    (x y : Dated)
    → Readable env.texts
    → HasUniqueIds rows
    → all (λ z. is_other id_of created_at z y || z.created_at == y.created_at) rows ≡ true
    → is_newer id_of created_at x y ≡ true
    → millis id_of created_at x ≡ millis id_of created_at y
    → ltb (id_of x) (id_of y) ≡ true
    → params.cursor ≡ some (order_cursor env.texts x)
    → find_orders_with_filters env user_id params rows ≡ ok listing
    → all (λ o. not (o.id == id_of y)) listing.orders ≡ true
find_orders_with_filters_skips env user_id params rows listing x y r unique row newer same larger
      cursor h =
    let (after, read, page) = found_page env user_id params rows listing unique h in
    let after_x : Dated → Bool = is_after id_of created_at (millis id_of created_at x) (id_of x) in
    let is_after_x : after ≡ after_x =
      ground (arith, read, cursor, apply_cursor_pagination-order_cursor env.texts x r) in
    rw page (
      all_page (λ o. not (o.id == id_of y)) (limit_of params)
        (λ z. meets env user_id params z && after z) rows
        (rw is_after_x (none_after (meets env user_id params) x y rows same larger row)))
