-- ===== src/Orders/Queries/Listings.antt =====
-- The pages of orders together.
use rd_shop_backend.Base.{
  ℕ, zero, suc, ap, sym, ◌∙◌, ◌≡◌, refl, Bool, true, ◌&&◌, Option, none, some, List, [], ◌∷◌, ◌++◌,
  map, arith, ltb, RowId, length, take, Bool-cases, inl, inr, Text,
}
use rd_shop_backend.Base.Outcome.{ok}
use rd_shop_backend.Orders.Model.{Order}
use rd_shop_backend.Cursors.{Readable}
use rd_shop_backend.Cursors.Keyset.{
  Pairwise, filter, filter-&&, filter-Pairwise, is_after, is_apart, millis, newest_first-precedes,
  filter-is_after, filter-true, length-filter, length-newest_first,
}
use rd_shop_backend.Cursors.Paging.{take_all, append-cons_assoc, append-snoc, Cut, cut}
use rd_shop_backend.Orders.Queries.{
  Dated, id_of, created_at, FindOrders, QueryEnv, limit_of, build_order_ids_subquery,
  apply_cursor_pagination, order_cursor, build_order_next_cursor, find_orders_with_filters, follow,
}
use rd_shop_backend.Orders.Queries.Pages.{
  HasUniqueIds, sorted, page_of, list_page-page_of, apply_cursor_pagination-order_cursor,
}

abbrev pub orders_of : List Dated → List Order
orders_of = map (λ x. x.order)

abbrev pub meets : QueryEnv → RowId → FindOrders → Dated → Bool
meets env user_id params x = build_order_ids_subquery env user_id params x

-- All orders of a user that meet the filters, in the order of the listing.
abbrev pub all_orders : QueryEnv → RowId → FindOrders → List Dated → List Order
all_orders env user_id params rows = orders_of (filter (meets env user_id params) (sorted rows))

-- What a query returns, by the rows that its conditions select.
pub find_orders_with_filters-page_of :
    (env : QueryEnv) (user_id : RowId) (params : FindOrders) (after : Dated → Bool)
    (rows : List Dated)
    → HasUniqueIds rows
    → apply_cursor_pagination env.texts params.cursor ≡ ok after
    → find_orders_with_filters env user_id params rows
      ≡ ok (
          page_of env.texts
            (limit_of params)
            (filter (λ x. meets env user_id params x && after x) (sorted rows)))
unfolding find_orders_with_filters
find_orders_with_filters-page_of env user_id params after rows unique h = ground (
  arith,
  h,
  list_page-page_of env.texts (limit_of params) (λ x. meets env user_id params x && after x) rows
      unique,
)

length-orders_of : (xs : List Dated) → length (orders_of xs) ≡ length xs
length-orders_of [] = refl
length-orders_of (x ∷ xs) = ground (arith, length-orders_of xs)

orders_of-append : (xs ys : List Dated) → orders_of (xs ++ ys) ≡ orders_of xs ++ orders_of ys
orders_of-append [] ys = refl
orders_of-append (x ∷ xs) ys = ground (arith, orders_of-append xs ys)

abbrev at : FindOrders → Option Text → FindOrders
at params cursor = record params { cursor = cursor }

module _ (env : QueryEnv) (user_id : RowId) (params : FindOrders) (rows : List Dated)
    (r : Readable env.texts) (unique : HasUniqueIds rows)
    (apart : Pairwise (is_apart id_of created_at) rows)
    (positive : ltb 0 (limit_of params) ≡ true) where
  after-Cut :
      (q rest : List Dated) (c : Cut (limit_of params) rest)
      → filter (meets env user_id params) (sorted rows) ≡ q ++ rest
      → filter
          (λ x.
            meets env user_id params x
            && is_after id_of created_at (millis id_of created_at c.end) (id_of c.end) x)
          (sorted rows)
        ≡ c.rest
  after-Cut q rest c split =
      let found = filter (meets env user_id params) (sorted rows) in
      let after : Dated → Bool =
        is_after id_of created_at (millis id_of created_at c.end) (id_of c.end) in
      let parts : found ≡ (q ++ c.before) ++ c.end ∷ c.rest =
        split ∙ ap (λ xs. q ++ xs) c.split ∙ append-cons_assoc q c.before c.end c.rest in
      let descends =
        filter-Pairwise (λ x y. is_after id_of created_at (millis id_of created_at x) (id_of x) y)
          (meets env user_id params) (sorted rows)
          (newest_first-precedes id_of created_at rows apart) in
      filter-&& (meets env user_id params) after (sorted rows)
      ∙ ap (filter after) parts
      ∙ filter-is_after id_of created_at (q ++ c.before) c.end c.rest (rw (sym parts) descends)

  follow-rest :
      (fuel : ℕ) (cursor : Option Text) (after : Dated → Bool) (q rest : List Dated)
      → apply_cursor_pagination env.texts cursor ≡ ok after
      → filter (λ x. meets env user_id params x && after x) (sorted rows) ≡ rest
      → filter (meets env user_id params) (sorted rows) ≡ q ++ rest
      → ltb (length rest) fuel ≡ true
      → follow fuel env user_id (at params cursor) rows ≡ ok (orders_of rest)
  unfolding follow build_order_next_cursor build_order_ids_subquery
  follow-rest zero cursor after q rest h selects split enough = absurd (ground arith)
  follow-rest (suc fuel) cursor after q rest h selects split enough =
      let got : find_orders_with_filters env user_id (at params cursor) rows
          ≡ ok (page_of env.texts (limit_of params) rest) =
        find_orders_with_filters-page_of env user_id (at params cursor) after rows unique h
        ∙ ap (λ xs. ok (page_of env.texts (limit_of params) xs)) selects in
      elim (Bool-cases (ltb (limit_of params) (length rest))) [
        | inr full ↦ ground (arith, got, take_all (limit_of params) rest full)
        | inl more ↦
            let c = cut (limit_of params) rest more positive in
            let next =
              follow-rest fuel (some (order_cursor env.texts c.end))
                (is_after id_of created_at (millis id_of created_at c.end) (id_of c.end))
                ((q ++ c.before) ++ c.end ∷ []) c.rest
                (apply_cursor_pagination-order_cursor env.texts c.end r) (after-Cut q rest c split)
                (split
                  ∙ ap (λ xs. q ++ xs) c.split
                  ∙ append-cons_assoc q c.before c.end c.rest
                  ∙ append-snoc (q ++ c.before) c.end c.rest)
                (ground (arith, c.shorter)) in
            let whole : orders_of (take (limit_of params) rest) ++ orders_of c.rest
                ≡ orders_of rest =
              sym (orders_of-append (take (limit_of params) rest) c.rest)
              ∙ ap (λ xs. orders_of (xs ++ c.rest)) c.page
              ∙ ap orders_of (sym (append-snoc c.before c.end c.rest))
              ∙ ap orders_of (sym c.split) in
            ground (arith, got, c.ends, next, whole, c.goes_on, length-orders_of c.rest)
      ]

-- A client that follows the cursors from the first page gets exactly the orders of the user that
-- meet the filters, each once, newest first; every cursor on the way leads to further orders, and the
-- last page has none: if ids are unique
-- and, like numbers, are read back from their texts, no two orders are created at different times
-- within a millisecond, and the limit is not zero. One request more than there are orders in the
-- table is enough.
pub follow-all_orders :
    (env : QueryEnv) (user_id : RowId) (params : FindOrders) (rows : List Dated)
    → Readable env.texts
    → HasUniqueIds rows
    → Pairwise (is_apart id_of created_at) rows
    → ltb 0 (limit_of params) ≡ true
    → params.cursor ≡ none
    → follow (suc (length rows)) env user_id params rows ≡ ok (all_orders env user_id params rows)
unfolding apply_cursor_pagination build_order_ids_subquery
follow-all_orders env user_id params rows r unique apart positive first =
    let found = filter (meets env user_id params) (sorted rows) in
    let start : at params none ≡ params = ap (at params) (sym first) in
    let run =
      follow-rest env user_id params rows r unique apart positive (suc (length rows)) none
        (λ x. true) [] found refl
        (filter-&& (meets env user_id params) (λ x. true) (sorted rows) ∙ filter-true found) refl
        (ground (
          arith,
          length-filter (meets env user_id params) (sorted rows),
          length-newest_first id_of created_at rows,
        )) in
    rw (sym start) run
