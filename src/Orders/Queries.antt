-- ===== src/Orders/Queries.antt =====
-- OrdersQueryService and OrdersQueryBuilder (orders/services/orders-query.service.ts,
-- orders/repositories/orders-query-builder.ts). The queries are what their SQL selects from the
-- table. `ILIKE` on the title of a product is a parameter.
pub mod Pages
pub mod Listings
pub mod Bounds
pub mod Payment
use rd_shop_backend.Base.{
  ℕ, zero, suc, ◌+◌, ◌*◌, Bool, true, false, ◌&&◌, Option, none, some, List, [], ◌∷◌, ◌++◌, map,
  arith, ltb, leb, ◌==◌, if◌then◌else◌, RowId, truthy, any, length, take, contains, is_some, Text,
}
use rd_shop_backend.Base.Table.{find}
use rd_shop_backend.Base.Outcome.{internal, Result, ok, err, Error, http, unavailable, bad_request}
use rd_shop_backend.Orders.Model.{
  Order, OrderItem, OrderStatus, cancelled, created, paid, pending, processed, Product,
  product_entity, order_entity,
}
use rd_shop_backend.Orders.Rules.{assert_order_ownership}
use rd_shop_backend.Cursors.{CursorText, encode_cursor, decode_epoch_cursor}
use rd_shop_backend.Cursors.Paging.{last}
use rd_shop_backend.Cursors.Keyset.{filter, newest_first, is_after, millis}
use rd_shop_backend.Payments.{Fired, client_payment_status}

-- An order with its creation time, in microseconds.
pub record Dated : Type 0 where
  pub order : Order
  pub created_at : ℕ

abbrev pub id_of : Dated → RowId
id_of x = (x.order).id

abbrev pub created_at : Dated → ℕ
created_at x = x.created_at

-- `FindOrdersFilterDto`, with dates in milliseconds
pub record FindOrders : Type 0 where
  pub cursor : Option Text
  pub limit : Option ℕ
  pub start_date : Option ℕ
  pub end_date : Option ℕ
  pub product_name : Option RowId
  pub status : Option OrderStatus

pub record Listing : Type 0 where
  pub orders : List Order
  pub next_cursor : Option Text

-- `is_titled name p`: the title of the product p is `ILIKE '%name%'`.
pub record QueryEnv : Type 0 where
  pub texts : CursorText
  pub is_titled : RowId → RowId → Bool
  pub products : List Product

abbrev pub default_orders_limit : ℕ
default_orders_limit = 10

-- `limit = DEFAULT_ORDERS_LIMIT`
abbrev pub limit_of : FindOrders → ℕ
limit_of params = elim params.limit [ none ↦ default_orders_limit | some n ↦ n ]

abbrev status_code : OrderStatus → ℕ
status_code cancelled = 0
status_code created = 1
status_code paid = 2
status_code pending = 3
status_code processed = 4

abbrev has_status : Option OrderStatus → Order → Bool
has_status none o = true
has_status (some s) o = status_code o.status == status_code s

abbrev is_since : Option ℕ → Dated → Bool
is_since none x = true
is_since (some date) x = leb (date * 1000) x.created_at

abbrev is_until : Option ℕ → Dated → Bool
is_until none x = true
is_until (some date) x = leb x.created_at (date * 1000)

-- The inner joins with the items and their products, which leave out soft-deleted products.
abbrev has_product_named : QueryEnv → Option RowId → Order → Bool
has_product_named env name o = elim (truthy name) [
  | none ↦ true
  | some name ↦
      any
        (λ (i : OrderItem).
          is_some (find i.product_id env.products) && env.is_titled name i.product_id)
        o.items
]

-- The conditions of `buildOrderIdsSubquery`
unfoldable pub build_order_ids_subquery : QueryEnv → RowId → FindOrders → Dated → Bool
build_order_ids_subquery env user_id params x =
    ((x.order).user_id == user_id)
    && has_status params.status x.order
    && is_since params.start_date x
    && is_until params.end_date x
    && has_product_named env params.product_name x.order

unfoldable pub apply_cursor_pagination : CursorText → Option Text → Result (Dated → Bool)
apply_cursor_pagination texts none = ok (λ x. true)
apply_cursor_pagination texts (some []) = ok (λ x. true)
apply_cursor_pagination texts (some (c ∷ cursor)) = elim (decode_epoch_cursor texts (c ∷ cursor)) [
  | err e ↦ err e
  | ok (date, id) ↦ ok (is_after id_of created_at date (texts.id_of id))
]

unfoldable pub order_cursor : CursorText → Dated → Text
order_cursor texts x =
    encode_cursor (texts.id_text (id_of x)) (texts.number_text (millis id_of created_at x))

unfoldable pub build_order_next_cursor : CursorText → List Dated → Bool → Option Text
unfolding last order_cursor
build_order_next_cursor texts page has_next_page =
    if has_next_page
    then elim (last page) [ none ↦ none | some x ↦ some (order_cursor texts x) ]
    else none

unfoldable pub build_main_query : List RowId → List Dated → List Order
build_main_query order_ids rows =
    map (λ x. x.order)
      (filter (λ x. contains (id_of x) order_ids) (newest_first id_of created_at rows))

-- The rows of a page and the following cursor, from the rows that meet the conditions: the first query
-- has one row more than the page, the second reads the orders of the page.
unfoldable pub list_page : CursorText → ℕ → (List RowId → List Order) → List Dated → Listing
unfolding build_order_next_cursor
list_page texts limit main_query found =
    let paginated = take (suc limit) found in
    let has_next_page = ltb limit (length paginated) in
    let page = if has_next_page then take limit paginated else paginated in
    elim paginated [
      | [] ↦ record { orders = []; next_cursor = none }
      | x ∷ xs ↦ record {
        orders = main_query (map id_of page);
        next_cursor = build_order_next_cursor texts page has_next_page;
      }
    ]

unfoldable pub find_orders_with_filters :
    QueryEnv → RowId → FindOrders → List Dated → Result Listing
unfolding build_order_ids_subquery apply_cursor_pagination build_main_query list_page
find_orders_with_filters env user_id params rows =
    elim (apply_cursor_pagination env.texts params.cursor) [
      | err e ↦ err e
      | ok after ↦ ok (
          list_page env.texts (limit_of params) (λ ids. build_main_query ids rows)
            (filter (λ x. build_order_ids_subquery env user_id params x && after x)
              (newest_first id_of created_at rows)))
    ]

-- A client that asks for the following page as long as there is a cursor. It fails when it has a cursor
-- and no request left, and when a cursor leads to no order.
unfoldable pub follow : ℕ → QueryEnv → RowId → FindOrders → List Dated → Result (List Order)
unfolding find_orders_with_filters
follow zero env user_id params rows = err internal
follow (suc fuel) env user_id params rows =
    elim (find_orders_with_filters env user_id params rows) [
      | err e ↦ err e
      | ok listing ↦ elim listing.next_cursor [
        | none ↦ ok listing.orders
        | some cursor ↦
            elim (follow fuel env user_id (record params { cursor = some cursor }) rows) [
              | err e ↦ err e
              | ok rest ↦ if ltb 0 (length rest) then ok (listing.orders ++ rest) else err internal
            ]
      ]
    ]

unfoldable pub get_order_by_id : RowId → RowId → List Order → Result Order
unfolding assert_order_ownership
get_order_by_id user_id order_id orders = assert_order_ownership (find order_id orders) user_id

-- `error instanceof HttpException`
abbrev rethrown : Error → Error
rethrown (http status) = http status
rethrown _ = http unavailable

unfoldable pub get_order_payment :
    {A : Type 0} → (RowId → Fired A) → RowId → RowId → List Order → Result A
unfolding assert_order_ownership client_payment_status
get_order_payment fire user_id order_id orders =
    elim (assert_order_ownership (find order_id orders) user_id) [
      | err e ↦ err e
      | ok order ↦ elim (truthy order.payment_id) [
        | none ↦ err (http bad_request)
        | some payment_id ↦ elim (client_payment_status (some payment_id) fire) [
          | ok status ↦ ok status
          | err e ↦ err (rethrown e)
        ]
      ]
    ]
