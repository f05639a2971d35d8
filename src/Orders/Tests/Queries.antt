-- ===== src/Orders/Tests/Queries.antt =====
-- The listing of orders at concrete inputs: three orders, one on a page.
use rd_shop_backend.Base.{
  ℕ, ◌≡◌, ◌≤◌, refl, true, none, some, List, [], ◌∷◌, ◌==◌, RowId, length, all,
}
use rd_shop_backend.Base.Outcome.{ok}
use rd_shop_backend.Cursors.{encode_cursor, index_of, decode_cursor, decode_epoch_cursor}
use rd_shop_backend.Cursors.Keyset.{filter, insert_row, newest_first}
use rd_shop_backend.Cursors.Tests.{texts, texts-Readable}
use rd_shop_backend.Payments.{client_authorize, client_payment_status}
use rd_shop_backend.Orders.Tests.{bought}
use rd_shop_backend.Cursors.Paging.{last}
use rd_shop_backend.Orders.Queries.{
  Dated, FindOrders, Listing, QueryEnv, build_order_ids_subquery, apply_cursor_pagination,
  order_cursor, build_order_next_cursor, build_main_query, list_page, find_orders_with_filters,
  follow, get_order_payment,
}
use rd_shop_backend.Orders.Queries.Listings.{all_orders, follow-all_orders}
use rd_shop_backend.Orders.Queries.Bounds.{find_orders_with_filters-bounds}

code : Unit {0}
unfolding encode_cursor index_of decode_cursor decode_epoch_cursor filter insert_row newest_first
    build_order_ids_subquery apply_cursor_pagination last order_cursor build_order_next_cursor
    build_main_query list_page find_orders_with_filters follow get_order_payment client_authorize
    client_payment_status
code = tt

abbrev numbered : RowId → ℕ → Dated
numbered k at = record {
  order = record (bought none) { id = k; payment_id = some 900 };
  created_at = at;
}

abbrev shelf : List Dated
shelf = numbered 3 5000 ∷ numbered 1 9000 ∷ numbered 2 7001 ∷ []

abbrev query_env : QueryEnv
query_env = record { texts = texts; is_titled = λ n p. true; products = [] }

abbrev one_by_one : FindOrders
one_by_one = record {
  cursor = none;
  limit = some 1;
  start_date = none;
  end_date = none;
  product_name = none;
  status = none;
}

listing_runs :
    all_orders query_env 7 one_by_one shelf
    ≡ (numbered 1 0).order ∷ (numbered 2 0).order ∷ (numbered 3 0).order ∷ []
unfolding code
listing_runs = refl

follow-all_orders_example :
    follow 4 query_env 7 one_by_one shelf ≡ ok (all_orders query_env 7 one_by_one shelf)
follow-all_orders_example =
    follow-all_orders query_env 7 one_by_one shelf texts-Readable (refl, (refl, (refl, tt)))
      (refl, (refl, (refl, tt))) refl refl

abbrev same_millisecond : List Dated
same_millisecond = numbered 1 9001 ∷ numbered 2 9000 ∷ []

abbrev after_first : FindOrders
after_first = record one_by_one { cursor = some (order_cursor texts (numbered 1 9001)) }

abbrev nothing_left : Listing
nothing_left = record { orders = []; next_cursor = none }

skipping_runs : find_orders_with_filters query_env 7 after_first same_millisecond ≡ ok nothing_left
unfolding code
skipping_runs = refl

abbrev first_page : Listing
first_page = record {
  orders = (numbered 1 0).order ∷ [];
  next_cursor = some (order_cursor texts (numbered 1 9000));
}

first_page_runs : find_orders_with_filters query_env 7 one_by_one shelf ≡ ok first_page
unfolding code
first_page_runs = refl

find_orders_with_filters-bounds_example :
    (length first_page.orders ≤ 1) × (all (λ o. o.user_id == 7) first_page.orders ≡ true)
find_orders_with_filters-bounds_example =
    find_orders_with_filters-bounds query_env 7 one_by_one shelf first_page
      (refl, (refl, (refl, tt))) first_page_runs
