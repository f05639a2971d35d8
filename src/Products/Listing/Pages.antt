-- ===== src/Products/Listing/Pages.antt =====
-- The pages of products together, for every column and direction of the order.
use rd_shop_backend.Base.{
  ℕ, suc, ◌/◌, ap, sym, ◌∙◌, ◌≡◌, refl, ◌≢◌, Bool, true, false, not, ◌&&◌, ◌||◌, Option, none, some,
  List, [], ◌∷◌, ◌++◌, map, arith, ltb, ◌==◌, RowId, length, take, all, All, Text,
}
use rd_shop_backend.Base.Outcome.{Result, ok, err}
use rd_shop_backend.Cursors.{
  decode_cursor, Readable, decode_cursor-encode_cursor, decode_epoch_cursor-encode_cursor,
  encode_cursor-nonempty,
}
use rd_shop_backend.Cursors.Keyset.{
  Pairwise, filter, filter-Pairwise, filter-&&, filter-All, All-append_cons, filter-true,
  length-filter,
}
use rd_shop_backend.Cursors.Paging.{take_all, take-take, ltb-length-take}
use rd_shop_backend.Cursors.Collecting.{collect, paged, is_followed, Descends, collect-found}
use rd_shop_backend.Cursors.Sorting.{
  SortOrder, desc, precedes, sort_rows, sort_rows-Descends, sort_rows-All, length-sort_rows,
}
use rd_shop_backend.Products.Model.{given, Review}
use rd_shop_backend.Products.Reviews.{Rating}
use rd_shop_backend.Products.Listing.{
  ProductSortBy, by_created_at, by_price, by_title, Entry, ProductTexts, FindProducts,
  default_products_limit, entry_id, entry_price, is_selected, sort_key, cursor_key,
  is_sorted_before, is_past, cursor_value, cursor_condition, find_with_filters, sort_value,
  product_cursor, build_product_next_cursor, find_all,
}
use rd_shop_backend.Products.Listing.Batch.{with_rating, rated-get_rating_info}

-- What JavaScript and the database promise of the texts of prices and titles: they are read back, and
-- only the empty title has no text.
pub record ReadableProducts (texts : ProductTexts) : Type 0 where
  pub cursor : Readable texts.cursor
  pub some_price : (n : ℕ) → texts.price_text n ≢ []
  pub price_back : (n : ℕ) → texts.price_of (texts.price_text n) ≡ some n
  pub some_title : (t : RowId) → (t == 0) ≡ false → texts.title_text t ≢ []
  pub title_back : (t : RowId) → texts.title_of (texts.title_text t) ≡ t

abbrev pub is_titled : Entry → Bool
is_titled x = not ((x.item).title == 0)

module _ (texts : ProductTexts) (sort_by : ProductSortBy) (sort_order : SortOrder) where
  -- Distinct ids, and no two creation times that differ only within a millisecond, if they are sorted.
  abbrev pub is_apart_entry : Entry → Entry → Bool
  is_apart_entry x y =
      not (entry_id x == entry_id y)
      && (not (cursor_key texts sort_by x == cursor_key texts sort_by y)
          || (sort_key texts sort_by x == sort_key texts sort_by y))

  abbrev pub is_after_entry : Entry → Entry → Bool
  is_after_entry r = is_past texts sort_by sort_order (cursor_key texts sort_by r) (entry_id r)

  swap_apart : (x y : Entry) → is_apart_entry x y ≡ is_apart_entry y x
  swap_apart x y = ground arith

  sorted_trans :
      (x y z : Entry)
      → is_sorted_before texts sort_by sort_order x y ≡ true
      → is_sorted_before texts sort_by sort_order y z ≡ true
      → is_sorted_before texts sort_by sort_order x z ≡ true
  unfolding is_sorted_before precedes
  sorted_trans x y z h k = ground arith

  sorted_total :
      (x y : Entry)
      → is_apart_entry x y ≡ true
      → (is_sorted_before texts sort_by sort_order x y
          || is_sorted_before texts sort_by sort_order y x)
        ≡ true
  unfolding is_sorted_before precedes
  sorted_total x y h = ground arith

  -- A cursor keeps the value that is sorted, or for creation times its milliseconds.
  keys_ordered :
      (x y : Entry)
      → (ltb (sort_key texts sort_by x) (sort_key texts sort_by y)
          && ltb (cursor_key texts sort_by y) (cursor_key texts sort_by x))
        ≡ false
  unfolding sort_key cursor_key
  keys_ordered x y = ground arith

  keys_same :
      (x y : Entry)
      → (sort_key texts sort_by x == sort_key texts sort_by y) ≡ true
      → (cursor_key texts sort_by x == cursor_key texts sort_by y) ≡ true
  unfolding sort_key cursor_key
  keys_same x y h = ground arith

  follows :
      (x y : Entry)
      → is_apart_entry x y ≡ true
      → is_sorted_before texts sort_by sort_order x y ≡ true
      → is_followed is_after_entry x y ≡ true
  unfolding is_sorted_before is_past precedes
  follows x y h k = ground (arith, keys_ordered x y, keys_ordered y x, keys_same x y)

  not_after_self : (x : Entry) → is_after_entry x x ≡ false
  unfolding is_past precedes
  not_after_self x = ground arith

  sort_value-nonempty :
      ReadableProducts texts → (x : Entry) → is_titled x ≡ true → sort_value texts sort_by x ≢ []
  unfolding sort_value
  sort_value-nonempty r x titled = elim sort_by as (λ k. sort_value texts k x ≢ []) [
    | by_created_at ↦ (r.cursor).some_digit (x.created_at / 1000)
    | by_price ↦ r.some_price (entry_price x)
    | by_title ↦ r.some_title (x.item).title (ground arith)
  ]

  cursor_value-sort_value :
      ReadableProducts texts
      → (x : Entry)
      → cursor_value texts sort_by (product_cursor texts sort_by x) (sort_value texts sort_by x)
        ≡ ok (cursor_key texts sort_by x)
  unfolding cursor_value sort_value cursor_key product_cursor
  cursor_value-sort_value r x = ground (
    arith,
    decode_epoch_cursor-encode_cursor texts.cursor (entry_id x) (x.created_at / 1000) r.cursor,
    r.price_back (entry_price x),
    r.title_back (x.item).title,
  )

  -- The cursor of a product selects the products after it.
  cursor_condition-product_cursor :
      ReadableProducts texts
      → (x : Entry) → is_titled x ≡ true
      → cursor_condition texts sort_by sort_order (some (product_cursor texts sort_by x))
        ≡ ok (is_after_entry x)
  unfolding cursor_condition
  cursor_condition-product_cursor r x titled =
      let id = (texts.cursor).id_text (entry_id x) in
      let value = sort_value texts sort_by x in
      by_text (product_cursor texts sort_by x) refl
        (unfold product_cursor in encode_cursor-nonempty id value)
        (unfold product_cursor in
          decode_cursor-encode_cursor (texts.cursor).is_uuid id value ((r.cursor).free (entry_id x))
            ((r.cursor).uuid (entry_id x)) ((r.cursor).some_id (entry_id x))
            (sort_value-nonempty r x titled))
        (cursor_value-sort_value r x)
    where
      by_text :
          (t : Text)
          → product_cursor texts sort_by x ≡ t
          → t ≢ []
          → decode_cursor (texts.cursor).is_uuid t
            ≡ ok ((texts.cursor).id_text (entry_id x), sort_value texts sort_by x)
          → cursor_value texts sort_by t (sort_value texts sort_by x)
            ≡ ok (cursor_key texts sort_by x)
          → cursor_condition texts sort_by sort_order (some t) ≡ ok (is_after_entry x)
      by_text [] e given_text decoded value = absurd (given_text refl)
      by_text (a ∷ t) e given_text decoded value =
          ground (arith, decoded, value, (r.cursor).id_back (entry_id x))

abbrev limit_of : FindProducts → ℕ
limit_of dto = given dto.limit default_products_limit

abbrev order_of : FindProducts → SortOrder
order_of dto = given dto.sort_order desc

abbrev column_of : FindProducts → ProductSortBy
column_of dto = given dto.sort_by by_created_at

module _ (texts : ProductTexts) (dto : FindProducts) (entries : List Entry)
    (reviews : List Review) where
  -- The products that the filters select, in the order of the listing
  abbrev pub selected : List Entry
  selected =
      filter (is_selected texts dto)
        (sort_rows (is_sorted_before texts (column_of dto) (order_of dto)) entries)

  -- One request of a client
  unfoldable pub product_page : Option Text → Result (List (Entry × Rating) × Option Text)
  unfolding find_all
  product_page cursor = elim (find_all texts (record dto { cursor = cursor }) entries reviews) [
    | err e ↦ err e
    | ok page ↦ ok (page.products, page.next_cursor)
  ]

  product_page-paged :
      (cursor : Option Text) (after : Entry → Bool)
      → cursor_condition texts (column_of dto) (order_of dto) cursor ≡ ok after
      → product_page cursor
        ≡ ok (
            paged
              (is_after_entry texts (column_of dto) (order_of dto))
              (with_rating reviews)
              (product_cursor texts (column_of dto))
              (limit_of dto)
              (filter after selected))
  unfolding product_page find_all find_with_filters is_selected build_product_next_cursor
  product_page-paged cursor after h =
      let found = filter after selected in
      ground (
        arith,
        h,
        filter-&& (is_selected texts dto) after
            (sort_rows (is_sorted_before texts (column_of dto) (order_of dto)) entries),
        take-take (limit_of dto) found,
        ltb-length-take (limit_of dto) found,
        take_all (limit_of dto) found,
        take_all (suc (limit_of dto)) found,
        rated-get_rating_info (take (limit_of dto) found) reviews,
      )

  All-titled : (xs : List Entry) → all is_titled xs ≡ true → All (λ x. is_titled x ≡ true) xs
  All-titled [] h = tt
  All-titled (x ∷ xs) h = (ground arith, All-titled xs (ground arith))

  selected-page :
      ReadableProducts texts
      → all is_titled entries ≡ true
      → (q : List Entry) (x : Entry) (rest : List Entry) → selected ≡ q ++ x ∷ rest
      → product_page (some (product_cursor texts (column_of dto) x))
        ≡ ok (
            paged
              (is_after_entry texts (column_of dto) (order_of dto))
              (with_rating reviews)
              (product_cursor texts (column_of dto))
              (limit_of dto)
              (filter (is_after_entry texts (column_of dto) (order_of dto) x) selected))
  selected-page r titled q x rest split =
      let before = is_sorted_before texts (column_of dto) (order_of dto) in
      let each : All (λ y. (is_titled y ≡ true) × (is_selected texts dto y ≡ true))
          (q ++ x ∷ rest) =
        rw (sym split) (
          filter-All (λ y. is_titled y ≡ true) (is_selected texts dto) (sort_rows before entries)
            (sort_rows-All before (λ y. is_titled y ≡ true) entries (All-titled entries titled))) in
      let own =
        All-append_cons (λ y. (is_titled y ≡ true) × (is_selected texts dto y ≡ true)) q x rest
          each in
      product_page-paged (some (product_cursor texts (column_of dto) x))
        (is_after_entry texts (column_of dto) (order_of dto) x)
        (cursor_condition-product_cursor texts (column_of dto) (order_of dto) r x own.0)

  -- A client that follows the cursors from the first page gets exactly the products that the filters
  -- select, each once and with the rating that its own page shows, in the order that was asked for, by
  -- price, title or creation time and in either direction; every cursor on the way leads to further
  -- products, and the last page has none. If ids are
  -- distinct, no title is empty, texts of prices, titles, ids and numbers are read back, the limit is
  -- not zero, and, when creation times are sorted, no two differ only within a millisecond. One request
  -- more than there are products is enough.
  pub collect-selected :
      ReadableProducts texts
      → all is_titled entries ≡ true
      → Pairwise (is_apart_entry texts (column_of dto) (order_of dto)) entries
      → ltb 0 (limit_of dto) ≡ true
      → collect product_page (suc (length entries)) none ≡ ok (map (with_rating reviews) selected)
  unfolding cursor_condition
  collect-selected r titled apart positive =
      let before = is_sorted_before texts (column_of dto) (order_of dto) in
      let after = is_after_entry texts (column_of dto) (order_of dto) in
      let descends : Descends after selected =
        filter-Pairwise (is_followed after) (is_selected texts dto) (sort_rows before entries) (
          sort_rows-Descends before (is_apart_entry texts (column_of dto) (order_of dto))
            (swap_apart texts (column_of dto) (order_of dto))
            (sorted_trans texts (column_of dto) (order_of dto))
            (sorted_total texts (column_of dto) (order_of dto)) after
            (follows texts (column_of dto) (order_of dto)) entries apart) in
      let pages : List Entry → List (Entry × Rating) × Option Text =
        paged after (with_rating reviews) (product_cursor texts (column_of dto)) (limit_of dto) in
      let first : product_page none ≡ ok (pages selected) =
        product_page-paged none (λ x. true) refl
        ∙ ap (λ xs. ok (pages xs)) (filter-true selected) in
      collect-found after (with_rating reviews) (product_cursor texts (column_of dto))
        (limit_of dto) product_page selected positive
        (not_after_self texts (column_of dto) (order_of dto)) descends (selected-page r titled)
        (suc (length entries)) first
        (ground (
          arith,
          length-filter (is_selected texts dto) (sort_rows before entries),
          length-sort_rows before entries,
        ))
