-- ===== src/Products/Listing.antt =====
-- ProductsService.findAll (products/products.service.ts, products/utils, products/dto/
-- find-products.dto.ts) and ProductsRepository.findWithFilters (products/product.repository.ts), with
-- ReviewsService.getRatingInfoBatch (products/reviews.service.ts).
pub mod Batch
pub mod Pages
mod Tests
use rd_shop_backend.Base.{
  ℕ, suc, ◌/◌, ◌*◌, Bool, true, false, not, ◌&&◌, ◌||◌, Option, none, some, List, [], ◌∷◌, map,
  ◌==◌, if◌then◌else◌, RowId, take, length, ltb, leb, any, contains, dedup, truthy, Text,
}
use rd_shop_backend.Base.Outcome.{Result, ok, err, http, driver, bad_request, other_code, nothing}
use rd_shop_backend.Cursors.{CursorText, encode_cursor, decode_cursor, decode_epoch_cursor}
use rd_shop_backend.Cursors.Keyset.{filter}
use rd_shop_backend.Cursors.Paging.{last}
use rd_shop_backend.Cursors.Sorting.{SortOrder, asc, desc, precedes, sort_rows}
use rd_shop_backend.Products.Model.{given, Item, Review}
use rd_shop_backend.Products.Reviews.{Rating, get_rating_info}

pub data ProductSortBy : Type 0 where
  by_created_at by_price by_title : ProductSortBy

-- A product with the columns that only the listing reads. `created_at` is in microseconds.
pub record Entry : Type 0 where
  pub item : Item
  pub created_at : ℕ
  pub category : RowId
  pub brand : Option RowId
  pub country : Option RowId
  pub description : Option RowId

-- The text of a price and of a title, and what the database reads from them: a text that is no number
-- fails. A title's rank is its place in the order of the database's collation. `is_like column text`
-- is `column ILIKE %text%`, with the text escaped, and `upper` is `UPPER` and `toUpperCase`.
pub record ProductTexts : Type 0 where
  pub cursor : CursorText
  pub price_text : ℕ → Text
  pub price_of : Text → Option ℕ
  pub title_text : RowId → Text
  pub title_of : Text → RowId
  pub title_rank : RowId → ℕ
  pub is_like : RowId → RowId → Bool
  pub upper : RowId → RowId

-- `FindProductsQueryDto`; prices are in cents.
pub record FindProducts : Type 0 where
  pub brand : List RowId
  pub category : Option RowId
  pub country : List RowId
  pub cursor : Option Text
  pub is_active : Option Bool
  pub limit : Option ℕ
  pub max_price : Option ℕ
  pub min_price : Option ℕ
  pub search : Option RowId
  pub sort_by : Option ProductSortBy
  pub sort_order : Option SortOrder

-- `ProductsListResponseDto`
pub record ProductPage : Type 0 where
  pub products : List (Entry × Rating)
  pub limit : ℕ
  pub next_cursor : Option Text

-- `DEFAULT_PRODUCTS_LIMIT`
abbrev pub default_products_limit : ℕ
default_products_limit = 10

abbrev pub entry_id : Entry → RowId
entry_id x = (x.item).product.id

abbrev pub entry_price : Entry → ℕ
entry_price x = (x.item).product.price

abbrev is_column : (RowId → Bool) → Option RowId → Bool
is_column p none = false
is_column p (some v) = p v

abbrev same_bool : Bool → Bool → Bool
same_bool true b = b
same_bool false b = not b

abbrev no_filter : List RowId → Bool
no_filter [] = true
no_filter (x ∷ xs) = false

module _ (texts : ProductTexts) where
  -- The conditions of `findWithFilters` before the cursor's; a removed product is not read.
  unfoldable pub is_selected : FindProducts → Entry → Bool
  is_selected dto x =
      not (x.item).product.deleted
      && elim dto.is_active [ none ↦ true | some b ↦ same_bool b (x.item).product.is_active ]
      && elim (truthy dto.category) [ none ↦ true | some c ↦ x.category == c ]
      && (no_filter dto.brand || any (λ b. is_column (λ v. texts.is_like v b) x.brand) dto.brand)
      && (no_filter dto.country
          || is_column (λ v. contains (texts.upper v) (map texts.upper dto.country)) x.country)
      && elim dto.min_price [ none ↦ true | some p ↦ leb p (entry_price x) ]
      && elim dto.max_price [ none ↦ true | some p ↦ leb (entry_price x) p ]
      && elim (truthy dto.search) [
        | none ↦ true
        | some s ↦
            texts.is_like (x.item).title s || is_column (λ v. texts.is_like v s) x.description
      ]

  -- The column that is sorted, and the value of it that a cursor keeps
  unfoldable pub sort_key : ProductSortBy → Entry → ℕ
  sort_key by_created_at x = x.created_at
  sort_key by_price x = entry_price x
  sort_key by_title x = texts.title_rank (x.item).title

  unfoldable pub cursor_key : ProductSortBy → Entry → ℕ
  cursor_key by_created_at x = x.created_at / 1000
  cursor_key by_price x = entry_price x
  cursor_key by_title x = texts.title_rank (x.item).title

  -- `orderBy(column, sortOrder).addOrderBy('product.id', sortOrder)`
  unfoldable pub is_sorted_before : ProductSortBy → SortOrder → Entry → Entry → Bool
  unfolding sort_key precedes
  is_sorted_before sort_by sort_order x y =
      precedes sort_order (sort_key sort_by x) (entry_id x) (sort_key sort_by y) (entry_id y)

  -- The rows after a cursor with that value and that id
  unfoldable pub is_past : ProductSortBy → SortOrder → ℕ → RowId → Entry → Bool
  unfolding cursor_key precedes
  is_past sort_by sort_order value id x =
      precedes sort_order value id (cursor_key sort_by x) (entry_id x)

  -- The value of a cursor, as the database or `decodeEpochCursor` reads it
  unfoldable pub cursor_value : ProductSortBy → Text → Text → Result ℕ
  cursor_value by_price cursor value = elim (texts.price_of value) [
    | none ↦ err (driver other_code nothing)
    | some price ↦ ok price
  ]
  cursor_value by_title cursor value = ok (texts.title_rank (texts.title_of value))
  cursor_value by_created_at cursor value = elim (decode_epoch_cursor texts.cursor cursor) [
    | err e ↦ err e
    | ok (date, id) ↦ ok date
  ]

  unfoldable pub cursor_condition : ProductSortBy → SortOrder → Option Text → Result (Entry → Bool)
  unfolding cursor_value is_past
  cursor_condition sort_by sort_order none = ok (λ x. true)
  cursor_condition sort_by sort_order (some []) = ok (λ x. true)
  cursor_condition sort_by sort_order (some (c ∷ cursor)) =
      elim (decode_cursor (texts.cursor).is_uuid (c ∷ cursor)) [
        | err e ↦ err e
        | ok (id, value) ↦ elim (cursor_value sort_by (c ∷ cursor) value) [
          | err e ↦ err e
          | ok v ↦ ok (is_past sort_by sort_order v ((texts.cursor).id_of id))
        ]
      ]

  unfoldable pub find_with_filters :
      FindProducts → ProductSortBy → SortOrder → ℕ → List Entry → Result (List Entry)
  unfolding is_selected is_sorted_before cursor_condition
  find_with_filters dto sort_by sort_order limit entries =
      elim (cursor_condition sort_by sort_order dto.cursor) [
        | err e ↦ err e
        | ok after ↦ ok (
            take limit (
              filter (λ x. is_selected dto x && after x)
                (sort_rows (is_sorted_before sort_by sort_order) entries)))
      ]

  unfoldable pub sort_value : ProductSortBy → Entry → Text
  sort_value by_price x = texts.price_text (entry_price x)
  sort_value by_title x = texts.title_text (x.item).title
  sort_value by_created_at x = (texts.cursor).number_text (x.created_at / 1000)

  unfoldable pub product_cursor : ProductSortBy → Entry → Text
  unfolding sort_value
  product_cursor sort_by x =
      encode_cursor ((texts.cursor).id_text (entry_id x)) (sort_value sort_by x)

  unfoldable pub build_product_next_cursor : List Entry → ProductSortBy → Bool → Option Text
  unfolding last product_cursor
  build_product_next_cursor page sort_by has_next_page =
      if has_next_page
      then elim (last page) [ none ↦ none | some x ↦ some (product_cursor sort_by x) ]
      else none

-- `GROUP BY productId` over the reviews of the products
unfoldable pub get_rating_info_batch : List RowId → List Review → List (RowId × Rating)
unfolding get_rating_info
get_rating_info_batch [] reviews = []
get_rating_info_batch (id ∷ ids) reviews =
    let selected = filter (λ (r : Review). contains r.product_id (id ∷ ids)) reviews in
    map (λ k. (k, get_rating_info k selected)) (dedup (map (λ (r : Review). r.product_id) selected))

-- `ratingMap.get(id)`
unfoldable pub rating_in : RowId → List (RowId × Rating) → Option Rating
rating_in id [] = none
rating_in id ((k, rating) ∷ ratings) = if k == id then some rating else rating_in id ratings

abbrev pub no_rating : Rating
no_rating = record { average_rating = none; reviews_count = 0 }

-- The products of a page with their ratings
unfoldable pub rated : List Entry → List Review → List (Entry × Rating)
unfolding get_rating_info_batch rating_in
rated page reviews =
    let ratings = get_rating_info_batch (map entry_id page) reviews in
    map (λ x. (x, given (rating_in (entry_id x) ratings) no_rating)) page

unfoldable pub find_all :
    ProductTexts → FindProducts → List Entry → List Review → Result ProductPage
unfolding find_with_filters build_product_next_cursor rated
find_all texts dto entries reviews =
    let limit = given dto.limit default_products_limit in
    let sort_by = given dto.sort_by by_created_at in
    elim (find_with_filters texts dto sort_by (given dto.sort_order desc) (suc limit) entries) [
      | err e ↦ err e
      | ok products ↦
          let has_next_page = ltb limit (length products) in
          let page = if has_next_page then take limit products else products in
          ok (record {
            products = rated page reviews;
            limit = limit;
            next_cursor = build_product_next_cursor texts page sort_by has_next_page;
          })
    ]
