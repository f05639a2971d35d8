-- ===== src/Products/Reviews.antt =====
-- ReviewsService (products/reviews.service.ts), less the map of ratings for a listing. Ratings are
-- averaged in hundredths.
use rd_shop_backend.Base.{
  ℕ, suc, zero, ◌+◌, ◌*◌, ◌/◌, Bool, true, ◌&&◌, Option, none, some, List, [], ◌∷◌, ◌++◌, ◌==◌,
  if◌then◌else◌, RowId, any, ltb, length, take, truthy,
}
use rd_shop_backend.Base.Table.{find, save}
use rd_shop_backend.Base.Outcome.{
  Action, Error, http, driver, unique_violation, nothing, internal, conflict, not_found, pure, gets,
  modify, throw, or_throw, throw_if, catch, ◌>>=◌, ◌>>◌,
}
use rd_shop_backend.Cursors.Keyset.{filter, newest_first, is_after, millis}
use rd_shop_backend.Products.Model.{
  given, Item, item_entity, Review, review_entity, Catalog, CatalogEnv,
}

-- `CreateReviewDto`
pub record CreateReview : Type 0 where
  pub rating : ℕ
  pub text : RowId

-- `UpdateReviewDto`
pub record UpdateReview : Type 0 where
  pub rating : Option ℕ
  pub text : Option RowId

-- `averageRating` in hundredths, and `reviewsCount`
pub record Rating : Type 0 where
  pub average_rating : Option ℕ
  pub reviews_count : ℕ

abbrev pub is_of : RowId → RowId → Review → Bool
is_of user_id product_id r = (r.user_id == user_id) && (r.product_id == product_id)

unfoldable pub find_reviewed : RowId → Action Catalog Item
find_reviewed product_id = do
  product ← gets (λ c. find product_id c.items)
  or_throw product (http not_found)

-- `findOne({ where: { productId, userId } })`
unfoldable pub find_review : RowId → RowId → List Review → Option Review
find_review user_id product_id [] = none
find_review user_id product_id (r ∷ reviews) =
    if is_of user_id product_id r then some r else find_review user_id product_id reviews

-- `INSERT` under the unique constraint on user and product
unfoldable pub insert_review : Review → Action Catalog (Unit {0})
insert_review r = do
  taken ← gets (λ c. any (is_of r.user_id r.product_id) c.reviews)
  throw_if taken (driver unique_violation nothing)
  modify (λ c. record c { reviews = c.reviews ++ r ∷ [] })

unfoldable pub conflict_on_unique_violation : {A : Type 0} → Error → Action Catalog A
conflict_on_unique_violation (driver unique_violation m) = throw (http conflict)
conflict_on_unique_violation e = throw e

unfoldable pub create_review : CatalogEnv → ℕ → RowId → RowId → CreateReview → Action Catalog Review
unfolding find_reviewed insert_review conflict_on_unique_violation
create_review env now user_id product_id dto = do
  find_reviewed product_id
  existing ← gets (λ c. find_review user_id product_id c.reviews)
  elim existing [
    | some r ↦ throw (http conflict)
    | none ↦ do
      modify env.others
      catch
          (insert_review (record {
            id = env.new_id;
            user_id = user_id;
            product_id = product_id;
            rating = dto.rating;
            text = dto.text;
            created_at = now;
          }))
          conflict_on_unique_violation
      or_throw (← gets (λ c. find env.new_id c.reviews)) internal
  ]

-- `remove(review)`, by its id
unfoldable pub drop_review : RowId → List Review → List Review
drop_review id [] = []
drop_review id (r ∷ reviews) =
    let rest = drop_review id reviews in if r.id == id then rest else r ∷ rest

unfoldable pub delete_review : RowId → RowId → Action Catalog (Unit {0})
unfolding find_reviewed drop_review
delete_review user_id product_id = do
  find_reviewed product_id
  r ← or_throw (← gets (λ c. find_review user_id product_id c.reviews)) (http not_found)
  modify (λ c. record c { reviews = drop_review r.id c.reviews })

unfoldable pub update_review : RowId → RowId → UpdateReview → Action Catalog Review
unfolding find_reviewed
update_review user_id product_id dto = do
  find_reviewed product_id
  r ← or_throw (← gets (λ c. find_review user_id product_id c.reviews)) (http not_found)
  let changed = record r { rating = given dto.rating r.rating; text = given dto.text r.text }
  modify (λ c. record c { reviews = save changed c.reviews })
  pure changed

unfoldable pub sum_ratings : RowId → List Review → ℕ
sum_ratings product_id [] = 0
sum_ratings product_id (r ∷ reviews) =
    let rest = sum_ratings product_id reviews in
    if r.product_id == product_id then r.rating + rest else rest

unfoldable pub count_reviews : RowId → List Review → ℕ
count_reviews product_id [] = 0
count_reviews product_id (r ∷ reviews) =
    let rest = count_reviews product_id reviews in
    if r.product_id == product_id then suc rest else rest

-- `ROUND(AVG(rating), 2)` in hundredths: a half is rounded up.
abbrev pub average : ℕ → ℕ → Option ℕ
average sum zero = none
average sum (suc n) = some ((200 * sum + suc n) / (2 * suc n))

unfoldable pub get_rating_info : RowId → List Review → Rating
unfolding sum_ratings count_reviews
get_rating_info product_id reviews = record {
  average_rating = average (sum_ratings product_id reviews) (count_reviews product_id reviews);
  reviews_count = count_reviews product_id reviews;
}

-- `DEFAULT_REVIEWS_LIMIT`
abbrev pub default_reviews_limit : ℕ
default_reviews_limit = 10

abbrev review_id : Review → RowId
review_id r = r.id

abbrev review_time : Review → ℕ
review_time r = r.created_at

unfoldable pub find_cursor_review : RowId → RowId → List Review → Option Review
find_cursor_review id product_id [] = none
find_cursor_review id product_id (r ∷ reviews) =
    if (r.id == id) && (r.product_id == product_id)
    then some r
    else find_cursor_review id product_id reviews

-- The condition of a cursor, where its review is found.
unfoldable pub after_review : Option RowId → RowId → List Review → Review → Bool
unfolding find_cursor_review
after_review cursor product_id reviews = elim (truthy cursor) [
  | none ↦ λ r. true
  | some id ↦ elim (find_cursor_review id product_id reviews) [
    | none ↦ λ r. true
    | some c ↦ is_after review_id review_time (millis review_id review_time c) c.id
  ]
]

unfoldable pub last_id : List Review → Option RowId
last_id [] = none
last_id (r ∷ []) = some r.id
last_id (r ∷ s ∷ reviews) = last_id (s ∷ reviews)

-- The query of a page, with one row more, and the page.
unfoldable pub reviews_page : ℕ → RowId → (Review → Bool) → List Review → List Review × Option RowId
unfolding last_id
reviews_page limit product_id after table =
    let reviews = take (suc limit) (
      filter (λ r. (r.product_id == product_id) && after r)
        (newest_first review_id review_time table)) in
    let has_next_page = ltb limit (length reviews) in
    let page = if has_next_page then take limit reviews else reviews in
    (page, if has_next_page then last_id page else none)

abbrev reviews_limit : Option ℕ → ℕ
reviews_limit none = default_reviews_limit
reviews_limit (some n) = n

unfoldable pub get_reviews :
    RowId → Option RowId → Option ℕ → Action Catalog (List Review × Option RowId)
unfolding find_reviewed after_review reviews_page
get_reviews product_id cursor limit = do
  find_reviewed product_id
  gets (λ c.
      reviews_page (reviews_limit limit) product_id (after_review cursor product_id c.reviews)
        c.reviews)
