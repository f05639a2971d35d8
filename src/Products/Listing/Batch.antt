-- ===== src/Products/Listing/Batch.antt =====
-- The ratings of a page of products, read in one query, are those of the single products.
use rd_shop_backend.Base.{
  zero, ◌≡◌, refl, true, false, none, some, List, [], ◌∷◌, map, arith, ◌==◌, if◌then◌else◌, RowId,
  all, contains, dedup, contains-dedup, Bool-cases, inl, inr,
}
use rd_shop_backend.Cursors.Keyset.{filter}
use rd_shop_backend.Products.Model.{given, Review}
use rd_shop_backend.Products.Reviews.{Rating, sum_ratings, count_reviews, get_rating_info}
use rd_shop_backend.Products.Listing.{
  Entry, entry_id, get_rating_info_batch, rating_in, no_rating, rated,
}

sum_ratings-filter :
    (k : RowId) (ids : List RowId) (reviews : List Review)
    → contains k ids ≡ true
    → sum_ratings k (filter (λ (r : Review). contains r.product_id ids) reviews)
      ≡ sum_ratings k reviews
unfolding sum_ratings filter
sum_ratings-filter k ids [] h = refl
sum_ratings-filter k ids (r ∷ reviews) h = elim (Bool-cases (r.product_id == k)) [
  | inl e ↦
      let same : r.product_id ≡ k = ground arith in
      ground (arith, same, h, sum_ratings-filter k ids reviews h)
  | inr e ↦ ground (arith, e, sum_ratings-filter k ids reviews h)
]

count_reviews-filter :
    (k : RowId) (ids : List RowId) (reviews : List Review)
    → contains k ids ≡ true
    → count_reviews k (filter (λ (r : Review). contains r.product_id ids) reviews)
      ≡ count_reviews k reviews
unfolding count_reviews filter
count_reviews-filter k ids [] h = refl
count_reviews-filter k ids (r ∷ reviews) h = elim (Bool-cases (r.product_id == k)) [
  | inl e ↦
      let same : r.product_id ≡ k = ground arith in
      ground (arith, same, h, count_reviews-filter k ids reviews h)
  | inr e ↦ ground (arith, e, count_reviews-filter k ids reviews h)
]

count_reviews_none :
    (k : RowId) (reviews : List Review)
    → contains k (map (λ (r : Review). r.product_id) reviews) ≡ false
    → count_reviews k reviews ≡ zero
unfolding count_reviews
count_reviews_none k [] h = refl
count_reviews_none k (r ∷ reviews) h = ground (arith, count_reviews_none k reviews)

rating_in-map :
    (f : RowId → Rating) (k : RowId) (ks : List RowId)
    → rating_in k (map (λ n. (n, f n)) ks) ≡ (if contains k ks then some (f k) else none)
unfolding rating_in
rating_in-map f k [] = refl
rating_in-map f k (n ∷ ks) = elim (Bool-cases (n == k)) [
  | inl e ↦ let same : n ≡ k = ground arith in ground (arith, same, rating_in-map f k ks)
  | inr e ↦ ground (arith, e, rating_in-map f k ks)
]

unreviewed :
    (k : RowId) (reviews : List Review)
    → count_reviews k reviews ≡ zero
    → get_rating_info k reviews ≡ no_rating
unfolding get_rating_info
unreviewed k reviews h = ground (arith, h)

-- What the page shows of a product that is on it is its own rating.
pub rating_in-get_rating_info_batch :
    (k : RowId) (ids : List RowId) (reviews : List Review)
    → contains k ids ≡ true
    → given (rating_in k (get_rating_info_batch ids reviews)) no_rating ≡ get_rating_info k reviews
unfolding get_rating_info_batch
rating_in-get_rating_info_batch k [] reviews h = absurd (ground arith)
rating_in-get_rating_info_batch k (id ∷ ids) reviews h =
    let selected = filter (λ (r : Review). contains r.product_id (id ∷ ids)) reviews in
    let names : List RowId = map (λ (r : Review). r.product_id) selected in
    let found = rating_in-map (λ n. get_rating_info n selected) k (dedup names) in
    let same : get_rating_info k selected ≡ get_rating_info k reviews =
      unfold get_rating_info in
      ground (
        arith,
        sum_ratings-filter k (id ∷ ids) reviews h,
        count_reviews-filter k (id ∷ ids) reviews h,
      ) in
    elim (Bool-cases (contains k names)) [
      | inl e ↦ ground (arith, found, contains-dedup k names, e, same)
      | inr e ↦ ground (
        arith,
        found,
        contains-dedup k names,
        e,
        same,
        unreviewed k selected (count_reviews_none k selected e),
      )
    ]

abbrev pub with_rating : List Review → Entry → Entry × Rating
with_rating reviews x = (x, get_rating_info (entry_id x) reviews)

map_rated :
    (ids : List RowId) (reviews : List Review) (xs : List Entry)
    → all (λ x. contains (entry_id x) ids) xs ≡ true
    → map
        (λ x. (x, given (rating_in (entry_id x) (get_rating_info_batch ids reviews)) no_rating))
        xs
      ≡ map (with_rating reviews) xs
map_rated ids reviews [] h = refl
map_rated ids reviews (x ∷ xs) h =
    ground
      (arith, rating_in-get_rating_info_batch (entry_id x) ids reviews, map_rated ids reviews xs)

all-contains-cons :
    (k : RowId) (ids : List RowId) (xs : List Entry)
    → all (λ x. contains (entry_id x) ids) xs ≡ true
    → all (λ x. contains (entry_id x) (k ∷ ids)) xs ≡ true
all-contains-cons k ids [] h = refl
all-contains-cons k ids (x ∷ xs) h = ground (arith, all-contains-cons k ids xs)

all-contains : (xs : List Entry) → all (λ x. contains (entry_id x) (map entry_id xs)) xs ≡ true
all-contains [] = refl
all-contains (x ∷ xs) =
    ground (arith, all-contains-cons (entry_id x) (map entry_id xs) xs (all-contains xs))

-- Every product of a page is shown with the average and the number that its own page shows.
pub rated-get_rating_info :
    (page : List Entry) (reviews : List Review)
    → rated page reviews ≡ map (λ x. (x, get_rating_info (entry_id x) reviews)) page
unfolding rated
rated-get_rating_info page reviews = map_rated (map entry_id page) reviews page (all-contains page)
