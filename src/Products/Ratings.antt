-- ===== src/Products/Ratings.antt =====
-- Reviews: the bounds of the average, and a cursor whose review is gone.
use rd_shop_backend.Base.{
  ℕ, suc, zero, ◌+◌, ◌*◌, ◌/◌, ◌≤◌, ◌<◌, true, ◌&&◌, ◌≡◌, ◌⊎◌, refl, Option, none, some, List, [],
  ◌∷◌, arith, RowId, all, leb, Option-cases, inl, inr,
}
use native.Mathlib.Nat.{le-div_iff_mul-le, div-lt_iff_lt-mul}
use rd_shop_backend.Base.Table.{find}
use rd_shop_backend.Base.Outcome.{ok}
use rd_shop_backend.Products.Model.{item_entity, Review, review_entity, Catalog}
use rd_shop_backend.Products.Reviews.{
  find_reviewed, find_review, drop_review, delete_review, sum_ratings, count_reviews, average,
  get_rating_info, find_cursor_review, after_review, get_reviews,
}

sum-bounds :
    (k : RowId) (reviews : List Review)
    → all (λ (r : Review). leb 1 r.rating && leb r.rating 5) reviews ≡ true
    → (count_reviews k reviews ≤ sum_ratings k reviews)
      × (sum_ratings k reviews ≤ 5 * count_reviews k reviews)
unfolding sum_ratings count_reviews
sum-bounds k [] h = ground arith
sum-bounds k (r ∷ reviews) h = ground (arith, sum-bounds k reviews)

average-bounds :
    (sum n m : ℕ) → n ≤ sum → sum ≤ 5 * n → average sum n ≡ some m → (100 ≤ m) × (m ≤ 500)
average-bounds sum zero m low high h = cc
average-bounds sum (suc n) m low high h =
    let positive : 0 < 2 * suc n = omega arith in
    let same : (200 * sum + suc n) / (2 * suc n) ≡ m = ground (arith, h) in
    let above : 100 ≤ (200 * sum + suc n) / (2 * suc n) =
      (le-div_iff_mul-le positive).1 (omega (arith, low)) in
    let below : (200 * sum + suc n) / (2 * suc n) < 501 =
      (div-lt_iff_lt-mul positive).1 (omega (arith, high)) in
    (omega (arith, above, same), omega (arith, below, same))

-- The average of a product whose ratings are all from 1 to 5 is from 1.00 to 5.00, and it is missing only
-- where there is no review.
get_rating_info-bounds :
    (k : RowId) (reviews : List Review)
    → all (λ r. leb 1 r.rating && leb r.rating 5) reviews ≡ true
    → ((get_rating_info k reviews).average_rating ≡ none)
        × ((get_rating_info k reviews).reviews_count ≡ 0)
      ⊎ ((m : ℕ) × ((get_rating_info k reviews).average_rating ≡ some m) × (100 ≤ m) × (m ≤ 500))
unfolding get_rating_info
get_rating_info-bounds k reviews rated =
    let (low, high) = sum-bounds k reviews rated in by_count (count_reviews k reviews) refl low high
  where
    by_count :
        (n : ℕ)
        → count_reviews k reviews ≡ n
        → n ≤ sum_ratings k reviews
        → sum_ratings k reviews ≤ 5 * n
        → ((get_rating_info k reviews).average_rating ≡ none)
            × ((get_rating_info k reviews).reviews_count ≡ 0)
          ⊎ ((m : ℕ) × ((get_rating_info k reviews).average_rating ≡ some m)
              × (100 ≤ m)
              × (m ≤ 500))
    by_count zero e low high = inl (ground (arith, e), e)
    by_count (suc n) e low high =
        let m = (200 * sum_ratings k reviews + suc n) / (2 * suc n) in
        let (above, below) = average-bounds (sum_ratings k reviews) (suc n) m low high refl in
        inr (m, rw e refl, above, below)

find_cursor_review-drop_review :
    (id product_id : RowId) (reviews : List Review)
    → find_cursor_review id product_id (drop_review id reviews) ≡ none
unfolding find_cursor_review drop_review
find_cursor_review-drop_review id product_id [] = refl
find_cursor_review-drop_review id product_id (r ∷ reviews) =
    ground (arith, find_cursor_review-drop_review id product_id reviews)

after_review-drop_review :
    (id product_id : RowId) (reviews : List Review)
    → after_review (some id) product_id (drop_review id reviews)
      ≡ after_review none product_id (drop_review id reviews)
unfolding after_review
after_review-drop_review zero product_id reviews = refl
after_review-drop_review (suc id) product_id reviews =
    rw (find_cursor_review-drop_review (suc id) product_id reviews, after_review) refl

delete_review-drop :
    (user_id product_id : RowId) (r : Review) (c c' : Catalog)
    → find_review user_id product_id c.reviews ≡ some r
    → delete_review user_id product_id c ≡ (ok tt, c')
    → c'.reviews ≡ drop_review r.id c.reviews
unfolding delete_review find_reviewed
delete_review-drop user_id product_id r c c' known h =
    elim (Option-cases (find product_id c.items)) [
      | inl e ↦ absurd (ground arith)
      | inr (i, e) ↦ ground arith
    ]

-- A reader whose cursor is a review that its author then deletes is sent back to the first page.
delete_review-get_reviews :
    (user_id product_id : RowId) (limit : Option ℕ) (r : Review) (c c' : Catalog)
    → find_review user_id product_id c.reviews ≡ some r
    → delete_review user_id product_id c ≡ (ok tt, c')
    → get_reviews product_id (some r.id) limit c' ≡ get_reviews product_id none limit c'
unfolding get_reviews find_reviewed
delete_review-get_reviews user_id product_id limit r c c' known h =
    let dropped = delete_review-drop user_id product_id r c c' known h in
    let same : after_review (some r.id) product_id c'.reviews
        ≡ after_review none product_id c'.reviews =
      rw dropped (after_review-drop_review r.id product_id c.reviews) in
    elim (Option-cases (find product_id c'.items)) [
      | inl e ↦ ground (arith, e)
      | inr (i, e) ↦ ground (arith, e, same)
    ]
