-- ===== src/Products/OneReview.antt =====
-- A user has one review of a product (products/reviews.service.ts).
use rd_shop_backend.Base.{
  ℕ, is_some, ap, ◌∙◌, Bool, true, false, ◌||◌, ◌≡◌, refl, none, some, List, [], ◌∷◌, ◌++◌, arith,
  RowId, any, Option-cases, Bool-cases, inl, inr,
}
use rd_shop_backend.Base.Table.{find}
use rd_shop_backend.Base.Outcome.{ok, err, http, conflict}
use rd_shop_backend.Products.Model.{Item, item_entity, Review, review_entity, Catalog, CatalogEnv}
use rd_shop_backend.Products.Reviews.{
  CreateReview, is_of, find_reviewed, find_review, insert_review, conflict_on_unique_violation,
  create_review, drop_review,
}

-- The unique constraint: a user has one review of a product.
abbrev pub HasOneReview : List Review → Type 0
HasOneReview [] = Unit
HasOneReview (r ∷ reviews) =
    (any (is_of r.user_id r.product_id) reviews ≡ false) × HasOneReview reviews

any-append :
    (p : Review → Bool) (r : Review) (reviews : List Review)
    → any p (reviews ++ r ∷ []) ≡ (any p reviews || p r)
any-append p r [] = ground arith
any-append p r (x ∷ reviews) = ground (arith, any-append p r reviews)

append-HasOneReview :
    (r : Review) (reviews : List Review)
    → any (is_of r.user_id r.product_id) reviews ≡ false
    → HasOneReview reviews
    → HasOneReview (reviews ++ r ∷ [])
append-HasOneReview r [] h u = (refl, tt)
append-HasOneReview r (x ∷ reviews) h (free, u) =
    ground
      (arith, any-append (is_of x.user_id x.product_id) r reviews, append-HasOneReview r reviews)

any-drop_review :
    (p : Review → Bool) (id : RowId) (reviews : List Review)
    → any p reviews ≡ false
    → any p (drop_review id reviews) ≡ false
unfolding drop_review
any-drop_review p id [] h = refl
any-drop_review p id (r ∷ reviews) h = ground (arith, any-drop_review p id reviews)

drop_review-HasOneReview :
    (id : RowId) (reviews : List Review)
    → HasOneReview reviews
    → HasOneReview (drop_review id reviews)
unfolding drop_review
drop_review-HasOneReview id [] u = tt
drop_review-HasOneReview id (r ∷ reviews) (free, u) = ground (
  arith,
  any-drop_review (is_of r.user_id r.product_id) id reviews,
  drop_review-HasOneReview id reviews,
)

-- A user who has no review of a product yet when the request reads, but has one when it writes, gets
-- a conflict, and nothing is written.
create_review_once :
    (env : CatalogEnv) (now : ℕ) (user_id product_id : RowId) (dto : CreateReview) (c : Catalog)
    (item : Item)
    → find product_id c.items ≡ some item
    → find_review user_id product_id c.reviews ≡ none
    → any (is_of user_id product_id) (env.others c).reviews ≡ true
    → create_review env now user_id product_id dto c ≡ (err (http conflict), env.others c)
unfolding create_review find_reviewed insert_review conflict_on_unique_violation
create_review_once env now user_id product_id dto c item known free taken = ground arith

abbrev new_review : CatalogEnv → ℕ → RowId → RowId → CreateReview → Review
new_review env now user_id product_id dto = record {
  id = env.new_id;
  user_id = user_id;
  product_id = product_id;
  rating = dto.rating;
  text = dto.text;
  created_at = now;
}

-- Whatever it returns, a creation keeps one review for a user and a product.
create_review-HasOneReview :
    (env : CatalogEnv) (now : ℕ) (user_id product_id : RowId) (dto : CreateReview) (c : Catalog)
    → HasOneReview c.reviews
    → HasOneReview (env.others c).reviews
    → HasOneReview (create_review env now user_id product_id dto c).1.reviews
unfolding create_review find_reviewed insert_review conflict_on_unique_violation
create_review-HasOneReview env now user_id product_id dto c one later =
    elim (Option-cases (find product_id c.items)) [
      | inl e ↦ ground (arith, e)
      | inr (i, e) ↦ elim (Option-cases (find_review user_id product_id c.reviews)) [
        | inr (r, f) ↦ ground (arith, e, f)
        | inl f ↦ elim (Bool-cases (any (is_of user_id product_id) (env.others c).reviews)) [
          | inl t ↦ ground (arith, e, f, t)
          | inr t ↦
              let r = new_review env now user_id product_id dto in
              let grown = append-HasOneReview r (env.others c).reviews t later in
              elim (Option-cases (find env.new_id ((env.others c).reviews ++ r ∷ []))) [
                | inl g ↦ ground (arith, e, f, t, g, grown)
                | inr (x, g) ↦ ground (arith, e, f, t, g, grown)
              ]
        ]
      ]
    ]

find_review-any :
    (user_id product_id : RowId) (reviews : List Review)
    → any (is_of user_id product_id) reviews ≡ true
    → is_some (find_review user_id product_id reviews) ≡ true
unfolding find_review
find_review-any user_id product_id [] h = cc
find_review-any user_id product_id (r ∷ reviews) h =
    ground (arith, find_review-any user_id product_id reviews)

-- A creation that succeeds found the product and no review of it by the user, and leaves one.
create_review_leaves :
    (env : CatalogEnv) (now : ℕ) (user_id product_id : RowId) (dto : CreateReview) (r : Review)
    (c c' : Catalog)
    → create_review env now user_id product_id dto c ≡ (ok r, c')
    → (item : Item) × (find product_id c.items ≡ some item)
      × (find_review user_id product_id c.reviews ≡ none)
      × (any (is_of user_id product_id) c'.reviews ≡ true)
unfolding create_review find_reviewed insert_review conflict_on_unique_violation
create_review_leaves env now user_id product_id dto r c c' h =
    elim (Option-cases (find product_id c.items)) [
      | inl e ↦ absurd (ground arith)
      | inr (i, e) ↦ elim (Option-cases (find_review user_id product_id c.reviews)) [
        | inr (x, f) ↦ absurd (ground arith)
        | inl f ↦ elim (Bool-cases (any (is_of user_id product_id) (env.others c).reviews)) [
          | inl t ↦ absurd (ground arith)
          | inr t ↦
              let new = new_review env now user_id product_id dto in
              (
                i,
                e,
                f,
                ground (arith, any-append (is_of user_id product_id) new (env.others c).reviews),
              )
        ]
      ]
    ]

-- Of two creations of a review by one user of one product, whatever they ask for, at most one succeeds:
-- if the first does, one that read before it committed and writes after is refused with 409, and so is
-- one that reads after it, if the product is still there. Neither writes anything.
pub create_review_race :
    (env env' env'' : CatalogEnv) (now now' now'' : ℕ) (user_id product_id : RowId)
    (dto dto' dto'' : CreateReview) (r : Review) (item : Item) (c c' : Catalog)
    → create_review env now user_id product_id dto c ≡ (ok r, c')
    → env'.others c ≡ c'
    → find product_id c'.items ≡ some item
    → (create_review env' now' user_id product_id dto' c ≡ (err (http conflict), c'))
      × (create_review env'' now'' user_id product_id dto'' c' ≡ (err (http conflict), c'))
unfolding create_review find_reviewed insert_review conflict_on_unique_violation
create_review_race env env' env'' now now' now'' user_id product_id dto dto' dto'' r item c c' h
      waits there =
    let (i, known, free, taken) = create_review_leaves env now user_id product_id dto r c c' h in
    let found = find_review-any user_id product_id c'.reviews taken in
    (
      create_review_once env' now' user_id product_id dto' c i known free (rw waits taken)
          ∙ ap (λ x. (err (http conflict), x)) waits,
      ground (arith, there, found),
    )
