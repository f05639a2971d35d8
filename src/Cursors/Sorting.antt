-- ===== src/Cursors/Sorting.antt =====
-- `ORDER BY` a column and the id, in either direction, and the condition of a cursor on both.
use rd_shop_backend.Base.{
  ℕ, ◌≡◌, refl, Bool, true, ◌&&◌, ◌||◌, List, [], ◌∷◌, arith, ltb, ◌==◌, if◌then◌else◌, RowId, all,
  length, suc, All,
}
use rd_shop_backend.Cursors.Keyset.{Pairwise}
use rd_shop_backend.Cursors.Collecting.{is_followed, Descends}

pub data SortOrder : Type 0 where
  asc desc : SortOrder

-- The value and the id of one row come before those of another: `value < :value OR (value = :value
-- AND id < :id)`, or with `>`.
unfoldable pub precedes : SortOrder → ℕ → RowId → ℕ → RowId → Bool
precedes asc a i b j = ltb a b || (a == b) && ltb i j
precedes desc a i b j = ltb b a || (a == b) && ltb j i

module _ {A : Type 0} (before : A → A → Bool) where
  unfoldable pub insert_sorted : A → List A → List A
  insert_sorted x [] = x ∷ []
  insert_sorted x (y ∷ ys) =
      let rest = insert_sorted x ys in if before x y then x ∷ y ∷ ys else y ∷ rest

  unfoldable pub sort_rows : List A → List A
  unfolding insert_sorted
  sort_rows [] = []
  sort_rows (x ∷ xs) = insert_sorted x (sort_rows xs)

  all-insert_sorted :
      (q : A → Bool) (x : A) (ys : List A) → all q (insert_sorted x ys) ≡ (q x && all q ys)
  unfolding insert_sorted
  all-insert_sorted q x [] = refl
  all-insert_sorted q x (y ∷ ys) = ground (arith, all-insert_sorted q x ys)

  pub all-sort_rows : (q : A → Bool) (xs : List A) → all q (sort_rows xs) ≡ all q xs
  unfolding sort_rows
  all-sort_rows q [] = refl
  all-sort_rows q (x ∷ xs) =
      ground (arith, all-insert_sorted q x (sort_rows xs), all-sort_rows q xs)

  insert_sorted-All :
      (P : A → Type 0) (x : A) (ys : List A) → P x → All P ys → All P (insert_sorted x ys)
  unfolding insert_sorted
  insert_sorted-All P x [] h k = (h, tt)
  insert_sorted-All P x (y ∷ ys) h k = ground (arith, insert_sorted-All P x ys h k.1)

  pub sort_rows-All : (P : A → Type 0) (xs : List A) → All P xs → All P (sort_rows xs)
  unfolding sort_rows
  sort_rows-All P [] h = tt
  sort_rows-All P (x ∷ xs) h = insert_sorted-All P x (sort_rows xs) h.0 (sort_rows-All P xs h.1)

  length-insert_sorted : (x : A) (ys : List A) → length (insert_sorted x ys) ≡ suc (length ys)
  unfolding insert_sorted
  length-insert_sorted x [] = refl
  length-insert_sorted x (y ∷ ys) = ground (arith, length-insert_sorted x ys)

  pub length-sort_rows : (xs : List A) → length (sort_rows xs) ≡ length xs
  unfolding sort_rows
  length-sort_rows [] = refl
  length-sort_rows (x ∷ xs) =
      ground (arith, length-insert_sorted x (sort_rows xs), length-sort_rows xs)

  -- The order keeps what holds between any two rows.
  module _ (r : A → A → Bool) (swap : (x y : A) → r x y ≡ r y x) where
    insert_sorted-Pairwise :
        (x : A) (ys : List A)
        → all (r x) ys ≡ true
        → Pairwise r ys
        → Pairwise r (insert_sorted x ys)
    unfolding insert_sorted
    insert_sorted-Pairwise x [] h k = (refl, tt)
    insert_sorted-Pairwise x (y ∷ ys) h k =
        ground (arith, swap x y, all-insert_sorted (r y) x ys, insert_sorted-Pairwise x ys)

    pub sort_rows-Pairwise : (xs : List A) → Pairwise r xs → Pairwise r (sort_rows xs)
    unfolding sort_rows
    sort_rows-Pairwise [] h = tt
    sort_rows-Pairwise (x ∷ xs) h =
        insert_sorted-Pairwise x (sort_rows xs) (ground (arith, all-sort_rows (r x) xs))
          (sort_rows-Pairwise xs h.1)

  -- Rows of which any two are in order one way, and what the cursor of the first then selects.
  module _ (apart : A → A → Bool) (swap : (x y : A) → apart x y ≡ apart y x)
      (trans : (x y z : A) → before x y ≡ true → before y z ≡ true → before x z ≡ true)
      (total : (x y : A) → apart x y ≡ true → (before x y || before y x) ≡ true) where
    all_before :
        (x y : A) (ys : List A)
        → before x y ≡ true
        → all (before y) ys ≡ true
        → all (before x) ys ≡ true
    all_before x y [] h k = refl
    all_before x y (z ∷ ys) h k = ground (arith, trans x y z, all_before x y ys h)

    insert_sorted-before :
        (x : A) (ys : List A)
        → all (apart x) ys ≡ true
        → Pairwise before ys
        → Pairwise before (insert_sorted x ys)
    unfolding insert_sorted
    insert_sorted-before x [] h sorted = (refl, tt)
    insert_sorted-before x (y ∷ ys) h sorted = ground (
      arith,
      total x y,
      all_before x y ys,
      all-insert_sorted (before y) x ys,
      insert_sorted-before x ys,
    )

    sort_rows-before : (xs : List A) → Pairwise apart xs → Pairwise before (sort_rows xs)
    unfolding sort_rows
    sort_rows-before [] h = tt
    sort_rows-before (x ∷ xs) h =
        insert_sorted-before x (sort_rows xs) (ground (arith, all-sort_rows (apart x) xs))
          (sort_rows-before xs h.1)

    module _ (after : A → A → Bool)
        (follows : (x y : A)
          → apart x y ≡ true
          → before x y ≡ true
          → is_followed after x y ≡ true) where
      all-followed :
          (x : A) (ys : List A)
          → all (apart x) ys ≡ true
          → all (before x) ys ≡ true
          → all (is_followed after x) ys ≡ true
      all-followed x [] h k = refl
      all-followed x (y ∷ ys) h k = ground (arith, follows x y, all-followed x ys)

      both-Descends : (xs : List A) → Pairwise apart xs → Pairwise before xs → Descends after xs
      both-Descends [] h k = tt
      both-Descends (x ∷ xs) h k = (all-followed x xs h.0 k.0, both-Descends xs h.1 k.1)

      pub sort_rows-Descends : (xs : List A) → Pairwise apart xs → Descends after (sort_rows xs)
      sort_rows-Descends xs h =
          both-Descends (sort_rows xs) (sort_rows-Pairwise apart swap xs h) (sort_rows-before xs h)
