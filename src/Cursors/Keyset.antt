-- ===== src/Cursors/Keyset.antt =====
-- The order and the condition of keyset paging: rows by creation time and id, both descending, and
-- the rows after a cursor, whose time is cut to the millisecond (orders/repositories/
-- orders-query-builder.ts). Times of the database are in microseconds.
use rd_shop_backend.Base.{
  ℕ, zero, suc, ◌/◌, ◌≡◌, refl, Bool, true, false, not, inl, inr, Bool-cases, ◌&&◌, ◌||◌, List, [],
  ◌∷◌, ◌++◌, map, arith, ltb, ◌==◌, if◌then◌else◌, RowId, all, All, contains, take, length,
}

module _ {A : Type 0} (r : A → A → Bool) where
  -- Every row is related to all later ones.
  abbrev pub Pairwise : List A → Type 0
  Pairwise [] = Unit
  Pairwise (x ∷ xs) = (all (r x) xs ≡ true) × Pairwise xs

module _ {A : Type 0} where
  -- `WHERE`
  unfoldable pub filter : (A → Bool) → List A → List A
  filter p [] = []
  filter p (x ∷ xs) = let rest = filter p xs in if p x then x ∷ rest else rest

  all-filter : (q p : A → Bool) (xs : List A) → all q xs ≡ true → all q (filter p xs) ≡ true
  unfolding filter
  all-filter q p [] h = refl
  all-filter q p (x ∷ xs) h = ground (arith, all-filter q p xs)

  pub filter-imp :
      (p q : A → Bool) (xs : List A)
      → all (λ x. not (p x) || q x) xs ≡ true
      → all q (filter p xs) ≡ true
  unfolding filter
  filter-imp p q [] h = refl
  filter-imp p q (x ∷ xs) h = ground (arith, filter-imp p q xs)

  pub filter-All :
      (P : A → Type 0) (p : A → Bool) (xs : List A)
      → All P xs
      → All (λ x. P x × (p x ≡ true)) (filter p xs)
  unfolding filter
  filter-All P p [] h = tt
  filter-All P p (x ∷ xs) h = elim (Bool-cases (p x)) [
    | inl e ↦ rw e ((h.0, e), filter-All P p xs h.1)
    | inr e ↦ rw e (filter-All P p xs h.1)
  ]

  pub All-append_cons :
      (P : A → Type 0) (xs : List A) (y : A) (ys : List A) → All P (xs ++ y ∷ ys) → P y
  All-append_cons P [] y ys h = h.0
  All-append_cons P (x ∷ xs) y ys h = All-append_cons P xs y ys h.1

  pub filter-Pairwise :
      (r : A → A → Bool) (p : A → Bool) (xs : List A) → Pairwise r xs → Pairwise r (filter p xs)
  unfolding filter
  filter-Pairwise r p [] h = tt
  filter-Pairwise r p (x ∷ xs) h = ground (arith, all-filter (r x) p xs, filter-Pairwise r p xs)

  pub filter-&& :
      (p q : A → Bool) (xs : List A) → filter (λ x. p x && q x) xs ≡ filter q (filter p xs)
  unfolding filter
  filter-&& p q [] = refl
  filter-&& p q (x ∷ xs) = ground (arith, filter-&& p q xs)

  filter-all : (p : A → Bool) (xs : List A) → all p xs ≡ true → filter p xs ≡ xs
  unfolding filter
  filter-all p [] h = refl
  filter-all p (x ∷ xs) h = ground (arith, filter-all p xs)

  all-true : (xs : List A) → all (λ x. true) xs ≡ true
  all-true [] = refl
  all-true (x ∷ xs) = all-true xs

  pub filter-true : (xs : List A) → filter (λ x. true) xs ≡ xs
  filter-true xs = filter-all (λ x. true) xs (all-true xs)

  pub length-filter : (p : A → Bool) (xs : List A) → ltb (length xs) (length (filter p xs)) ≡ false
  unfolding filter
  length-filter p [] = refl
  length-filter p (x ∷ xs) = ground (arith, length-filter p xs)

  all-append_cons :
      (p : A → Bool) (xs : List A) (y : A) (ys : List A) → all p (xs ++ y ∷ ys) ≡ true → p y ≡ true
  all-append_cons p [] y ys h = ground arith
  all-append_cons p (x ∷ xs) y ys h = ground (arith, all-append_cons p xs y ys)

-- The rows of a table with an id and a creation time.
module _ {A : Type 0} (id_of : A → RowId) (created_at : A → ℕ) where
  -- `new Date(row.createdAt).getTime()`, and `date_trunc('milliseconds', createdAt)`
  abbrev pub millis : A → ℕ
  millis x = created_at x / 1000

  abbrev pub is_newer : A → A → Bool
  is_newer x y =
      ltb (created_at y) (created_at x) || (created_at x == created_at y) && ltb (id_of y) (id_of x)

  unfoldable pub insert_row : A → List A → List A
  insert_row x [] = x ∷ []
  insert_row x (y ∷ ys) =
      let rest = insert_row x ys in if is_newer x y then x ∷ y ∷ ys else y ∷ rest

  -- `ORDER BY created_at DESC, id DESC`
  unfoldable pub newest_first : List A → List A
  unfolding insert_row
  newest_first [] = []
  newest_first (x ∷ xs) = insert_row x (newest_first xs)

  -- The condition of a cursor
  abbrev pub is_after : ℕ → RowId → A → Bool
  is_after date id x = ltb (millis x) date || (millis x == date) && ltb (id_of x) id

  -- Distinct ids, and no two creation times that differ only within a millisecond.
  abbrev pub is_apart : A → A → Bool
  is_apart x y =
      not (id_of x == id_of y) && (not (millis x == millis y) || (created_at x == created_at y))

  abbrev precedes : A → A → Bool
  precedes x y = is_after (millis x) (id_of x) y

  all-insert_row :
      (q : A → Bool) (x : A) (ys : List A) → all q (insert_row x ys) ≡ (q x && all q ys)
  unfolding insert_row
  all-insert_row q x [] = refl
  all-insert_row q x (y ∷ ys) = ground (arith, all-insert_row q x ys)

  pub all-newest_first : (q : A → Bool) (xs : List A) → all q (newest_first xs) ≡ all q xs
  unfolding newest_first
  all-newest_first q [] = refl
  all-newest_first q (x ∷ xs) =
      ground (arith, all-insert_row q x (newest_first xs), all-newest_first q xs)

  length-insert_row : (x : A) (ys : List A) → length (insert_row x ys) ≡ suc (length ys)
  unfolding insert_row
  length-insert_row x [] = refl
  length-insert_row x (y ∷ ys) = ground (arith, length-insert_row x ys)

  pub length-newest_first : (xs : List A) → length (newest_first xs) ≡ length xs
  unfolding newest_first
  length-newest_first [] = refl
  length-newest_first (x ∷ xs) =
      ground (arith, length-insert_row x (newest_first xs), length-newest_first xs)

  all_newer :
      (x y : A) (ys : List A)
      → is_newer x y ≡ true
      → all (is_newer y) ys ≡ true
      → all (is_newer x) ys ≡ true
  all_newer x y [] h k = refl
  all_newer x y (z ∷ ys) h k = ground (arith, all_newer x y ys h)

  insert_row-newer :
      (x : A) (ys : List A)
      → all (is_apart x) ys ≡ true
      → Pairwise is_newer ys
      → Pairwise is_newer (insert_row x ys)
  unfolding insert_row
  insert_row-newer x [] apart sorted = (refl, tt)
  insert_row-newer x (y ∷ ys) apart sorted =
      ground (arith, all_newer x y ys, all-insert_row (is_newer y) x ys, insert_row-newer x ys)

  newest_first-newer : (xs : List A) → Pairwise is_apart xs → Pairwise is_newer (newest_first xs)
  unfolding newest_first
  newest_first-newer [] apart = tt
  newest_first-newer (x ∷ xs) apart =
      insert_row-newer x (newest_first xs) (ground (arith, all-newest_first (is_apart x) xs))
        (newest_first-newer xs apart.1)

  -- The order keeps what holds between any two rows.
  module _ (r : A → A → Bool) (swap : (x y : A) → r x y ≡ r y x) where
    insert_row-Pairwise :
        (x : A) (ys : List A) → all (r x) ys ≡ true → Pairwise r ys → Pairwise r (insert_row x ys)
    unfolding insert_row
    insert_row-Pairwise x [] h k = (refl, tt)
    insert_row-Pairwise x (y ∷ ys) h k =
        ground (arith, swap x y, all-insert_row (r y) x ys, insert_row-Pairwise x ys)

    pub newest_first-Pairwise : (xs : List A) → Pairwise r xs → Pairwise r (newest_first xs)
    unfolding newest_first
    newest_first-Pairwise [] h = tt
    newest_first-Pairwise (x ∷ xs) h =
        insert_row-Pairwise x (newest_first xs) (ground (arith, all-newest_first (r x) xs))
          (newest_first-Pairwise xs h.1)

  all-precedes :
      (x : A) (ys : List A)
      → all (is_newer x) ys ≡ true
      → all (is_apart x) ys ≡ true
      → all (precedes x) ys ≡ true
  all-precedes x [] newer apart = refl
  all-precedes x (y ∷ ys) newer apart = ground (arith, all-precedes x ys)

  newer_apart-precedes :
      (xs : List A) → Pairwise is_newer xs → Pairwise is_apart xs → Pairwise precedes xs
  newer_apart-precedes [] newer apart = tt
  newer_apart-precedes (x ∷ xs) newer apart =
      (all-precedes x xs newer.0 apart.0, newer_apart-precedes xs newer.1 apart.1)

  -- In the order of the table, a row comes before exactly the rows that are after its cursor.
  pub newest_first-precedes :
      (xs : List A) → Pairwise is_apart xs → Pairwise precedes (newest_first xs)
  newest_first-precedes xs apart =
      newer_apart-precedes (newest_first xs) (newest_first-newer xs apart)
        (newest_first-Pairwise is_apart (λ x y. ground arith) xs apart)

  -- The rows after the cursor of a row are those that follow it.
  pub filter-is_after :
      (q : List A) (r : A) (rest : List A)
      → Pairwise precedes (q ++ r ∷ rest)
      → filter (is_after (millis r) (id_of r)) (q ++ r ∷ rest) ≡ rest
  unfolding filter
  filter-is_after [] r rest h = ground (arith, filter-all (is_after (millis r) (id_of r)) rest)
  filter-is_after (x ∷ q) r rest h =
      ground (arith, all-append_cons (precedes x) q r rest, filter-is_after q r rest)

  abbrev pub is_other : A → A → Bool
  is_other x y = not (id_of x == id_of y)

  abbrev pub ids : List A → List RowId
  ids = map id_of

  all_other-take :
      (x : A) (n : ℕ) (xs : List A)
      → all (is_other x) xs ≡ true
      → contains (id_of x) (ids (take n xs)) ≡ false
  all_other-take x zero xs h = refl
  all_other-take x (suc n) [] h = refl
  all_other-take x (suc n) (y ∷ xs) h = ground (arith, all_other-take x n xs)

  filter-contains-cons :
      (x : A) (page xs : List A)
      → all (is_other x) xs ≡ true
      → filter (λ y. contains (id_of y) (id_of x ∷ ids page)) xs
        ≡ filter (λ y. contains (id_of y) (ids page)) xs
  unfolding filter
  filter-contains-cons x page [] h = refl
  filter-contains-cons x page (y ∷ xs) h = ground (arith, filter-contains-cons x page xs)

  filter_none : (xs : List A) → filter (λ y. false) xs ≡ []
  unfolding filter
  filter_none [] = refl
  filter_none (x ∷ xs) = filter_none xs

  -- Reading the rows of a page again by their ids gives the page.
  pub filter-take :
      (p : A → Bool) (n : ℕ) (xs : List A)
      → Pairwise is_other xs
      → filter (λ x. contains (id_of x) (ids (take n (filter p xs)))) xs ≡ take n (filter p xs)
  unfolding filter
  filter-take p zero xs h = filter_none xs
  filter-take p (suc n) [] h = refl
  filter-take p (suc n) (x ∷ xs) h = elim (Bool-cases (p x)) [
    | inl e ↦
        ground (arith, e, filter-contains-cons x (take n (filter p xs)) xs, filter-take p n xs)
    | inr e ↦ ground (
      arith,
      e,
      all_other-take x (suc n) (filter p xs),
      all-filter (is_other x) p xs,
      filter-take p (suc n) xs,
    )
  ]
