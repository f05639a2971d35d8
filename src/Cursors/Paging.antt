-- ===== src/Cursors/Paging.antt =====
-- Pages of any kind of row: every listing of the shop asks for one row more than the page to know
-- whether there is a next page (users/users.service.ts, products/products.service.ts,
-- orders/services/orders-query.service.ts).
use rd_shop_backend.Base.{
  ℕ, zero, suc, ◌≡◌, refl, true, false, Option, none, some, List, [], ◌∷◌, ◌++◌, arith, ltb,
  if◌then◌else◌, length, take,
}

module _ {A : Type 0} where
  -- `page[page.length - 1]`
  unfoldable pub last : List A → Option A
  last [] = none
  last (x ∷ []) = some x
  last (x ∷ y ∷ xs) = last (y ∷ xs)

  -- The rows of the page, and the row that gives the next cursor, from the rows that the query gave.
  unfoldable pub cut_page : ℕ → List A → List A × Option A
  unfolding last
  cut_page limit rows =
      let has_next_page = ltb limit (length rows) in
      let page = if has_next_page then take limit rows else rows in
      (page, if has_next_page then last page else none)

  pub take_all : (n : ℕ) (xs : List A) → ltb n (length xs) ≡ false → take n xs ≡ xs
  take_all zero [] h = refl
  take_all zero (x ∷ xs) h = absurd (ground arith)
  take_all (suc n) [] h = refl
  take_all (suc n) (x ∷ xs) h = ground (arith, take_all n xs)

  pub take-take : (n : ℕ) (xs : List A) → take n (take (suc n) xs) ≡ take n xs
  take-take zero xs = refl
  take-take (suc n) [] = refl
  take-take (suc n) (x ∷ xs) = ground (arith, take-take n xs)

  pub ltb-length-take : (n : ℕ) (xs : List A) → ltb n (length (take (suc n) xs)) ≡ ltb n (length xs)
  ltb-length-take zero [] = refl
  ltb-length-take zero (x ∷ xs) = ground arith
  ltb-length-take (suc n) [] = refl
  ltb-length-take (suc n) (x ∷ xs) = ground (arith, ltb-length-take n xs)

  pub append-cons_assoc :
      (p q : List A) (x : A) (xs : List A) → p ++ (q ++ x ∷ xs) ≡ (p ++ q) ++ x ∷ xs
  append-cons_assoc [] q x xs = refl
  append-cons_assoc (y ∷ p) q x xs = ground (arith, append-cons_assoc p q x xs)

  pub append-snoc : (p : List A) (x : A) (xs : List A) → p ++ x ∷ xs ≡ (p ++ x ∷ []) ++ xs
  append-snoc [] x xs = refl
  append-snoc (y ∷ p) x xs = ground (arith, append-snoc p x xs)

  -- A page that is not the last one ends with a row, which gives the cursor.
  pub record Cut (n : ℕ) (found : List A) : Type 0 where
    pub before : List A
    pub end : A
    pub rest : List A
    pub split : found ≡ before ++ end ∷ rest
    pub page : take n found ≡ before ++ end ∷ []
    pub ends : last (take n found) ≡ some end
    pub shorter : ltb (length rest) (length found) ≡ true
    pub goes_on : ltb 0 (length rest) ≡ true

  pub cut : (n : ℕ) (found : List A) → ltb n (length found) ≡ true → ltb 0 n ≡ true → Cut n found
  unfolding last
  cut zero found more positive = absurd (ground arith)
  cut (suc n) [] more positive = absurd (ground arith)
  cut (suc zero) (x ∷ xs) more positive = record {
    before = [];
    end = x;
    rest = xs;
    split = refl;
    page = refl;
    ends = refl;
    shorter = ground arith;
    goes_on = ground arith;
  }
  cut (suc (suc n)) (x ∷ []) more positive = absurd (ground arith)
  cut (suc (suc n)) (x ∷ y ∷ xs) more positive =
      let c = cut (suc n) (y ∷ xs) (ground arith) (ground arith) in
      record {
        before = x ∷ c.before;
        end = c.end;
        rest = c.rest;
        split = ground (arith, c.split);
        page = ground (arith, c.page);
        ends = c.ends;
        shorter = ground (arith, c.shorter);
        goes_on = c.goes_on;
      }

  pub cut_page-take :
      (limit : ℕ) (found : List A)
      → cut_page limit (take (suc limit) found)
        ≡ (take limit found, if ltb limit (length found) then last (take limit found) else none)
  unfolding cut_page
  cut_page-take limit found = ground (
    arith,
    take-take limit found,
    ltb-length-take limit found,
    take_all limit found,
    take_all (suc limit) found,
  )
