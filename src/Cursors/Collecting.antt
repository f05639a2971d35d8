-- ===== src/Cursors/Collecting.antt =====
-- A client that follows the cursors of a listing, and what it collects.
use rd_shop_backend.Base.{
  ℕ, zero, suc, ap, sym, ◌∙◌, ◌≡◌, refl, Bool, true, false, not, ◌&&◌, Option, none, some, List, [],
  ◌∷◌, ◌++◌, map, arith, ltb, if◌then◌else◌, length, take, all, Bool-cases, inl, inr,
}
use rd_shop_backend.Base.Outcome.{Result, ok, err, internal}
use rd_shop_backend.Cursors.Keyset.{Pairwise, filter}
use rd_shop_backend.Cursors.Paging.{last, take_all, append-cons_assoc, append-snoc, cut}

-- A client that asks for the following page as long as there is a cursor. It fails when it has a cursor
-- and no request left, and when a cursor leads to no row.
unfoldable pub collect :
    {A C : Type 0} → (Option C → Result (List A × Option C)) → ℕ → Option C → Result (List A)
collect run zero cursor = err internal
collect run (suc fuel) cursor = elim (run cursor) [
  | err e ↦ err e
  | ok (page, next) ↦ elim next [
    | none ↦ ok page
    | some c ↦ elim (collect run fuel (some c)) [
      | err e ↦ err e
      | ok rest ↦ if ltb 0 (length rest) then ok (page ++ rest) else err internal
    ]
  ]
]

map-append : {A B : Type 0} (f : A → B) (xs ys : List A) → map f (xs ++ ys) ≡ map f xs ++ map f ys
map-append f [] ys = refl
map-append f (x ∷ xs) ys = ground (arith, map-append f xs ys)

pub length-map : {A B : Type 0} (f : A → B) (xs : List A) → length (map f xs) ≡ length xs
length-map f [] = refl
length-map f (x ∷ xs) = ground (arith, length-map f xs)

module _ {A : Type 0} (after : A → A → Bool) where
  -- Of two rows, exactly the later one is after the cursor of the other.
  abbrev pub is_followed : A → A → Bool
  is_followed x y = after x y && not (after y x)

  abbrev pub Descends : List A → Type 0
  Descends = Pairwise is_followed

  filter-followed : (x : A) (xs : List A) → all (is_followed x) xs ≡ true → filter (after x) xs ≡ xs
  unfolding filter
  filter-followed x [] h = refl
  filter-followed x (y ∷ xs) h = ground (arith, filter-followed x xs)

  all-append_cons :
      (p : A → Bool) (xs : List A) (y : A) (ys : List A) → all p (xs ++ y ∷ ys) ≡ true → p y ≡ true
  all-append_cons p [] y ys h = ground arith
  all-append_cons p (x ∷ xs) y ys h = ground (arith, all-append_cons p xs y ys)

  -- The rows after the cursor of a row are those that follow it.
  pub filter-after :
      (q : List A) (r : A) (rest : List A)
      → after r r ≡ false
      → Descends (q ++ r ∷ rest)
      → filter (after r) (q ++ r ∷ rest) ≡ rest
  unfolding filter
  filter-after [] r rest self h = ground (arith, filter-followed r rest)
  filter-after (x ∷ q) r rest self h =
      ground (arith, all-append_cons (is_followed x) q r rest, filter-after q r rest)

  -- A page of the rows that are found, and its cursor.
  module _ {V C : Type 0} (view : A → V) (code : A → C) (limit : ℕ) where
    abbrev pub coded : Option A → Option C
    coded none = none
    coded (some a) = some (code a)

    abbrev pub paged : List A → List V × Option C
    paged found = (
      map view (take limit found),
      if ltb limit (length found) then coded (last (take limit found)) else none,
    )

    module _ (run : Option C → Result (List V × Option C)) (found : List A)
        (positive : ltb 0 limit ≡ true) (self : (r : A) → after r r ≡ false)
        (descends : Descends found)
        (pages : (q : List A) (r : A) (rest : List A)
          → found ≡ q ++ r ∷ rest
          → run (some (code r)) ≡ ok (paged (filter (after r) found))) where
      collect-rest :
          (fuel : ℕ) (cursor : Option C) (q rest : List A)
          → run cursor ≡ ok (paged rest)
          → found ≡ q ++ rest
          → ltb (length rest) fuel ≡ true
          → collect run fuel cursor ≡ ok (map view rest)
      unfolding collect
      collect-rest zero cursor q rest h split enough = absurd (ground arith)
      collect-rest (suc fuel) cursor q rest h split enough =
          elim (Bool-cases (ltb limit (length rest))) [
            | inr full ↦ ground (arith, h, take_all limit rest full)
            | inl more ↦
                let c = cut limit rest more positive in
                let parts : found ≡ (q ++ c.before) ++ c.end ∷ c.rest =
                  split ∙ ap (λ xs. q ++ xs) c.split ∙ append-cons_assoc q c.before c.end c.rest in
                let follows : filter (after c.end) found ≡ c.rest =
                  ap (filter (after c.end)) parts
                  ∙ filter-after (q ++ c.before) c.end c.rest (self c.end)
                      (rw (sym parts) descends) in
                let next =
                  collect-rest fuel (some (code c.end)) ((q ++ c.before) ++ c.end ∷ []) c.rest
                    (pages (q ++ c.before) c.end c.rest parts ∙ ap (λ xs. ok (paged xs)) follows)
                    (parts ∙ append-snoc (q ++ c.before) c.end c.rest)
                    (ground (arith, c.shorter)) in
                let whole : map view (take limit rest) ++ map view c.rest ≡ map view rest =
                  sym (map-append view (take limit rest) c.rest)
                  ∙ ap (λ xs. map view (xs ++ c.rest)) c.page
                  ∙ ap (map view) (sym (append-snoc c.before c.end c.rest))
                  ∙ ap (map view) (sym c.split) in
                ground (arith, h, c.ends, next, whole, c.goes_on, length-map view c.rest)
          ]

      -- One request more than there are rows is enough.
      pub collect-found :
          (fuel : ℕ)
          → run none ≡ ok (paged found)
          → ltb (length found) fuel ≡ true
          → collect run fuel none ≡ ok (map view found)
      collect-found fuel h enough = collect-rest fuel none [] found h refl enough
