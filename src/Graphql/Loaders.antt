-- ===== src/Graphql/Loaders.antt =====
-- The batch functions answer every key, in the order of the keys, with what a single read would give.
use rd_shop_backend.Base.{
  ◌≡◌, refl, sym, Bool, true, not, ◌&&◌, Option, none, some, List, [], ◌∷◌, ◌++◌, map, arith, ◌==◌,
  if◌then◌else◌, RowId, all, contains, Bool-cases, inl, inr, or_else,
}
use rd_shop_backend.Base.Table.{Entity, find, find_in, find-find_in}
use rd_shop_backend.Cursors.Keyset.{Pairwise, filter}
use rd_shop_backend.Cursors.Paging.{append-snoc}
use rd_shop_backend.Graphql.{
  map_set, map_get, or_empty, map_by_id, batch_by_id, find_by_keys, group_by_key, batch_by_key,
}

map_get-map_set :
    {V : Type 0} (k n : RowId) (v : V) (m : List (RowId × V))
    → map_get k (map_set n v m) ≡ (if n == k then some v else map_get k m)
unfolding map_get map_set
map_get-map_set k n v [] = refl
map_get-map_set k n v ((i, w) ∷ m) = ground (arith, map_get-map_set k n v m)

append_nil : {A : Type 0} (xs : List A) → xs ++ [] ≡ xs
append_nil [] = refl
append_nil (x ∷ xs) = ground (arith, append_nil xs)

module _ {A : Type 0} ⦃e : Entity A⦄ where
  abbrev pub has_other_id : A → A → Bool
  has_other_id x y = not (e.id_of x == e.id_of y)

  -- The last row with an id
  last_with_id : RowId → List A → Option A
  last_with_id k [] = none
  last_with_id k (x ∷ xs) =
      let rest = last_with_id k xs in or_else rest (if e.id_of x == k then some x else none)

  map_get-map_by_id :
      (k : RowId) (m : List (RowId × A)) (xs : List A)
      → map_get k (map_by_id m xs) ≡ or_else (last_with_id k xs) (map_get k m)
  unfolding map_by_id last_with_id
  map_get-map_by_id k m [] = refl
  map_get-map_by_id k m (x ∷ xs) =
      ground
        (arith, map_get-map_by_id k (map_set (e.id_of x) x m) xs, map_get-map_set k (e.id_of x) x m)

  last_with_id-none :
      (x : A) (k : RowId) (xs : List A)
      → (e.id_of x == k) ≡ true
      → all (has_other_id x) xs ≡ true
      → last_with_id k xs ≡ none
  unfolding last_with_id
  last_with_id-none x k [] same other = refl
  last_with_id-none x k (y ∷ xs) same other = ground (arith, last_with_id-none x k xs same)

  last_with_id-find :
      (k : RowId) (xs : List A)
      → all e.is_live xs ≡ true
      → Pairwise has_other_id xs
      → last_with_id k xs ≡ find k xs
  unfolding last_with_id find
  last_with_id-find k [] live unique = refl
  last_with_id-find k (x ∷ xs) live unique = elim (Bool-cases (e.id_of x == k)) [
    | inl same ↦ ground (arith, same, last_with_id-none x k xs same unique.0)
    | inr other ↦ ground (arith, other, last_with_id-find k xs (ground arith) unique.1)
  ]

  all-find_in :
      (p : A → Bool) (ids : List RowId) (xs : List A)
      → all p xs ≡ true
      → all p (find_in ids xs) ≡ true
  unfolding find_in
  all-find_in p ids [] h = refl
  all-find_in p ids (x ∷ xs) h = ground (arith, all-find_in p ids xs)

  find_in-Pairwise :
      (ids : List RowId) (xs : List A)
      → Pairwise has_other_id xs
      → Pairwise has_other_id (find_in ids xs)
  unfolding find_in
  find_in-Pairwise ids [] h = tt
  find_in-Pairwise ids (x ∷ xs) h =
      ground (arith, all-find_in (has_other_id x) ids xs, find_in-Pairwise ids xs)

  find_in_live : (ids : List RowId) (xs : List A) → all e.is_live (find_in ids xs) ≡ true
  unfolding find_in
  find_in_live ids [] = refl
  find_in_live ids (x ∷ xs) = ground (arith, find_in_live ids xs)

  loaded-find :
      (table : List A) (ids : List RowId) (k : RowId)
      → Pairwise has_other_id table
      → contains k ids ≡ true
      → map_get k (map_by_id [] (find_in ids table)) ≡ find k table
  unfolding map_get
  loaded-find table ids k unique asked = ground (
    arith,
    map_get-map_by_id k [] (find_in ids table),
    last_with_id-find k (find_in ids table) (find_in_live ids table)
        (find_in-Pairwise ids table unique),
    find-find_in k ids table,
    asked,
  )

  map_loaded :
      (table : List A) (ids ks : List RowId)
      → Pairwise has_other_id table
      → all (λ k. contains k ids) ks ≡ true
      → map (λ k. map_get k (map_by_id [] (find_in ids table))) ks ≡ map (λ k. find k table) ks
  map_loaded table ids [] unique h = refl
  map_loaded table ids (k ∷ ks) unique h =
      ground (arith, loaded-find table ids k unique, map_loaded table ids ks unique)

all-contains-cons :
    (k : RowId) (ids ks : List RowId)
    → all (λ n. contains n ids) ks ≡ true
    → all (λ n. contains n (k ∷ ids)) ks ≡ true
all-contains-cons k ids [] h = refl
all-contains-cons k ids (n ∷ ks) h = ground (arith, all-contains-cons k ids ks)

all-contains : (ks : List RowId) → all (λ n. contains n ks) ks ≡ true
all-contains [] = refl
all-contains (k ∷ ks) = ground (arith, all-contains-cons k ks ks (all-contains ks))

module _ {A : Type 0} ⦃e : Entity A⦄ where
  -- A loader by id answers every key, in the order of the keys and also where a key is asked for twice,
  -- with the row that reading it alone would find, and with null where there is none, if ids are
  -- distinct.
  pub batch_by_id-find :
      (table : List A) (ids : List RowId)
      → Pairwise has_other_id table
      → batch_by_id table ids ≡ map (λ k. find k table) ids
  unfolding batch_by_id
  batch_by_id-find table ids unique = map_loaded table ids ids unique (all-contains ids)

  module _ (key : A → RowId) where
    group_by_key-filter :
        (k : RowId) (m : List (RowId × List A)) (xs : List A)
        → or_empty (map_get k (group_by_key key m xs))
          ≡ or_empty (map_get k m) ++ filter (λ x. key x == k) xs
    unfolding group_by_key filter
    group_by_key-filter k m [] = sym (append_nil (or_empty (map_get k m)))
    group_by_key-filter k m (x ∷ xs) = elim (Bool-cases (key x == k)) [
      | inl same ↦
          let at : key x ≡ k = ground arith in
          ground (
            arith,
            same,
            at,
            group_by_key-filter k (map_set (key x) (or_empty (map_get (key x) m) ++ x ∷ []) m) xs,
            map_get-map_set k (key x) (or_empty (map_get (key x) m) ++ x ∷ []) m,
            append-snoc (or_empty (map_get k m)) x (filter (λ y. key y == k) xs),
          )
      | inr other ↦ ground (
        arith,
        other,
        group_by_key-filter k (map_set (key x) (or_empty (map_get (key x) m) ++ x ∷ []) m) xs,
        map_get-map_set k (key x) (or_empty (map_get (key x) m) ++ x ∷ []) m,
      )
    ]

    filter-find_by_keys :
        (k : RowId) (ids : List RowId) (xs : List A)
        → contains k ids ≡ true
        → filter (λ x. key x == k) (find_by_keys key ids xs)
          ≡ filter (λ x. e.is_live x && (key x == k)) xs
    unfolding filter find_by_keys
    filter-find_by_keys k ids [] asked = refl
    filter-find_by_keys k ids (x ∷ xs) asked = elim (Bool-cases (key x == k)) [
      | inl same ↦
          let at : key x ≡ k = ground arith in
          ground (arith, same, at, asked, filter-find_by_keys k ids xs asked)
      | inr other ↦ ground (arith, other, filter-find_by_keys k ids xs asked)
    ]

    map_groups :
        (table : List A) (ids ks : List RowId)
        → all (λ k. contains k ids) ks ≡ true
        → map (λ k. or_empty (map_get k (group_by_key key [] (find_by_keys key ids table)))) ks
          ≡ map (λ k. filter (λ x. e.is_live x && (key x == k)) table) ks
    unfolding map_get
    map_groups table ids [] h = refl
    map_groups table ids (k ∷ ks) h = ground (
      arith,
      group_by_key-filter k [] (find_by_keys key ids table),
      filter-find_by_keys k ids table,
      map_groups table ids ks,
    )

    -- A loader by another key answers every key, in the order of the keys, with exactly the rows that
    -- have it and are not removed, in the order of the table; a key that no row has gets the empty
    -- list.
    pub batch_by_key-filter :
        (table : List A) (ids : List RowId)
        → batch_by_key key table ids
          ≡ map (λ k. filter (λ x. e.is_live x && (key x == k)) table) ids
    unfolding batch_by_key
    batch_by_key-filter table ids = map_groups table ids ids (all-contains ids)
