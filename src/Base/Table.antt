-- ===== src/Base/Table.antt =====
-- A table of the database as the list of its rows. A row has an id and may be soft-deleted; reads
-- and writes go by the id, and a soft-deleted row is not read.
use rd_shop_backend.Base.{
  ◌≡◌, refl, Bool, true, ◌&&◌, Option, none, some, List, [], ◌∷◌, arith, ◌==◌, if◌then◌else◌, RowId,
  contains, or_else,
}

pub record Entity {ℓ} (A : Type ℓ) : Type ℓ where
  pub id_of : A → RowId
  pub is_live : A → Bool

module _ {ℓ} {A : Type ℓ} ⦃e : Entity A⦄ where
  -- `repository.findOne({ where: { id } })`
  unfoldable pub find : RowId → List A → Option A
  find k [] = none
  find k (x ∷ xs) = if e.is_live x && (e.id_of x == k) then some x else find k xs

  -- `repository.save(row)`
  unfoldable pub save : A → List A → List A
  save v [] = v ∷ []
  save v (x ∷ xs) = if e.id_of x == e.id_of v then v ∷ xs else x ∷ save v xs

  -- `repository.save(rows)`, of rows with distinct ids
  unfoldable pub save_all : List A → List A → List A
  unfolding save
  save_all [] t = t
  save_all (v ∷ vs) t = save v (save_all vs t)

  -- `where: { id: In(ids) }`
  unfoldable pub find_in : List RowId → List A → List A
  find_in ids [] = []
  find_in ids (x ∷ xs) =
      let rest = find_in ids xs in
      if e.is_live x && contains (e.id_of x) ids then x ∷ rest else rest

  -- What is found is a live row with that id.
  pub find_fields :
      (k : RowId) (v : A) (xs : List A)
      → find k xs ≡ some v
      → (e.id_of v ≡ k) × (e.is_live v ≡ true)
  unfolding find
  find_fields k v [] h = ground arith
  find_fields k v (x ∷ xs) h = ground (arith, find_fields k v xs)

  pub find-save :
      (k : RowId) (v : A) (xs : List A)
      → e.is_live v ≡ true
      → find k (save v xs) ≡ (if e.id_of v == k then some v else find k xs)
  unfolding find save
  find-save k v [] h = ground arith
  find-save k v (x ∷ xs) h = ground (arith, find-save k v xs h)

  pub find-find_in :
      (k : RowId) (ids : List RowId) (xs : List A)
      → find k (find_in ids xs) ≡ (if contains k ids then find k xs else none)
  unfolding find find_in
  find-find_in k ids [] = ground arith
  find-find_in k ids (x ∷ xs) = ground (arith, find-find_in k ids xs)

abbrev pub AllLive {ℓ} : {A : Type ℓ} ⦃e : Entity A⦄ → List A → Type 0
AllLive [] = Unit
AllLive ⦃e⦄ (x ∷ xs) = (e.is_live x ≡ true) × AllLive ⦃e = e⦄ xs

module _ {ℓ} {A : Type ℓ} ⦃e : Entity A⦄ where
  pub find_in-AllLive : (ids : List RowId) (xs : List A) → AllLive (find_in ids xs)
  unfolding find_in
  find_in-AllLive ids [] = tt
  find_in-AllLive ids (x ∷ xs) = ground (arith, find_in-AllLive ids xs)

  pub save-AllLive : (v : A) (xs : List A) → e.is_live v ≡ true → AllLive xs → AllLive (save v xs)
  unfolding save
  save-AllLive v [] h k = (h, tt)
  save-AllLive v (x ∷ xs) h k = ground (arith, save-AllLive v xs h k.1)

  pub find-save_all :
      (k : RowId) (vs xs : List A)
      → AllLive vs
      → find k (save_all vs xs) ≡ or_else (find k vs) (find k xs)
  unfolding find save_all
  find-save_all k [] xs h = refl
  find-save_all k (v ∷ vs) xs h =
      ground (arith, find-save k v (save_all vs xs) h.0, find-save_all k vs xs h.1)
