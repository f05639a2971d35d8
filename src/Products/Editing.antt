-- ===== src/Products/Editing.antt =====
-- Creating and editing products: unique titles, and a stock that an edit puts back.
use rd_shop_backend.Base.{
  Bool, true, false, not, ◌&&◌, ◌≡◌, refl, sym, ◌∙◌, none, some, List, [], ◌∷◌, arith, ◌==◌, RowId,
  any, Bool-cases, Option-cases, inl, inr,
}
use rd_shop_backend.Base.Table.{find, find_fields, save, find-save}
use rd_shop_backend.Base.Outcome.{
  Result, ok, err, Error, http, rpc, driver, internal, unique_violation, query_canceled,
  lock_not_available, other_code, catch, ◌>>◌,
}
use rd_shop_backend.Products.Model.{Item, item_entity, Catalog, CatalogEnv, UpdateProduct}
use rd_shop_backend.Products.{
  ProductData, throw_on_unique_violation, find_product_or_fail, save_item, find_by_id, assigned,
  update,
}

abbrev has_title : RowId → Item → Bool
has_title title i = i.title == title

-- The unique index on `title`
abbrev pub HasUniqueTitles : List Item → Type 0
HasUniqueTitles [] = Unit
HasUniqueTitles (i ∷ items) = (any (has_title i.title) items ≡ false) × HasUniqueTitles items

abbrev is_taken : Item → Item → Bool
is_taken i x = (x.title == i.title) && not ((x.product).id == (i.product).id)

any_title-save :
    (title : RowId) (i : Item) (items : List Item)
    → (i.title == title) ≡ false
    → any (has_title title) items ≡ false
    → any (has_title title) (save i items) ≡ false
unfolding save
any_title-save title i [] h k = ground arith
any_title-save title i (x ∷ items) h k = ground (arith, any_title-save title i items)

abbrev pub HasUniqueIds : List Item → Type 0
HasUniqueIds [] = Unit
HasUniqueIds (i ∷ items) =
    (any (λ x. (x.product).id == (i.product).id) items ≡ false) × HasUniqueIds items

not_taken :
    (i : Item) (items : List Item)
    → any (λ x. (x.product).id == (i.product).id) items ≡ false
    → any (is_taken i) items ≡ false
    → any (has_title i.title) items ≡ false
not_taken i [] h k = refl
not_taken i (x ∷ items) h k = ground (arith, not_taken i items)

same_ids :
    (i x : Item) (items : List Item)
    → ((x.product).id == (i.product).id) ≡ true
    → any (λ y. (y.product).id == (x.product).id) items ≡ false
    → any (λ y. (y.product).id == (i.product).id) items ≡ false
same_ids i x [] e h = refl
same_ids i x (y ∷ items) e h = ground (arith, same_ids i x items)

save-HasUniqueTitles :
    (i : Item) (items : List Item)
    → any (is_taken i) items ≡ false
    → HasUniqueIds items
    → HasUniqueTitles items
    → HasUniqueTitles (save i items)
unfolding save
save-HasUniqueTitles i [] h ids u = (refl, tt)
save-HasUniqueTitles i (x ∷ items) h (other, ids) (free, u) =
    elim (Bool-cases ((x.product).id == (i.product).id)) [
      | inl e ↦ ground (arith, e, not_taken i items (same_ids i x items e other) (ground arith))
      | inr e ↦ ground (arith, e, any_title-save x.title i items, save-HasUniqueTitles i items)
    ]

-- An edit that succeeded has saved the row that it read, changed, over what is then in the table.
pub record Edited (env : CatalogEnv) (id : RowId) (dto : UpdateProduct) (c c' : Catalog)
    : Type 0 where
  pub item : Item
  pub read : find id c.items ≡ some item
  pub free : any (is_taken (assigned dto item)) (env.others c).items ≡ false
  pub written : c' ≡ record (env.others c) { items = save (assigned dto item) (env.others c).items }

refused :
    {A : Type 0} (e : Error) (a : A) (c c' : Catalog)
    → throw_on_unique_violation e c ≡ (ok a, c')
    → ⊥
unfolding throw_on_unique_violation
refused (http s) a c c' h = cc
refused (rpc s) a c c' h = cc
refused internal a c c' h = cc
refused (driver unique_violation m) a c c' h = cc
refused (driver query_canceled m) a c c' h = cc
refused (driver lock_not_available m) a c c' h = cc
refused (driver other_code m) a c c' h = cc

caught :
    {A : Type 0} (r : Result A × Catalog) (a : A) (c c' : Catalog)
    → catch (λ _. r) throw_on_unique_violation c ≡ (ok a, c')
    → r ≡ (ok a, c')
caught (ok b, d) a c c' h = h
caught (err e, d) a c c' h = absurd (refused e a d c' h)

-- What saving and reading back an item leaves.
saved :
    (env : CatalogEnv) (id : RowId) (i : Item) (a : ProductData) (c c' : Catalog)
    → (save_item i >> find_by_id env.bucket id) c ≡ (ok a, c')
    → (any (is_taken i) c.items ≡ false) × (c' ≡ record c { items = save i c.items })
unfolding save_item find_by_id find_product_or_fail
saved env id i a c c' h = elim (Bool-cases (any (is_taken i) c.items)) [
  | inl t ↦ absurd (ground arith)
  | inr t ↦ elim (Option-cases (find id (save i c.items))) [
    | inl e ↦ absurd (ground arith)
    | inr (j, e) ↦ (t, ground arith)
  ]
]

update-find :
    (env : CatalogEnv) (id : RowId) (dto : UpdateProduct) (i : Item) (c : Catalog)
    → find id c.items ≡ some i
    → update env id dto c
      ≡ catch
          (save_item (assigned dto i) >> find_by_id env.bucket id)
          throw_on_unique_violation
          (env.others c)
unfolding update find_product_or_fail
update-find env id dto i c e = ground arith

pub update-Edited :
    (env : CatalogEnv) (id : RowId) (dto : UpdateProduct) (answer : ProductData) (c c' : Catalog)
    → update env id dto c ≡ (ok answer, c')
    → Edited env id dto c c'
unfolding update find_product_or_fail
update-Edited env id dto answer c c' h = elim (Option-cases (find id c.items)) [
  | inl e ↦ absurd (ground arith)
  | inr (i, e) ↦
      let body = (save_item (assigned dto i) >> find_by_id env.bucket id) (env.others c) in
      let stored =
        saved env id (assigned dto i) answer (env.others c) c'
          (caught body answer (env.others c) c' (sym (update-find env id dto i c e) ∙ h)) in
      record { item = i; read = e; free = stored.0; written = stored.1 }
]

-- An edit that leaves the stock out puts back the stock that it read, whatever orders have taken or
-- given back in between: the row is saved as a whole.
update_restores_stock :
    (env : CatalogEnv) (id : RowId) (dto : UpdateProduct) (item : Item) (answer : ProductData)
    (c c' : Catalog)
    → find id c.items ≡ some item
    → dto.stock ≡ none
    → update env id dto c ≡ (ok answer, c')
    → (j : Item) × (find id c'.items ≡ some j) × ((j.product).stock ≡ (item.product).stock)
update_restores_stock env id dto item answer c c' known kept h =
    let r = update-Edited env id dto answer c c' h in
    let (named, live) = find_fields id r.item c.items r.read in
    let stored = find-save id (assigned dto r.item) (env.others c).items live in
    (
      assigned dto r.item,
      ground (arith, r.written, stored, named),
      ground (arith, r.read, known, kept),
    )

-- An edit that succeeds keeps titles unique, those of soft-deleted products included, also where other
-- requests have written in between, if ids and titles are unique after those.
update-HasUniqueTitles :
    (env : CatalogEnv) (id : RowId) (dto : UpdateProduct) (answer : ProductData) (c c' : Catalog)
    → HasUniqueIds (env.others c).items
    → HasUniqueTitles (env.others c).items
    → update env id dto c ≡ (ok answer, c')
    → HasUniqueTitles c'.items
update-HasUniqueTitles env id dto answer c c' ids unique h =
    let r = update-Edited env id dto answer c c' h in
    let stored =
      save-HasUniqueTitles (assigned dto r.item) (env.others c).items r.free ids unique in
    rw r.written stored
