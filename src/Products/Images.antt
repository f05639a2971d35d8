-- ===== src/Products/Images.antt =====
-- The main images under any sequence of edits.
use rd_shop_backend.Base.{
  true, not, ◌&&◌, ◌≡◌, some, arith, ◌==◌, RowId, any, Bool-cases, Option-cases, inl, inr,
}
use rd_shop_backend.Base.Table.{find, find_fields, save}
use rd_shop_backend.Base.Outcome.{ok}
use rd_shop_backend.Products.Editing.{update-Edited}
use rd_shop_backend.Files.{FileRecord, file_record_entity}
use rd_shop_backend.Products.Model.{Item, item_entity, Catalog, CatalogEnv, UpdateProduct}
use rd_shop_backend.Products.{
  ProductData, is_ready, is_id, find_product_or_fail, save_item, find_by_id, assigned, update,
  remove, add_image, remove_image, associate_main_image, set_main_image,
}
use rd_shop_backend.Products.Attachments.{
  has_own_image, HasOwnImages, all-save, all-find, add_image-HasOwnImages,
  remove_image-HasOwnImages, remove-HasOwnImages,
}

-- No other request writes during the call.
abbrev pub quiet : CatalogEnv → CatalogEnv
quiet env = record env { others = λ c. c }

update-HasOwnImages :
    (env : CatalogEnv) (id : RowId) (dto : UpdateProduct) (answer : ProductData) (c c' : Catalog)
    → update (quiet env) id dto c ≡ (ok answer, c')
    → HasOwnImages c
    → HasOwnImages c'
update-HasOwnImages env id dto answer c c' h own =
    let r = update-Edited (quiet env) id dto answer c c' h in
    let p = has_own_image c.files in
    let kept : p (assigned dto r.item) ≡ true = all-find p id r.item c.items r.read own in
    let stored = all-save p (assigned dto r.item) c.items kept own in
    ground (arith, r.written, stored)

-- The row and the file of a main image that was set.
record Chosen (product_id file_id : RowId) (c c' : Catalog) : Type 0 where
  item : Item
  file : FileRecord
  read : find product_id c.items ≡ some item
  known : find file_id c.files ≡ some file
  own : (is_id product_id file.entity_id && is_ready file.status) ≡ true
  written : c' ≡ record c { items = save (record item { main_image_id = some file_id }) c.items }

set_main_image-Chosen :
    (env : CatalogEnv) (product_id file_id : RowId) (answer : ProductData) (c c' : Catalog)
    → set_main_image (quiet env) product_id file_id c ≡ (ok answer, c')
    → Chosen product_id file_id c c'
unfolding set_main_image find_product_or_fail associate_main_image save_item find_by_id
set_main_image-Chosen env product_id file_id answer c c' h =
    elim (Option-cases (find product_id c.items)) [
      | inl e ↦ absurd (ground arith)
      | inr (i, e) ↦ elim (Option-cases (find file_id c.files)) [
        | inl g ↦ absurd (ground arith)
        | inr (f, g) ↦ elim (Bool-cases (is_id product_id f.entity_id && is_ready f.status)) [
          | inr o ↦ absurd (ground arith)
          | inl o ↦
              elim (Bool-cases (
                any (λ x. (x.title == i.title) && not ((x.product).id == (i.product).id))
                  c.items)) [
                    | inl t ↦ absurd (ground arith)
                    | inr t ↦
                        elim (Option-cases (
                          find product_id
                            (save (record i { main_image_id = some file_id }) c.items))) [
                              | inl s ↦ absurd (ground arith)
                              | inr (j, s) ↦ record {
                                item = i;
                                file = f;
                                read = e;
                                known = g;
                                own = o;
                                written = ground arith;
                              }
                            ]
                  ]
        ]
      ]
    ]

set_main_image-HasOwnImages :
    (env : CatalogEnv) (product_id file_id : RowId) (answer : ProductData) (c c' : Catalog)
    → set_main_image (quiet env) product_id file_id c ≡ (ok answer, c')
    → HasOwnImages c
    → HasOwnImages c'
set_main_image-HasOwnImages env product_id file_id answer c c' h own =
    let r = set_main_image-Chosen env product_id file_id answer c c' h in
    let p = has_own_image c.files in
    let chosen : Item = record (r.item) { main_image_id = some file_id } in
    let (named, live) = find_fields product_id r.item c.items r.read in
    let kept : p chosen ≡ true = ground (arith, r.known, r.own, named) in
    let stored = all-save p chosen c.items kept own in ground (arith, r.written, stored)

-- One edit of the catalogue, alone.
pub data Step : Catalog → Catalog → Type 0 where
  updates :
      {c c' : Catalog} (env : CatalogEnv) (id : RowId) (dto : UpdateProduct) (answer : ProductData)
      → update (quiet env) id dto c ≡ (ok answer, c')
      → Step c c'
  chooses :
      {c c' : Catalog} (env : CatalogEnv) (product_id file_id : RowId) (answer : ProductData)
      → set_main_image (quiet env) product_id file_id c ≡ (ok answer, c')
      → Step c c'
  attaches : {c : Catalog} (product_id file_id : RowId) → Step c (add_image product_id file_id c).1
  detaches :
      {c : Catalog} (product_id file_id : RowId) → Step c (remove_image product_id file_id c).1
  removes : {c : Catalog} (id : RowId) → Step c (remove id c).1

pub data Reach (c : Catalog) : Catalog → Type 0 where
  here : Reach c c
  next : {c' c'' : Catalog} → Reach c c' → Step c' c'' → Reach c c''

Step-HasOwnImages : {c c' : Catalog} → Step c c' → HasOwnImages c → HasOwnImages c'
Step-HasOwnImages {c} {c'} (updates env id dto answer h) own =
    update-HasOwnImages env id dto answer c c' h own
Step-HasOwnImages {c} {c'} (chooses env product_id file_id answer h) own =
    set_main_image-HasOwnImages env product_id file_id answer c c' h own
Step-HasOwnImages {c} (attaches product_id file_id) own =
    add_image-HasOwnImages product_id file_id c own
Step-HasOwnImages {c} (detaches product_id file_id) own =
    remove_image-HasOwnImages product_id file_id c own
Step-HasOwnImages {c} (removes id) own = remove-HasOwnImages id c own

-- If the main image of every product is a ready file of that product, it stays so under any sequence of
-- edits, choices of a main image, attachments, detachments and removals, one after the other.
pub Reach-HasOwnImages : {c c' : Catalog} → Reach c c' → HasOwnImages c → HasOwnImages c'
Reach-HasOwnImages here own = own
Reach-HasOwnImages (next run step) own = Step-HasOwnImages step (Reach-HasOwnImages run own)
