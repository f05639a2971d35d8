-- ===== src/Products/Attachments.antt =====
-- The main image of a product is one of its own ready images: files that are attached and detached.
use rd_shop_backend.Base.{
  Bool, true, false, ◌&&◌, ◌≡◌, refl, Option, none, some, List, [], ◌∷◌, map, arith, ◌==◌,
  if◌then◌else◌, RowId, all, Bool-cases, Option-cases, inl, inr,
}
use rd_shop_backend.Base.Table.{find, find_fields, save, find-save}
use rd_shop_backend.Files.{FileRecord, file_record_entity}
use rd_shop_backend.Products.Model.{Item, item_entity, Catalog}
use rd_shop_backend.Products.{
  is_ready, is_id, find_product_or_fail, remove, attach, add_image, clear_main_image, remove_image,
}

abbrev is_image_of : RowId → Option FileRecord → Bool
is_image_of product_id none = false
is_image_of product_id (some f) = is_id product_id f.entity_id && is_ready f.status

-- The main image of an item, where it has one, is a ready file of that item.
abbrev pub has_own_image : List FileRecord → Item → Bool
has_own_image files i = elim i.main_image_id [
  | none ↦ true
  | some k ↦ is_image_of (i.product).id (find k files)
]

abbrev pub HasOwnImages : Catalog → Type 0
HasOwnImages c = all (has_own_image c.files) c.items ≡ true

all_imp :
    (p q : Item → Bool) (items : List Item)
    → ((i : Item) → p i ≡ true → q i ≡ true)
    → all p items ≡ true
    → all q items ≡ true
all_imp p q [] f h = refl
all_imp p q (i ∷ items) f h = ground (arith, f i, all_imp p q items f)

all-map :
    (p q : Item → Bool) (g : Item → Item) (items : List Item)
    → ((i : Item) → p i ≡ true → q (g i) ≡ true)
    → all p items ≡ true
    → all q (map g items) ≡ true
all-map p q g [] f h = refl
all-map p q g (i ∷ items) f h = ground (arith, f i, all-map p q g items f)

pub all-save :
    (p : Item → Bool) (i : Item) (items : List Item)
    → p i ≡ true
    → all p items ≡ true
    → all p (save i items) ≡ true
unfolding save
all-save p i [] h k = ground arith
all-save p i (x ∷ items) h k = ground (arith, all-save p i items)

pub all-find :
    (p : Item → Bool) (k : RowId) (i : Item) (items : List Item)
    → find k items ≡ some i
    → all p items ≡ true
    → p i ≡ true
unfolding find
all-find p k i [] h t = cc
all-find p k i (x ∷ items) h t = ground (arith, all-find p k i items)

-- Files that are attached or detached.
attach-own :
    (k product_id : RowId) (f : FileRecord) (files : List FileRecord) (i : Item)
    → find k files ≡ some f
    → f.entity_id ≡ none
    → has_own_image files i ≡ true
    → has_own_image (save (record f { entity_id = some product_id }) files) i ≡ true
attach-own k product_id f files i known free own =
    let (named, live) = find_fields k f files known in by_main i.main_image_id refl named
  where
    by_main :
        (m : Option RowId)
        → i.main_image_id ≡ m
        → f.id ≡ k
        → has_own_image (save (record f { entity_id = some product_id }) files) i ≡ true
    by_main none e named = ground (arith, e)
    by_main (some n) e named =
        ground (arith, e, known, free, find-save n (record f { entity_id = some product_id }) files)

abbrev cleared : RowId → RowId → Item → Item
cleared product_id file_id i =
    if ((i.product).id == product_id) && is_id file_id i.main_image_id
    then record i { main_image_id = none }
    else i

detach-own :
    (k product_id : RowId) (f : FileRecord) (files : List FileRecord) (i : Item)
    → find k files ≡ some f
    → is_id product_id f.entity_id ≡ true
    → has_own_image files i ≡ true
    → has_own_image (save (record f { entity_id = none }) files) (cleared product_id k i) ≡ true
detach-own k product_id f files i known of_product own =
    let (named, live) = find_fields k f files known in
    by_main i.main_image_id f.entity_id refl refl named
  where
    by_main :
        (m e : Option RowId)
        → i.main_image_id ≡ m
        → f.entity_id ≡ e
        → f.id ≡ k
        → has_own_image (save (record f { entity_id = none }) files) (cleared product_id k i) ≡ true
    by_main none e p q named = ground (arith, p)
    by_main (some n) none p q named = absurd (ground (arith, q))
    by_main (some n) (some x) p q named =
        ground (arith, p, q, known, find-save n (record f { entity_id = none }) files)

pub add_image-HasOwnImages :
    (product_id file_id : RowId) (c : Catalog)
    → HasOwnImages c
    → HasOwnImages (add_image product_id file_id c).1
unfolding add_image find_product_or_fail attach
add_image-HasOwnImages product_id file_id c own = elim (Option-cases (find product_id c.items)) [
  | inl e ↦ ground (arith, e)
  | inr (i, e) ↦ elim (Option-cases (find file_id c.files)) [
    | inl g ↦ ground (arith, e, g)
    | inr (f, g) ↦ elim (Option-cases f.entity_id) [
      | inr (x, h) ↦ ground (arith, e, g, h)
      | inl h ↦
          let attached =
            all_imp (has_own_image c.files)
              (has_own_image (save (record f { entity_id = some product_id }) c.files)) c.items
              (λ j. attach-own file_id product_id f c.files j g h) own in
          ground (arith, e, g, h, attached)
    ]
  ]
]

pub remove_image-HasOwnImages :
    (product_id file_id : RowId) (c : Catalog)
    → HasOwnImages c
    → HasOwnImages (remove_image product_id file_id c).1
unfolding remove_image find_product_or_fail clear_main_image
remove_image-HasOwnImages product_id file_id c own = elim (Option-cases (find product_id c.items)) [
  | inl e ↦ ground (arith, e)
  | inr (i, e) ↦ elim (Option-cases (find file_id c.files)) [
    | inl g ↦ ground (arith, e, g)
    | inr (f, g) ↦ elim (Bool-cases (is_id product_id f.entity_id)) [
      | inr h ↦ ground (arith, e, g, h)
      | inl h ↦
          let detached =
            all-map (has_own_image c.files)
              (has_own_image (save (record f { entity_id = none }) c.files))
              (cleared product_id file_id) c.items
              (λ j. detach-own file_id product_id f c.files j g h) own in
          ground (arith, e, g, h, detached)
    ]
  ]
]

pub remove-HasOwnImages : (id : RowId) (c : Catalog) → HasOwnImages c → HasOwnImages (remove id c).1
unfolding remove find_product_or_fail
remove-HasOwnImages id c own = elim (Option-cases (find id c.items)) [
  | inl e ↦ ground (arith, e)
  | inr (i, e) ↦
      let p = has_own_image c.files in
      let removed =
        all-map p p
          (λ j.
            if (j.product).id == id
            then record j { product = record (j.product) { deleted = true } }
            else j)
          c.items (λ j own. ground arith) own in
      ground (arith, e, removed)
]
