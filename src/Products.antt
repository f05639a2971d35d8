-- ===== src/Products.antt =====
-- ProductsService (products/products.service.ts, products/utils), less the listing of products.
-- TypeORM's `save` of a loaded row writes every column that differs from the table: the whole row.
pub mod Model
pub mod Reviews
pub mod Editing
pub mod Attachments
pub mod Images
pub mod Ratings
pub mod OneReview
pub mod Listing
mod Tests
use rd_shop_backend.Base.{
  Bool, true, false, not, ◌&&◌, Option, none, some, List, [], ◌∷◌, ◌++◌, map, ◌==◌, if◌then◌else◌,
  RowId, any, truthy, or_else,
}
use rd_shop_backend.Base.Int.{ℤ, pos}
use rd_shop_backend.Base.Table.{find, save}
use rd_shop_backend.Base.Outcome.{
  Action, Result, ok, err, Error, http, rpc, internal, driver, unique_violation, nothing, conflict,
  not_found, pure, gets, modify, throw, throw_if, or_throw, catch, ◌>>=◌, ◌>>◌,
}
use rd_shop_backend.Orders.Model.{Product}
use rd_shop_backend.Files.{
  FileRecord, file_record_entity, FileStatus, file_pending, file_ready, Bucket,
}
use rd_shop_backend.Products.Model.{
  given, Item, item_entity, Catalog, CatalogEnv, CreateProduct, UpdateProduct,
}
use rd_shop_backend.Products.Reviews.{Rating, get_rating_info}

-- A product with its URLs and its rating
pub record ProductData : Type 0 where
  pub item : Item
  pub main_image_url : Option RowId
  pub images : List (FileRecord × Option RowId)
  pub rating : Rating

unfoldable pub throw_on_unique_violation : {A : Type 0} → Error → Action Catalog A
throw_on_unique_violation (driver unique_violation m) = throw (http conflict)
throw_on_unique_violation e = throw e

unfoldable pub find_product_or_fail : RowId → Action Catalog Item
find_product_or_fail id = do
  product ← gets (λ c. find id c.items)
  or_throw product (http not_found)

-- `save` under the unique index on `title`, which soft-deleted rows are in as well
unfoldable pub save_item : Item → Action Catalog (Unit {0})
save_item i = do
  taken ←
      gets (λ c. any (λ x. (x.title == i.title) && not ((x.product).id == (i.product).id)) c.items)
  throw_if taken (driver unique_violation nothing)
  modify (λ c. record c { items = save i c.items })

abbrev pub is_ready : FileStatus → Bool
is_ready file_ready = true
is_ready file_pending = false

abbrev pub is_id : RowId → Option RowId → Bool
is_id k none = false
is_id k (some n) = n == k

-- `find({ where: { entityId, status: READY } })`
unfoldable pub find_images : RowId → List FileRecord → List FileRecord
find_images product_id [] = []
find_images product_id (f ∷ files) =
    let rest = find_images product_id files in
    if is_id product_id f.entity_id && is_ready f.status then f ∷ rest else rest

unfoldable pub resolve_file_url : Bucket → FileRecord → Option RowId
resolve_file_url bucket f = elim (bucket.download_url f.key) [ ok url ↦ some url | err e ↦ none ]

unfoldable pub resolve_main_image_url : Bucket → Option RowId → List FileRecord → Option RowId
unfolding resolve_file_url
resolve_main_image_url bucket main_image_id files = elim (truthy main_image_id) [
  | none ↦ none
  | some id ↦ elim (find id files) [
    | none ↦ none
    | some f ↦ if is_ready f.status then resolve_file_url bucket f else none
  ]
]

unfoldable pub other_images : Option RowId → List FileRecord → List FileRecord
other_images main_image_id [] = []
other_images main_image_id (f ∷ files) =
    let rest = other_images main_image_id files in
    if not (is_id f.id main_image_id) then f ∷ rest else rest

unfoldable pub find_by_id : Bucket → RowId → Action Catalog ProductData
unfolding find_product_or_fail find_images resolve_file_url resolve_main_image_url other_images
find_by_id bucket id = do
  item ← find_product_or_fail id
  gets (λ c. record {
    item = item;
    main_image_url = resolve_main_image_url bucket item.main_image_id c.files;
    images =
        map (λ f. (f, resolve_file_url bucket f))
          (other_images item.main_image_id (find_images id c.files));
    rating = get_rating_info id c.reviews;
  })

unfoldable pub list_images : Bucket → RowId → Action Catalog (List (FileRecord × Option RowId))
unfolding find_product_or_fail find_images resolve_file_url
list_images bucket id = do
  find_product_or_fail id
  gets (λ c. map (λ f. (f, resolve_file_url bucket f)) (find_images id c.files))

unfoldable pub create : CatalogEnv → CreateProduct → Action Catalog Item
unfolding throw_on_unique_violation save_item
create env dto =
    let item : Item = record {
      product = record {
        id = env.new_id;
        price = dto.price;
        stock = given dto.stock (pos 0);
        is_active = given dto.is_active true;
        deleted = false;
      };
      title = dto.title;
      main_image_id = none;
    } in
    catch (save_item item >> pure item) throw_on_unique_violation

-- `Object.assign(product, omitUndefined(dto))`
abbrev pub assigned : UpdateProduct → Item → Item
assigned dto i = record i {
  product = record (i.product) {
    price = given dto.price (i.product).price;
    stock = given dto.stock (i.product).stock;
    is_active = given dto.is_active (i.product).is_active;
  };
  title = given dto.title i.title;
}

unfoldable pub update : CatalogEnv → RowId → UpdateProduct → Action Catalog ProductData
unfolding find_product_or_fail throw_on_unique_violation save_item find_by_id
update env id dto = do
  item ← find_product_or_fail id
  modify env.others
  catch (save_item (assigned dto item) >> find_by_id env.bucket id) throw_on_unique_violation

-- `softDelete(id)`
unfoldable pub remove : RowId → Action Catalog (Unit {0})
unfolding find_product_or_fail
remove id = do
  find_product_or_fail id
  modify (λ c. record c {
    items =
        map
          (λ i.
            if (i.product).id == id
            then record i { product = record (i.product) { deleted = true } }
            else i)
          c.items;
  })

-- From the row of the file on
unfoldable pub attach : RowId → FileRecord → Action Catalog (Unit {0})
attach product_id f = elim f.entity_id [
  | none ↦
      modify (λ c. record c { files = save (record f { entity_id = some product_id }) c.files })
  | some id ↦ throw_if (not (id == product_id)) (http conflict)
]

unfoldable pub add_image : RowId → RowId → Action Catalog (Unit {0})
unfolding find_product_or_fail attach
add_image product_id file_id = do
  find_product_or_fail product_id
  f ← or_throw (← gets (λ c. find file_id c.files)) (http not_found)
  throw_if (not (is_ready f.status)) (http not_found)
  attach product_id f

-- `update({ id: productId, mainImageId: fileId }, { mainImageId: null })`
unfoldable pub clear_main_image : RowId → RowId → List Item → List Item
clear_main_image product_id file_id = map (λ i.
    if ((i.product).id == product_id) && is_id file_id i.main_image_id
    then record i { main_image_id = none }
    else i)

unfoldable pub remove_image : RowId → RowId → Action Catalog (Unit {0})
unfolding find_product_or_fail clear_main_image
remove_image product_id file_id = do
  find_product_or_fail product_id
  f ← or_throw (← gets (λ c. find file_id c.files)) (http not_found)
  throw_if (not (is_id product_id f.entity_id)) (http not_found)
  modify (λ c. record c { files = save (record f { entity_id = none }) c.files })
  modify (λ c. record c { items = clear_main_image product_id file_id c.items })

-- The product is read again; `others` is what other requests commit before it is saved.
unfoldable pub associate_main_image : CatalogEnv → RowId → RowId → Action Catalog (Unit {0})
unfolding find_product_or_fail save_item
associate_main_image env product_id file_id = do
  item ← find_product_or_fail product_id
  modify env.others
  save_item (record item { main_image_id = some file_id })

unfoldable pub set_main_image : CatalogEnv → RowId → RowId → Action Catalog ProductData
unfolding find_product_or_fail associate_main_image find_by_id
set_main_image env product_id file_id = do
  find_product_or_fail product_id
  f ← or_throw (← gets (λ c. find file_id c.files)) (http not_found)
  throw_if (not (is_id product_id f.entity_id && is_ready f.status)) (http not_found)
  associate_main_image env product_id file_id
  find_by_id env.bucket product_id
