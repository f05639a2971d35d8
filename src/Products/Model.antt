-- ===== src/Products/Model.antt =====
-- The rows of the catalogue (products/product.entity.ts, products/product-review.entity.ts), the
-- requests (products/dto), and the state: products, files and reviews. `Item` adds the title and the
-- main image to the columns that orders read; brand, category, country and description, which no rule
-- reads, are left out.
use rd_shop_backend.Base.{ℕ, Bool, true, not, Option, none, some, List, RowId}
use rd_shop_backend.Base.Int.{ℤ}
use rd_shop_backend.Base.Table.{Entity}
use rd_shop_backend.Orders.Model.{Product}
use rd_shop_backend.Files.{FileRecord, Bucket}

pub record Item : Type 0 where
  pub product : Product
  pub title : RowId
  pub main_image_id : Option RowId

instance abbrev pub item_entity : Entity Item
item_entity = record { id_of = λ i. (i.product).id; is_live = λ i. not (i.product).deleted }

-- `created_at` is in microseconds.
pub record Review : Type 0 where
  pub id : RowId
  pub user_id : RowId
  pub product_id : RowId
  pub rating : ℕ
  pub text : RowId
  pub created_at : ℕ

instance abbrev pub review_entity : Entity Review
review_entity = record { id_of = λ r. r.id; is_live = λ r. true }

pub record Catalog : Type 0 where
  pub items : List Item
  pub files : List FileRecord
  pub reviews : List Review

-- `CreateProductDto`
pub record CreateProduct : Type 0 where
  pub title : RowId
  pub price : ℕ
  pub stock : Option ℤ
  pub is_active : Option Bool

-- `UpdateProductDto`
pub record UpdateProduct : Type 0 where
  pub title : Option RowId
  pub price : Option ℕ
  pub stock : Option ℤ
  pub is_active : Option Bool

-- `b ?? a`, and the field that `Object.assign` takes where it is defined
abbrev pub given {ℓ} : {A : Type ℓ} → Option A → A → A
given none a = a
given (some b) a = b

-- What a call meets: the id of a new row, what other requests commit between its read and its write,
-- and the bucket.
pub record CatalogEnv : Type 0 where
  pub new_id : RowId
  pub others : Catalog → Catalog
  pub bucket : Bucket
