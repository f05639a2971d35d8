-- ===== src/Files.antt =====
-- FilesService (files/files.service.ts, files/utils, files/file-record.entity.ts) and the check of
-- S3Service for an object. What the bucket answers is a `Bucket`; the text of an object's key is kept
-- by its parts. Bucket name and visibility, which no code changes, are left out. A call is one step.
pub mod Marks
pub mod Lifecycle
pub mod Access
mod Tests
use rd_shop_backend.Base.{
  ℕ, Bool, true, false, not, Option, none, some, List, [], ◌∷◌, ◌++◌, ◌==◌, if◌then◌else◌, RowId,
}
use rd_shop_backend.Base.Table.{Entity, find, save}
use rd_shop_backend.Base.Outcome.{
  Action, Result, ok, err, http, internal, bad_request, forbidden, not_found, pure, gets, modify,
  throw_if, or_throw, lift, ◌>>=◌, ◌>>◌,
}

pub data FileStatus : Type 0 where
  file_pending file_ready : FileStatus

-- A content type that the table of extensions does not name is `other_type`.
pub data ContentType : Type 0 where
  image_jpeg image_jpg image_png image_webp : ContentType
  other_type : RowId → ContentType

pub data Extension : Type 0 where
  dot_jpeg dot_jpg dot_png dot_webp no_extension : Extension

unfoldable pub get_file_extension : ContentType → Extension
get_file_extension image_jpeg = dot_jpeg
get_file_extension image_jpg = dot_jpg
get_file_extension image_png = dot_png
get_file_extension image_webp = dot_webp
get_file_extension (other_type _) = no_extension

-- `products/${entityId}/images/${fileId}${extension}`, and so on
pub data ObjectKey : Type 0 where
  product_image user_avatar misc_file : RowId → RowId → Extension → ObjectKey

pub data EntityType : Type 0 where
  of_product of_user of_other : EntityType

-- `CreatePresignedUploadDto`
pub record CreatePresignedUpload : Type 0 where
  pub content_type : ContentType
  pub entity_id : RowId
  pub entity_type : EntityType
  pub size : ℕ

unfoldable pub get_object_key : RowId → RowId → CreatePresignedUpload → ObjectKey
unfolding get_file_extension
get_object_key file_id owner_id dto =
    let extension = get_file_extension dto.content_type in
    elim dto.entity_type [
      | of_product ↦ product_image dto.entity_id file_id extension
      | of_user ↦ user_avatar owner_id file_id extension
      | of_other ↦ misc_file owner_id file_id extension
    ]

pub record FileRecord : Type 0 where
  pub id : RowId
  pub owner_id : RowId
  pub entity_id : Option RowId
  pub key : ObjectKey
  pub content_type : ContentType
  pub size : ℕ
  pub status : FileStatus
  pub completed_at : Option ℕ

instance abbrev pub file_record_entity : Entity FileRecord
file_record_entity = record { id_of = λ f. f.id; is_live = λ f. true }

-- What `HeadObject` comes to: an object, a 404, or another error.
pub data Head : Type 0 where
  present missing failed : Head

pub record Bucket : Type 0 where
  pub head : ObjectKey → Head
  pub download_url : ObjectKey → Result RowId
  pub upload_url : ObjectKey → Result RowId

unfoldable pub check_file_exists : Bucket → ObjectKey → Result Bool
check_file_exists bucket key = elim (bucket.head key) [
  | present ↦ ok true
  | missing ↦ ok false
  | failed ↦ err internal
]

unfoldable pub check_is_owner : FileRecord → RowId → Result (Unit {0})
check_is_owner f user_id = if f.owner_id == user_id then ok tt else err (http forbidden)

unfoldable pub find_file_record_or_fail : RowId → Action (List FileRecord) FileRecord
find_file_record_or_fail file_id = do found ← gets (find file_id); or_throw found (http not_found)

-- The columns of the row, and its URL
unfoldable pub get_file_record_data : Bucket → FileRecord → Result (FileRecord × RowId)
get_file_record_data bucket f = elim (bucket.download_url f.key) [
  | err e ↦ err e
  | ok url ↦ ok (f, url)
]

abbrev pub ready_at : ℕ → FileRecord → FileRecord
ready_at now f = record f { status = file_ready; completed_at = some now }

-- From the check of the object on
unfoldable pub mark_ready : Bucket → ℕ → FileRecord → Action (List FileRecord) FileRecord
unfolding check_file_exists
mark_ready bucket now f = do
  exists ← lift (check_file_exists bucket f.key)
  throw_if (not exists) (http bad_request)
  elim f.status [
    | file_ready ↦ pure f
    | file_pending ↦ do modify (save (ready_at now f)); pure (ready_at now f)
  ]

-- The row of an upload; `id` and `uuid` are generated.
unfoldable pub new_file : RowId → RowId → RowId → CreatePresignedUpload → FileRecord
unfolding get_object_key
new_file id uuid user_id dto = record {
  id = id;
  owner_id = user_id;
  entity_id = some dto.entity_id;
  key = get_object_key uuid user_id dto;
  content_type = dto.content_type;
  size = dto.size;
  status = file_pending;
  completed_at = none;
}

module _ (bucket : Bucket) where
  unfoldable pub complete_upload : ℕ → RowId → RowId → Action (List FileRecord) (FileRecord × RowId)
  unfolding find_file_record_or_fail check_is_owner mark_ready get_file_record_data
  complete_upload now user_id file_id = do
    f ← find_file_record_or_fail file_id
    lift (check_is_owner f user_id)
    elim f.status [
      | file_ready ↦ lift (get_file_record_data bucket f)
      | file_pending ↦ do g ← mark_ready bucket now f; lift (get_file_record_data bucket g)
    ]

  unfoldable pub create_presigned_upload :
      RowId → RowId → RowId → CreatePresignedUpload → Action (List FileRecord) (FileRecord × RowId)
  create_presigned_upload id uuid user_id dto = do
    let f = new_file id uuid user_id dto
    modify (λ records. records ++ f ∷ [])
    url ← lift (bucket.upload_url f.key)
    pure (f, url)

  unfoldable pub get_file_by_id : RowId → RowId → Action (List FileRecord) (FileRecord × RowId)
  unfolding find_file_record_or_fail check_is_owner get_file_record_data
  get_file_by_id user_id file_id = do
    f ← find_file_record_or_fail file_id
    lift (check_is_owner f user_id)
    lift (get_file_record_data bucket f)

  unfoldable pub get_file_url : RowId → RowId → Action (List FileRecord) RowId
  unfolding find_file_record_or_fail check_is_owner
  get_file_url user_id file_id = do
    f ← find_file_record_or_fail file_id
    lift (check_is_owner f user_id)
    elim f.status [
      | file_pending ↦ or_throw none (http bad_request)
      | file_ready ↦ lift (bucket.download_url f.key)
    ]

  unfoldable pub get_presigned_url_for_file_id : RowId → List FileRecord → Result (Option RowId)
  get_presigned_url_for_file_id file_id records = elim (find file_id records) [
    | none ↦ ok none
    | some f ↦ elim f.status [
      | file_pending ↦ ok none
      | file_ready ↦ elim (bucket.download_url f.key) [ err e ↦ err e | ok url ↦ ok (some url) ]
    ]
  ]

  unfoldable pub prepare_file_for_entity :
      ℕ → RowId → RowId → Action (List FileRecord) (RowId × RowId)
  unfolding find_file_record_or_fail check_is_owner mark_ready
  prepare_file_for_entity now user_id file_id = do
    f ← find_file_record_or_fail file_id
    lift (check_is_owner f user_id)
    g ← mark_ready bucket now f
    url ← lift (bucket.download_url g.key)
    pure (g.id, url)
