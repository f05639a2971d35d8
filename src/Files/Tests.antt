-- ===== src/Files/Tests.antt =====
-- The theorems on files at concrete inputs.
use rd_shop_backend.Base.{Bool, true, ◌≡◌, refl, some, [], ◌∷◌}
use rd_shop_backend.Base.Table.{find, save}
use rd_shop_backend.Base.Outcome.{ok}
use rd_shop_backend.Files.{
  FileRecord, file_record_entity, image_png, of_product, ObjectKey, CreatePresignedUpload, new_file,
  get_object_key, get_file_extension, Bucket, present, ready_at, mark_ready, check_file_exists,
  check_is_owner, find_file_record_or_fail, get_file_record_data, complete_upload,
  create_presigned_upload, get_file_url,
}
use rd_shop_backend.Files.Lifecycle.{
  creates, completes, Reach, here, next, IsBacked, Kept, Reach-IsBacked, Reach-Kept,
}

code : Unit {0}
unfolding find save new_file get_object_key get_file_extension mark_ready check_file_exists
    check_is_owner find_file_record_or_fail get_file_record_data complete_upload
    create_presigned_upload get_file_url
code = tt

abbrev bucket : Bucket
bucket = record { head = λ k. present; download_url = λ k. ok 800; upload_url = λ k. ok 900 }

abbrev picture : CreatePresignedUpload
picture = record { content_type = image_png; entity_id = 1; entity_type = of_product; size = 2048 }

abbrev file : FileRecord
file = new_file 30 31 7 picture

abbrev done : FileRecord
done = ready_at 5 file

creation_runs : create_presigned_upload bucket 30 31 7 picture [] ≡ (ok (file, 900), file ∷ [])
unfolding code
creation_runs = refl

completion_runs : complete_upload bucket 5 7 30 (file ∷ []) ≡ (ok (done, 800), done ∷ [])
unfolding code
completion_runs = refl

abbrev stored : ObjectKey → Bool
stored k = true

run : Reach stored [] (done ∷ [])
run =
    next (next here (creates bucket 30 31 7 picture (ok (file, 900)) creation_runs))
      (completes bucket 5 7 30 (ok (done, 800)) (λ k h. refl) completion_runs)

Reach-IsBacked_example : IsBacked stored (done ∷ [])
Reach-IsBacked_example = Reach-IsBacked stored run refl

known : find 30 (file ∷ []) ≡ some file
unfolding code
known = refl

Reach-Kept_example : (g : FileRecord) × (find 30 (done ∷ []) ≡ some g) × Kept file g
Reach-Kept_example =
    Reach-Kept stored 30 file
      (next here (completes bucket 5 7 30 (ok (done, 800)) (λ k h. refl) completion_runs)) known

url_runs : get_file_url bucket 7 30 (done ∷ []) ≡ (ok 800, done ∷ [])
unfolding code
url_runs = refl
