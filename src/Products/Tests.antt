-- ===== src/Products/Tests.antt =====
-- The theorems on the catalogue at concrete inputs.
use rd_shop_backend.Base.{true, false, ◌≡◌, refl, none, some, [], ◌∷◌}
use rd_shop_backend.Base.Int.{pos}
use rd_shop_backend.Base.Table.{find, save}
use rd_shop_backend.Base.Outcome.{ok, err, http, conflict}
use rd_shop_backend.Files.{
  FileRecord, file_record_entity, file_ready, image_png, product_image, dot_png, Bucket, present,
}
use rd_shop_backend.Products.Model.{
  Item, item_entity, Review, review_entity, Catalog, CatalogEnv, UpdateProduct,
}
use rd_shop_backend.Products.{
  ProductData, throw_on_unique_violation, find_product_or_fail, save_item, find_images,
  resolve_file_url, resolve_main_image_url, other_images, find_by_id, update, remove, attach,
  add_image, clear_main_image, remove_image, associate_main_image, set_main_image,
}
use rd_shop_backend.Products.Reviews.{
  CreateReview, find_reviewed, find_review, insert_review, conflict_on_unique_violation,
  create_review, drop_review, delete_review, sum_ratings, count_reviews, get_rating_info,
}
use rd_shop_backend.Products.Attachments.{HasOwnImages}
use rd_shop_backend.Products.Images.{
  quiet, chooses, attaches, detaches, here, next, Reach-HasOwnImages,
}
use rd_shop_backend.Products.OneReview.{create_review_race}

code : Unit {0}
unfolding find save throw_on_unique_violation find_product_or_fail save_item find_images
    resolve_file_url resolve_main_image_url other_images find_by_id update remove attach add_image
    clear_main_image remove_image associate_main_image set_main_image find_reviewed find_review
    insert_review conflict_on_unique_violation create_review drop_review delete_review sum_ratings
    count_reviews get_rating_info
code = tt

abbrev mug : Item
mug = record {
  product = record { id = 1; price = 499; stock = pos 9; is_active = true; deleted = false };
  title = 11;
  main_image_id = none;
}

abbrev photo : FileRecord
photo = record {
  id = 30;
  owner_id = 7;
  entity_id = none;
  key = product_image 1 31 dot_png;
  content_type = image_png;
  size = 10;
  status = file_ready;
  completed_at = some 5;
}

abbrev opinion : Review
opinion = record { id = 40; user_id = 7; product_id = 1; rating = 4; text = 3; created_at = 9000 }

abbrev catalog : Catalog
catalog = record { items = mug ∷ []; files = photo ∷ []; reviews = opinion ∷ [] }

abbrev bucket : Bucket
bucket = record { head = λ k. present; download_url = λ k. ok 800; upload_url = λ k. ok 900 }

-- An order takes four mugs in between.
abbrev sold : Catalog → Catalog
sold c = record c { items = record mug { product = record (mug.product) { stock = pos 5 } } ∷ [] }

abbrev env : CatalogEnv
env = record { new_id = 41; others = sold; bucket = bucket }

abbrev cheaper : UpdateProduct
cheaper = record { title = none; price = some 399; stock = none; is_active = none }

abbrev cheap : Item
cheap = record mug { product = record (mug.product) { price = 399 } }

abbrev answer : ProductData
answer = record {
  item = cheap;
  main_image_url = none;
  images = [];
  rating = record { average_rating = some 400; reviews_count = 1 };
}

edit_runs : update env 1 cheaper catalog ≡ (ok answer, record catalog { items = cheap ∷ [] })
unfolding code
edit_runs = refl

mug_known : find 1 (mug ∷ []) ≡ some mug
unfolding code
mug_known = refl

abbrev attached : Catalog
attached = (add_image 1 30 catalog).1

abbrev chosen : Catalog
chosen = (set_main_image (quiet env) 1 30 attached).1

abbrev shown : ProductData
shown = record {
  item = record mug { main_image_id = some 30 };
  main_image_url = some 800;
  images = [];
  rating = record { average_rating = some 400; reviews_count = 1 };
}

choice_runs : set_main_image (quiet env) 1 30 attached ≡ (ok shown, chosen)
unfolding code
choice_runs = refl

Reach-HasOwnImages_example : HasOwnImages (remove_image 1 30 chosen).1
Reach-HasOwnImages_example =
    Reach-HasOwnImages
      (next (next (next here (attaches 1 30)) (chooses env 1 30 shown choice_runs)) (detaches 1 30))
      own
  where
    own : HasOwnImages catalog
    own = refl

abbrev unread : Catalog
unread = record catalog { reviews = [] }

abbrev busy : Catalog → CatalogEnv
busy c = record env { others = λ x. c }

abbrev praise : CreateReview
praise = record { rating = 5; text = 3 }

abbrev mine : Review
mine = record { id = 41; user_id = 7; product_id = 1; rating = 5; text = 3; created_at = 12 }

abbrev reviewed : Catalog
reviewed = (create_review (record env { others = λ c. c }) 12 7 1 praise unread).1

review_runs :
    create_review (record env { others = λ c. c }) 12 7 1 praise unread ≡ (ok mine, reviewed)
unfolding code
review_runs = refl

mug_reviewed : find 1 reviewed.items ≡ some mug
unfolding code
mug_reviewed = refl

create_review_race_example :
    (create_review (busy reviewed) 13 7 1 praise unread ≡ (err (http conflict), reviewed))
    × (create_review env 14 7 1 praise reviewed ≡ (err (http conflict), reviewed))
create_review_race_example =
    create_review_race (record env { others = λ c. c }) (busy reviewed) env 12 13 14 7 1 praise
      praise praise mine mug unread reviewed review_runs refl mug_reviewed

found_runs : find_review 7 1 (opinion ∷ []) ≡ some opinion
unfolding code
found_runs = refl

deletion_runs : delete_review 7 1 catalog ≡ (ok tt, unread)
unfolding code
deletion_runs = refl
