-- ===== src/Users/Profiles/Tests.antt =====
-- The theorems on profiles and avatars at concrete inputs.
use rd_shop_backend.Base.{◌≡◌, refl, true, none, some, [], ◌∷◌}
use rd_shop_backend.Base.Outcome.{ok, err, internal}
use rd_shop_backend.Base.Table.{find, save}
use rd_shop_backend.Files.{
  FileRecord, file_record_entity, file_pending, image_png, user_avatar, dot_png, Bucket, present,
  check_file_exists, check_is_owner, find_file_record_or_fail, mark_ready,
  get_presigned_url_for_file_id, prepare_file_for_entity,
}
use rd_shop_backend.Users.Model.{
  absent, text, Profile, UserRow, user_row_entity, Directory, UserEnv, UserResponse, from_entity,
}
use rd_shop_backend.Users.Listing.Tests.{code as listing_code, user, account}
use rd_shop_backend.Users.Profiles.{
  find_row_or_fail, save_user, resolve_avatar_url, get_profile, remove_avatar, set_avatar,
  update_profile,
}
use rd_shop_backend.Users.Profiles.Avatars.{HasOwnAvatars, done, sets, Runs-HasOwnAvatars}
use rd_shop_backend.Users.Profiles.Edits.{set_avatar-get_profile, signed_again}
use rd_shop_backend.Auth.Permissions.{admin_role}

code : Unit {0}
unfolding listing_code save find_file_record_or_fail check_is_owner check_file_exists mark_ready
    get_presigned_url_for_file_id prepare_file_for_entity find_row_or_fail save_user
    resolve_avatar_url get_profile remove_avatar set_avatar update_profile
code = tt

abbrev bucket : Bucket
bucket = record { head = λ k. present; download_url = λ k. ok 88; upload_url = λ k. err internal }

abbrev file : FileRecord
file = record {
  id = 30;
  owner_id = 7;
  entity_id = some 7;
  key = user_avatar 7 31 dot_png;
  content_type = image_png;
  size = 10;
  status = file_pending;
  completed_at = none;
}

abbrev directory : Directory
directory = record { users = user 7 5000 ∷ []; files = file ∷ [] }

abbrev env : UserEnv
env = record { bucket = bucket; now = 9; others = λ d. d }

abbrev with_avatar : Directory
with_avatar = (set_avatar env 7 30 directory).1

no_avatars : HasOwnAvatars directory
no_avatars = refl

Runs-HasOwnAvatars_example : HasOwnAvatars with_avatar
Runs-HasOwnAvatars_example = Runs-HasOwnAvatars (λ k. true) (sets env 7 30 (λ x. done)) no_avatars

abbrev shown : UserResponse
shown = from_entity (record (user 7 5000) { avatar_id = some 30 }) (some 88)

set_runs : set_avatar env 7 30 directory ≡ (ok shown, with_avatar)
unfolding code
set_runs = refl

known : find 7 directory.users ≡ some (user 7 5000)
unfolding code
known = refl

-- The bucket at a later time
abbrev tomorrow : Bucket
tomorrow = record bucket { download_url = λ k. ok 89 }

set_avatar-get_profile_example :
    (f : FileRecord) × (find 30 with_avatar.files ≡ some f)
    × (f.owner_id ≡ 7)
    × (get_profile tomorrow 7 with_avatar
        ≡ (signed_again (tomorrow.download_url f.key) shown, with_avatar))
set_avatar-get_profile_example =
    set_avatar-get_profile env tomorrow 7 30 directory with_avatar shown (user 7 5000) set_runs
      (λ x. refl) known refl refl

abbrev moved : Profile
moved = record {
  first_name = absent;
  last_name = absent;
  phone = absent;
  city = text 5;
  country = absent;
  postcode = absent;
}

abbrev answer : UserResponse
answer = from_entity (record (user 7 5000) { profile = moved }) none

abbrev edited : Directory
edited = (update_profile env 7 moved directory).1

edit_runs : update_profile env 7 moved directory ≡ (ok answer, edited)
unfolding code
edit_runs = refl

-- The roles of the user are taken away while the profile is edited.
abbrev before : UserRow
before = record (user 7 5000) { account = record (account 7) { roles = admin_role ∷ [] } }

abbrev as_admin : Directory
as_admin = record { users = before ∷ []; files = [] }

abbrev demoting : UserEnv
demoting = record env { others = λ d. record d { users = user 7 5000 ∷ [] } }

abbrev restored : Directory
restored = (update_profile demoting 7 moved as_admin).1

abbrev admin_answer : UserResponse
admin_answer = from_entity (record before { profile = moved }) none

demoted_runs : update_profile demoting 7 moved as_admin ≡ (ok admin_answer, restored)
unfolding code
demoted_runs = refl

admin_known : find 7 as_admin.users ≡ some before
unfolding code
admin_known = refl
