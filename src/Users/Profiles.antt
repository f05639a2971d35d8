-- ===== src/Users/Profiles.antt =====
-- UsersService: profiles and avatars (users/users.service.ts).
pub mod Avatars
pub mod Edits
pub mod Tests
use rd_shop_backend.Base.{
  Option, none, some, List, [], ◌∷◌, map, ◌==◌, if◌then◌else◌, RowId, truthy,
}
use rd_shop_backend.Base.Table.{find}
use rd_shop_backend.Base.Outcome.{
  Action, ok, err, http, not_found, pure, gets, modify, or_throw, lift, ◌>>=◌, ◌>>◌,
}
use rd_shop_backend.Auth.Tokens.{Account}
use rd_shop_backend.Files.{
  FileRecord, Bucket, get_presigned_url_for_file_id, prepare_file_for_entity,
}
use rd_shop_backend.Users.Model.{
  Field, absent, Profile, UserRow, user_row_entity, UserResponse, from_entity, Directory, UserEnv,
}

abbrev pub in_files : {A : Type 0} → Action (List FileRecord) A → Action Directory A
in_files m d = let (r, files) = m d.files in (r, record d { files = files })

unfoldable pub find_row_or_fail : RowId → Action Directory UserRow
find_row_or_fail id = do user ← gets (λ d. find id d.users); or_throw user (http not_found)

-- TypeORM does not write an undefined property.
abbrev pub kept : Field → Field → Field
kept old absent = old
kept old new = new

abbrev pub kept_profile : Profile → Profile → Profile
kept_profile old new = record {
  first_name = kept old.first_name new.first_name;
  last_name = kept old.last_name new.last_name;
  phone = kept old.phone new.phone;
  city = kept old.city new.city;
  country = kept old.country new.country;
  postcode = kept old.postcode new.postcode;
}

-- The row that is written over `old`: every column that was loaded. The password was not, since the
-- entity excludes it from reads, and the creation time is never changed.
abbrev pub overwritten : UserRow → UserRow → UserRow
overwritten old new = record {
  account = record (new.account) { password = (old.account).password };
  profile = kept_profile old.profile new.profile;
  avatar_id = new.avatar_id;
  created_at = old.created_at;
}

-- `userRepository.save(user)` of a loaded user
unfoldable pub save_user : UserRow → List UserRow → List UserRow
save_user u [] = u ∷ []
save_user u (x ∷ users) =
    if (x.account).id == (u.account).id then overwritten x u ∷ users else x ∷ save_user u users

unfoldable pub resolve_avatar_url : Bucket → Option RowId → Action Directory (Option RowId)
resolve_avatar_url bucket avatar_id = elim (truthy avatar_id) [
  | none ↦ pure none
  | some id ↦ do url ← gets (λ d. get_presigned_url_for_file_id bucket id d.files); lift url
]

-- `getProfile`, and `findById`
unfoldable pub get_profile : Bucket → RowId → Action Directory UserResponse
unfolding find_row_or_fail resolve_avatar_url
get_profile bucket user_id = do
  user ← find_row_or_fail user_id
  url ← resolve_avatar_url bucket user.avatar_id
  pure (from_entity user url)

-- `update(userId, { avatarId: null })`, which writes soft-deleted rows too
unfoldable pub remove_avatar : RowId → Action Directory (Unit {0})
remove_avatar user_id = modify (λ d. record d {
  users = map (λ u. if (u.account).id == user_id then record u { avatar_id = none } else u) d.users;
})

unfoldable pub set_avatar : UserEnv → RowId → RowId → Action Directory UserResponse
unfolding find_row_or_fail save_user
set_avatar env user_id file_id = do
  user ← find_row_or_fail user_id
  prepared ← in_files (prepare_file_for_entity env.bucket env.now user_id file_id)
  modify env.others
  let updated = record user { avatar_id = some prepared.0 }
  modify (λ d. record d { users = save_user updated d.users })
  pure (from_entity updated (some prepared.1))

-- `Object.assign(user, dto)` copies undefined properties as well.
unfoldable pub update_profile : UserEnv → RowId → Profile → Action Directory UserResponse
unfolding find_row_or_fail save_user resolve_avatar_url
update_profile env user_id dto = do
  user ← find_row_or_fail user_id
  modify env.others
  let updated = record user { profile = dto }
  modify (λ d. record d { users = save_user updated d.users })
  url ← resolve_avatar_url env.bucket updated.avatar_id
  pure (from_entity updated url)
