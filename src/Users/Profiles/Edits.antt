-- ===== src/Users/Profiles/Edits.antt =====
-- What the edit of a profile and the choice of an avatar leave, and what a later read shows.
use rd_shop_backend.Base.{
  ◌≡◌, refl, sym, false, Option, none, some, List, [], ◌∷◌, arith, ◌==◌, if◌then◌else◌, RowId,
  Option-cases, inl, inr,
}
use rd_shop_backend.Base.Table.{find, find_fields}
use rd_shop_backend.Base.Outcome.{Result, ok, err}
use rd_shop_backend.Files.{
  FileRecord, file_record_entity, Bucket, get_presigned_url_for_file_id, prepare_file_for_entity,
}
use rd_shop_backend.Files.Access.{Served, prepare_file_for_entity-Served}
use rd_shop_backend.Users.Model.{
  Field, absent, null_value, text, Profile, UserRow, user_row_entity, Directory, UserEnv,
  UserResponse, from_entity,
}
use rd_shop_backend.Users.Profiles.{
  find_row_or_fail, kept, kept_profile, overwritten, save_user, get_profile, set_avatar,
  resolve_avatar_url, update_profile,
}

-- The row with an id, removed or not: ids are a primary key.
abbrev pub row_of : RowId → List UserRow → Option UserRow
row_of k [] = none
row_of k (u ∷ users) = if (u.account).id == k then some u else row_of k users

find-save_user :
    (k : RowId) (u x : UserRow) (users : List UserRow)
    → (u.account).id ≡ k
    → (u.account).deleted ≡ false
    → row_of k users ≡ some x
    → find k (save_user u users) ≡ some (overwritten x u)
unfolding find save_user
find-save_user k u x [] id live h = cc
find-save_user k u x (y ∷ users) id live h = ground (arith, find-save_user k u x users id live)

kept_self : (f : Field) → kept f f ≡ f
kept_self absent = refl
kept_self null_value = refl
kept_self (text t) = refl

kept_profile_self : (p : Profile) → kept_profile p p ≡ p
kept_profile_self p = ground (
  arith,
  kept_self p.first_name,
  kept_self p.last_name,
  kept_self p.phone,
  kept_self p.city,
  kept_self p.country,
  kept_self p.postcode,
)

-- What an edit that succeeded has read and written.
pub record Updated (env : UserEnv) (user_id : RowId) (dto : Profile) (d d' : Directory)
    (r : UserResponse) : Type 0 where
  pub user : UserRow
  pub read : find user_id d.users ≡ some user
  pub written : d' ≡ record (env.others d) {
    users = save_user (record user { profile = dto }) (env.others d).users;
  }
  pub shown : r ≡ from_entity (record user { profile = dto }) r.avatar_url
  pub url : resolve_avatar_url env.bucket user.avatar_id d' ≡ (ok r.avatar_url, d')

resolve_avatar_url-unchanged :
    (bucket : Bucket) (a : Option RowId) (d : Directory) → (resolve_avatar_url bucket a d).1 ≡ d
unfolding resolve_avatar_url
resolve_avatar_url-unchanged bucket a d = ground arith

update_profile-Updated :
    (env : UserEnv) (user_id : RowId) (dto : Profile) (d d' : Directory) (r : UserResponse)
    → update_profile env user_id dto d ≡ (ok r, d')
    → Updated env user_id dto d d' r
unfolding update_profile find_row_or_fail
update_profile-Updated env user_id dto d d' r h = elim (Option-cases (find user_id d.users)) [
  | inl e ↦ absurd (ground arith)
  | inr (u, e) ↦
      let d1 = env.others d in
      let saved : Directory = record d1 {
        users = save_user (record u { profile = dto }) d1.users;
      } in
      by_url u e (resolve_avatar_url env.bucket u.avatar_id saved) refl
]
  where
    by_url :
        (u : UserRow)
        → find user_id d.users ≡ some u
        → (m : Result (Option RowId) × Directory)
        → resolve_avatar_url env.bucket u.avatar_id (record (env.others d) {
          users = save_user (record u { profile = dto }) (env.others d).users;
        })
          ≡ m
        → Updated env user_id dto d d' r
    by_url u e (err x, s) g = absurd (ground arith)
    by_url u e (ok url, s) g =
        let saved : Directory = record (env.others d) {
          users = save_user (record u { profile = dto }) (env.others d).users;
        } in
        let unchanged : s ≡ saved =
          ground (arith, g, resolve_avatar_url-unchanged env.bucket u.avatar_id saved) in
        let left : d' ≡ s = ground arith in
        let answer : r ≡ from_entity (record u { profile = dto }) url = ground arith in
        let written : d' ≡ saved = ground (arith, left, unchanged) in
        let own_url : r.avatar_url ≡ url = unfold from_entity in ground (arith, answer) in
        record {
          user = u;
          read = e;
          written = written;
          shown = ground (arith, answer, own_url);
          url = ground (arith, written, unchanged, g, own_url);
        }

-- An edit leaves the user's row as it then is in the table, with the fields that the request names, but
-- with the roles, the scopes, the email, its verification and the avatar that were read before other
-- requests committed. The password of the table stays. If the row is still there.
pub update_profile_restores :
    (env : UserEnv) (user_id : RowId) (dto : Profile) (d d' : Directory) (r : UserResponse)
    (u x : UserRow)
    → update_profile env user_id dto d ≡ (ok r, d')
    → find user_id d.users ≡ some u
    → row_of user_id (env.others d).users ≡ some x
    → find user_id d'.users
      ≡ some (record x {
        account = record (u.account) { password = (x.account).password };
        profile = kept_profile x.profile dto;
        avatar_id = u.avatar_id;
      })
update_profile_restores env user_id dto d d' r u x h read row =
    let done = update_profile-Updated env user_id dto d d' r h in
    let same : done.user ≡ u = ground (arith, done.read) in
    let named = find_fields user_id u d.users read in
    let found =
      find-save_user user_id (record u { profile = dto }) x (env.others d).users (ground arith)
        (ground arith) row in
    ground (arith, done.written, same, found)

-- Without interference, the answer to an edit shows the profile of the request, in which the fields
-- that the request does not name are undefined, while a read that follows shows them as they were.
pub update_profile-get_profile :
    (env : UserEnv) (user_id : RowId) (dto : Profile) (d d' : Directory) (r : UserResponse)
    (u : UserRow)
    → update_profile env user_id dto d ≡ (ok r, d')
    → env.others d ≡ d
    → find user_id d.users ≡ some u
    → row_of user_id d.users ≡ some u
    → (r.profile ≡ dto)
      × (get_profile env.bucket user_id d'
          ≡ (ok (record r { profile = kept_profile u.profile dto }), d'))
unfolding get_profile find_row_or_fail from_entity
update_profile-get_profile env user_id dto d d' r u h quiet read row =
    let done = update_profile-Updated env user_id dto d d' r h in
    let same : done.user ≡ u = ground (arith, done.read) in
    let found =
      update_profile_restores env user_id dto d d' r u u h read (ground (arith, quiet, row)) in
    (ground (arith, done.shown), ground (arith, found, done.shown, done.url, same))

-- What the choice of an avatar that succeeded has read and written.
pub record Chosen (env : UserEnv) (user_id file_id : RowId) (d d' : Directory) (r : UserResponse)
    : Type 0 where
  pub user : UserRow
  pub read : find user_id d.users ≡ some user
  pub files : List FileRecord
  pub url : RowId
  pub served : Served env.bucket user_id file_id files url
  pub written :
      (d1 : Directory)
      → env.others (record d { files = files }) ≡ d1
      → d' ≡ record d1 { users = save_user (record user { avatar_id = some file_id }) d1.users }
  pub shown : r ≡ from_entity (record user { avatar_id = some file_id }) (some url)

set_avatar-Chosen :
    (env : UserEnv) (user_id file_id : RowId) (d d' : Directory) (r : UserResponse)
    → set_avatar env user_id file_id d ≡ (ok r, d')
    → Chosen env user_id file_id d d' r
unfolding set_avatar find_row_or_fail
set_avatar-Chosen env user_id file_id d d' r h = elim (Option-cases (find user_id d.users)) [
  | inl e ↦ absurd (ground arith)
  | inr (u, e) ↦
      by_prepared u e (prepare_file_for_entity env.bucket env.now user_id file_id d.files) refl
]
  where
    by_prepared :
        (u : UserRow)
        → find user_id d.users ≡ some u
        → (m : Result (RowId × RowId) × List FileRecord)
        → prepare_file_for_entity env.bucket env.now user_id file_id d.files ≡ m
        → Chosen env user_id file_id d d' r
    by_prepared u e (err x, files) g = absurd (ground arith)
    by_prepared u e (ok (id, url), files) g =
        let (same, served) =
          prepare_file_for_entity-Served env.bucket env.now user_id file_id d.files files (id, url)
            g in
        record {
          user = u;
          read = e;
          files = files;
          url = url;
          served = rw (sym same) served;
          written = λ d1 e1. ground (arith, same);
          shown = ground (arith, same);
        }

-- An answer with the URL that a later signature gives
abbrev pub signed_again : Result RowId → UserResponse → Result UserResponse
signed_again (ok url) r = ok (record r { avatar_url = some url })
signed_again (err e) r = err e

-- Without interference, once an avatar is set, it is a file of the user, and a later read of the
-- profile shows the answer that was given, but with the URL that the bucket then signs for that file,
-- and fails if the bucket does: if no removed row has the user's id and the file's id is not empty.
pub set_avatar-get_profile :
    (env : UserEnv) (later : Bucket) (user_id file_id : RowId) (d d' : Directory) (r : UserResponse)
    (u : UserRow)
    → set_avatar env user_id file_id d ≡ (ok r, d')
    → ((x : Directory) → env.others x ≡ x)
    → find user_id d.users ≡ some u
    → row_of user_id d.users ≡ some u
    → (file_id == 0) ≡ false
    → (file : FileRecord) × (find file_id d'.files ≡ some file)
      × (file.owner_id ≡ user_id)
      × (get_profile later user_id d' ≡ (signed_again (later.download_url file.key) r, d'))
unfolding get_profile find_row_or_fail from_entity resolve_avatar_url get_presigned_url_for_file_id
set_avatar-get_profile env later user_id file_id d d' r u h quiet read row given =
    let done = set_avatar-Chosen env user_id file_id d d' r h in
    let same : done.user ≡ u = ground (arith, done.read) in
    let named = find_fields user_id u d.users read in
    let updated : UserRow = record u { avatar_id = some file_id } in
    let found = find-save_user user_id updated u d.users (ground arith) (ground arith) row in
    let written = done.written (record d { files = done.files }) (quiet _) in
    let left : d' ≡ record d { users = save_user updated d.users; files = done.files } =
      ground (arith, written, same) in
    let profile : kept_profile u.profile u.profile ≡ u.profile = kept_profile_self u.profile in
    (
      done.served.file,
      ground (arith, left, done.served.known),
      done.served.own,
      ground (arith, left, found, profile, done.shown, same, done.served.known, done.served.ready),
    )
