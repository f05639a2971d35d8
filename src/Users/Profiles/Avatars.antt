-- ===== src/Users/Profiles/Avatars.antt =====
-- The avatar of a user is one of the user's own ready files, whatever calls interleave.
use rd_shop_backend.Base.{
  ℕ, ◌≡◌, refl, Bool, true, false, Option, none, some, List, [], ◌∷◌, arith, ◌==◌, if◌then◌else◌,
  RowId, all, map, Option-cases, inl, inr,
}
use rd_shop_backend.Base.Table.{find, find_fields}
use rd_shop_backend.Base.Outcome.{Result, ok, err}
use rd_shop_backend.Files.{
  FileRecord, file_record_entity, FileStatus, file_ready, file_pending, ObjectKey, Bucket,
  prepare_file_for_entity,
}
use rd_shop_backend.Files.Access.{Served, prepare_file_for_entity-Served}
use rd_shop_backend.Files.Marks.{prepare_file_for_entity-Marks}
use rd_shop_backend.Files.Lifecycle.{Kept, Marks-Kept, Step, Step-Kept}
use rd_shop_backend.Users.Model.{UserRow, user_row_entity, Directory, UserEnv, Profile}
use rd_shop_backend.Users.Profiles.{
  find_row_or_fail, save_user, remove_avatar, set_avatar, resolve_avatar_url, update_profile,
}

abbrev is_own : RowId → FileStatus → FileRecord → Bool
is_own user_id file_pending f = false
is_own user_id file_ready f = f.owner_id == user_id

-- A ready file of the user
abbrev pub is_own_ready : RowId → Option FileRecord → Bool
is_own_ready user_id none = false
is_own_ready user_id (some f) = is_own user_id f.status f

-- The avatar of a user, where there is one, is a ready file that the user owns.
abbrev pub has_own_avatar : List FileRecord → UserRow → Bool
has_own_avatar files u = elim u.avatar_id [
  | none ↦ true
  | some k ↦ is_own_ready (u.account).id (find k files)
]

abbrev pub HasOwnAvatars : Directory → Type 0
HasOwnAvatars d = all (has_own_avatar d.files) d.users ≡ true

-- What every call relies on and guarantees: avatars stay the users' own, and a ready file stays ready
-- and stays its owner's.
pub record Advances (d d' : Directory) : Type 0 where
  pub own : HasOwnAvatars d → HasOwnAvatars d'
  pub keeps :
      (k user_id : RowId)
      → is_own_ready user_id (find k d.files) ≡ true
      → is_own_ready user_id (find k d'.files) ≡ true

pub Advances-refl : (d d' : Directory) → d' ≡ d → Advances d d'
Advances-refl d d' e = record { own = λ h. rw e h; keeps = λ k user_id h. rw e h }

pub Advances-trans : (d d' d'' : Directory) → Advances d d' → Advances d' d'' → Advances d d''
Advances-trans d d' d'' first second = record {
  own = λ h. second.own (first.own h);
  keeps = λ k user_id h. second.keeps k user_id (first.keeps k user_id h);
}

-- The state that a call leaves
Advances-to : (d d' d'' : Directory) → d'' ≡ d' → Advances d d' → Advances d d''
Advances-to d d' d'' e step = Advances-trans d d' d'' step (Advances-refl d' d'' e)

all_own :
    (files files' : List FileRecord) (users : List UserRow)
    → ((k user_id : RowId)
        → is_own_ready user_id (find k files) ≡ true
        → is_own_ready user_id (find k files') ≡ true)
    → all (has_own_avatar files) users ≡ true
    → all (has_own_avatar files') users ≡ true
all_own files files' [] keeps h = refl
all_own files files' (u ∷ users) keeps h =
    let rest = all_own files files' users keeps in
    elim (Option-cases u.avatar_id) [
      | inl e ↦ ground (arith, e, rest)
      | inr (k, e) ↦ ground (arith, e, keeps k (u.account).id, rest)
    ]

-- A change of the files alone
files-Advances :
    (d : Directory) (files : List FileRecord)
    → ((k user_id : RowId)
        → is_own_ready user_id (find k d.files) ≡ true
        → is_own_ready user_id (find k files) ≡ true)
    → Advances d (record d { files = files })
files-Advances d files keeps = record {
  own = λ h. all_own d.files files d.users keeps h;
  keeps = keeps;
}

-- A change of the users alone
users-Advances :
    (d : Directory) (users : List UserRow)
    → (HasOwnAvatars d → all (has_own_avatar d.files) users ≡ true)
    → Advances d (record d { users = users })
users-Advances d users own = record { own = own; keeps = λ k user_id h. h }

Kept-ready :
    (user_id : RowId) (f g : FileRecord)
    → Kept f g
    → is_own_ready user_id (some f) ≡ true
    → is_own_ready user_id (some g) ≡ true
Kept-ready user_id f g (inl same) h = ground (arith, same)
Kept-ready user_id f g (inr (pending, now, marked)) h = absurd (ground (arith, pending))

-- Rows that are kept, or were pending and are completed, keep the ready files of a user.
pub keeps_ready :
    (files files' : List FileRecord)
    → ((k : RowId) (f : FileRecord)
        → find k files ≡ some f
        → (g : FileRecord) × (find k files' ≡ some g) × Kept f g)
    → (k user_id : RowId) → is_own_ready user_id (find k files) ≡ true
    → is_own_ready user_id (find k files') ≡ true
keeps_ready files files' kept k user_id h = elim (Option-cases (find k files)) [
  | inl e ↦ absurd (ground arith)
  | inr (f, known) ↦
      let (g, found, same) = kept k f known in ground (arith, found, Kept-ready user_id f g same)
]

prepare_keeps :
    (bucket : Bucket) (now : ℕ) (user_id file_id : RowId) (files : List FileRecord)
    (k owner_id : RowId)
    → is_own_ready owner_id (find k files) ≡ true
    → is_own_ready owner_id (find k (prepare_file_for_entity bucket now user_id file_id files).1)
      ≡ true
prepare_keeps bucket now user_id file_id files =
    let files' = (prepare_file_for_entity bucket now user_id file_id files).1 in
    keeps_ready files files' (λ k f known.
      Marks-Kept bucket now user_id k files files' f
        (prepare_file_for_entity-Marks bucket now user_id file_id files) known)

Served-own :
    (bucket : Bucket) (user_id file_id url : RowId) (files : List FileRecord)
    → Served bucket user_id file_id files url
    → is_own_ready user_id (find file_id files) ≡ true
Served-own bucket user_id file_id url files served =
    ground (arith, served.known, served.ready, served.own)

save_user-own :
    (files : List FileRecord) (u : UserRow) (users : List UserRow)
    → has_own_avatar files u ≡ true
    → all (has_own_avatar files) users ≡ true
    → all (has_own_avatar files) (save_user u users) ≡ true
unfolding save_user
save_user-own files u [] h k = ground arith
save_user-own files u (x ∷ users) h k = ground (arith, save_user-own files u users)

-- A row is saved over what other calls have left.
save-Advances :
    (d d' : Directory) (u : UserRow)
    → Advances d d'
    → (HasOwnAvatars d → has_own_avatar d'.files u ≡ true)
    → Advances d (record d' { users = save_user u d'.users })
save-Advances d d' u between own = record {
  own = λ h. save_user-own d'.files u d'.users (own h) (between.own h);
  keeps = between.keeps;
}

-- An avatar that was read is still the user's own when the row is saved.
read-own :
    (d d' : Directory) (u : UserRow)
    → Advances d d'
    → has_own_avatar d.files u ≡ true
    → has_own_avatar d'.files u ≡ true
read-own d d' u between h = elim (Option-cases u.avatar_id) [
  | inl e ↦ ground (arith, e)
  | inr (k, e) ↦ ground (arith, e, between.keeps k (u.account).id)
]

all-find :
    (p : UserRow → Bool) (k : RowId) (u : UserRow) (users : List UserRow)
    → find k users ≡ some u
    → all p users ≡ true
    → p u ≡ true
unfolding find
all-find p k u [] h t = cc
all-find p k u (x ∷ users) h t = ground (arith, all-find p k u users)

-- What the calls that run in between keep.
abbrev pub Rely : UserEnv → Type 0
Rely env = (d : Directory) → Advances d (env.others d)

remove_avatar-own :
    (files : List FileRecord) (user_id : RowId) (users : List UserRow)
    → all (has_own_avatar files) users ≡ true
    → all
        (has_own_avatar files)
        (map (λ u. if (u.account).id == user_id then record u { avatar_id = none } else u) users)
      ≡ true
remove_avatar-own files user_id [] h = refl
remove_avatar-own files user_id (u ∷ users) h =
    ground (arith, remove_avatar-own files user_id users)

pub remove_avatar-Advances :
    (user_id : RowId) (d : Directory) → Advances d (remove_avatar user_id d).1
unfolding remove_avatar
remove_avatar-Advances user_id d =
    users-Advances d (remove_avatar user_id d).1.users (remove_avatar-own d.files user_id d.users)

-- The row that a profile saves has the avatar that was read, which the interleaved calls kept.
pub update_profile-Advances :
    (env : UserEnv) (user_id : RowId) (dto : Profile) (d : Directory)
    → Rely env
    → Advances d (update_profile env user_id dto d).1
unfolding update_profile find_row_or_fail resolve_avatar_url
update_profile-Advances env user_id dto d rely = elim (Option-cases (find user_id d.users)) [
  | inl e ↦ Advances-refl d (update_profile env user_id dto d).1 (ground arith)
  | inr (u, e) ↦
      let d' = env.others d in
      let updated : UserRow = record u { profile = dto } in
      let saved : Directory = record d' { users = save_user updated d'.users } in
      let final : (update_profile env user_id dto d).1 ≡ saved = ground arith in
      let own : HasOwnAvatars d → has_own_avatar d'.files updated ≡ true =
        λ h. read-own d d' u (rely d) (all-find (has_own_avatar d.files) user_id u d.users e h) in
      Advances-to d saved (update_profile env user_id dto d).1 final
        (save-Advances d d' updated (rely d) own)
]

prepared-Advances :
    (env : UserEnv) (user_id file_id : RowId) (d : Directory) (r : Result (RowId × RowId))
    (files : List FileRecord)
    → prepare_file_for_entity env.bucket env.now user_id file_id d.files ≡ (r, files)
    → Advances d (record d { files = files })
prepared-Advances env user_id file_id d r files h =
    let left : files ≡ (prepare_file_for_entity env.bucket env.now user_id file_id d.files).1 =
      ground (arith, h) in
    files-Advances d files (rw left (prepare_keeps env.bucket env.now user_id file_id d.files))

-- The prepared file is the user's own, and stays so until the row is saved.
pub set_avatar-Advances :
    (env : UserEnv) (user_id file_id : RowId) (d : Directory)
    → Rely env
    → Advances d (set_avatar env user_id file_id d).1
unfolding set_avatar find_row_or_fail
set_avatar-Advances env user_id file_id d rely = elim (Option-cases (find user_id d.users)) [
  | inl e ↦ Advances-refl d (set_avatar env user_id file_id d).1 (ground arith)
  | inr (u, e) ↦
      by_prepared u e (prepare_file_for_entity env.bucket env.now user_id file_id d.files) refl
]
  where
    by_prepared :
        (u : UserRow)
        → find user_id d.users ≡ some u
        → (m : Result (RowId × RowId) × List FileRecord)
        → prepare_file_for_entity env.bucket env.now user_id file_id d.files ≡ m
        → Advances d (set_avatar env user_id file_id d).1
    by_prepared u e (err x, files) h =
        let prepared : Directory = record d { files = files } in
        let final : (set_avatar env user_id file_id d).1 ≡ prepared = ground arith in
        Advances-to d prepared (set_avatar env user_id file_id d).1 final
          (prepared-Advances env user_id file_id d (err x) files h)
    by_prepared u e (ok p, files) h =
        let prepared : Directory = record d { files = files } in
        let d' = env.others prepared in
        let updated : UserRow = record u { avatar_id = some p.0 } in
        let saved : Directory = record d' { users = save_user updated d'.users } in
        let final : (set_avatar env user_id file_id d).1 ≡ saved = ground arith in
        let between : Advances d d' =
          Advances-trans d prepared d' (prepared-Advances env user_id file_id d (ok p) files h)
            (rely prepared) in
        let named = find_fields user_id u d.users e in
        let ready : is_own_ready user_id (find p.0 d'.files) ≡ true =
          (rely prepared).keeps p.0 user_id (
            Served-own env.bucket user_id p.0 p.1 files
              (prepare_file_for_entity-Served env.bucket env.now user_id file_id d.files files p
                h).1) in
        let own : has_own_avatar d'.files updated ≡ true = ground (arith, ready, named) in
        Advances-to d saved (set_avatar env user_id file_id d).1 final
          (save-Advances d d' updated between (λ _. own))

-- Calls one after the other and within each other: what other requests commit during a call is again
-- such a run. `stored` tells the keys that an object was ever put to.
pub data Runs (stored : ObjectKey → Bool) : Directory → Directory → Type 0 where
  done : {d : Directory} → Runs stored d d
  both : {d d' d'' : Directory} → Runs stored d d' → Runs stored d' d'' → Runs stored d d''
  sets :
      {d : Directory} (env : UserEnv) (user_id file_id : RowId)
      → ((x : Directory) → Runs stored x (env.others x))
      → Runs stored d (set_avatar env user_id file_id d).1
  edits :
      {d : Directory} (env : UserEnv) (user_id : RowId) (dto : Profile)
      → ((x : Directory) → Runs stored x (env.others x))
      → Runs stored d (update_profile env user_id dto d).1
  clears : {d : Directory} (user_id : RowId) → Runs stored d (remove_avatar user_id d).1
  uploads :
      {d : Directory} (files : List FileRecord)
      → Step stored d.files files
      → Runs stored d (record d { files = files })

Runs-Advances : (stored : ObjectKey → Bool) {d d' : Directory} → Runs stored d d' → Advances d d'
Runs-Advances stored {d} {d'} done = Advances-refl d d' refl
Runs-Advances stored {d} {d' = d''} (both {d' = d'} run rest) =
    Advances-trans d d' d'' (Runs-Advances stored run) (Runs-Advances stored rest)
Runs-Advances stored {d} (sets env user_id file_id between) =
    set_avatar-Advances env user_id file_id d (λ x. Runs-Advances stored (between x))
Runs-Advances stored {d} (edits env user_id dto between) =
    update_profile-Advances env user_id dto d (λ x. Runs-Advances stored (between x))
Runs-Advances stored {d} (clears user_id) = remove_avatar-Advances user_id d
Runs-Advances stored {d} (uploads files step) =
    files-Advances d files
      (keeps_ready d.files files (λ k f known. Step-Kept stored k f step known))

-- If the avatar of every user is a ready file that the user owns, it stays so whatever avatars are
-- set and removed, profiles edited and files uploaded, completed and prepared, also where such calls
-- run between the read of a user and its save.
pub Runs-HasOwnAvatars :
    (stored : ObjectKey → Bool) {d d' : Directory}
    → Runs stored d d'
    → HasOwnAvatars d
    → HasOwnAvatars d'
Runs-HasOwnAvatars stored run own = (Runs-Advances stored run).own own
