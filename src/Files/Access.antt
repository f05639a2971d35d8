-- ===== src/Files/Access.antt =====
-- Completing twice, and who is served.
use rd_shop_backend.Base.{ℕ, ◌≡◌, refl, some, List, arith, RowId, Option-cases, inl, inr}
use rd_shop_backend.Base.Table.{find, find_fields, save, find-save}
use rd_shop_backend.Base.Outcome.{ok}
use rd_shop_backend.Files.{
  FileRecord, file_record_entity, FileStatus, file_pending, file_ready, Bucket, Head, present,
  missing, failed, ready_at, mark_ready, check_file_exists, check_is_owner,
  find_file_record_or_fail, get_file_record_data, complete_upload, get_file_url,
  prepare_file_for_entity,
}
use rd_shop_backend.Files.Marks.{Status-cases}

-- The row that a user is served, of which the URL is signed.
pub record Served (bucket : Bucket) (user_id file_id : RowId) (d : List FileRecord) (url : RowId)
    : Type 0 where
  pub file : FileRecord
  pub known : find file_id d ≡ some file
  pub own : file.owner_id ≡ user_id
  pub ready : file.status ≡ file_ready
  pub signed : bucket.download_url file.key ≡ ok url

-- A URL is given only to the owner, only for a ready file, and for the key of that file; nothing is
-- written.
get_file_url-Served :
    (bucket : Bucket) (user_id file_id url : RowId) (d d' : List FileRecord)
    → get_file_url bucket user_id file_id d ≡ (ok url, d')
    → Served bucket user_id file_id d url × (d' ≡ d)
unfolding get_file_url find_file_record_or_fail check_is_owner
get_file_url-Served bucket user_id file_id url d d' h = elim (Option-cases (find file_id d)) [
  | inl e ↦ absurd (ground arith)
  | inr (f, e) ↦ elim (Status-cases f.status) [
    | inr s ↦ absurd (ground arith)
    | inl s ↦ (
      record { file = f; known = e; own = ground arith; ready = s; signed = ground arith },
      ground arith,
    )
  ]
]

-- A completion that succeeded leaves the file ready, and a second one by the same user, whatever the
-- bucket then shows, gives the same row with a new URL and writes nothing.
complete_upload_again :
    (bucket bucket' : Bucket) (now later : ℕ) (user_id file_id url : RowId) (g : FileRecord)
    (d d' : List FileRecord)
    → complete_upload bucket now user_id file_id d ≡ (ok (g, url), d')
    → (g.status ≡ file_ready)
      × (find file_id d' ≡ some g)
      × (complete_upload bucket' later user_id file_id d' ≡ (get_file_record_data bucket' g, d'))
unfolding complete_upload find_file_record_or_fail check_is_owner get_file_record_data mark_ready
    check_file_exists
complete_upload_again bucket bucket' now later user_id file_id url g d d' h =
    elim (Option-cases (find file_id d)) [
      | inl e ↦ absurd (ground arith)
      | inr (f, e) ↦ elim (Status-cases f.status) [
        | inl s ↦ ground arith
        | inr s ↦ by_head f e s (bucket.head f.key) refl
      ]
    ]
  where
    by_head :
        (f : FileRecord)
        → find file_id d ≡ some f
        → f.status ≡ file_pending
        → (x : Head) → bucket.head f.key ≡ x
        → (g.status ≡ file_ready)
          × (find file_id d' ≡ some g)
          × (complete_upload bucket' later user_id file_id d'
              ≡ (get_file_record_data bucket' g, d'))
    by_head f e s missing x = absurd (ground arith)
    by_head f e s failed x = absurd (ground arith)
    by_head f e s present x =
        let named = find_fields file_id f d e in
        let own : f.owner_id ≡ user_id = ground arith in
        let done : g ≡ ready_at now f = ground arith in
        let written : d' ≡ save (ready_at now f) d = ground arith in
        let stored : find file_id d' ≡ some g =
          ground (arith, done, written, named, find-save file_id (ready_at now f) d) in
        (ground (arith, done), stored, ground (arith, stored, done, own))

-- A file that was prepared has the id that was asked for; it is a ready file of the user, and the URL is
-- for its key.
pub prepare_file_for_entity-Served :
    (bucket : Bucket) (now : ℕ) (user_id file_id : RowId) (d d' : List FileRecord)
    (p : RowId × RowId)
    → prepare_file_for_entity bucket now user_id file_id d ≡ (ok p, d')
    → (p.0 ≡ file_id) × Served bucket user_id p.0 d' p.1
unfolding prepare_file_for_entity find_file_record_or_fail check_is_owner mark_ready
    check_file_exists
prepare_file_for_entity-Served bucket now user_id file_id d d' p h =
    elim (Option-cases (find file_id d)) [
      | inl e ↦ absurd (ground arith)
      | inr (f, e) ↦ by_head f e (bucket.head f.key) f.status refl refl
    ]
  where
    by_head :
        (f : FileRecord)
        → find file_id d ≡ some f
        → (x : Head) (s : FileStatus) → bucket.head f.key ≡ x
        → f.status ≡ s
        → (p.0 ≡ file_id) × Served bucket user_id p.0 d' p.1
    by_head f e missing s x g = absurd (ground arith)
    by_head f e failed s x g = absurd (ground arith)
    by_head f e present file_ready x g =
        let named = find_fields file_id f d e in
        let own : f.owner_id ≡ user_id = ground arith in
        let kept : d' ≡ d = ground arith in
        let id : p.0 ≡ f.id = ground arith in
        (
          ground (arith, id, named),
          record {
            file = f;
            known = ground (arith, kept, id, named, e);
            own = own;
            ready = g;
            signed = ground arith;
          },
        )
    by_head f e present file_pending x g =
        let named = find_fields file_id f d e in
        let own : f.owner_id ≡ user_id = ground arith in
        let written : d' ≡ save (ready_at now f) d = ground arith in
        let id : p.0 ≡ f.id = ground arith in
        (
          ground (arith, id, named),
          record {
            file = ready_at now f;
            known = ground (arith, written, id, named, find-save file_id (ready_at now f) d);
            own = own;
            ready = refl;
            signed = ground arith;
          },
        )
