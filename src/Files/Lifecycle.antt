-- ===== src/Files/Lifecycle.antt =====
-- The life of an upload: a step relation over the calls, and what every sequence of calls keeps.
use rd_shop_backend.Base.{
  ℕ, Bool, true, ◌||◌, ◌≡◌, ◌⊎◌, ◌∙◌, refl, some, List, [], ◌∷◌, ◌++◌, arith, ◌==◌, RowId, all,
  Bool-cases, inl, inr,
}
use rd_shop_backend.Base.Table.{find, save, find-save}
use rd_shop_backend.Base.Outcome.{Result}
use rd_shop_backend.Files.{
  FileRecord, file_record_entity, file_pending, ObjectKey, Bucket, CreatePresignedUpload, new_file,
  ready_at, complete_upload, create_presigned_upload, prepare_file_for_entity,
}
use rd_shop_backend.Files.Marks.{
  is_present, is_pending, Marks, unmarked, marked, Marks-result, complete_upload-Marks,
  prepare_file_for_entity-Marks,
}

-- The bucket shows only objects that were put there.
abbrev pub Shows : (ObjectKey → Bool) → Bucket → Type 0
Shows stored bucket = (key : ObjectKey) → is_present (bucket.head key) ≡ true → stored key ≡ true

-- One call, whatever it returns. `stored` tells the keys that an object was ever put to.
pub data Step (stored : ObjectKey → Bool) : List FileRecord → List FileRecord → Type 0 where
  creates :
      {d d' : List FileRecord} (bucket : Bucket) (id uuid user_id : RowId)
      (dto : CreatePresignedUpload) (r : Result (FileRecord × RowId))
      → create_presigned_upload bucket id uuid user_id dto d ≡ (r, d')
      → Step stored d d'
  completes :
      {d d' : List FileRecord} (bucket : Bucket) (now : ℕ) (user_id file_id : RowId)
      (r : Result (FileRecord × RowId))
      → Shows stored bucket
      → complete_upload bucket now user_id file_id d ≡ (r, d')
      → Step stored d d'
  prepares :
      {d d' : List FileRecord} (bucket : Bucket) (now : ℕ) (user_id file_id : RowId)
      (r : Result (RowId × RowId))
      → Shows stored bucket
      → prepare_file_for_entity bucket now user_id file_id d ≡ (r, d')
      → Step stored d d'

pub data Reach (stored : ObjectKey → Bool) (d : List FileRecord) : List FileRecord → Type 0 where
  here : Reach stored d d
  next : {d' d'' : List FileRecord} → Reach stored d d' → Step stored d' d'' → Reach stored d d''

-- A row is pending, or its object was put to the bucket.
abbrev is_backed : (ObjectKey → Bool) → FileRecord → Bool
is_backed stored f = is_pending f.status || stored f.key

abbrev pub IsBacked : (ObjectKey → Bool) → List FileRecord → Type 0
IsBacked stored d = all (is_backed stored) d ≡ true

save-IsBacked :
    (stored : ObjectKey → Bool) (f : FileRecord) (d : List FileRecord)
    → is_backed stored f ≡ true
    → IsBacked stored d
    → IsBacked stored (save f d)
unfolding save
save-IsBacked stored f [] h k = ground arith
save-IsBacked stored f (x ∷ d) h k = ground (arith, save-IsBacked stored f d)

append-IsBacked :
    (stored : ObjectKey → Bool) (f : FileRecord) (d : List FileRecord)
    → is_backed stored f ≡ true
    → IsBacked stored d
    → IsBacked stored (d ++ f ∷ [])
append-IsBacked stored f [] h k = ground arith
append-IsBacked stored f (x ∷ d) h k = ground (arith, append-IsBacked stored f d)

-- A row is kept as it is, or was pending and is completed.
abbrev pub Kept : FileRecord → FileRecord → Type 0
Kept f g = (g ≡ f) ⊎ ((f.status ≡ file_pending) × (now : ℕ) × (g ≡ ready_at now f))

Kept-trans : (f g h : FileRecord) → Kept f g → Kept g h → Kept f h
Kept-trans f g h (inl p) (inl q) = inl (q ∙ p)
Kept-trans f g h (inl p) (inr (pending, now, q)) =
    inr (ground (arith, p), now, ground (arith, p, q))
Kept-trans f g h (inr (pending, now, p)) (inl q) = inr (pending, now, q ∙ p)
Kept-trans f g h (inr (pending, now, p)) (inr (again, later, q)) = absurd (ground (arith, p, again))

pub Marks-Kept :
    (bucket : Bucket) (now : ℕ) (user_id k : RowId) (d d' : List FileRecord) (f : FileRecord)
    → Marks bucket now user_id d d'
    → find k d ≡ some f
    → (g : FileRecord) × (find k d' ≡ some g) × Kept f g
Marks-Kept bucket now user_id k d d' f (unmarked h) known = (f, ground (arith, h, known), inl refl)
Marks-Kept bucket now user_id k d d' f (marked m there own pending shown h) known =
    elim (Bool-cases (m.id == k)) [
      | inl e ↦ (
        ready_at now m,
        ground (arith, h, find-save k (ready_at now m) d),
        inr (ground (arith, there, known), now, ground (arith, there, known)),
      )
      | inr e ↦ (f, ground (arith, h, known, find-save k (ready_at now m) d), inl refl)
    ]

Marks-IsBacked :
    (stored : ObjectKey → Bool) (bucket : Bucket) (now : ℕ) (user_id : RowId)
    (d d' : List FileRecord)
    → Shows stored bucket
    → Marks bucket now user_id d d'
    → IsBacked stored d
    → IsBacked stored d'
Marks-IsBacked stored bucket now user_id d d' shows (unmarked h) backed = ground (arith, h)
Marks-IsBacked stored bucket now user_id d d' shows (marked f there own pending shown h) backed =
    let put = shows f.key shown in ground (arith, h, save-IsBacked stored (ready_at now f) d)

Marks-end :
    {A : Type 0} {bucket : Bucket} {now : ℕ} {user_id : RowId} {d d' : List FileRecord}
    {m : Result A × List FileRecord} {r : Result A}
    → m ≡ (r, d')
    → Marks bucket now user_id d m.1
    → Marks bucket now user_id d d'
Marks-end {bucket = bucket} {now} {user_id} {d} {d'} {m} h marks =
    Marks-result bucket now user_id d m.1 d' (ground (arith, h)) marks

find-append :
    (k : RowId) (f g : FileRecord) (d : List FileRecord)
    → find k d ≡ some f
    → find k (d ++ g ∷ []) ≡ some f
unfolding find
find-append k f g [] h = cc
find-append k f g (x ∷ d) h = ground (arith, find-append k f g d)

create_appends :
    (bucket : Bucket) (id uuid user_id : RowId) (dto : CreatePresignedUpload) (d : List FileRecord)
    → (create_presigned_upload bucket id uuid user_id dto d).1
      ≡ d ++ new_file id uuid user_id dto ∷ []
unfolding create_presigned_upload
create_appends bucket id uuid user_id dto d = ground arith

pub Step-Kept :
    (stored : ObjectKey → Bool) (k : RowId) (f : FileRecord) {d d' : List FileRecord}
    → Step stored d d'
    → find k d ≡ some f
    → (g : FileRecord) × (find k d' ≡ some g) × Kept f g
Step-Kept stored k f {d} {d'} (creates bucket id uuid user_id dto r h) known =
    let appended = create_appends bucket id uuid user_id dto d in
    (
      f,
      ground (arith, h, appended, find-append k f (new_file id uuid user_id dto) d known),
      inl refl,
    )
Step-Kept stored k f {d} {d'} (completes bucket now user_id file_id r shows h) known =
    Marks-Kept bucket now user_id k d d' f
      (Marks-end h (complete_upload-Marks bucket now user_id file_id d)) known
Step-Kept stored k f {d} {d'} (prepares bucket now user_id file_id r shows h) known =
    Marks-Kept bucket now user_id k d d' f
      (Marks-end h (prepare_file_for_entity-Marks bucket now user_id file_id d)) known

Step-IsBacked :
    (stored : ObjectKey → Bool) {d d' : List FileRecord}
    → Step stored d d'
    → IsBacked stored d
    → IsBacked stored d'
Step-IsBacked stored {d} {d'} (creates bucket id uuid user_id dto r h) backed =
    let appended = create_appends bucket id uuid user_id dto d in
    let f = new_file id uuid user_id dto in
    let grown : IsBacked stored (d ++ f ∷ []) =
      append-IsBacked stored f d (unfold new_file in refl) backed in
    ground (arith, h, appended, grown)
Step-IsBacked stored {d} {d'} (completes bucket now user_id file_id r shows h) backed =
    Marks-IsBacked stored bucket now user_id d d' shows
      (Marks-end h (complete_upload-Marks bucket now user_id file_id d)) backed
Step-IsBacked stored {d} {d'} (prepares bucket now user_id file_id r shows h) backed =
    Marks-IsBacked stored bucket now user_id d d' shows
      (Marks-end h (prepare_file_for_entity-Marks bucket now user_id file_id d)) backed

-- Whatever calls of upload, completion and preparation are made, and whether they succeed or not: the
-- object of every ready file was put to the bucket, if that holds at the start and the bucket shows
-- only objects that were put there.
pub Reach-IsBacked :
    (stored : ObjectKey → Bool) {d d' : List FileRecord}
    → Reach stored d d'
    → IsBacked stored d
    → IsBacked stored d'
Reach-IsBacked stored here backed = backed
Reach-IsBacked stored (next run step) backed =
    Step-IsBacked stored step (Reach-IsBacked stored run backed)

-- Under any sequence of uploads, completions and preparations, each of which ends before the next
-- begins, a file is never lost and changes at most once, from pending to ready; its owner, its key and
-- the time of its completion then stay.
pub Reach-Kept :
    (stored : ObjectKey → Bool) (k : RowId) (f : FileRecord) {d d' : List FileRecord}
    → Reach stored d d'
    → find k d ≡ some f
    → (g : FileRecord) × (find k d' ≡ some g) × Kept f g
Reach-Kept stored k f here known = (f, known, inl refl)
Reach-Kept stored k f (next run step) known =
    let (g, found, kept) = Reach-Kept stored k f run known in
    let (h, later, again) = Step-Kept stored k g step found in
    (h, later, Kept-trans f g h kept again)
