-- ===== src/Files/Marks.antt =====
-- What the calls that complete an upload write.
use rd_shop_backend.Base.{
  ℕ, Bool, true, false, ◌≡◌, ◌⊎◌, ◌∙◌, refl, some, List, arith, ◌==◌, RowId, Option-cases,
  Bool-cases, inl, inr,
}
use rd_shop_backend.Base.Table.{find, find_fields, save}
use rd_shop_backend.Files.{
  FileRecord, file_record_entity, FileStatus, file_pending, file_ready, Bucket, Head, present,
  missing, failed, ready_at, mark_ready, check_file_exists, check_is_owner,
  find_file_record_or_fail, get_file_record_data, complete_upload, prepare_file_for_entity,
}

abbrev pub is_present : Head → Bool
is_present present = true
is_present missing = false
is_present failed = false

abbrev pub is_pending : FileStatus → Bool
is_pending file_pending = true
is_pending file_ready = false

-- What a call does to the table: nothing, or it marks a pending row of the user whose object the bucket
-- has shown.
pub data Marks (bucket : Bucket) (now : ℕ) (user_id : RowId) (d : List FileRecord)
    : List FileRecord → Type 0 where
  unmarked : {d' : List FileRecord} → d' ≡ d → Marks bucket now user_id d d'
  marked :
      {d' : List FileRecord} (f : FileRecord)
      → find f.id d ≡ some f
      → f.owner_id ≡ user_id
      → f.status ≡ file_pending
      → is_present (bucket.head f.key) ≡ true
      → d' ≡ save (ready_at now f) d
      → Marks bucket now user_id d d'

pub Status-cases : (s : FileStatus) → (s ≡ file_ready) ⊎ (s ≡ file_pending)
Status-cases file_ready = inl refl
Status-cases file_pending = inr refl

mark_ready-Marks :
    (bucket : Bucket) (now : ℕ) (user_id : RowId) (f : FileRecord) (d : List FileRecord)
    → find f.id d ≡ some f
    → f.owner_id ≡ user_id
    → Marks bucket now user_id d (mark_ready bucket now f d).1
unfolding mark_ready check_file_exists
mark_ready-Marks bucket now user_id f d known own = by_head (bucket.head f.key) f.status refl refl
  where
    by_head :
        (h : Head) (s : FileStatus)
        → bucket.head f.key ≡ h
        → f.status ≡ s
        → Marks bucket now user_id d (mark_ready bucket now f d).1
    by_head missing s e g = unmarked (ground (arith, e))
    by_head failed s e g = unmarked (ground (arith, e))
    by_head present file_ready e g = unmarked (ground (arith, e, g))
    by_head present file_pending e g =
        marked f known own g (ground (arith, e)) (ground (arith, e, g))

pub Marks-result :
    (bucket : Bucket) (now : ℕ) (user_id : RowId) (d d' d'' : List FileRecord)
    → d'' ≡ d'
    → Marks bucket now user_id d d'
    → Marks bucket now user_id d d''
Marks-result bucket now user_id d d' d'' e (unmarked h) = unmarked (e ∙ h)
Marks-result bucket now user_id d d' d'' e (marked f known own pending shown h) =
    marked f known own pending shown (e ∙ h)

-- The row that a call finds, and the table that its check leaves.
MarkedBy : Bucket → ℕ → RowId → RowId → List FileRecord → List FileRecord → Type 0
MarkedBy bucket now user_id file_id d d' =
    (d' ≡ d)
    ⊎ ((f : FileRecord) × (find file_id d ≡ some f)
        × (f.owner_id ≡ user_id)
        × (d' ≡ (mark_ready bucket now f d).1))

MarkedBy-Marks :
    (bucket : Bucket) (now : ℕ) (user_id file_id : RowId) (d d' : List FileRecord)
    → MarkedBy bucket now user_id file_id d d'
    → Marks bucket now user_id d d'
unfolding MarkedBy
MarkedBy-Marks bucket now user_id file_id d d' (inl h) = unmarked h
MarkedBy-Marks bucket now user_id file_id d d' (inr (f, known, own, h)) =
    let named = find_fields file_id f d known in
    Marks-result bucket now user_id d (mark_ready bucket now f d).1 d' h
      (mark_ready-Marks bucket now user_id f d (ground (arith, known, named)) own)

pub complete_upload-Marks :
    (bucket : Bucket) (now : ℕ) (user_id file_id : RowId) (d : List FileRecord)
    → Marks bucket now user_id d (complete_upload bucket now user_id file_id d).1
unfolding complete_upload find_file_record_or_fail check_is_owner get_file_record_data MarkedBy
complete_upload-Marks bucket now user_id file_id d =
    MarkedBy-Marks bucket now user_id file_id d (complete_upload bucket now user_id file_id d).1
      (elim (Option-cases (find file_id d)) [
        | inl e ↦ inl (ground arith)
        | inr (f, e) ↦ elim (Bool-cases (f.owner_id == user_id)) [
          | inr g ↦ inl (ground arith)
          | inl g ↦ elim (Status-cases f.status) [
            | inl h ↦ inl (ground arith)
            | inr h ↦ inr (f, e, ground arith, ground arith)
          ]
        ]
      ])

pub prepare_file_for_entity-Marks :
    (bucket : Bucket) (now : ℕ) (user_id file_id : RowId) (d : List FileRecord)
    → Marks bucket now user_id d (prepare_file_for_entity bucket now user_id file_id d).1
unfolding prepare_file_for_entity find_file_record_or_fail check_is_owner MarkedBy
prepare_file_for_entity-Marks bucket now user_id file_id d =
    MarkedBy-Marks bucket now user_id file_id d
      (prepare_file_for_entity bucket now user_id file_id d).1
      (elim (Option-cases (find file_id d)) [
        | inl e ↦ inl (ground arith)
        | inr (f, e) ↦ elim (Bool-cases (f.owner_id == user_id)) [
          | inr g ↦ inl (ground arith)
          | inl g ↦ inr (f, e, ground arith, ground arith)
        ]
      ])
