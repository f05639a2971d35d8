-- ===== src/Cursors.antt =====
-- Cursors of keyset paging (common/utils/cursor.ts). A cursor is the text `${id}|${sortValue}`.
-- `isUUID`, `Number`, and the texts of an id and of a number are fields of `CursorText`: they are not
-- of this repository.
pub mod Keyset
pub mod Paging
pub mod Collecting
pub mod Sorting
pub mod Tests
use rd_shop_backend.Base.{
  ℕ, zero, suc, ◌≡◌, refl, ◌≢◌, Bool, true, false, not, ◌||◌, Option, none, some, List, [], ◌∷◌,
  ◌++◌, arith, ◌==◌, if◌then◌else◌, take, drop, Text, RowId, contains,
}
use rd_shop_backend.Base.Outcome.{Result, ok, err, http, bad_request}

-- `number_of` is `Number` where it gives a finite number (a time before 1970 or within a
-- millisecond is left out), `number_text` is `String`. `id_text` is the text of an id, `id_of` the
-- id that the database reads from a text.
pub record CursorText : Type 0 where
  pub is_uuid : Text → Bool
  pub number_of : Text → Option ℕ
  pub number_text : ℕ → Text
  pub id_text : RowId → Text
  pub id_of : Text → RowId

-- '|'
abbrev pub cursor_separator : ℕ
cursor_separator = 124

unfoldable pub encode_cursor : Text → Text → Text
encode_cursor id sort_value = id ++ cursor_separator ∷ sort_value

-- `cursor.indexOf(c)`, none for -1
unfoldable pub index_of : ℕ → Text → Option ℕ
index_of c [] = none
index_of c (a ∷ t) =
    if a == c then some 0 else elim (index_of c t) [ none ↦ none | some i ↦ some (suc i) ]

abbrev is_empty : Text → Bool
is_empty [] = true
is_empty (a ∷ t) = false

unfoldable pub decode_cursor : (Text → Bool) → Text → Result (Text × Text)
unfolding index_of
decode_cursor is_uuid cursor = elim (index_of cursor_separator cursor) [
  | none ↦ err (http bad_request)
  | some i ↦
      let id = take i cursor in
      let sort_value = drop (suc i) cursor in
      if is_empty id || is_empty sort_value || not (is_uuid id)
      then err (http bad_request)
      else ok (id, sort_value)
]

-- The date in milliseconds, and the id.
unfoldable pub decode_epoch_cursor : CursorText → Text → Result (ℕ × Text)
unfolding decode_cursor
decode_epoch_cursor texts cursor = elim (decode_cursor texts.is_uuid cursor) [
  | err e ↦ err e
  | ok (id, sort_value) ↦ elim (texts.number_of sort_value) [
    | none ↦ err (http bad_request)
    | some epoch ↦ ok (epoch, id)
  ]
]

split-encode_cursor :
    (id sort_value : Text)
    → contains cursor_separator id ≡ false
    → (i : ℕ) × (index_of cursor_separator (encode_cursor id sort_value) ≡ some i)
      × (take i (encode_cursor id sort_value) ≡ id)
      × (drop (suc i) (encode_cursor id sort_value) ≡ sort_value)
unfolding index_of encode_cursor
split-encode_cursor [] sort_value free = (0, ground arith, refl, refl)
split-encode_cursor (a ∷ id) sort_value free =
    let (i, found, before, after) = split-encode_cursor id sort_value (ground arith) in
    (suc i, ground arith, ground arith, after)

pub encode_cursor-nonempty : (s t : Text) → encode_cursor s t ≢ []
unfolding encode_cursor
encode_cursor-nonempty [] t h = cc
encode_cursor-nonempty (a ∷ s) t h = cc

-- A cursor gives its id and its sort value back, also where the sort value contains the separator,
-- if the id is a UUID without the separator and neither of the two is empty.
pub decode_cursor-encode_cursor :
    (is_uuid : Text → Bool) (id sort_value : Text)
    → contains cursor_separator id ≡ false
    → is_uuid id ≡ true
    → id ≢ []
    → sort_value ≢ []
    → decode_cursor is_uuid (encode_cursor id sort_value) ≡ ok (id, sort_value)
unfolding decode_cursor
decode_cursor-encode_cursor is_uuid [] sort_value free uuid some_id some_value =
    absurd (some_id refl)
decode_cursor-encode_cursor is_uuid (a ∷ id) [] free uuid some_id some_value =
    absurd (some_value refl)
decode_cursor-encode_cursor is_uuid (a ∷ id) (b ∷ sort_value) free uuid some_id some_value =
    let (i, found, before, after) = split-encode_cursor (a ∷ id) (b ∷ sort_value) free in
    ground (arith, found, before, after)

-- What JavaScript and the database promise of the texts: an id is a UUID, which has no separator, and
-- is read back; a number has some digits and is read back.
pub record Readable (texts : CursorText) : Type 0 where
  pub uuid : (k : RowId) → texts.is_uuid (texts.id_text k) ≡ true
  pub free : (k : RowId) → contains cursor_separator (texts.id_text k) ≡ false
  pub some_id : (k : RowId) → texts.id_text k ≢ []
  pub id_back : (k : RowId) → texts.id_of (texts.id_text k) ≡ k
  pub some_digit : (n : ℕ) → texts.number_text n ≢ []
  pub number_back : (n : ℕ) → texts.number_of (texts.number_text n) ≡ some n

pub decode_epoch_cursor-encode_cursor :
    (texts : CursorText) (k : RowId) (n : ℕ)
    → Readable texts
    → decode_epoch_cursor texts (encode_cursor (texts.id_text k) (texts.number_text n))
      ≡ ok (n, texts.id_text k)
unfolding decode_epoch_cursor
decode_epoch_cursor-encode_cursor texts k n r =
    let decoded =
      decode_cursor-encode_cursor texts.is_uuid (texts.id_text k) (texts.number_text n) (r.free k)
        (r.uuid k) (r.some_id k) (r.some_digit n) in
    ground (arith, decoded, r.number_back n)
