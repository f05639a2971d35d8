-- ===== src/Auth/Opaque.antt =====
-- Opaque tokens (auth/utils/index.ts). A token is the text `${id}:${rawSecret}`; the database keeps
-- the id and an HMAC of the secret. `isUUID`, the HMAC, and Node's decoding of hexadecimal text are
-- not of this repository: they are the fields of `Crypto`.
use rd_shop_backend.Base.{
  ℕ, zero, suc, ◌+◌, ◌≤◌, ◌≡◌, refl, Bool, true, false, not, Option, none, some, List, [], ◌∷◌,
  ◌++◌, arith, ltb, leb, ◌==◌, if◌then◌else◌, length, take, drop, Text, same, same_refl, get_elem?,
  length-append, Option-cases, inl, inr,
}
use rd_shop_backend.Base.Outcome.{Result, ok, err, internal}

pub record Crypto : Type 0 where
  pub is_uuid : Text → Bool
  pub hmac : Text → Text → Text
  pub from_hex : Text → List ℕ

abbrev pub min_raw_secret_length : ℕ
min_raw_secret_length = 64

abbrev pub uuid_length : ℕ
uuid_length = 36

abbrev pub hmac_hex_length : ℕ
hmac_hex_length = 64

-- ':'
abbrev pub delimiter : ℕ
delimiter = 58

abbrev is_delimiter : Option ℕ → Bool
is_delimiter none = false
is_delimiter (some c) = c == delimiter

-- `${id}:${rawSecret}`
abbrev pub token_text : Text → Text → Text
token_text id raw_secret = id ++ delimiter ∷ raw_secret

module _ (crypto : Crypto) where
  unfoldable pub parse_opaque_token : Text → Option (Text × Text)
  parse_opaque_token token =
      if leb (length token) uuid_length
      then none
      else if not (is_delimiter (get_elem? token uuid_length))
      then none
      else if not (crypto.is_uuid (take uuid_length token))
      then none
      else if ltb (length (drop (uuid_length + 1) token)) min_raw_secret_length
      then none
      else some (take uuid_length token, drop (uuid_length + 1) token)

  -- `timingSafeEqual` throws where the buffers differ in length.
  unfoldable pub verify_opaque_token : Text → Text → Text → Result Bool
  verify_opaque_token raw_secret stored_hash hmac_secret =
      let candidate = crypto.from_hex (crypto.hmac hmac_secret raw_secret) in
      let stored = crypto.from_hex stored_hash in
      if not (length stored_hash == hmac_hex_length)
      then ok false
      else if not (length candidate == length stored)
      then err internal
      else ok (same candidate stored)

take-append : (s t : Text) (n : ℕ) → length s ≡ n → take n (s ++ t) ≡ s
take-append [] t zero h = refl
take-append [] t (suc n) h = absurd (omega arith)
take-append (a ∷ s) t zero h = absurd (omega arith)
take-append (a ∷ s) t (suc n) h = ground (arith, take-append s t n)

drop-append_cons : (s t : Text) (c n : ℕ) → length s ≡ n → drop (suc n) (s ++ c ∷ t) ≡ t
drop-append_cons [] t c zero h = refl
drop-append_cons [] t c (suc n) h = absurd (omega arith)
drop-append_cons (a ∷ s) t c zero h = absurd (omega arith)
drop-append_cons (a ∷ s) t c (suc n) h = drop-append_cons s t c n (omega arith)

get_elem?-append_cons : (s t : Text) (c n : ℕ) → length s ≡ n → get_elem? (s ++ c ∷ t) n ≡ some c
get_elem?-append_cons [] t c zero h = refl
get_elem?-append_cons [] t c (suc n) h = absurd (omega arith)
get_elem?-append_cons (a ∷ s) t c zero h = absurd (omega arith)
get_elem?-append_cons (a ∷ s) t c (suc n) h = get_elem?-append_cons s t c n (omega arith)

-- A token text gives its id and its secret back, if the id is a UUID of 36 characters and the secret
-- is long enough.
pub parse_opaque_token-token_text :
    (crypto : Crypto) (id raw_secret : Text)
    → length id ≡ uuid_length
    → crypto.is_uuid id ≡ true
    → min_raw_secret_length ≤ length raw_secret
    → parse_opaque_token crypto (token_text id raw_secret) ≡ some (id, raw_secret)
unfolding parse_opaque_token
parse_opaque_token-token_text crypto id raw_secret size uuid long = ground (
  arith,
  take-append id (delimiter ∷ raw_secret) uuid_length size,
  drop-append_cons id raw_secret delimiter uuid_length size,
  get_elem?-append_cons id raw_secret delimiter uuid_length size,
  length-append id (delimiter ∷ raw_secret),
)

take-get-drop : (t : Text) (c n : ℕ) → get_elem? t n ≡ some c → take n t ++ c ∷ drop (suc n) t ≡ t
take-get-drop [] c n h = cc
take-get-drop (a ∷ t) c zero h = ground arith
take-get-drop (a ∷ t) c (suc n) h = ground (arith, take-get-drop t c n h)

-- Only such texts are accepted: what is parsed is the text of its two parts.
pub parse_opaque_token_sound :
    (crypto : Crypto) (token id raw_secret : Text)
    → parse_opaque_token crypto token ≡ some (id, raw_secret)
    → (token ≡ token_text id raw_secret)
      × (crypto.is_uuid id ≡ true)
      × (min_raw_secret_length ≤ length raw_secret)
unfolding parse_opaque_token
parse_opaque_token_sound crypto token id raw_secret h =
    elim (Option-cases (get_elem? token uuid_length)) [
      | inl e ↦ absurd (ground arith)
      | inr (c, e) ↦ ground (arith, take-get-drop token c uuid_length e)
    ]

-- The secret that a hash was made from is accepted under the same key.
pub verify_opaque_token_self :
    (crypto : Crypto) (raw_secret hmac_secret : Text)
    → length (crypto.hmac hmac_secret raw_secret) ≡ hmac_hex_length
    → verify_opaque_token crypto raw_secret (crypto.hmac hmac_secret raw_secret) hmac_secret
      ≡ ok true
unfolding verify_opaque_token
verify_opaque_token_self crypto raw_secret hmac_secret size =
    ground (arith, same_refl (crypto.from_hex (crypto.hmac hmac_secret raw_secret)))
