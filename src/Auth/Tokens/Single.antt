-- ===== src/Auth/Tokens/Single.antt =====
-- A token is good for one use, also under a race.
use rd_shop_backend.Base.{
  ℕ, ◌<◌, ◌≡◌, refl, inl, inr, true, false, ◌||◌, Option, none, some, List, [], ◌∷◌, ◌++◌, arith,
  is_some, Text, same_sound, Option-cases,
}
use rd_shop_backend.Base.Outcome.{ok, HttpStatus}
use rd_shop_backend.Auth.Opaque.{Crypto, parse_opaque_token, verify_opaque_token}
use rd_shop_backend.Auth.Tokens.{
  Token, account_entity, find_token, end_token, can_end, check_secret, validate,
}

-- Once its rows are ended, a token can neither be ended again nor validated.
pub can_end-end_token :
    (id : Text) (time : ℕ) (ts : List Token) → can_end id (end_token id time ts) ≡ false
unfolding can_end end_token
can_end-end_token id time [] = refl
can_end-end_token id time (t ∷ ts) = ground (arith, can_end-end_token id time ts)

-- Without a row that can be ended, the row that the id finds has ended.
pub find_token-ended :
    (id : Text) (t : Token) (ts : List Token)
    → can_end id ts ≡ false
    → find_token id ts ≡ some t
    → is_some t.ended_at ≡ true
unfolding can_end find_token
find_token-ended id t [] h f = cc
find_token-ended id t (x ∷ ts) h f = ground (arith, find_token-ended id t ts)

find_token-end_some :
    (id : Text) (time : ℕ) (ts : List Token)
    → can_end id ts ≡ true
    → is_some (find_token id (end_token id time ts)) ≡ true
unfolding can_end end_token find_token
find_token-end_some id time [] h = cc
find_token-end_some id time (t ∷ ts) h = ground (arith, find_token-end_some id time ts)

-- Ending keeps the ids: the row that the id finds is there, and has ended.
pub find_token-end_token :
    (id : Text) (time : ℕ) (ts : List Token)
    → can_end id ts ≡ true
    → (t : Token) × (find_token id (end_token id time ts) ≡ some t) × (is_some t.ended_at ≡ true)
find_token-end_token id time ts h = elim (Option-cases (find_token id (end_token id time ts))) [
  | inl e ↦ absurd (ground (arith, find_token-end_some id time ts h))
  | inr (t, e) ↦
      (t, e, find_token-ended id t (end_token id time ts) (can_end-end_token id time ts) e)
]

-- Where no row can be ended nothing is written.
pub end_token_unaffected :
    (id : Text) (time : ℕ) (ts : List Token) → can_end id ts ≡ false → end_token id time ts ≡ ts
unfolding can_end end_token
end_token_unaffected id time [] h = refl
end_token_unaffected id time (t ∷ ts) h = ground (arith, end_token_unaffected id time ts)

pub find_token-append :
    (id : Text) (t : Token) (xs ys : List Token)
    → find_token id xs ≡ some t
    → find_token id (xs ++ ys) ≡ some t
unfolding find_token
find_token-append id t [] ys h = cc
find_token-append id t (x ∷ xs) ys h = ground (arith, find_token-append id t xs ys)

pub can_end-append :
    (id : Text) (xs ys : List Token) → can_end id (xs ++ ys) ≡ (can_end id xs || can_end id ys)
unfolding can_end
can_end-append id [] ys = refl
can_end-append id (x ∷ xs) ys = ground (arith, can_end-append id xs ys)

pub check_secret_lem :
    (crypto : Crypto) (key raw_secret : Text) (status : HttpStatus) (now : ℕ) (t : Token)
    (o : Option Token)
    → check_secret crypto key status now raw_secret o ≡ ok t
    → (o ≡ some t)
      × (t.ended_at ≡ none)
      × (now < t.expires_at)
      × (verify_opaque_token crypto raw_secret t.token_hash key ≡ ok true)
unfolding check_secret
check_secret_lem crypto key raw_secret status now t o h = ground arith

-- What a validation that succeeds says of the token: the row of its id, not ended, not expired, and
-- with a hash that its secret passes.
pub validate_lem :
    (crypto : Crypto) (key token : Text) (status : HttpStatus) (now : ℕ) (t : Token)
    (ts : List Token)
    → validate crypto key status now token ts ≡ ok t
    → (id : Text) × (raw_secret : Text) × (parse_opaque_token crypto token ≡ some (id, raw_secret))
      × (find_token id ts ≡ some t)
      × (t.ended_at ≡ none)
      × (now < t.expires_at)
      × (verify_opaque_token crypto raw_secret t.token_hash key ≡ ok true)
unfolding validate
validate_lem crypto key token status now t ts h =
    elim (Option-cases (parse_opaque_token crypto token)) [
      | inl e ↦ absurd (ground arith)
      | inr ((id, raw_secret), e) ↦
          let (found, fresh, early, passed) =
            check_secret_lem crypto key raw_secret status now t (find_token id ts) (ground arith) in
          (id, raw_secret, e, found, fresh, early, passed)
    ]

find_token-none : (id : Text) (ts : List Token) → find_token id ts ≡ none → can_end id ts ≡ false
unfolding find_token can_end
find_token-none id [] h = refl
find_token-none id (t ∷ ts) h = ground (arith, find_token-none id ts)

-- A row with an unused id is not the one of a token that can be ended.
pub can_end-append_new :
    (id : Text) (new : Token) (time : ℕ) (ts : List Token)
    → can_end id ts ≡ true
    → find_token new.id ts ≡ none
    → can_end id (end_token id time ts ++ new ∷ []) ≡ false
unfolding can_end
can_end-append_new id new time ts h unused = ground (
  arith,
  can_end-append id (end_token id time ts) (new ∷ []),
  can_end-end_token id time ts,
  find_token-none new.id ts unused,
  same_sound new.id id,
)

pub find_token_id :
    (id : Text) (t : Token) (ts : List Token) → find_token id ts ≡ some t → t.id ≡ id
unfolding find_token
find_token_id id t [] h = cc
find_token_id id t (x ∷ ts) h = ground (arith, find_token_id id t ts, same_sound x.id id)
