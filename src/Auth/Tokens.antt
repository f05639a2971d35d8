-- ===== src/Auth/Tokens.antt =====
-- TokenService (auth/token.service.ts) over its three tables. `Moment` is what a call meets: the
-- clock when it reads and when it writes, what other requests commit in between, and the id and the
-- secret that the generators give. An access token is signed by a library: its payload is the user.
pub mod Single
pub mod Rotation
pub mod OneTime
use rd_shop_backend.Base.{
  ℕ, ◌+◌, Bool, true, false, not, ◌&&◌, Option, none, some, List, [], ◌∷◌, ◌++◌, ltb, ◌==◌,
  if◌then◌else◌, RowId, is_some, any, map, Text, same,
}
use rd_shop_backend.Base.Table.{Entity, find}
use rd_shop_backend.Base.Outcome.{
  Action, Result, ok, err, Error, http, bad_request, unauthorized, internal, HttpStatus, pure,
  throw, gets, modify, throw_if, or_throw, lift, ◌>>=◌, ◌>>◌,
}
use rd_shop_backend.Auth.Permissions.{UserRole, UserScope}
use rd_shop_backend.Auth.Opaque.{Crypto, parse_opaque_token, verify_opaque_token, token_text}

-- A row of the three token tables. `ended_at` is `revokedAt` of a refresh token and `usedAt` of a
-- one-time token; times are in milliseconds.
pub record Token : Type 0 where
  pub id : Text
  pub token_hash : Text
  pub user_id : RowId
  pub expires_at : ℕ
  pub ended_at : Option ℕ

pub record Account : Type 0 where
  pub id : RowId
  pub email : RowId
  pub password : Option RowId
  pub roles : List UserRole
  pub scopes : List UserScope
  pub is_email_verified : Bool
  pub deleted : Bool

instance abbrev pub account_entity : Entity Account
account_entity = record { id_of = λ a. a.id; is_live = λ a. not a.deleted }

pub record AuthDb : Type 0 where
  pub accounts : List Account
  pub refresh : List Token
  pub verification : List Token
  pub reset : List Token

pub record Moment : Type 0 where
  pub now : ℕ
  pub later : ℕ
  pub others : AuthDb → AuthDb
  pub new_id : Text
  pub new_secret : Text

-- `isActive`, `isUsable`
abbrev pub is_usable : ℕ → Token → Bool
is_usable now t = not (is_some t.ended_at) && ltb now t.expires_at

unfoldable pub find_token : Text → List Token → Option Token
find_token id [] = none
find_token id (t ∷ ts) = if same t.id id then some t else find_token id ts

abbrev end_if : Bool → ℕ → Token → Token
end_if test time t = if test then record t { ended_at = some time } else t

-- `UPDATE … SET ended_at = :time WHERE id = :id AND ended_at IS NULL`, and whether it affected a row
unfoldable pub end_token : Text → ℕ → List Token → List Token
end_token id time = map (λ t. end_if (same t.id id && not (is_some t.ended_at)) time t)

unfoldable pub can_end : Text → List Token → Bool
can_end id = any (λ t. same t.id id && not (is_some t.ended_at))

-- The same with `AND expires_at > NOW()`
unfoldable pub end_unexpired : Text → ℕ → List Token → List Token
end_unexpired id time = map (λ t. end_if (same t.id id && is_usable time t) time t)

unfoldable pub can_end_unexpired : Text → ℕ → List Token → Bool
can_end_unexpired id time = any (λ t. same t.id id && is_usable time t)

-- `UPDATE … SET revoked_at = :time WHERE user_id = :userId AND revoked_at IS NULL`
unfoldable pub revoke_all_user_tokens : RowId → ℕ → List Token → List Token
revoke_all_user_tokens user_id time =
    map (λ t. end_if ((t.user_id == user_id) && not (is_some t.ended_at)) time t)

-- `refreshTokenRepository.update(tokenId, { revokedAt })`
unfoldable pub revoke_refresh_token : Text → ℕ → List Token → List Token
revoke_refresh_token id time = map (λ t. end_if (same t.id id) time t)

abbrev pub await : (AuthDb → AuthDb) → Action AuthDb (Unit {0})
await others = modify others

module _ (crypto : Crypto) (hmac_secret : Text) where
  -- From the row on: the three validations differ in their tables and in the status.
  unfoldable pub check_secret : HttpStatus → ℕ → Text → Option Token → Result Token
  check_secret status now raw_secret none = err (http status)
  check_secret status now raw_secret (some t) =
      if not (is_usable now t)
      then err (http status)
      else elim (verify_opaque_token crypto raw_secret t.token_hash hmac_secret) [
        | err e ↦ err e
        | ok valid ↦ if valid then ok t else err (http status)
      ]

  unfoldable pub validate : HttpStatus → ℕ → Text → List Token → Result Token
  unfolding check_secret
  validate status now token tokens = elim (parse_opaque_token crypto token) [
    | none ↦ err (http status)
    | some (id, raw_secret) ↦ check_secret status now raw_secret (find_token id tokens)
  ]

  unfoldable pub validate_refresh_token : ℕ → Text → AuthDb → Result Token
  unfolding validate
  validate_refresh_token now cookie d = validate unauthorized now cookie d.refresh

  unfoldable pub validate_verification_token : ℕ → Text → AuthDb → Result Token
  unfolding validate
  validate_verification_token now token d = validate bad_request now token d.verification

  unfoldable pub validate_password_reset_token : ℕ → Text → AuthDb → Result Token
  unfolding validate
  validate_password_reset_token now token d = validate bad_request now token d.reset

  -- A new row for the moment's secret.
  abbrev pub new_token : Moment → RowId → ℕ → Token
  new_token m user_id ttl = record {
    id = m.new_id;
    token_hash = crypto.hmac hmac_secret m.new_secret;
    user_id = user_id;
    expires_at = m.later + ttl;
    ended_at = none;
  }

  unfoldable pub create_refresh_token : Moment → ℕ → RowId → Action AuthDb Text
  create_refresh_token m ttl user_id = do
    modify (λ d. record d { refresh = d.refresh ++ new_token m user_id ttl ∷ [] })
    pure (token_text m.new_id m.new_secret)

  unfoldable pub issue_refresh_token : Moment → ℕ → RowId → Action AuthDb Text
  unfolding create_refresh_token
  issue_refresh_token m ttl user_id = do
    modify (λ d. record d { refresh = revoke_all_user_tokens user_id m.later d.refresh })
    create_refresh_token m ttl user_id

  unfoldable pub issue_verification_token : Moment → ℕ → RowId → Action AuthDb Text
  issue_verification_token m ttl user_id = do
    modify (λ d. record d { verification = d.verification ++ new_token m user_id ttl ∷ [] })
    pure (token_text m.new_id m.new_secret)

  unfoldable pub issue_password_reset_token : Moment → ℕ → RowId → Action AuthDb Text
  issue_password_reset_token m ttl user_id = do
    modify (λ d. record d { reset = d.reset ++ new_token m user_id ttl ∷ [] })
    pure (token_text m.new_id m.new_secret)

  -- The relation `user` is loaded with the token; signing for a user that is gone is a TypeError,
  -- while the new refresh token is stored all the same.
  unfoldable pub rotate_refresh_token : Moment → ℕ → Text → Action AuthDb (Account × Text)
  rotate_refresh_token m ttl cookie = do
    stored ← lift (← gets (validate_refresh_token m.now cookie))
    user ← gets (λ d. find stored.user_id d.accounts)
    await m.others
    affected ← gets (λ d. can_end stored.id d.refresh)
    modify (λ d. record d { refresh = end_token stored.id m.later d.refresh })
    throw_if (not affected) (http unauthorized)
    new_cookie ← create_refresh_token m ttl stored.user_id
    account ← or_throw user internal
    pure (account, new_cookie)

  unfoldable pub consume_verification_token : Moment → Text → Action AuthDb RowId
  consume_verification_token m token = do
    stored ← lift (← gets (validate_verification_token m.now token))
    await m.others
    affected ← gets (λ d. can_end_unexpired stored.id m.later d.verification)
    modify (λ d. record d { verification = end_unexpired stored.id m.later d.verification })
    throw_if (not affected) (http bad_request)
    pure stored.user_id

  unfoldable pub consume_password_reset_token : Moment → Text → Action AuthDb RowId
  consume_password_reset_token m token = do
    stored ← lift (← gets (validate_password_reset_token m.now token))
    await m.others
    affected ← gets (λ d. can_end stored.id d.reset)
    modify (λ d. record d { reset = end_token stored.id m.later d.reset })
    throw_if (not affected) (http bad_request)
    pure stored.user_id
