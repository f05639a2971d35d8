-- ===== src/Auth/Tokens/Rotation.antt =====
-- Refresh tokens: a cookie is exchanged at most once, a sign-in leaves one session, and a cookie that
-- was issued is accepted.
use rd_shop_backend.Base.{
  ℕ, ◌+◌, ◌≤◌, ◌<◌, ◌≡◌, refl, ◌≢◌, ◌⊎◌, true, ◌&&◌, none, some, List, [], ◌∷◌, ◌++◌, arith, ◌==◌,
  if◌then◌else◌, RowId, length, Text, same_refl,
}
use mathlib.Core.List.{append-nil}
use rd_shop_backend.Base.Table.{find}
use rd_shop_backend.Base.Outcome.{Result, ok, err, http, unauthorized}
use rd_shop_backend.Auth.Opaque.{
  Crypto, token_text, uuid_length, min_raw_secret_length, hmac_hex_length,
  parse_opaque_token-token_text, verify_opaque_token_self,
}
use rd_shop_backend.Auth.Tokens.{
  Token, Account, account_entity, AuthDb, Moment, is_usable, find_token, end_token, can_end,
  check_secret, validate, validate_refresh_token, create_refresh_token, issue_refresh_token,
  rotate_refresh_token, new_token, revoke_all_user_tokens,
}
use rd_shop_backend.Auth.Tokens.Single.{
  find_token-end_token, end_token_unaffected, find_token-append, can_end-append_new, find_token_id,
  validate_lem,
}

-- What a rotation that succeeds has done.
pub record Rotated (crypto : Crypto) (key : Text) (m : Moment) (ttl : ℕ) (cookie : Text)
    (r : Account × Text) (d d' : AuthDb) : Type 0 where
  pub stored : Token
  pub valid : validate_refresh_token crypto key m.now cookie d ≡ ok stored
  pub owner : find stored.user_id d.accounts ≡ some r.0
  pub affected : can_end stored.id (m.others d).refresh ≡ true
  pub issued : r.1 ≡ token_text m.new_id m.new_secret
  pub written : d' ≡ record (m.others d) {
    refresh =
        end_token stored.id m.later (m.others d).refresh
        ++ new_token crypto key m stored.user_id ttl ∷ [];
  }

-- A rotation succeeds only with a cookie that is valid when it is read, and whose token nobody has
-- revoked by the time of the write; it then revokes that token and stores one new token of the same
-- user, whose cookie it returns with the user.
rotate_refresh_token-Rotated :
    (crypto : Crypto) (key : Text) (m : Moment) (ttl : ℕ) (cookie : Text) (r : Account × Text)
    (d d' : AuthDb)
    → rotate_refresh_token crypto key m ttl cookie d ≡ (ok r, d')
    → Rotated crypto key m ttl cookie r d d'
unfolding rotate_refresh_token create_refresh_token
rotate_refresh_token-Rotated crypto key m ttl cookie r d d' h =
    by_valid (validate_refresh_token crypto key m.now cookie d) refl
  where
    by_valid :
        (v : Result Token)
        → validate_refresh_token crypto key m.now cookie d ≡ v
        → Rotated crypto key m ttl cookie r d d'
    by_valid (err e) v = absurd (ground arith)
    by_valid (ok stored) v = record {
      stored = stored;
      valid = v;
      owner = ground arith;
      affected = ground arith;
      issued = ground arith;
      written = ground arith;
    }

-- Two requests with one cookie, the second of which reads it, at whatever time, before the first has
-- committed and writes after: if the first succeeds, the second fails with 401 and writes nothing, at
-- once, if the token has expired when it reads it, or after the first has committed. (The generator's
-- id for the first is unused.)
pub rotate_refresh_token_race :
    (crypto : Crypto) (key : Text) (m m' : Moment) (ttl : ℕ) (cookie : Text) (r : Account × Text)
    (d d' : AuthDb)
    → rotate_refresh_token crypto key m ttl cookie d ≡ (ok r, d')
    → find_token m.new_id (m.others d).refresh ≡ none
    → m'.others d ≡ d'
    → let (r', after) = rotate_refresh_token crypto key m' ttl cookie d in
      (r' ≡ err (http unauthorized)) × ((after ≡ d) ⊎ (after ≡ d'))
unfolding rotate_refresh_token validate_refresh_token validate check_secret
rotate_refresh_token_race crypto key m m' ttl cookie r d d' h unused waits =
    let c = rotate_refresh_token-Rotated crypto key m ttl cookie r d d' h in
    let new = new_token crypto key m c.stored.user_id ttl in
    let (id, raw_secret, parsed, found, fresh, early, passed) =
      validate_lem crypto key cookie unauthorized m.now c.stored d.refresh c.valid in
    ground (
      arith,
      parsed,
      found,
      passed,
      c.written,
      can_end-append_new c.stored.id new m.later (m.others d).refresh c.affected unused,
      end_token_unaffected c.stored.id m'.later d'.refresh,
    )

-- Used again later, the cookie is refused with 401 at once.
pub rotate_refresh_token_again :
    (crypto : Crypto) (key : Text) (m m' : Moment) (ttl : ℕ) (cookie : Text) (r : Account × Text)
    (d d' : AuthDb)
    → rotate_refresh_token crypto key m ttl cookie d ≡ (ok r, d')
    → rotate_refresh_token crypto key m' ttl cookie d' ≡ (err (http unauthorized), d')
unfolding rotate_refresh_token validate_refresh_token validate check_secret
rotate_refresh_token_again crypto key m m' ttl cookie r d d' h =
    let c = rotate_refresh_token-Rotated crypto key m ttl cookie r d d' h in
    let (id, raw_secret, parsed, found, fresh, early, passed) =
      validate_lem crypto key cookie unauthorized m.now c.stored d.refresh c.valid in
    let same_id = find_token_id id c.stored d.refresh found in
    let (t, ended, over) =
      find_token-end_token c.stored.id m.later (m.others d).refresh c.affected in
    ground (
      arith,
      parsed,
      c.written,
      same_id,
      over,
      find_token-append c.stored.id t (end_token c.stored.id m.later (m.others d).refresh)
          (new_token crypto key m c.stored.user_id ttl ∷ []) ended,
    )

-- The tokens of a user with which a session can go on at a given time.
unfoldable pub sessions : RowId → ℕ → List Token → List Token
sessions user_id time [] = []
sessions user_id time (t ∷ ts) =
    let rest = sessions user_id time ts in
    if (t.user_id == user_id) && is_usable time t then t ∷ rest else rest

sessions-append :
    (u : RowId) (time : ℕ) (xs ys : List Token)
    → sessions u time (xs ++ ys) ≡ sessions u time xs ++ sessions u time ys
unfolding sessions
sessions-append u time [] ys = refl
sessions-append u time (t ∷ xs) ys = ground (arith, sessions-append u time xs ys)

pub sessions-revoke_all :
    (u v : RowId) (when time : ℕ) (ts : List Token)
    → sessions v time (revoke_all_user_tokens u when ts)
      ≡ (if u == v then [] else sessions v time ts)
unfolding sessions revoke_all_user_tokens
sessions-revoke_all u v when time [] = ground arith
sessions-revoke_all u v when time (t ∷ ts) = ground (arith, sessions-revoke_all u v when time ts)

-- After a refresh token is issued, and until it expires, its user has one session, the new one; the
-- sessions of every other user are as they were.
pub issue_refresh_token-sessions :
    (crypto : Crypto) (key : Text) (m : Moment) (ttl : ℕ) (u v : RowId) (time : ℕ) (d : AuthDb)
    → time < m.later + ttl
    → u ≢ v
    → let d' = (issue_refresh_token crypto key m ttl u d).1 in
      (sessions u time d'.refresh ≡ new_token crypto key m u ttl ∷ [])
      × (sessions v time d'.refresh ≡ sessions v time d.refresh)
unfolding issue_refresh_token sessions
issue_refresh_token-sessions crypto key m ttl u v time d early ne =
    let new = new_token crypto key m u ttl ∷ [] in
    let kept = revoke_all_user_tokens u m.later d.refresh in
    (
      ground
          (arith, sessions-append u time kept new, sessions-revoke_all u u m.later time d.refresh),
      ground (
        arith,
        sessions-append v time kept new,
        sessions-revoke_all u v m.later time d.refresh,
        append-nil (sessions v time d.refresh),
      ),
    )

find_token-revoke_all :
    (id : Text) (u : RowId) (time : ℕ) (ts : List Token)
    → find_token id ts ≡ none
    → find_token id (revoke_all_user_tokens u time ts) ≡ none
unfolding find_token revoke_all_user_tokens
find_token-revoke_all id u time [] h = refl
find_token-revoke_all id u time (t ∷ ts) h = ground (arith, find_token-revoke_all id u time ts)

find_token-last :
    (t : Token) (ts : List Token)
    → find_token t.id ts ≡ none
    → find_token t.id (ts ++ t ∷ []) ≡ some t
unfolding find_token
find_token-last t [] h = ground (arith, same_refl t.id)
find_token-last t (x ∷ ts) h = ground (arith, find_token-last t ts)

-- The cookie of a sign-in is accepted until it expires, as the token that was stored. (The generators
-- give an unused UUID of 36 characters and a secret that is long enough; an HMAC has 64 characters.)
validate-issue_refresh_token :
    (crypto : Crypto) (key cookie : Text) (m : Moment) (ttl : ℕ) (u : RowId) (now : ℕ)
    (d d' : AuthDb)
    → issue_refresh_token crypto key m ttl u d ≡ (ok cookie, d')
    → length m.new_id ≡ uuid_length
    → crypto.is_uuid m.new_id ≡ true
    → min_raw_secret_length ≤ length m.new_secret
    → length (crypto.hmac key m.new_secret) ≡ hmac_hex_length
    → find_token m.new_id d.refresh ≡ none
    → now < m.later + ttl
    → validate_refresh_token crypto key now cookie d' ≡ ok (new_token crypto key m u ttl)
unfolding issue_refresh_token validate_refresh_token validate check_secret
validate-issue_refresh_token crypto key cookie m ttl u now d d' h size uuid long hash unused early =
    ground (
      arith,
      parse_opaque_token-token_text crypto m.new_id m.new_secret size uuid long,
      verify_opaque_token_self crypto m.new_secret key hash,
      find_token-last (new_token crypto key m u ttl) (revoke_all_user_tokens u m.later d.refresh),
      find_token-revoke_all m.new_id u m.later d.refresh unused,
    )
