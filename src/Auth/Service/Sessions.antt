-- ===== src/Auth/Service/Sessions.antt =====
-- The sessions of a user through sign-in, logout and the reset of a password.
use rd_shop_backend.Base.{
  ℕ, suc, ◌+◌, ◌<◌, ◌≡◌, refl, inl, inr, true, Option, none, some, List, [], ◌∷◌, arith, ◌==◌,
  if◌then◌else◌, RowId, truthy, is_some, Text, Option-cases, Bool-cases,
}
use rd_shop_backend.Base.Table.{find}
use rd_shop_backend.Base.Outcome.{Error, Result, ok, err, http, unauthorized}
use rd_shop_backend.Auth.Opaque.{Crypto, parse_opaque_token, token_text}
use rd_shop_backend.Auth.Tokens.{
  Token, Account, account_entity, AuthDb, Moment, find_token, revoke_refresh_token, check_secret,
  validate, validate_refresh_token, validate_password_reset_token, rotate_refresh_token,
  issue_refresh_token, create_refresh_token, consume_password_reset_token, new_token,
}
use rd_shop_backend.Auth.Tokens.Rotation.{
  sessions, issue_refresh_token-sessions, sessions-revoke_all,
}
use rd_shop_backend.Auth.Service.{
  AuthConfig, Visit, Site, find_by_email, update_account, logout, refresh, reset_password,
  build_auth_result, check_password, signin,
}

find_token-revoke :
    (id : Text) (time : ℕ) (t : Token) (ts : List Token)
    → find_token id (revoke_refresh_token id time ts) ≡ some t
    → is_some t.ended_at ≡ true
unfolding find_token revoke_refresh_token
find_token-revoke id time t [] h = cc
find_token-revoke id time t (x ∷ ts) h = ground (arith, find_token-revoke id time t ts)

check_secret_revoked :
    (crypto : Crypto) (key raw_secret id : Text) (now time : ℕ) (ts : List Token)
    → check_secret crypto key unauthorized now raw_secret
        (find_token id (revoke_refresh_token id time ts))
      ≡ err (http unauthorized)
unfolding check_secret
check_secret_revoked crypto key raw_secret id now time ts =
    elim (Option-cases (find_token id (revoke_refresh_token id time ts))) [
      | inl e ↦ rw e
      | inr (t, e) ↦ ground (arith, find_token-revoke id time t ts e)
    ]

validate-logout :
    (config : AuthConfig) (v : Visit) (cookie : Text) (actor : Option RowId) (now : ℕ) (s : Site)
    → validate config.crypto config.hmac_secret unauthorized now cookie
        (logout config v cookie actor s).1.auth.refresh
      ≡ err (http unauthorized)
unfolding logout validate
validate-logout config v cookie actor now s =
    elim (Option-cases (parse_opaque_token config.crypto cookie)) [
      | inl e ↦ ground (arith, e)
      | inr ((id, raw_secret), e) ↦ ground (
        arith,
        e,
        check_secret_revoked config.crypto config.hmac_secret raw_secret id now v.moment.later
            (s.auth).refresh,
      )
    ]

-- After a logout the cookie is worth nothing: whenever it is presented for a refresh, the answer is
-- 401 and nothing changes.
pub logout-refresh :
    (config : AuthConfig) (v v' : Visit) (cookie : Text) (actor : Option RowId) (s : Site)
    → let s' = (logout config v cookie actor s).1 in
      refresh config v' (some cookie) s' ≡ (err (http unauthorized), s')
unfolding refresh rotate_refresh_token validate_refresh_token
logout-refresh config v v' [] actor s = refl
logout-refresh config v v' (c ∷ cookie) actor s =
    ground (arith, validate-logout config v (c ∷ cookie) actor v'.moment.now s)

consume_password_reset_token_kept :
    (crypto : Crypto) (key token : Text) (m : Moment) (u : RowId) (d d' : AuthDb)
    → consume_password_reset_token crypto key m token d ≡ (ok u, d')
    → d' ≡ record (m.others d) { reset = d'.reset }
unfolding consume_password_reset_token
consume_password_reset_token_kept crypto key token m u d d' h =
    by_valid (validate_password_reset_token crypto key m.now token d) refl
  where
    by_valid :
        (v : Result Token)
        → validate_password_reset_token crypto key m.now token d ≡ v
        → d' ≡ record (m.others d) { reset = d'.reset }
    by_valid (err e) v = absurd (ground arith)
    by_valid (ok stored) v = ground arith

-- The account with a new password, if there is one.
abbrev pub renewed : RowId → Option Account → Option Account
renewed hash none = none
renewed hash (some a) = some (record a { password = some hash })

pub find-update_account :
    (k u hash : RowId) (accounts : List Account)
    → find k (update_account u (λ a. record a { password = some hash }) accounts)
      ≡ (if k == u then renewed hash (find k accounts) else find k accounts)
unfolding find update_account
find-update_account k u hash [] = ground arith
find-update_account k u hash (a ∷ accounts) = ground (arith, find-update_account k u hash accounts)

-- A password reset that succeeds has taken a reset token, which names the user: that user's account
-- has the hash of the new password, no other account has changed, and the user has no session left.
pub reset_password-sessions :
    (config : AuthConfig) (v : Visit) (password confirmed : RowId) (token : Text) (s s' : Site)
    → reset_password config v password confirmed token s ≡ (ok tt, s')
    → let accounts = (v.moment.others s.auth).accounts in
      (u : RowId) × ((consume_password_reset_token config.crypto config.hmac_secret v.moment token
          s.auth).0
        ≡ ok u)
      × ((time : ℕ) → sessions u time s'.auth.refresh ≡ [])
      × ((k : RowId)
          → find k s'.auth.accounts ≡ (
              if k == u
              then renewed ((config.bcrypt).hash v.salt password) (find k accounts)
              else find k accounts))
unfolding reset_password
reset_password-sessions config v password confirmed token s s' h =
    by_consumed
      (consume_password_reset_token config.crypto config.hmac_secret v.moment token s.auth) refl
  where
    by_consumed :
        (c : Result RowId × AuthDb)
        → consume_password_reset_token config.crypto config.hmac_secret v.moment token s.auth ≡ c
        → let accounts = (v.moment.others s.auth).accounts in
          (u : RowId) × ((consume_password_reset_token config.crypto config.hmac_secret v.moment
              token s.auth).0
            ≡ ok u)
          × ((time : ℕ) → sessions u time s'.auth.refresh ≡ [])
          × ((k : RowId)
              → find k s'.auth.accounts ≡ (
                  if k == u
                  then renewed ((config.bcrypt).hash v.salt password) (find k accounts)
                  else find k accounts))
    by_consumed (err e, d) c = absurd (ground arith)
    by_consumed (ok u, d) c =
        let kept =
          consume_password_reset_token_kept config.crypto config.hmac_secret token v.moment u s.auth
            d c in
        (
          u,
          ground arith,
          λ time. ground (arith, sessions-revoke_all u u v.moment.later time d.refresh),
          λ k. ground (
            arith,
            kept,
            find-update_account k u ((config.bcrypt).hash v.salt password) d.accounts,
          ),
        )

-- What a sign-in that succeeds says of the credentials and leaves behind.
pub record SignedIn (config : AuthConfig) (v : Visit) (email password : RowId) (r : Account × Text)
    (time : ℕ) (s s' : Site) : Type 0 where
  pub found : find_by_email email (s.auth).accounts ≡ some r.0
  pub stored : RowId
  pub set : truthy (r.0).password ≡ some stored
  pub compared : (config.bcrypt).compare password stored ≡ true
  pub cookie : r.1 ≡ token_text v.moment.new_id v.moment.new_secret
  pub session :
      sessions (r.0).id time s'.auth.refresh
      ≡ new_token config.crypto config.hmac_secret v.moment (r.0).id config.refresh_ttl ∷ []

-- The sign-in with credentials that hold.
pub signin_of :
    (config : AuthConfig) (v : Visit) (email password stored : RowId) (user : Account) (s : Site)
    → find_by_email email (s.auth).accounts ≡ some user
    → truthy user.password ≡ some stored
    → (config.bcrypt).compare password stored ≡ true
    → signin config v email password s ≡ (
      ok (user, token_text v.moment.new_id v.moment.new_secret),
      record s {
        auth =
            (issue_refresh_token config.crypto config.hmac_secret v.moment config.refresh_ttl
              user.id s.auth).1;
      },
    )
unfolding signin check_password build_auth_result issue_refresh_token create_refresh_token
signin_of config v email password stored user s e p c = ground (arith, e, p)

-- A sign-in succeeds only for a live account with that email whose password compares; until the
-- refresh token expires its user then has exactly one session, whose cookie is returned.
signin-SignedIn :
    (config : AuthConfig) (v : Visit) (email password : RowId) (r : Account × Text) (time : ℕ)
    (s s' : Site)
    → time < v.moment.later + config.refresh_ttl
    → signin config v email password s ≡ (ok r, s')
    → SignedIn config v email password r time s s'
unfolding signin check_password build_auth_result
signin-SignedIn config v email password r time s s' early h =
    elim (Option-cases (find_by_email email (s.auth).accounts)) [
      | inl e ↦ absurd (ground arith)
      | inr (user, e) ↦ elim (Option-cases (truthy user.password)) [
        | inl p ↦ absurd (ground arith)
        | inr (stored, p) ↦ elim (Bool-cases ((config.bcrypt).compare password stored)) [
          | inr c ↦ absurd (ground arith)
          | inl c ↦
              let ran = signin_of config v email password stored user s e p c in
              let (one, _) =
                issue_refresh_token-sessions config.crypto config.hmac_secret v.moment
                  config.refresh_ttl user.id (suc user.id) time s.auth early (omega arith) in
              record {
                found = ground (arith, ran);
                stored = stored;
                set = ground (arith, ran);
                compared = c;
                cookie = ground (arith, ran);
                session = ground (arith, ran, one);
              }
        ]
      ]
    ]

-- A sign-in fails only with 401, whatever is wrong, and a failure touches no account, no token and
-- no mail.
pub signin_error :
    (config : AuthConfig) (v : Visit) (email password : RowId) (x : Error) (s s' : Site)
    → signin config v email password s ≡ (err x, s')
    → (x ≡ http unauthorized) × (s'.auth ≡ s.auth) × (s'.mails ≡ s.mails)
unfolding signin check_password build_auth_result issue_refresh_token create_refresh_token
signin_error config v email password x s s' h =
    elim (Option-cases (find_by_email email (s.auth).accounts)) [
      | inl e ↦ ground arith
      | inr (user, e) ↦ elim (Option-cases (truthy user.password)) [
        | inl p ↦ ground arith
        | inr (stored, p) ↦ ground (arith, e, p)
      ]
    ]
