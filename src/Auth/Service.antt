-- ===== src/Auth/Service.antt =====
-- AuthService (auth/auth.service.ts) over the token service. bcrypt and the mail service are not of
-- this repository: bcrypt is a field of `AuthConfig`, and `mail_fault` of `Visit` is the error that a
-- delivery throws. The HTTP bodies that a method returns are constants and are left out.
pub mod Sessions
pub mod Signup
pub mod Tests
use rd_shop_backend.Base.{
  ℕ, Bool, true, false, not, ◌&&◌, Option, none, some, List, [], ◌∷◌, ◌++◌, ◌==◌, if◌then◌else◌,
  RowId, truthy, is_some, any, map, Text,
}
use rd_shop_backend.Base.Table.{find}
use rd_shop_backend.Base.Outcome.{
  Action, Error, ok, err, http, driver, bad_request, unauthorized, not_found, conflict,
  unique_violation, nothing, pure, throw, gets, modify, throw_if, or_throw, ◌>>=◌, ◌>>◌,
}
use rd_shop_backend.Auth.Opaque.{Crypto, parse_opaque_token}
use rd_shop_backend.Auth.Permissions.{new_user_roles, new_user_scopes}
use rd_shop_backend.Auth.Tokens.{
  Account, account_entity, AuthDb, Moment, await, revoke_all_user_tokens, revoke_refresh_token,
  issue_refresh_token, issue_verification_token, issue_password_reset_token, rotate_refresh_token,
  consume_verification_token, consume_password_reset_token,
}

-- `hash salt password`, and `compare password hash`
pub record Bcrypt : Type 0 where
  pub hash : ℕ → RowId → RowId
  pub compare : RowId → RowId → Bool

pub record AuthConfig : Type 0 where
  pub crypto : Crypto
  pub hmac_secret : Text
  pub bcrypt : Bcrypt
  pub refresh_ttl : ℕ
  pub verification_ttl : ℕ
  pub reset_ttl : ℕ

-- What one request meets.
pub record Visit : Type 0 where
  pub moment : Moment
  pub salt : ℕ
  pub user_id : RowId
  pub mail_fault : Option Error

pub data Mail : Type 0 where
  verification_mail reset_mail : RowId → Text → Mail

pub data AuthAudit : Type 0 where
  signed_up reset_requested reset_completed signin_refused : RowId → AuthAudit
  user_removed roles_changed scopes_changed : RowId → AuthAudit
  signin_unknown : AuthAudit
  logged_out : Option RowId → AuthAudit

pub record Site : Type 0 where
  pub auth : AuthDb
  pub mails : List Mail
  pub audit : List AuthAudit

abbrev pub in_auth : {A : Type 0} → Action AuthDb A → Action Site A
in_auth m s = let (r, d) = m s.auth in (r, record s { auth = d })

abbrev pub log : AuthAudit → Action Site (Unit {0})
log a = modify (λ s. record s { audit = s.audit ++ a ∷ [] })

-- `findOne({ where: { email } })`
unfoldable pub find_by_email : RowId → List Account → Option Account
find_by_email email [] = none
find_by_email email (a ∷ accounts) =
    if not a.deleted && (a.email == email) then some a else find_by_email email accounts

-- `update(userId, …)`, which writes soft-deleted rows too
unfoldable pub update_account : RowId → (Account → Account) → List Account → List Account
update_account id change = map (λ a. if a.id == id then change a else a)

-- `INSERT` under the unique index on `email`, which soft-deleted rows are in as well.
unfoldable pub insert_account : Account → Action AuthDb (Unit {0})
insert_account account d =
    if any (λ a. a.email == account.email) d.accounts
    then (err (driver unique_violation nothing), d)
    else (ok tt, record d { accounts = d.accounts ++ account ∷ [] })

abbrev pub new_account : RowId → RowId → RowId → Account
new_account id email password = record {
  id = id;
  email = email;
  password = some password;
  roles = new_user_roles;
  scopes = new_user_scopes;
  is_email_verified = false;
  deleted = false;
}

module _ (config : AuthConfig) (v : Visit) where
  unfoldable pub issue_and_send_verification_token : Bool → Account → Action Site (Unit {0})
  issue_and_send_verification_token fail_on_delivery_error user = do
    raw_token ← in_auth (
        issue_verification_token config.crypto config.hmac_secret v.moment config.verification_ttl
          user.id)
    elim v.mail_fault [
      | none ↦
          modify (λ s. record s { mails = s.mails ++ verification_mail user.email raw_token ∷ [] })
      | some e ↦ if fail_on_delivery_error then throw e else pure tt
    ]

  unfoldable pub forgot_password : RowId → Action Site (Unit {0})
  forgot_password email = do
    found ← gets (λ s. find_by_email email (s.auth).accounts)
    elim found [
      | none ↦ pure tt
      | some user ↦ do
        raw_token ← in_auth (
            issue_password_reset_token config.crypto config.hmac_secret v.moment config.reset_ttl
              user.id)
        elim v.mail_fault [
          | some _ ↦ pure tt
          | none ↦ do
            modify (λ s. record s { mails = s.mails ++ reset_mail user.email raw_token ∷ [] })
            log (reset_requested user.id)
        ]
    ]

  unfoldable pub logout : Text → Option RowId → Action Site (Unit {0})
  logout cookie actor_id = elim (parse_opaque_token config.crypto cookie) [
    | none ↦ pure tt
    | some (id, _) ↦ do
      in_auth
          (modify (λ d. record d { refresh = revoke_refresh_token id v.moment.later d.refresh }))
      log (logged_out actor_id)
  ]

  unfoldable pub refresh : Option Text → Action Site (Account × Text)
  refresh none = throw (http unauthorized)
  refresh (some []) = throw (http unauthorized)
  refresh (some (c ∷ cookie)) = in_auth (
      rotate_refresh_token config.crypto config.hmac_secret v.moment config.refresh_ttl
        (c ∷ cookie))

  unfoldable pub resend_verification : RowId → Action Site (Unit {0})
  unfolding issue_and_send_verification_token
  resend_verification user_id = do
    user ← or_throw (← gets (λ s. find user_id (s.auth).accounts)) (http not_found)
    throw_if user.is_email_verified (http conflict)
    issue_and_send_verification_token true user

  unfoldable pub reset_password : RowId → RowId → Text → Action Site (Unit {0})
  unfolding update_account
  reset_password new_password confirmed_password token = do
    throw_if (not (new_password == confirmed_password)) (http bad_request)
    user_id ← in_auth (consume_password_reset_token config.crypto config.hmac_secret v.moment token)
    in_auth (
        modify (λ d. record d {
          accounts =
              update_account user_id
                (λ a. record a { password = some ((config.bcrypt).hash v.salt new_password) })
                d.accounts;
          refresh = revoke_all_user_tokens user_id v.moment.later d.refresh;
        }))
    log (reset_completed user_id)

  -- The payload of the access token is the user.
  unfoldable pub build_auth_result : Account → Action Site (Account × Text)
  build_auth_result user = do
    cookie ←
        in_auth
          (issue_refresh_token config.crypto config.hmac_secret v.moment config.refresh_ttl user.id)
    pure (user, cookie)

  -- The comparison of the password, and what follows.
  unfoldable pub check_password : RowId → Account → RowId → Action Site (Account × Text)
  unfolding build_auth_result
  check_password password user stored =
      if (config.bcrypt).compare password stored
      then build_auth_result user
      else (log (signin_refused user.id) >> throw (http unauthorized))

  unfoldable pub signin : RowId → RowId → Action Site (Account × Text)
  unfolding check_password
  signin email password = do
    found ← gets (λ s. find_by_email email (s.auth).accounts)
    elim found [
      | none ↦ log signin_unknown >> throw (http unauthorized)
      | some user ↦ elim (truthy user.password) [
        | none ↦ log signin_unknown >> throw (http unauthorized)
        | some stored ↦ check_password password user stored
      ]
    ]

  unfoldable pub verify_email : Text → Action Site (Unit {0})
  unfolding update_account
  verify_email token = do
    user_id ← in_auth (consume_verification_token config.crypto config.hmac_secret v.moment token)
    in_auth (
        modify (λ d. record d {
          accounts = update_account user_id (λ a. record a { is_email_verified = true }) d.accounts;
        }))

  unfoldable pub signup : RowId → RowId → RowId → Action Site Account
  unfolding insert_account issue_and_send_verification_token
  signup email password confirmed_password = do
    throw_if (not (password == confirmed_password)) (http bad_request)
    existing ← gets (λ s. find_by_email email (s.auth).accounts)
    throw_if (is_some existing) (http conflict)
    in_auth (await v.moment.others)
    let account = new_account v.user_id email ((config.bcrypt).hash v.salt password)
    in_auth (insert_account account)
    log (signed_up account.id)
    issue_and_send_verification_token false account
    pure account
