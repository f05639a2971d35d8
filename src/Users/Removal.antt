-- ===== src/Users/Removal.antt =====
-- A change of the password and a removal end every session; a removed user cannot sign in.
use rd_shop_backend.Base.{
  ℕ, ◌≡◌, refl, true, not, ◌||◌, none, some, List, [], ◌∷◌, ◌++◌, arith, ◌==◌, if◌then◌else◌, RowId,
  truthy, all, Option-cases, inl, inr,
}
use rd_shop_backend.Base.Table.{find}
use rd_shop_backend.Base.Outcome.{ok, err, http, unauthorized}
use rd_shop_backend.Auth.Tokens.{Account, account_entity}
use rd_shop_backend.Auth.Tokens.Rotation.{sessions, sessions-revoke_all}
use rd_shop_backend.Auth.Service.{
  AuthConfig, Visit, Site, find_by_email, signin, signin_unknown, update_account,
}
use rd_shop_backend.Auth.Service.Sessions.{renewed, find-update_account}
use rd_shop_backend.Users.{
  ChangePassword, find_user_or_fail, update_and_revoke, change_password, remove,
}

-- What a change of the password that succeeded has found and done.
pub record Changed (config : AuthConfig) (v : Visit) (user_id : RowId) (dto : ChangePassword)
    (s s' : Site) : Type 0 where
  pub user : Account
  pub stored : RowId
  pub known : find user_id (s.auth).accounts ≡ some user
  pub had : truthy user.password ≡ some stored
  pub compared : (config.bcrypt).compare dto.current_password stored ≡ true
  pub no_session : (time : ℕ) → sessions user_id time s'.auth.refresh ≡ []
  pub accounts :
      (k : RowId)
      → find k s'.auth.accounts ≡ (
          if k == user_id
          then renewed
              ((config.bcrypt).hash v.salt dto.new_password)
              (find k (v.moment.others s.auth).accounts)
          else find k (v.moment.others s.auth).accounts)

-- A change of the password succeeds only with the current password. It gives the account the hash of
-- the new one, changes no other account, and leaves the user without a session.
pub change_password-Changed :
    (config : AuthConfig) (v : Visit) (user_id : RowId) (dto : ChangePassword) (s s' : Site)
    → change_password config v user_id dto s ≡ (ok tt, s')
    → Changed config v user_id dto s s'
unfolding change_password find_user_or_fail update_and_revoke
change_password-Changed config v user_id dto s s' h =
    elim (Option-cases (find user_id (s.auth).accounts)) [
      | inl e ↦ absurd (ground arith)
      | inr (u, e) ↦ elim (Option-cases (truthy u.password)) [
        | inl f ↦ absurd (ground arith)
        | inr (p, f) ↦
            let d = v.moment.others s.auth in
            let hash = (config.bcrypt).hash v.salt dto.new_password in
            let written : s'.auth
                ≡ update_and_revoke user_id v.moment.later (λ a. record a { password = some hash })
                    d =
              ground arith in
            record {
              user = u;
              stored = p;
              known = e;
              had = f;
              compared = ground arith;
              no_session = λ time. ground (
                arith,
                written,
                sessions-revoke_all user_id user_id v.moment.later time d.refresh,
              );
              accounts = λ k. rw written (find-update_account k user_id hash d.accounts);
            }
      ]
    ]

find_by_email-removed :
    (id email : RowId) (accounts : List Account)
    → all (λ a. not (a.email == email) || (a.id == id)) accounts ≡ true
    → find_by_email email (update_account id (λ a. record a { deleted = true }) accounts) ≡ none
unfolding find_by_email update_account
find_by_email-removed id email [] h = refl
find_by_email-removed id email (a ∷ accounts) h =
    ground (arith, find_by_email-removed id email accounts)

-- Once a user is removed, no session of that user is left, and signing in with the email is refused
-- whatever the password, if no other account has the email.
pub remove-signin :
    (config : AuthConfig) (v v' : Visit) (id email password : RowId) (s s' : Site)
    → all (λ a. not (a.email == email) || (a.id == id)) (v.moment.others s.auth).accounts ≡ true
    → remove config v id s ≡ (ok tt, s')
    → ((time : ℕ) → sessions id time s'.auth.refresh ≡ [])
      × (signin config v' email password s'
          ≡ (err (http unauthorized), record s' { audit = s'.audit ++ signin_unknown ∷ [] }))
unfolding remove find_user_or_fail update_and_revoke signin
remove-signin config v v' id email password s s' only h =
    elim (Option-cases (find id (s.auth).accounts)) [
      | inl e ↦ absurd (ground arith)
      | inr (u, e) ↦
          let d = v.moment.others s.auth in
          let written : s'.auth
              ≡ update_and_revoke id v.moment.later (λ a. record a { deleted = true }) d =
            ground arith in
          let unknown : find_by_email email s'.auth.accounts ≡ none =
            rw written (find_by_email-removed id email d.accounts only) in
          (
            λ time.
                ground (arith, written, sessions-revoke_all id id v.moment.later time d.refresh),
            ground (arith, unknown),
          )
    ]
