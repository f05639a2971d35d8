-- ===== src/Users.antt =====
-- UsersService (users/users.service.ts) over the accounts and tokens of Auth: the password, the removal
-- of a user, roles and scopes.
pub mod Model
pub mod Profiles
pub mod Listing
pub mod Removal
mod Tests
use rd_shop_backend.Base.{
  ℕ, Bool, true, not, Option, none, some, List, ◌==◌, if◌then◌else◌, RowId, truthy,
}
use rd_shop_backend.Base.Table.{find}
use rd_shop_backend.Base.Outcome.{
  Action, Error, ok, err, http, bad_request, unauthorized, not_found, pure, gets, modify, throw_if,
  or_throw, ◌>>=◌, ◌>>◌,
}
use rd_shop_backend.Auth.Permissions.{UserRole, UserScope}
use rd_shop_backend.Auth.Tokens.{Account, account_entity, AuthDb, await, revoke_all_user_tokens}
use rd_shop_backend.Auth.Service.{
  AuthConfig, Visit, Site, in_auth, log, update_account, user_removed, roles_changed,
  scopes_changed,
}

-- `ChangePasswordDto`
pub record ChangePassword : Type 0 where
  pub current_password : RowId
  pub new_password : RowId
  pub confirmed_password : RowId

unfoldable pub find_user_or_fail : RowId → Action Site Account
find_user_or_fail id = do
  user ← gets (λ s. find id (s.auth).accounts)
  or_throw user (http not_found)

-- `update(id, …)` and `revokeAllUserTokens(id)`, which are waited for together
unfoldable pub update_and_revoke : RowId → ℕ → (Account → Account) → AuthDb → AuthDb
unfolding update_account revoke_all_user_tokens
update_and_revoke id time change d = record d {
  accounts = update_account id change d.accounts;
  refresh = revoke_all_user_tokens id time d.refresh;
}

module _ (config : AuthConfig) (v : Visit) where
  unfoldable pub change_password : RowId → ChangePassword → Action Site (Unit {0})
  unfolding find_user_or_fail update_and_revoke
  change_password user_id dto = do
    throw_if (not (dto.new_password == dto.confirmed_password)) (http bad_request)
    user ← find_user_or_fail user_id
    stored ← or_throw (truthy user.password) (http unauthorized)
    throw_if (not ((config.bcrypt).compare dto.current_password stored)) (http unauthorized)
    in_auth (await v.moment.others)
    in_auth (
        modify (
          update_and_revoke user_id v.moment.later
            (λ a. record a { password = some ((config.bcrypt).hash v.salt dto.new_password) })))

  -- `softDelete(id)`
  unfoldable pub remove : RowId → Action Site (Unit {0})
  unfolding find_user_or_fail update_and_revoke
  remove id = do
    find_user_or_fail id
    in_auth (await v.moment.others)
    in_auth (modify (update_and_revoke id v.moment.later (λ a. record a { deleted = true })))
    log (user_removed id)

  unfoldable pub update_roles : RowId → List UserRole → Action Site (Unit {0})
  unfolding find_user_or_fail update_account
  update_roles user_id roles = do
    find_user_or_fail user_id
    in_auth (
        modify (λ d. record d {
          accounts = update_account user_id (λ a. record a { roles = roles }) d.accounts;
        }))
    log (roles_changed user_id)

  unfoldable pub update_scopes : RowId → List UserScope → Action Site (Unit {0})
  unfolding find_user_or_fail update_account
  update_scopes user_id scopes = do
    find_user_or_fail user_id
    in_auth (
        modify (λ d. record d {
          accounts = update_account user_id (λ a. record a { scopes = scopes }) d.accounts;
        }))
    log (scopes_changed user_id)
