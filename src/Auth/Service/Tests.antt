-- ===== src/Auth/Service/Tests.antt =====
-- The theorems on AuthService at concrete inputs, with a concrete choice of the library functions.
use rd_shop_backend.Base.{
  ℕ, suc, ◌≡◌, refl, false, none, some, [], ◌∷◌, ◌==◌, if◌then◌else◌, RowId, length, take,
  replicate, Text, same,
}
use rd_shop_backend.Base.Table.{find}
use rd_shop_backend.Base.Outcome.{ok, err, http, unauthorized}
use rd_shop_backend.Auth.Permissions.{new_user_roles, new_user_scopes}
use rd_shop_backend.Auth.Opaque.{parse_opaque_token, verify_opaque_token, token_text}
use rd_shop_backend.Auth.Tokens.{
  Token, Account, account_entity, Moment, find_token, end_token, can_end, revoke_all_user_tokens,
  check_secret, validate, validate_password_reset_token, create_refresh_token, issue_refresh_token,
  issue_verification_token, consume_password_reset_token,
}
use rd_shop_backend.Auth.Tokens.Rotation.{sessions}
use rd_shop_backend.Auth.Service.{
  AuthConfig, Visit, Site, find_by_email, update_account, insert_account,
  issue_and_send_verification_token, build_auth_result, check_password, logout, refresh,
  reset_password, signin, signup,
}
use rd_shop_backend.Auth.Service.Sessions.{logout-refresh, renewed, reset_password-sessions}
use rd_shop_backend.Auth.Service.Signup.{signup-signin}

unfoldable pub code : Unit {0}
unfolding find same parse_opaque_token verify_opaque_token find_token end_token can_end
    revoke_all_user_tokens check_secret validate validate_password_reset_token create_refresh_token
    issue_refresh_token issue_verification_token consume_password_reset_token find_by_email
    update_account insert_account issue_and_send_verification_token build_auth_result check_password
    reset_password signin signup
code = tt

-- The hash of a password is the next number.
abbrev pub config : AuthConfig
config = record {
  crypto = record { is_uuid = λ t. length t == 36; hmac = λ key t. take 64 t; from_hex = λ t. t };
  hmac_secret = [];
  bcrypt = record { hash = λ salt p. suc p; compare = λ p h. suc p == h };
  refresh_ttl = 100;
  verification_ttl = 100;
  reset_ttl = 100;
}

abbrev moment : Moment
moment = record {
  now = 10;
  later = 11;
  others = λ d. d;
  new_id = replicate 36 97;
  new_secret = replicate 64 48;
}

abbrev pub visit : Visit
visit = record { moment = moment; salt = 0; user_id = 8; mail_fault = none }

abbrev pub ann : Account
ann = record {
  id = 7;
  email = 70;
  password = some 5;
  roles = new_user_roles;
  scopes = new_user_scopes;
  is_email_verified = false;
  deleted = false;
}

abbrev reset_row : Token
reset_row = record {
  id = replicate 36 98;
  token_hash = replicate 64 49;
  user_id = 7;
  expires_at = 50;
  ended_at = none;
}

abbrev pub site : Site
site = record {
  auth = record { accounts = ann ∷ []; refresh = []; verification = []; reset = reset_row ∷ [] };
  mails = [];
  audit = [];
}

abbrev cookie : Text
cookie = token_text (replicate 36 97) (replicate 64 48)

abbrev pub signed_in : Site
signed_in = (signin config visit 70 4 site).1

signin_runs : signin config visit 70 4 site ≡ (ok (ann, cookie), signed_in)
unfolding code
signin_runs = refl

logout-refresh_example :
    let s' = (logout config visit cookie (some 7) signed_in).1 in
    refresh config visit (some cookie) s' ≡ (err (http unauthorized), s')
logout-refresh_example = logout-refresh config visit visit cookie (some 7) signed_in

abbrev refused : Site
refused = (signin config visit 70 3 site).1

refusal_runs : signin config visit 70 3 site ≡ (err (http unauthorized), refused)
unfolding code
refusal_runs = refl

abbrev reset_token : Text
reset_token = token_text (replicate 36 98) (replicate 64 49)

abbrev after_reset : Site
after_reset = (reset_password config visit 9 9 reset_token signed_in).1

reset_runs : reset_password config visit 9 9 reset_token signed_in ≡ (ok tt, after_reset)
unfolding code
reset_runs = refl

reset_password-sessions_example :
    (u : RowId) × ((consume_password_reset_token config.crypto [] moment reset_token
        signed_in.auth).0
      ≡ ok u)
    × ((time : ℕ) → sessions u time after_reset.auth.refresh ≡ [])
    × ((k : RowId)
        → find k after_reset.auth.accounts ≡ (
            if k == u
            then renewed 10 (find k signed_in.auth.accounts)
            else find k signed_in.auth.accounts))
reset_password-sessions_example =
    reset_password-sessions config visit 9 9 reset_token signed_in after_reset reset_runs

abbrev bob : Account
bob = record ann { id = 8; email = 71; password = some 5 }

abbrev registered : Site
registered = (signup config visit 71 4 4 site).1

signup_runs : signup config visit 71 4 4 site ≡ (ok bob, registered)
unfolding code
signup_runs = refl

signup-signin_example : (signin config visit 71 4 registered).0 ≡ ok (bob, cookie)
signup-signin_example =
    signup-signin config visit visit 71 4 4 bob site registered refl refl signup_runs
