-- ===== src/Auth/Tests.antt =====
-- The theorems on tokens at concrete inputs, with a concrete choice of the library functions.
use rd_shop_backend.Base.{
  ◌≡◌, ◌⊎◌, refl, false, some, [], ◌∷◌, arith, ◌==◌, length, take, replicate, Text, same,
}
use rd_shop_backend.Base.Table.{find}
use rd_shop_backend.Base.Outcome.{ok, err, http, bad_request, unauthorized}
use rd_shop_backend.Auth.Opaque.{
  Crypto, parse_opaque_token, verify_opaque_token, token_text, parse_opaque_token-token_text,
}
use rd_shop_backend.Auth.Tokens.{
  Account, account_entity, AuthDb, Moment, find_token, end_token, can_end, end_unexpired,
  can_end_unexpired, revoke_all_user_tokens, check_secret, validate, validate_refresh_token,
  validate_verification_token, validate_password_reset_token, new_token, create_refresh_token,
  issue_refresh_token, issue_verification_token, issue_password_reset_token, rotate_refresh_token,
  consume_verification_token, consume_password_reset_token,
}
use rd_shop_backend.Auth.Tokens.Rotation.{rotate_refresh_token_race}
use rd_shop_backend.Auth.Tokens.OneTime.{consume_password_reset_token_once}

code : Unit {0}
unfolding find same parse_opaque_token verify_opaque_token find_token end_token can_end
    end_unexpired can_end_unexpired revoke_all_user_tokens check_secret validate
    validate_refresh_token validate_verification_token validate_password_reset_token
    create_refresh_token issue_refresh_token issue_verification_token issue_password_reset_token
    rotate_refresh_token consume_verification_token consume_password_reset_token
code = tt

-- A UUID is any text of 36 units, a hash the first 64 units of the secret.
abbrev crypto : Crypto
crypto = record { is_uuid = λ t. length t == 36; hmac = λ key t. take 64 t; from_hex = λ t. t }

abbrev id_a : Text
id_a = replicate 36 97

abbrev secret : Text
secret = replicate 64 48

abbrev secret_b : Text
secret_b = replicate 64 49

abbrev cookie : Text
cookie = token_text id_a secret

parse_opaque_token-token_text_example :
    parse_opaque_token crypto (token_text id_a secret) ≡ some (id_a, secret)
parse_opaque_token-token_text_example =
    parse_opaque_token-token_text crypto id_a secret refl refl (omega arith)

cookie_parses : parse_opaque_token crypto cookie ≡ some (id_a, secret)
unfolding code
cookie_parses = refl

abbrev ann : Account
ann = record {
  id = 7;
  email = 70;
  password = some 5;
  roles = [];
  scopes = [];
  is_email_verified = false;
  deleted = false;
}

abbrev db : AuthDb
db = record { accounts = ann ∷ []; refresh = []; verification = []; reset = [] }

abbrev first : Moment
first = record { now = 10; later = 11; others = λ d. d; new_id = id_a; new_secret = secret }

abbrev second : Moment
second = record {
  now = 20;
  later = 21;
  others = λ d. d;
  new_id = replicate 36 98;
  new_secret = secret_b;
}

abbrev signed_in : AuthDb
signed_in = (issue_refresh_token crypto [] first 100 7 db).1

sign_in_runs : issue_refresh_token crypto [] first 100 7 db ≡ (ok cookie, signed_in)
unfolding code
sign_in_runs = refl

abbrev rotated : AuthDb
rotated = (rotate_refresh_token crypto [] second 100 cookie signed_in).1

abbrev new_cookie : Text
new_cookie = token_text (replicate 36 98) secret_b

rotation_runs :
    rotate_refresh_token crypto [] second 100 cookie signed_in ≡ (ok (ann, new_cookie), rotated)
unfolding code
rotation_runs = refl

abbrev rival : Moment
rival = record second { others = λ d. rotated; new_id = replicate 36 99 }

rotate_refresh_token_race_example :
    let (r, after) = rotate_refresh_token crypto [] rival 100 cookie signed_in in
    (r ≡ err (http unauthorized)) × ((after ≡ signed_in) ⊎ (after ≡ rotated))
rotate_refresh_token_race_example =
    rotate_refresh_token_race crypto [] second rival 100 cookie (ann, new_cookie) signed_in rotated
      rotation_runs (unfold code in refl) refl

abbrev asked : AuthDb
asked = record db {
  reset = new_token crypto [] first 7 100 ∷ [];
  verification = new_token crypto [] first 7 100 ∷ [];
}

abbrev reset_done : AuthDb
reset_done = (consume_password_reset_token crypto [] second cookie asked).1

reset_runs : consume_password_reset_token crypto [] second cookie asked ≡ (ok 7, reset_done)
unfolding code
reset_runs = refl

consume_password_reset_token_once_example :
    let (r, after) =
      consume_password_reset_token crypto []
        (record second { others = λ d. reset_done })
        cookie
        asked in
    (r ≡ err (http bad_request))
    × ((after ≡ asked) ⊎ (after ≡ reset_done))
    × (consume_password_reset_token crypto []
          (record second { others = λ d. reset_done })
          cookie
          reset_done
        ≡ (err (http bad_request), reset_done))
consume_password_reset_token_once_example =
    consume_password_reset_token_once crypto [] cookie second
      (record second { others = λ d. reset_done }) (record second { others = λ d. reset_done }) 7
      asked reset_done reset_runs refl

abbrev verified : AuthDb
verified = (consume_verification_token crypto [] second cookie asked).1

verification_runs : consume_verification_token crypto [] second cookie asked ≡ (ok 7, verified)
unfolding code
verification_runs = refl
