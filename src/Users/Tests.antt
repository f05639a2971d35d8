-- ===== src/Users/Tests.antt =====
-- The theorems on users at concrete inputs.
use rd_shop_backend.Base.{ℕ, ◌≡◌, refl, true, not, ◌||◌, ◌==◌, all, [], ◌∷◌, ◌++◌}
use rd_shop_backend.Base.Outcome.{ok, err, http, unauthorized}
use rd_shop_backend.Auth.Tokens.Rotation.{sessions}
use rd_shop_backend.Auth.Service.{Site, signin, signin_unknown}
use rd_shop_backend.Auth.Service.Tests.{code as auth_code, config, visit, signed_in}
use rd_shop_backend.Users.{
  ChangePassword, find_user_or_fail, update_and_revoke, change_password, remove,
}
use rd_shop_backend.Users.Removal.{Changed, change_password-Changed, remove-signin}

code : Unit {0}
unfolding auth_code find_user_or_fail update_and_revoke change_password remove
code = tt

abbrev change : ChangePassword
change = record { current_password = 4; new_password = 9; confirmed_password = 9 }

abbrev changed : Site
changed = (change_password config visit 7 change signed_in).1

change_runs : change_password config visit 7 change signed_in ≡ (ok tt, changed)
unfolding code
change_runs = refl

change_password-Changed_example : Changed config visit 7 change signed_in changed
change_password-Changed_example =
    change_password-Changed config visit 7 change signed_in changed change_runs

abbrev without_ann : Site
without_ann = (remove config visit 7 signed_in).1

removal_runs : remove config visit 7 signed_in ≡ (ok tt, without_ann)
unfolding code
removal_runs = refl

known_accounts : all (λ a. not (a.email == 70) || (a.id == 7)) (signed_in.auth).accounts ≡ true
unfolding code
known_accounts = refl

remove-signin_example :
    ((time : ℕ) → sessions 7 time without_ann.auth.refresh ≡ [])
    × (signin config visit 70 4 without_ann ≡ (
      err (http unauthorized),
      record without_ann { audit = without_ann.audit ++ signin_unknown ∷ [] },
    ))
remove-signin_example =
    remove-signin config visit visit 7 70 4 signed_in without_ann known_accounts removal_runs
