-- ===== src/Auth/Service/Signup.antt =====
-- From the registration of a user to the first sign-in.
use rd_shop_backend.Base.{
  ◌≡◌, refl, true, false, some, List, [], ◌∷◌, ◌++◌, arith, ◌==◌, RowId, truthy, any,
}
use rd_shop_backend.Base.Outcome.{Result, ok, err}
use rd_shop_backend.Auth.Opaque.{token_text}
use rd_shop_backend.Auth.Tokens.{Account, AuthDb, issue_verification_token}
use rd_shop_backend.Auth.Service.Sessions.{signin_of}
use rd_shop_backend.Auth.Service.{
  AuthConfig, Visit, Site, find_by_email, insert_account, new_account,
  issue_and_send_verification_token, signin, signup,
}

find_by_email-append :
    (a : Account) (accounts : List Account)
    → a.deleted ≡ false
    → any (λ x. x.email == a.email) accounts ≡ false
    → find_by_email a.email (accounts ++ a ∷ []) ≡ some a
unfolding find_by_email
find_by_email-append a [] live free = ground arith
find_by_email-append a (x ∷ accounts) live free =
    ground (arith, find_by_email-append a accounts live)

insert_account-find_by_email :
    (a : Account) (d d' : AuthDb)
    → a.deleted ≡ false
    → insert_account a d ≡ (ok tt, d')
    → find_by_email a.email d'.accounts ≡ some a
unfolding insert_account
insert_account-find_by_email a d d' live h = ground (arith, find_by_email-append a d.accounts live)

-- A registration that succeeds returns the account as it is stored.
pub signup-find_by_email :
    (config : AuthConfig) (v : Visit) (email password confirmed : RowId) (a : Account) (s s' : Site)
    → signup config v email password confirmed s ≡ (ok a, s')
    → (find_by_email email s'.auth.accounts ≡ some a)
      × (a.password ≡ some ((config.bcrypt).hash v.salt password))
unfolding signup issue_and_send_verification_token issue_verification_token
signup-find_by_email config v email password confirmed a s s' h =
    by_inserted (insert_account account (v.moment.others s.auth)) refl
  where
    account : Account
    account = new_account v.user_id email ((config.bcrypt).hash v.salt password)

    by_inserted :
        (i : Result (Unit {0}) × AuthDb)
        → insert_account account (v.moment.others s.auth) ≡ i
        → (find_by_email email s'.auth.accounts ≡ some a)
          × (a.password ≡ some ((config.bcrypt).hash v.salt password))
    by_inserted (err e, d) i = absurd (ground arith)
    by_inserted (ok u, d) i =
        ground (arith, insert_account-find_by_email account (v.moment.others s.auth) d refl i)

-- Who has registered can sign in with the same email and password, and gets the registered account,
-- if the hash of a password is not empty and compares with it.
pub signup-signin :
    (config : AuthConfig) (v v' : Visit) (email password confirmed : RowId) (a : Account)
    (s s' : Site)
    → truthy (some ((config.bcrypt).hash v.salt password))
      ≡ some ((config.bcrypt).hash v.salt password)
    → (config.bcrypt).compare password ((config.bcrypt).hash v.salt password) ≡ true
    → signup config v email password confirmed s ≡ (ok a, s')
    → (signin config v' email password s').0
      ≡ ok (a, token_text v'.moment.new_id v'.moment.new_secret)
signup-signin config v v' email password confirmed a s s' full compares h =
    let (stored, hashed) = signup-find_by_email config v email password confirmed a s s' h in
    ground (
      arith,
      signin_of config v' email password ((config.bcrypt).hash v.salt password) a s' stored
          (ground arith) compares,
    )
