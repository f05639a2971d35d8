-- ===== src/Auth/Tokens/OneTime.antt =====
-- One-time tokens: of the requests that present one, at most one is served.
use rd_shop_backend.Base.{
  ℕ, ◌≤◌, ◌⊎◌, Option-cases, ◌≡◌, refl, inl, inr, true, false, some, List, [], ◌∷◌, arith, RowId,
  Text,
}
use rd_shop_backend.Base.Outcome.{Result, ok, err, http, bad_request}
use rd_shop_backend.Auth.Opaque.{Crypto}
use rd_shop_backend.Auth.Tokens.{
  Token, AuthDb, Moment, is_usable, find_token, can_end, end_unexpired, can_end_unexpired,
  check_secret, validate, validate_verification_token, validate_password_reset_token,
  consume_verification_token, consume_password_reset_token,
}
use rd_shop_backend.Auth.Tokens.Single.{
  can_end-end_token, find_token-end_token, end_token_unaffected, find_token_id, validate_lem,
}

-- The request that is served ends the token. One that read it before, at whatever time, and writes
-- after is refused with 400, and so is one that comes after the first has written, at whatever time.
-- Neither writes anything.
pub consume_password_reset_token_once :
    (crypto : Crypto) (key token : Text) (m m' m'' : Moment) (u : RowId) (d d' : AuthDb)
    → consume_password_reset_token crypto key m token d ≡ (ok u, d')
    → m'.others d ≡ d'
    → let (r, after) = consume_password_reset_token crypto key m' token d in
      (r ≡ err (http bad_request))
      × ((after ≡ d) ⊎ (after ≡ d'))
      × (consume_password_reset_token crypto key m'' token d' ≡ (err (http bad_request), d'))
unfolding consume_password_reset_token validate_password_reset_token validate check_secret
consume_password_reset_token_once crypto key token m m' m'' u d d' h waits =
    by_valid (validate crypto key bad_request m.now token d.reset) refl
  where
    by_valid :
        (v : Result Token)
        → validate crypto key bad_request m.now token d.reset ≡ v
        → let (r, after) = consume_password_reset_token crypto key m' token d in
          (r ≡ err (http bad_request))
          × ((after ≡ d) ⊎ (after ≡ d'))
          × (consume_password_reset_token crypto key m'' token d' ≡ (err (http bad_request), d'))
    by_valid (err e) v = absurd (ground arith)
    by_valid (ok stored) v =
        let (id, raw_secret, parsed, found, fresh, early, passed) =
          validate_lem crypto key token bad_request m.now stored d.reset v in
        let affected : can_end stored.id (m.others d).reset ≡ true = ground arith in
        let (t, ended, over) = find_token-end_token stored.id m.later (m.others d).reset affected in
        ground (
          arith,
          parsed,
          over,
          ended,
          found,
          passed,
          find_token_id id stored d.reset found,
          can_end-end_token stored.id m.later (m.others d).reset,
          end_token_unaffected stored.id m'.later d'.reset,
        )

can_end_unexpired-end_unexpired :
    (id : Text) (time time' : ℕ) (ts : List Token)
    → time ≤ time'
    → can_end_unexpired id time' (end_unexpired id time ts) ≡ false
unfolding can_end_unexpired end_unexpired
can_end_unexpired-end_unexpired id time time' [] h = refl
can_end_unexpired-end_unexpired id time time' (t ∷ ts) h =
    ground (arith, can_end_unexpired-end_unexpired id time time' ts h)

end_unexpired_unaffected :
    (id : Text) (time : ℕ) (ts : List Token)
    → can_end_unexpired id time ts ≡ false
    → end_unexpired id time ts ≡ ts
unfolding can_end_unexpired end_unexpired
end_unexpired_unaffected id time [] h = refl
end_unexpired_unaffected id time (t ∷ ts) h = ground (arith, end_unexpired_unaffected id time ts)

find_token-unusable :
    (id : Text) (time : ℕ) (t : Token) (ts : List Token)
    → can_end_unexpired id time ts ≡ false
    → find_token id ts ≡ some t
    → is_usable time t ≡ false
unfolding can_end_unexpired find_token
find_token-unusable id time t [] h f = cc
find_token-unusable id time t (x ∷ ts) h f = ground (arith, find_token-unusable id time t ts)

check_secret_unusable :
    (crypto : Crypto) (key raw_secret id : Text) (now : ℕ) (ts : List Token)
    → can_end_unexpired id now ts ≡ false
    → check_secret crypto key bad_request now raw_secret (find_token id ts) ≡ err (http bad_request)
unfolding check_secret
check_secret_unusable crypto key raw_secret id now ts h = elim (Option-cases (find_token id ts)) [
  | inl e ↦ rw e
  | inr (t, e) ↦ ground (arith, find_token-unusable id now t ts h e)
]

-- The same of the verification of an email, whose update also asks that the token has not expired:
-- the second request reads what the first read, or reads after the first has written; clocks do not
-- run backwards.
consume_verification_token_once :
    (crypto : Crypto) (key token : Text) (m m' m'' : Moment) (u : RowId) (d d' : AuthDb)
    → consume_verification_token crypto key m token d ≡ (ok u, d')
    → m'.now ≡ m.now
    → m'.others d ≡ d'
    → m.later ≤ m'.later
    → m.later ≤ m''.now
    → (consume_verification_token crypto key m' token d ≡ (err (http bad_request), d'))
      × (consume_verification_token crypto key m'' token d' ≡ (err (http bad_request), d'))
unfolding consume_verification_token validate_verification_token validate
consume_verification_token_once crypto key token m m' m'' u d d' h clock waits monotone after =
    by_valid (validate crypto key bad_request m.now token d.verification) refl
  where
    by_valid :
        (v : Result Token)
        → validate crypto key bad_request m.now token d.verification ≡ v
        → (consume_verification_token crypto key m' token d ≡ (err (http bad_request), d'))
          × (consume_verification_token crypto key m'' token d' ≡ (err (http bad_request), d'))
    by_valid (err e) v = absurd (ground arith)
    by_valid (ok stored) v =
        let (id, raw_secret, parsed, found, fresh, early, passed) =
          validate_lem crypto key token bad_request m.now stored d.verification v in
        let same_id = find_token_id id stored d.verification found in
        let written : d'.verification ≡ end_unexpired stored.id m.later (m.others d).verification =
          ground arith in
        let none_left = λ (time : ℕ) (le : m.later ≤ time).
          can_end_unexpired-end_unexpired stored.id m.later time (m.others d).verification le in
        (
          ground (
            arith,
            written,
            none_left m'.later monotone,
            end_unexpired_unaffected stored.id m'.later d'.verification,
          ),
          ground (
            arith,
            parsed,
            same_id,
            written,
            none_left m''.now after,
            check_secret_unusable crypto key raw_secret stored.id m''.now d'.verification,
          ),
        )
