-- ===== src/Base/Outcome.antt =====
-- The outcome of a service method, and the actions of a state with exceptions. The exceptions of
-- NestJS are named by their HTTP status; a message is kept only where the code reads it.
use rd_shop_backend.Base.{Bool, Option, none, some, if◌then◌else◌}

pub data HttpStatus : Type 0 where
  bad_request unauthorized forbidden not_found conflict : HttpStatus
  unavailable gateway_timeout : HttpStatus

-- SQLSTATE: 23505, 57014, 55P03, and the rest
pub data PgCode : Type 0 where
  unique_violation query_canceled lock_not_available other_code : PgCode

-- What the text of a driver's error contains.
pub data Mentions : Type 0 where
  statement_timeout lock_timeout nothing : Mentions

-- The status codes of gRPC that the code names, and the rest
pub data GrpcStatus : Type 0 where
  grpc_not_found invalid_argument already_exists grpc_unavailable deadline_exceeded : GrpcStatus
  other_status : GrpcStatus

pub data Error : Type 0 where
  http : HttpStatus → Error
  rpc : GrpcStatus → Error
  driver : PgCode → Mentions → Error
  internal : Error

pub data Result {ℓ} (A : Type ℓ) : Type ℓ where
  ok : A → Result A
  err : Error → Result A

-- An action on a state. What was written before an exception stays written.
abbrev pub Action : Type 0 → Type 0 → Type 0
Action S A = S → Result A × S

module _ {S : Type 0} where
  abbrev pub pure : {A : Type 0} → A → Action S A
  pure a s = (ok a, s)

  abbrev pub throw : {A : Type 0} → Error → Action S A
  throw e s = (err e, s)

  abbrev pub gets : {A : Type 0} → (S → A) → Action S A
  gets f s = (ok (f s), s)

  abbrev pub modify : (S → S) → Action S (Unit {0})
  modify f s = (ok tt, f s)

  abbrev pub throw_if : Bool → Error → Action S (Unit {0})
  throw_if c e s = (if c then err e else ok tt, s)

  abbrev pub or_throw : {A : Type 0} → Option A → Error → Action S A
  or_throw none e s = (err e, s)
  or_throw (some a) e s = (ok a, s)

  abbrev pub lift : {A : Type 0} → Result A → Action S A
  lift r s = (r, s)

  -- `dataSource.transaction(body)`: an exception rolls the writes back.
  abbrev pub transaction : {A : Type 0} → Action S A → Action S A
  transaction body s = let (r, s') = body s in elim r [ ok a ↦ (ok a, s') | err x ↦ (err x, s) ]

  -- `try { … } catch (error) { … }`
  abbrev pub catch : {A : Type 0} → Action S A → (Error → Action S A) → Action S A
  catch body handler s = let (r, s') = body s in elim r [ ok a ↦ (ok a, s') | err x ↦ handler x s' ]

infixl 5 ◌>>=◌ ◌>>◌
abbrev pub ◌>>=◌ : {S A B : Type 0} → Action S A → (A → Action S B) → Action S B
◌>>=◌ m f s = let (r, s') = m s in elim r [ ok a ↦ f a s' | err x ↦ (err x, s') ]

abbrev pub ◌>>◌ : {S A B : Type 0} → Action S A → Action S B → Action S B
m >> k = m >>= λ _. k
