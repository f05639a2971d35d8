-- ===== src/Payments/Client.antt =====
-- PaymentsGrpcClientService (apps/shop/src/payments/payments-grpc-client.service.ts) and
-- compareSrvRecords (payments/utils/index.ts): the endpoint by a DNS lookup, and the cached client. The
-- lookup and the gRPC client are libraries: an answer of the first is an `SrvAnswer`, and of the second
-- only what is opened and closed is kept, with the methods that it offers and what a call comes to.
pub mod Endpoint
pub mod Rotation
mod Tests
use rd_shop_backend.Base.{
  ℕ, zero, suc, Bool, true, false, not, ◌&&◌, Option, none, some, List, [], ◌∷◌, ◌++◌, ◌==◌,
  if◌then◌else◌, RowId, Text, same, length,
}
use rd_shop_backend.Base.Int.{ℤ, pos, negsuc, sub_ℕ}
use rd_shop_backend.Base.Outcome.{
  Action, Result, err, internal, pure, gets, modify, throw_if, lift, ◌>>=◌, ◌>>◌,
}

pub record SrvRecord : Type 0 where
  pub name : Text
  pub port : ℕ
  pub priority : ℕ
  pub weight : ℕ

-- What `resolveSrv` comes to. Of an error the code reads the code, which only chooses the log line.
pub data SrvAnswer : Type 0 where
  records : List SrvRecord → SrvAnswer
  dns_error : Option RowId → SrvAnswer

pub record GrpcConfig : Type 0 where
  pub host : Text
  pub port : ℕ
  -- `String(n)`
  pub number_text : ℕ → Text
  -- Whether the library makes a client when it is asked for one
  pub creates : Bool

-- `left.priority - right.priority || right.weight - left.weight`
unfoldable pub compare_srv_records : SrvRecord → SrvRecord → ℤ
compare_srv_records left right =
    if left.priority == right.priority
    then sub_ℕ right.weight left.weight
    else sub_ℕ left.priority right.priority

abbrev pub is_negative : ℤ → Bool
is_negative (pos n) = false
is_negative (negsuc n) = true

-- `sort`, which is stable: a record goes before the first later one that it does not come after.
unfoldable pub insert_record : SrvRecord → List SrvRecord → List SrvRecord
unfolding compare_srv_records
insert_record r [] = r ∷ []
insert_record r (x ∷ xs) =
    let rest = insert_record r xs in
    if is_negative (compare_srv_records x r) then x ∷ rest else r ∷ x ∷ xs

unfoldable pub sort_records : List SrvRecord → List SrvRecord
unfolding insert_record
sort_records [] = []
sort_records (r ∷ rs) = insert_record r (sort_records rs)

-- '.' and ':'
abbrev pub dot : ℕ
dot = 46

abbrev pub colon : ℕ
colon = 58

-- `name.replace(/\.$/, '')`
unfoldable pub strip_dot : Text → Text
strip_dot [] = []
strip_dot (c ∷ []) = if c == dot then [] else c ∷ []
strip_dot (c ∷ d ∷ t) = c ∷ strip_dot (d ∷ t)

module _ (config : GrpcConfig) where
  abbrev pub configured_url : Text
  configured_url = config.host ++ colon ∷ config.number_text config.port

  unfoldable pub url_of : SrvRecord → Text
  unfolding strip_dot
  url_of r = strip_dot r.name ++ colon ∷ config.number_text r.port

  unfoldable pub resolve_payments_grpc_url : SrvAnswer → Text
  unfolding sort_records url_of
  resolve_payments_grpc_url (dns_error code) = configured_url
  resolve_payments_grpc_url (records rs) = elim (sort_records rs) [
    | [] ↦ configured_url
    | r ∷ rest ↦ url_of r
  ]

-- A client of the library, by its number, and the URL that it was made for
pub record GrpcClient : Type 0 where
  pub serial : ℕ
  pub url : Text

-- The fields of the service, and the clients that were made and that were closed.
pub record Connections : Type 0 where
  pub cached_client : Option GrpcClient
  pub cached_url : Option Text
  pub service_cache : List (RowId × ℕ)
  pub opened : List GrpcClient
  pub closed : List GrpcClient

-- `this.cachedUrl !== resolvedUrl`
abbrev is_url : Text → Option Text → Bool
is_url url none = false
is_url url (some t) = same t url

abbrev listed : Option GrpcClient → List GrpcClient
listed none = []
listed (some c) = c ∷ []

-- `this.cachedClient?.close?.()`
unfoldable pub close_cached : Connections → Connections
close_cached s = record s { closed = s.closed ++ listed s.cached_client }

-- `ClientProxyFactory.create` of the library, which throws where it cannot read the proto file.
unfoldable pub create_client : GrpcConfig → Text → Action Connections GrpcClient
create_client config url s =
    let client : GrpcClient = record { serial = length s.opened; url = url } in
    if config.creates
    then pure client (record s {
      cached_client = some client;
      cached_url = some url;
      opened = s.opened ++ client ∷ [];
    })
    else (err internal, s)

-- The old client is closed first, and stays cached where there is no new one.
unfoldable pub get_client : GrpcConfig → SrvAnswer → Action Connections GrpcClient
unfolding resolve_payments_grpc_url close_cached create_client
get_client config answer s =
    let url = resolve_payments_grpc_url config answer in
    let fresh = create_client config url (close_cached s) in
    elim s.cached_client [
      | none ↦ fresh
      | some c ↦ if is_url url s.cached_url then pure c s else fresh
    ]

-- `onModuleDestroy`
unfoldable pub on_module_destroy : Connections → Connections
unfolding close_cached
on_module_destroy = close_cached

unfoldable pub find_service : RowId → List (RowId × ℕ) → Option ℕ
find_service name [] = none
find_service name ((n, proxy) ∷ services) =
    if n == name then some proxy else find_service name services

-- The proxy of a service, by its number
unfoldable pub get_service : RowId → Action Connections ℕ
unfolding find_service
get_service name = do
  cached ← gets (λ s. find_service name s.service_cache)
  elim cached [
    | some proxy ↦ pure proxy
    | none ↦ do
      proxy ← gets (λ s. length s.service_cache)
      modify (λ s. record s { service_cache = s.service_cache ++ (name, proxy) ∷ [] })
      pure proxy
  ]

-- A method of the proxy of a service. `offers` tells the methods of a client's service, `invoke` what
-- a call of one comes to.
unfoldable pub call_method :
    {A : Type 0} (config : GrpcConfig) (offers : RowId → RowId → Bool)
    (invoke : GrpcClient → RowId → RowId → Result A)
    → SrvAnswer
    → RowId
    → RowId
    → Action Connections A
unfolding get_client
call_method config offers invoke answer service method = do
  client ← get_client config answer
  throw_if (not (offers service method)) internal
  lift (invoke client service method)
