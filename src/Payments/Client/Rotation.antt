-- ===== src/Payments/Client/Rotation.antt =====
-- The cached client: at most one is open, and it is the one for the URL that was resolved last.
use rd_shop_backend.Base.{
  ◌≡◌, ◌≢◌, refl, sym, ◌∙◌, Bool, true, false, Option, none, some, List, [], ◌∷◌, ◌++◌, arith,
  RowId, Option-cases, inl, inr, Text, same, same_sound, same_refl, length,
}
use rd_shop_backend.Base.Outcome.{Result, ok, err}
use rd_shop_backend.Payments.Client.{
  SrvRecord, SrvAnswer, records, GrpcConfig, resolve_payments_grpc_url, url_of, GrpcClient,
  call_method, Connections, close_cached, create_client, get_client, get_service, find_service,
  compare_srv_records, insert_record, sort_records,
}

-- Every client that was opened is closed, in the order of their making, but the cached one, which is
-- for the cached URL.
abbrev pub IsSingleOf : Connections → Option GrpcClient → Type 0
IsSingleOf s none = (s.opened ≡ []) × (s.closed ≡ [])
IsSingleOf s (some c) = (s.cached_url ≡ some c.url) × (s.opened ≡ s.closed ++ c ∷ [])

abbrev pub IsSingle : Connections → Type 0
IsSingle s = IsSingleOf s s.cached_client

-- What a call of `get_client` has done, from a state with at most one open client
pub record Current (config : GrpcConfig) (answer : SrvAnswer) (s s' : Connections) (c : GrpcClient)
    : Type 0 where
  pub target : c.url ≡ resolve_payments_grpc_url config answer
  pub cached : s'.cached_client ≡ some c
  pub single : IsSingle s'
  pub reused :
      (old : GrpcClient)
      → s.cached_client ≡ some old
      → old.url ≡ resolve_payments_grpc_url config answer
      → (c ≡ old) × (s' ≡ s)
  pub rotated :
      (old : GrpcClient)
      → s.cached_client ≡ some old
      → old.url ≢ resolve_payments_grpc_url config answer
      → s'.closed ≡ s.closed ++ old ∷ []

append_nil : (xs : List GrpcClient) → xs ++ [] ≡ xs
append_nil [] = refl
append_nil (x ∷ xs) = ground (arith, append_nil xs)

-- `get_client` gives the client for the URL that the answer resolves to, which is then the only one
-- that is open: the cached client is used again exactly when its URL is the same, and is closed once
-- when it is not, if at most one client was open.
pub get_client-Current :
    (config : GrpcConfig) (answer : SrvAnswer) (s s' : Connections) (c : GrpcClient)
    → get_client config answer s ≡ (ok c, s')
    → IsSingle s
    → Current config answer s s' c
unfolding get_client close_cached create_client
get_client-Current config answer s s' c h single = by_cached s.cached_client refl single
  where
    url : Text
    url = resolve_payments_grpc_url config answer

    by_url :
        (old : GrpcClient)
        → s.cached_client ≡ some old
        → IsSingleOf s (some old)
        → (b : Bool) → same old.url url ≡ b
        → Current config answer s s' c
    by_url old e kept true f =
        let at : old.url ≡ url = same_sound old.url url f in
        let used : (c ≡ old) × (s' ≡ s) = ground (arith, e, kept, f) in
        record {
          target = ground (arith, used, at);
          cached = ground (arith, used, e);
          single = ground (arith, used, e, kept);
          reused = λ other e' same_url. ground (arith, e, e', used);
          rotated = λ other e' differs. absurd (differs (ground (arith, e, e', at)));
        }
    by_url old e kept false f =
        let closed : s'.closed ≡ s.closed ++ old ∷ [] = ground (arith, e, kept, f) in
        record {
          target = ground (arith, e, kept, f);
          cached = ground (arith, e, kept, f);
          single = ground (arith, e, kept, f);
          reused = λ other e' same_url. absurd (ground (arith, e, e', f, same_url, same_refl url));
          rotated = λ other e' differs. ground (arith, closed, e, e');
        }

    by_cached :
        (o : Option GrpcClient)
        → s.cached_client ≡ o
        → IsSingleOf s o
        → Current config answer s s' c
    by_cached none e empty =
        let closed : s'.closed ≡ [] = ground (arith, e, empty) in
        record {
          target = ground (arith, e, empty);
          cached = ground (arith, e, empty);
          single = ground (arith, e, empty);
          reused = λ other e' same_url. absurd (ground (arith, e, e'));
          rotated = λ other e' differs. absurd (ground (arith, e, e'));
        }
    by_cached (some old) e kept = by_url old e kept (same old.url url) refl

get_client_ok :
    (config : GrpcConfig) (answer : SrvAnswer) (s : Connections)
    → config.creates ≡ true
    → (c : GrpcClient) × (get_client config answer s ≡ (ok c, (get_client config answer s).1))
unfolding get_client create_client
get_client_ok config answer s made = by_result (get_client config answer s).0 refl
  where
    by_result :
        (r : Result GrpcClient)
        → (get_client config answer s).0 ≡ r
        → (c : GrpcClient) × (get_client config answer s ≡ (ok c, (get_client config answer s).1))
    by_result (ok c) e = (c, ground (arith, e))
    by_result (err x) e = absurd (ground arith)

call_method-get_client :
    {A : Type 0} (config : GrpcConfig) (offers : RowId → RowId → Bool)
    (invoke : GrpcClient → RowId → RowId → Result A) (answer : SrvAnswer) (service method : RowId)
    (s : Connections)
    → config.creates ≡ true
    → (call_method config offers invoke answer service method s).1 ≡ (get_client config answer s).1
unfolding call_method
call_method-get_client config offers invoke answer service method s made =
    let (c, h) = get_client_ok config answer s made in ground (arith, h)

get_service-IsSingle :
    (name : RowId) (s : Connections) → IsSingle s → IsSingle (get_service name s).1
unfolding get_service
get_service-IsSingle name s h = elim (Option-cases (find_service name s.service_cache)) [
  | inl e ↦
      let added : Connections = record s {
        service_cache = s.service_cache ++ (name, length s.service_cache) ∷ [];
      } in
      let left : (get_service name s).1 ≡ added = ground (arith, e) in rw left h
  | inr (proxy, e) ↦ let left : (get_service name s).1 ≡ s = ground (arith, e) in rw left h
]

-- The calls of the service, one after the other
pub data Calls (config : GrpcConfig) (s : Connections) : Connections → Type 0 where
  here : Calls config s s
  names :
      {s' : Connections} (name : RowId) → Calls config s s' → Calls config s (get_service name s').1
  dials :
      {s' : Connections} (answer : SrvAnswer) (offers : RowId → RowId → Bool)
      (invoke : GrpcClient → RowId → RowId → Result (Unit {0})) (service method : RowId)
      → Calls config s s'
      → Calls config s (call_method config offers invoke answer service method s').1

-- In any sequence of calls, whatever the lookups answer and whether the calls of the payments service
-- fail or not, every client that was ever opened is closed exactly once, but the cached one, which is
-- open and for the cached URL: as long as the service is not shut down and the library makes every
-- client that it is asked for.
pub Calls-IsSingle :
    (config : GrpcConfig)
    → config.creates ≡ true
    → {s s' : Connections} → Calls config s s'
    → IsSingle s
    → IsSingle s'
Calls-IsSingle config made here single = single
Calls-IsSingle config made (names {s' = s'} name run) single =
    get_service-IsSingle name s' (Calls-IsSingle config made run single)
Calls-IsSingle config made (dials {s' = s'} answer offers invoke service method run) single =
    let (c, h) = get_client_ok config answer s' made in
    let now =
      get_client-Current config answer s' (get_client config answer s').1 c h
        (Calls-IsSingle config made run single) in
    rw (call_method-get_client config offers invoke answer service method s' made) now.single

-- The order in which the resolver lists two records of the same priority and weight decides which one is
-- dialled: if it lists them the other way round for the next call, that call closes the client that was
-- opened for the first.
pub get_client_flaps :
    (config : GrpcConfig) (a b : SrvRecord) (s s' s'' : Connections) (c d : GrpcClient)
    → a.priority ≡ b.priority
    → a.weight ≡ b.weight
    → url_of config a ≢ url_of config b
    → IsSingle s
    → get_client config (records (a ∷ b ∷ [])) s ≡ (ok c, s')
    → get_client config (records (b ∷ a ∷ [])) s' ≡ (ok d, s'')
    → (s''.closed ≡ s'.closed ++ c ∷ []) × (d.url ≡ url_of config b)
unfolding resolve_payments_grpc_url sort_records insert_record compare_srv_records
get_client_flaps config a b s s' s'' c d priority weight differ single first second =
    let now = get_client-Current config (records (a ∷ b ∷ [])) s s' c first single in
    let later = get_client-Current config (records (b ∷ a ∷ [])) s' s'' d second now.single in
    let dialled_a : c.url ≡ url_of config a = ground (arith, now.target) in
    let dialled_b : resolve_payments_grpc_url config (records (b ∷ a ∷ [])) ≡ url_of config b =
      ground arith in
    (
      later.rotated c now.cached (λ e. differ (sym dialled_a ∙ e ∙ dialled_b)),
      later.target ∙ dialled_b,
    )
