-- ===== src/Payments/Client/Tests.antt =====
-- The theorems on the payments client at concrete inputs.
use rd_shop_backend.Base.{◌≡◌, ◌≢◌, refl, true, none, [], ◌∷◌, RowId, replicate, same, arith}
use rd_shop_backend.Base.Outcome.{Result, ok}
use rd_shop_backend.Payments.Client.{
  SrvRecord, records, dns_error, GrpcConfig, compare_srv_records, insert_record, sort_records,
  strip_dot, url_of, resolve_payments_grpc_url, GrpcClient, Connections, close_cached,
  create_client, get_client, call_method,
}
use rd_shop_backend.Payments.Client.Endpoint.{Chosen, resolve_payments_grpc_url-Chosen}
use rd_shop_backend.Payments.Client.Rotation.{IsSingle, here, dials, Calls-IsSingle}

code : Unit {0}
unfolding same compare_srv_records insert_record sort_records strip_dot url_of
    resolve_payments_grpc_url close_cached create_client get_client call_method
code = tt

abbrev config : GrpcConfig
config = record { host = 112 ∷ []; port = 2; number_text = λ n. replicate n 49; creates = true }

abbrev first : SrvRecord
first = record { name = 97 ∷ 46 ∷ []; port = 1; priority = 1; weight = 5 }

abbrev second : SrvRecord
second = record { name = 98 ∷ 46 ∷ []; port = 1; priority = 1; weight = 5 }

abbrev backup : SrvRecord
backup = record { name = 99 ∷ []; port = 1; priority = 2; weight = 9 }

abbrev empty : Connections
empty = record {
  cached_client = none;
  cached_url = none;
  service_cache = [];
  opened = [];
  closed = [];
}

resolve_payments_grpc_url-Chosen_example :
    (c : Chosen (backup ∷ first ∷ second ∷ [])) × (resolve_payments_grpc_url config
        (records (backup ∷ first ∷ second ∷ []))
      ≡ url_of config c.chosen)
resolve_payments_grpc_url-Chosen_example =
    resolve_payments_grpc_url-Chosen config backup (first ∷ second ∷ [])

abbrev invoke : GrpcClient → RowId → RowId → Result (Unit {0})
invoke c s m = ok tt

abbrev dialled : Connections
dialled = (call_method config (λ s m. true) invoke (records (first ∷ [])) 1 1 empty).1

abbrev rotated : Connections
rotated = (call_method config (λ s m. true) invoke (dns_error none) 1 1 dialled).1

Calls-IsSingle_example : IsSingle rotated
Calls-IsSingle_example =
    Calls-IsSingle config refl
      (dials (dns_error none) (λ s m. true) invoke 1 1
        (dials (records (first ∷ [])) (λ s m. true) invoke 1 1 here))
      (refl, refl)

abbrev with_first : Connections
with_first = (get_client config (records (first ∷ second ∷ [])) empty).1

abbrev with_second : Connections
with_second = (get_client config (records (second ∷ first ∷ [])) with_first).1

abbrev client_a : GrpcClient
client_a = record { serial = 0; url = 97 ∷ 58 ∷ 49 ∷ [] }

abbrev client_b : GrpcClient
client_b = record { serial = 1; url = 98 ∷ 58 ∷ 49 ∷ [] }

first_runs : get_client config (records (first ∷ second ∷ [])) empty ≡ (ok client_a, with_first)
unfolding code
first_runs = refl

second_runs :
    get_client config (records (second ∷ first ∷ [])) with_first ≡ (ok client_b, with_second)
unfolding code
second_runs = refl

urls_differ : url_of config first ≢ url_of config second
unfolding code
urls_differ e = ground (arith, e)
