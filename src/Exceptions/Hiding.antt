-- ===== src/Exceptions/Hiding.antt =====
-- What a client is not told, and the statuses of the two protocols.
use rd_shop_backend.Base.{
  ℕ, ◌≡◌, ◌≤◌, ◌↔◌, refl, Bool, true, false, not, ◌||◌, List, arith, ◌==◌, if◌then◌else◌, RowId,
}
use rd_shop_backend.Exceptions.{
  Exception, http_exception, base_error, query_failed, entity_not_found, unexpected, formatted,
  internal_server_error, http_message, extract_status, catch_http, internal_code, get_error_code,
  normalize_gql_error,
}

-- The errors that no code meant for a client
pub data InternalKind : Type 0 where
  from_query from_entity from_elsewhere : InternalKind

abbrev pub internal_error : InternalKind → RowId → Exception
internal_error from_query message = query_failed message
internal_error from_entity message = entity_not_found message
internal_error from_elsewhere message = unexpected message

-- The message of a failed query, a missing entity or an unexpected error reaches no client: over HTTP
-- the answer is the same whatever the message, with the status 500, and so it is over GraphQL in
-- production.
pub catch-hides :
    (stringify : RowId → RowId) (join : List RowId → RowId) (is_health_path : Bool)
    (k : InternalKind) (message message' : RowId)
    → (catch_http stringify is_health_path (internal_error k message)
        ≡ formatted 500 internal_server_error)
      × (normalize_gql_error join true (internal_error k message)
          ≡ normalize_gql_error join true (internal_error k message'))
unfolding catch_http extract_status http_message normalize_gql_error
catch-hides stringify join is_health_path from_query message message' = (refl, refl)
catch-hides stringify join is_health_path from_entity message message' = (refl, refl)
catch-hides stringify join is_health_path from_elsewhere message message' = (refl, refl)

-- A code of GraphQL says that the server failed exactly for the statuses from 500 on.
pub get_error_code-server : (status : ℕ) → (get_error_code status ≡ internal_code) ↔ (500 ≤ status)
unfolding get_error_code
get_error_code-server status = ground arith

abbrev pub is_base_error : Exception → Bool
is_base_error (base_error status message) = true
is_base_error _ = false

abbrev pub is_entity_not_found : Exception → Bool
is_entity_not_found (entity_not_found message) = true
is_entity_not_found _ = false

-- `BadRequestException` has the status 400.
abbrev pub is_consistent : Exception → Bool
is_consistent (http_exception f) = not f.is_bad_request || (f.status == 400)
is_consistent _ = true

-- The two protocols give an exception the same status, but for a missing entity, which is 404 over
-- GraphQL whatever it is over HTTP, and for the errors of the application, which have their own status
-- over HTTP and are unexpected errors, with the status 500, over GraphQL; if an exception of the class
-- for bad requests has the status 400.
pub normalize_gql_error-extract_status :
    (join : List RowId → RowId) (is_production : Bool) (e : Exception) (status message : RowId)
    → is_consistent e ≡ true
    → ((normalize_gql_error join is_production e).status_code ≡ (
        if is_base_error e then 500 else if is_entity_not_found e then 404 else extract_status e))
      × (extract_status (base_error status message) ≡ status)
unfolding normalize_gql_error extract_status
normalize_gql_error-extract_status join is_production e status message consistent =
    (ground arith, refl)
