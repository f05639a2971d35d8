-- ===== src/Exceptions/Tests.antt =====
-- The theorems on the exception filter at concrete inputs.
use rd_shop_backend.Base.{◌≡◌, refl, true}
use rd_shop_backend.Exceptions.{base_error, normalize_gql_error, extract_status}
use rd_shop_backend.Exceptions.Hiding.{normalize_gql_error-extract_status}

normalize_gql_error-extract_status_example :
    ((normalize_gql_error (λ ms. 1) true (base_error 409 5)).status_code ≡ 500)
    × (extract_status (base_error 409 5) ≡ 409)
normalize_gql_error-extract_status_example =
    normalize_gql_error-extract_status (λ ms. 1) true (base_error 409 5) 409 5 refl
