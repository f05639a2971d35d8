-- ===== src/Exceptions.antt =====
-- GlobalExceptionFilter (apps/shop/src/common/filters): what a client is told of an exception, over HTTP
-- and over GraphQL. `JSON.stringify` of a value that is not a string is a parameter; request ids, the
-- time and logs are left out.
pub mod Hiding
mod Tests
use rd_shop_backend.Base.{
  ℕ, zero, suc, Bool, true, false, not, ◌&&◌, ◌||◌, Option, none, some, List, [], ◌∷◌, map, ◌==◌,
  leb, if◌then◌else◌, RowId, truthy,
}

-- An element of an array of messages: a string or another value
pub data Part : Type 0 where
  text_part : RowId → Part
  value_part : RowId → Part

-- The `message` of an object: missing, a string, or an array
pub data Message : Type 0 where
  no_message : Message
  one_message : RowId → Message
  messages : List RowId → Message

-- The response of an HTTP exception: a string, an array, or an object with its `message`, its `error`
-- where that is a string, and the value itself, none for `{}`
pub data Response : Type 0 where
  text_response : RowId → Response
  array_response : List Part → Response
  object_response : Message → Option RowId → Option RowId → Response

pub record HttpFailure : Type 0 where
  pub status : ℕ
  -- `instanceof BadRequestException`
  pub is_bad_request : Bool
  pub response : Response
  pub message : RowId

-- What is thrown, by the classes that the filter tells apart, with its message. `base_error` has its
-- `httpStatus`; a value that is no `Error` is unexpected too, with its text.
pub data Exception : Type 0 where
  http_exception : HttpFailure → Exception
  base_error : ℕ → RowId → Exception
  query_failed entity_not_found unexpected : RowId → Exception

-- A constant text of the filter
pub data Told : Type 0 where
  internal_server_error an_error_occurred : Told
  validation_failed database_operation_failed resource_not_found : Told
  an_unexpected_error_occurred : Told
  told : RowId → Told
  told_all : List RowId → Told

-- `JSON.stringify`
module _ (stringify : RowId → RowId) where
  abbrev part_text : Part → RowId
  part_text (text_part s) = s
  part_text (value_part v) = stringify v

  -- `formatMessage` of what `extractMessage` gives of a response: the message of an object that has one,
  -- and else the response
  unfoldable pub format_message : Response → Told
  format_message (text_response s) = told s
  format_message (array_response parts) = told_all (map part_text parts)
  format_message (object_response (one_message s) error value) = told s
  format_message (object_response (messages ms) error value) = told_all ms
  format_message (object_response no_message (some error) value) = told error
  format_message (object_response no_message none (some value)) = told (stringify value)
  format_message (object_response no_message none none) = an_error_occurred

  -- `formatMessage(extractMessage(exception))`
  unfoldable pub http_message : Exception → Told
  unfolding format_message
  http_message (http_exception f) = format_message f.response
  http_message (base_error status message) = told message
  http_message _ = internal_server_error

unfoldable pub extract_status : Exception → ℕ
extract_status (http_exception f) = f.status
extract_status (base_error status message) = status
extract_status _ = 500

-- The status and the body: of a health path, the response of an HTTP exception as it is
pub data HttpAnswer : Type 0 where
  as_it_is : ℕ → Response → HttpAnswer
  formatted : ℕ → Told → HttpAnswer

-- `catch`, over HTTP
unfoldable pub catch_http : (RowId → RowId) → Bool → Exception → HttpAnswer
unfolding http_message extract_status
catch_http stringify is_health_path (http_exception f) =
    if is_health_path
    then as_it_is f.status f.response
    else formatted (extract_status (http_exception f)) (http_message stringify (http_exception f))
catch_http stringify is_health_path exception =
    formatted (extract_status exception) (http_message stringify exception)

-- The codes of GraphQL errors
pub data ErrorCode : Type 0 where
  bad_user_input conflict_code forbidden_code not_found_code unauthenticated : ErrorCode
  internal_code bad_request_code database_error : ErrorCode

unfoldable pub get_error_code : ℕ → ErrorCode
get_error_code status =
    if status == 400
    then bad_user_input
    else if status == 409
    then conflict_code
    else if status == 403
    then forbidden_code
    else if status == 404
    then not_found_code
    else if status == 401
    then unauthenticated
    else if status == 422
    then bad_user_input
    else if leb 500 status
    then internal_code
    else bad_request_code

-- `ErrorResponse`: the extensions are the validation errors, or the original message.
pub data Extensions : Type 0 where
  no_extensions : Extensions
  validation_errors : Response → Extensions
  original_error : RowId → Extensions

pub record ErrorResponse : Type 0 where
  pub code : ErrorCode
  pub extensions : Extensions
  pub message : Told
  pub status_code : ℕ

-- `response.message || response`
unfoldable pub validation_of : Response → Response
validation_of (object_response (one_message (suc s)) error value) = text_response (suc s)
validation_of (object_response (messages ms) error value) = array_response (map text_part ms)
validation_of response = response

-- `typedResponse || exception.message`, where an array is joined: `join` is `join(', ')`.
module _ (join : List RowId → RowId) where
  abbrev or_message : RowId → RowId → RowId
  or_message message zero = message
  or_message message s = s

  unfoldable pub error_message : HttpFailure → RowId
  error_message f = elim f.response [
    | text_response s ↦ or_message f.message s
    | array_response parts ↦ f.message
    | object_response m error value ↦ elim m [
      | no_message ↦ f.message
      | one_message s ↦ or_message f.message s
      | messages ms ↦ join ms
    ]
  ]

  unfoldable pub normalize_gql_error : Bool → Exception → ErrorResponse
  unfolding get_error_code error_message validation_of
  normalize_gql_error is_production (http_exception f) =
      if f.is_bad_request
      then record {
        code = bad_user_input;
        extensions = validation_errors (validation_of f.response);
        message = validation_failed;
        status_code = 400;
      }
      else record {
        code = get_error_code f.status;
        extensions = no_extensions;
        message = told (error_message f);
        status_code = f.status;
      }
  normalize_gql_error is_production (query_failed message) = record {
    code = database_error;
    extensions = no_extensions;
    message = database_operation_failed;
    status_code = 500;
  }
  normalize_gql_error is_production (entity_not_found message) = record {
    code = not_found_code;
    extensions = no_extensions;
    message = resource_not_found;
    status_code = 404;
  }
  normalize_gql_error is_production (base_error status message) = record {
    code = internal_code;
    extensions = if is_production then no_extensions else original_error message;
    message = an_unexpected_error_occurred;
    status_code = 500;
  }
  normalize_gql_error is_production (unexpected message) = record {
    code = internal_code;
    extensions = if is_production then no_extensions else original_error message;
    message = an_unexpected_error_occurred;
    status_code = 500;
  }
