-- ===== src/Search/Errors.antt =====
-- Errors of the search index: services/search/internal/adapters/es/errors.go and domain/errors.go.
use gosplash.Prelude.{ℕ, String, Option, none, some, Bool, ◌||◌, str_eq, if◌then◌else◌, ltb}

-- An error with `ErrInvalidDocument` or `ErrIndexUnavailable` in its chain, and the error of a
-- context; each with its text.
pub data IndexFailure : Type 0 where
  invalid_document index_unavailable context_ended : String → IndexFailure

-- One entry of an item of the reply to _bulk: `bulkResponseItem`, its error with type and reason.
pub record BulkItem : Type 0 where
  pub status : ℕ
  pub failure : Option (String × String)

-- `errType` and `errReason`
unfoldable pub err_type : Option (String × String) → String
err_type none = ""
err_type (some (t, r)) = t

unfoldable pub err_reason : Option (String × String) → String
err_reason none = ""
err_reason (some (t, r)) = r

-- `permanentErrorTypes`
unfoldable pub is_permanent_type : String → Bool
is_permanent_type t =
    str_eq t "mapper_parsing_exception"
    || (str_eq t "strict_dynamic_mapping_exception" || str_eq t "illegal_argument_exception")

-- `classifyBulkItemErr`; none is no error.
unfoldable pub classify_bulk_item_err : ℕ → String → String → Option IndexFailure
unfolding is_permanent_type
classify_bulk_item_err status type_name reason =
    if ltb status 300
    then none
    else if str_eq type_name "version_conflict_engine_exception"
    then none
    else if is_permanent_type type_name
    then some (invalid_document reason)
    else some (index_unavailable reason)

-- `classifyTransportErr` and `classifyHTTPStatusErr`
unfoldable pub classify_transport_err : String → IndexFailure
classify_transport_err text = index_unavailable text

unfoldable pub classify_http_status_err : String → IndexFailure
classify_http_status_err text = index_unavailable text
