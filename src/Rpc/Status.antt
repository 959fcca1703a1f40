-- ===== src/Rpc/Status.antt =====
-- pkg/grpcx/errors.go: the gRPC status of an error, and the HTTP status of a gRPC code.
use gosplash.Prelude.{ℕ, String, Bool, Option, none, some, if◌then◌else◌, true, ◌≡◌, false, refl}

-- `google.golang.org/grpc/codes`
pub data Code : Type 0 where
  ok_code canceled unknown invalid_argument deadline_exceeded not_found already_exists : Code
  permission_denied resource_exhausted failed_precondition aborted_code out_of_range : Code
  unimplemented internal unavailable data_loss unauthenticated : Code

-- A gRPC status, with the machine-readable reason of its details.
pub record Status : Type 0 where
  pub code : Code
  pub message : String
  pub reason : Option String

-- A Go error, as `errors.As` sees it: its text, the gRPC status in its chain, and the code of the
-- `DomainError` in its chain.
pub record Failure : Type 0 where
  pub message : String
  pub grpc_status : Option Status
  pub grpc_code : Option Code

abbrev pub is_ok : Code → Bool
is_ok c = elim c [ ok_code ↦ true | _ ↦ false ]

-- A status as an error.
abbrev pub status_failure : Status → Failure
status_failure st = record { message = st.message; grpc_status = some st; grpc_code = none }

-- `Status.Err`: no error for the code OK.
unfoldable pub status_err : Status → Option Failure
status_err st = if is_ok st.code then none else some (status_failure st)

-- The code that `ToStatus` gives to an error without a status.
unfoldable pub code_of : Option Code → Code
code_of none = internal
code_of (some c) = c

module _ (details_fit : Status → Bool) where
  -- A new status, with the reason in its details where `WithDetails` takes them.
  unfoldable pub new_status : Code → String → String → Option Failure
  unfolding status_err
  new_status c text reason_text =
      let bare : Status = record { code = c; message = text; reason = none } in
      let detailed : Status = record { code = c; message = text; reason = some reason_text } in
      if details_fit detailed then status_err detailed else status_err bare

  -- A status for a code other than OK has that code and the text, whatever its details.
  pub new_status_lem :
      (c : Code) (text reason_text : String)
      → is_ok c ≡ false
      → (st : Status) × (new_status c text reason_text ≡ some (status_failure st))
        × (st.code ≡ c)
        × (st.message ≡ text)
  unfolding new_status status_err
  new_status_lem c text reason_text h =
      elim (details_fit (record { code = c; message = text; reason = some reason_text }))
        as (λ b.
          (st : Status) × ((if b
              then status_err (record { code = c; message = text; reason = some reason_text })
              else status_err (record { code = c; message = text; reason = none }))
            ≡ some (status_failure st))
          × (st.code ≡ c)
          × (st.message ≡ text)) [
            | true ↦ (
              record { code = c; message = text; reason = some reason_text },
              rw h refl,
              refl,
              refl,
            )
            | false ↦ (record { code = c; message = text; reason = none }, rw h refl, refl, refl)
          ]

  -- `ToStatus`
  unfoldable pub to_status : Option Failure → String → Option Failure
  unfolding code_of new_status status_err
  to_status none reason_text = none
  to_status (some e) reason_text = elim e.grpc_status [
    | some st ↦ status_err st
    | none ↦ new_status (code_of e.grpc_code) e.message reason_text
  ]

-- `status.Code`: OK for nil, and Unknown for an error that is no status.
unfoldable pub status_code : Option Failure → Code
status_code none = ok_code
status_code (some e) = elim e.grpc_status [ some st ↦ st.code | none ↦ unknown ]

-- `CodeToHTTPStatus`
unfoldable pub code_to_http_status : Code → ℕ
code_to_http_status ok_code = 200
code_to_http_status canceled = 499
code_to_http_status invalid_argument = 400
code_to_http_status failed_precondition = 400
code_to_http_status out_of_range = 400
code_to_http_status deadline_exceeded = 504
code_to_http_status not_found = 404
code_to_http_status already_exists = 409
code_to_http_status aborted_code = 409
code_to_http_status permission_denied = 403
code_to_http_status unauthenticated = 401
code_to_http_status resource_exhausted = 429
code_to_http_status unimplemented = 501
code_to_http_status unavailable = 503
code_to_http_status data_loss = 500
code_to_http_status internal = 500
code_to_http_status unknown = 500
