-- ===== src/Wallet/Server/Refusals.antt =====
-- What the callers make of the errors of adapters/grpc/errors.go.
use gosplash.Prelude.{String, Bool, some, ◌≡◌, ltb, true, false, arith}
use gosplash.Rpc.Status.{
  Status, Failure, status_code, code_to_http_status, Code, to_status, code_of, is_ok,
  new_status_lem, status_failure,
}
use gosplash.Rpc.Retry.{is_retryable}
use gosplash.Order.Activities.{classify_grpc_error, permanent, transient}
use gosplash.Wallet.Domain.{storage, insert_conflict, bad_json, Error}
use gosplash.Wallet.Server.{to_domain_status, domain_code}

-- An error that the domain declares.
abbrev pub is_domain : Error → Bool
is_domain storage = false
is_domain insert_conflict = false
is_domain bad_json = false
is_domain _ = true

-- The code of the status of an error.
abbrev pub refusal_code : Error → Code
refusal_code e = code_of (domain_code e)

refusal_lem :
    (details_fit : Status → Bool) (error_text : Error → String) (e : Error) (reason : String)
    → is_ok (refusal_code e) ≡ false
    → (f : Failure) × (to_domain_status details_fit error_text e reason ≡ some f)
      × (status_code (some f) ≡ refusal_code e)
      × (f.message ≡ error_text e)
unfolding to_domain_status to_status status_code
refusal_lem details_fit error_text e reason h =
    let (st, h₀, h₁, h₂) = new_status_lem details_fit (refusal_code e) (error_text e) reason h in
    (status_failure st, h₀, h₁, h₂)

refusal_not_ok : (e : Error) → is_ok (refusal_code e) ≡ false
unfolding domain_code code_of
refusal_not_ok e = ground arith

-- What the callers decide from the status alone.
abbrev pub Verdict : Bool → Failure → Type 0
Verdict true f =
    (classify_grpc_error (some f) ≡ some (permanent f))
    × (ltb (code_to_http_status (status_code (some f))) 500 ≡ true)
Verdict false f =
    (classify_grpc_error (some f) ≡ some (transient f))
    × (code_to_http_status (status_code (some f)) ≡ 500)

verdict_lem :
    (e : Error) (f : Failure)
    → status_code (some f) ≡ refusal_code e
    → (is_retryable (some f) ≡ false) × Verdict (is_domain e) f
unfolding is_retryable classify_grpc_error code_to_http_status domain_code code_of
verdict_lem e f h = ground arith

-- Whatever the wallet refuses, in whatever text and with or without details, reaches its callers
-- as an error with that text; no `Retrier` repeats the call; and the saga gives up at once, and the
-- edge answers with a status below 500, exactly where the error is one that the domain declares:
-- after any other error (a failed statement, a conflict, unreadable JSON) Temporal tries again, and
-- the HTTP status is 500.
pub wallet_refusals :
    (details_fit : Status → Bool) (error_text : Error → String) (e : Error) (reason : String)
    → (f : Failure) × (to_domain_status details_fit error_text e reason ≡ some f)
      × (f.message ≡ error_text e)
      × (is_retryable (some f) ≡ false)
      × Verdict (is_domain e) f
wallet_refusals details_fit error_text e reason =
    let (f, h₀, h₁, h₂) = refusal_lem details_fit error_text e reason (refusal_not_ok e) in
    let (k₀, k₁) = verdict_lem e f h₁ in (f, h₀, h₂, k₀, k₁)
