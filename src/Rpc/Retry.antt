-- ===== src/Rpc/Retry.antt =====
-- pkg/resilience/retry.go: `Retrier`. Delays are whole nanoseconds, which the floats of the source
-- hold exactly below 2^53. The random draw, the deadline and the cancellation are parameters.
pub mod Attempts
use gosplash.Prelude.{
  ℕ, zero, suc, ◌+◌, ◌*◌, ◌^◌, Bool, true, false, ◌&&◌, not, Option, none, some, ltb, if◌then◌else◌,
  ◌-◌,
}
use gosplash.Rpc.Status.{Code, unavailable, deadline_exceeded, Failure, status_code}

pub record RetryConfig : Type 0 where
  pub max_attempts : ℕ
  pub base_delay : ℕ
  pub max_delay : ℕ

-- `DefaultRetryConfig`
abbrev pub default_retry_config : RetryConfig
default_retry_config = record { max_attempts = 4; base_delay = 50000000; max_delay = 2000000000 }

-- `NewRetrier`; `Idempotent` is true.
pub record Retrier : Type 0 where
  pub cfg : RetryConfig
  pub idempotent : Bool

unfoldable pub new_retrier : RetryConfig → Bool → Retrier
new_retrier cfg idempotency =
    let at_least_one = if ltb cfg.max_attempts 1 then 1 else cfg.max_attempts in
    record { cfg = record cfg { max_attempts = at_least_one }; idempotent = idempotency }

-- `IsRetryable`
unfoldable pub is_retryable : Option Failure → Bool
is_retryable none = false
is_retryable (some e) = elim (status_code (some e)) [
  | unavailable ↦ true
  | deadline_exceeded ↦ true
  | _ ↦ false
]

-- The `result` label of the metric.
pub data Recorded : Type 0 where
  success failure non_retryable deadline ctx_done attempts_exhausted : Recorded

-- What the call's context does: the random draw below a bound for an attempt, the time left before
-- the deadline after an attempt, and whether it ends during the pause.
pub record Context : Type 0 where
  pub draw : ℕ → ℕ → ℕ
  pub time_left : ℕ → Option ℕ
  pub ends : ℕ → Bool

-- `fullJitterDelay`
unfoldable pub full_jitter_delay : Context → RetryConfig → ℕ → ℕ
full_jitter_delay ctx cfg attempt =
    let exponential = cfg.base_delay * 2 ^ attempt in
    let capped =
      if ltb 0 cfg.max_delay && ltb cfg.max_delay exponential then cfg.max_delay else exponential in
    if ltb 0 capped then ctx.draw attempt capped else 0

-- Whether the deadline comes before the end of the pause.
unfoldable pub too_late : Option ℕ → ℕ → Bool
too_late none delay = false
too_late (some left) delay = ltb left delay

-- What stops the loop before or during the pause after an attempt.
unfoldable pub pause : Context → RetryConfig → ℕ → Option Recorded
unfolding too_late
pause ctx cfg attempt =
    if too_late (ctx.time_left attempt) (full_jitter_delay ctx cfg attempt)
    then some deadline
    else if ctx.ends attempt
    then some ctx_done
    else none

-- The two returns of the loop's body that do not ask for another attempt.
unfoldable pub or_again :
    {S : Type 0}
    → Option Failure × S
    → (Failure → S → Option Failure × S × Recorded)
    → Option Failure × S × Recorded
or_again (none, s) again = (none, s, success)
or_again (some f, s) again = elim (is_retryable (some f)) [
  | false ↦ (some f, s, non_retryable)
  | true ↦ again f s
]

module _ {S : Type 0} (ctx : Context) (op : S → Option Failure × S) where
  -- The loop of `Do`, from an attempt on: how many more may follow it, and its number.
  unfoldable pub attempts : RetryConfig → ℕ → ℕ → S → Option Failure × S × Recorded
  unfolding or_again
  attempts cfg zero attempt s = or_again (op s) (λ f s'. (some f, s', attempts_exhausted))
  attempts cfg (suc rest) attempt s = or_again (op s) (λ f s'. elim (pause ctx cfg attempt) [
    | some why ↦ (some f, s', why)
    | none ↦ attempts cfg rest (attempt + 1) s'
  ])

  -- The branch of `Do` for operations that must not be repeated.
  unfoldable pub only_once : S → Option Failure × S × Recorded
  only_once s =
      let (e, s') = op s in elim e [ none ↦ (none, s', success) | some f ↦ (some f, s', failure) ]

  -- `Do`: the error, the state of what the operation calls, and what the metric records.
  unfoldable pub do_retrier : Retrier → S → Option Failure × S × Recorded
  unfolding attempts only_once
  do_retrier r s = if r.idempotent then attempts r.cfg (r.cfg.max_attempts - 1) 0 s else only_once s
