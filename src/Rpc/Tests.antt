-- ===== src/Rpc/Tests.antt =====
-- A call that fails twice before it is answered, and a refusal of the wallet.
use gosplash.Prelude.{ℕ, ◌+◌, ltb, Option, none, some, false, if◌then◌else◌}
use gosplash.Rpc.Status.{Failure, unavailable, status_failure}
use gosplash.Rpc.Retry.{Context}

abbrev context : Context
context = record { draw = λ attempt bound. 0; time_left = λ attempt. none; ends = λ attempt. false }

abbrev busy : Failure
busy = status_failure (record { code = unavailable; message = "busy"; reason = none })

-- The state counts the calls.
abbrev third_time : ℕ → Option Failure × ℕ
third_time n = (if ltb n 2 then some busy else none, n + 1)
