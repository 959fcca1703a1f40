-- ===== src/Rpc/Retry/Attempts.antt =====
-- How often `Do` calls its operation: pkg/resilience/retry.go.
use gosplash.Prelude.{Option, ℕ, List, ◌∷◌, ◌≡◌, ◌≤◌, All, true, length}
use gosplash.Rpc.Retry.{Recorded, is_retryable}
use gosplash.Rpc.Status.{Failure}

-- The operation with a log of its answers, newest first.
unfoldable pub logged :
    {S : Type 0}
    → (S → Option Failure × S)
    → S × List (Option Failure)
    → Option Failure × (S × List (Option Failure))
logged op (s, h) = let (e, s') = op s in (e, (s', e ∷ h))

-- What a call of `Do` may leave in the log: its own answer, after at most so many failures, each
-- of a kind that is worth another attempt.
abbrev pub Tried :
    {S : Type 0} → ℕ → Option Failure × (S × List (Option Failure)) × Recorded → Type 0
Tried more result =
    (earlier : List (Option Failure)) × (result.1.1 ≡ result.0 ∷ earlier)
    × All (λ e. is_retryable e ≡ true) earlier
    × (length earlier ≤ more)
