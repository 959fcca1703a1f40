-- ===== src/Kafka/Backoff.antt =====
-- pkg/kafkax/backoff.go: `Backoff`. Durations are nanoseconds; `rand.Int64N` is a parameter.
pub mod Bounds
use gosplash.Prelude.{ℕ, ◌-◌, ◌*◌, ◌^◌, ltb, if◌then◌else◌}
use gosplash.Prelude.Int.{ℤ, pos, pos_part, ltb_ℤ, ◌+ℤ◌, wrap64}

abbrev pub max_retry_attempts : ℕ
max_retry_attempts = 3

abbrev pub backoff_base : ℕ
backoff_base = 200000000

abbrev pub backoff_cap : ℤ
backoff_cap = pos 30000000000

abbrev pub max_shift : ℕ
max_shift = 20

-- How often the base is doubled: one less than the attempt, but from 0 to `max_shift`.
unfoldable pub shift_of : ℤ → ℕ
shift_of attempt =
    let shift = pos_part attempt - 1 in if ltb max_shift shift then max_shift else shift

-- The largest delay before an attempt.
unfoldable pub ceiling : ℤ → ℤ
unfolding shift_of
ceiling attempt =
    let exponential = wrap64 (pos (backoff_base * 2 ^ shift_of attempt)) in
    if ltb_ℤ backoff_cap exponential then backoff_cap else exponential

-- `Backoff`, with a draw from 0 to below a bound.
unfoldable pub backoff : (ℤ → ℤ) → ℤ → ℤ
unfolding ceiling
backoff int64_n attempt = int64_n (wrap64 (ceiling attempt +ℤ pos 1))
