-- ===== src/Redisx/Lock/Tests.antt =====
-- A lock that expires and is taken over, and its theorems at examples.
use gosplash.Prelude.{
  ◌≢◌, Bool-cases, inl, inr, eq_iff, str_eq, ◌≤◌, ◌+◌, false, true, ℕ, zero, suc, String, List, [],
  ◌∷◌, none, some, ◌≡◌, refl, sym, ◌∙◌, ap, arith, ◌==◌, if◌then◌else◌, ◌*◌,
}
use Prim.Native.Char.{code}
use gosplash.Redisx.Idempotency.{answered, unanswered, not_reached}
use gosplash.Redisx.Lock.{
  watchdog_interval, Lock, LockEnv, World, Event, on_acquire, on_tick, on_pass, acquire, unlock,
  run_events, not_ours, millisecond, tick, value_of, is_owned, Slot, is_watched, put, takes, send,
  stop_watchdog,
}
use gosplash.Redisx.Lock.Exclusive.{Tells, unlock-Tells}
use gosplash.Redisx.Lock.Answer.{idle}
use gosplash.Redisx.Lock.Steps.{Strange}
use gosplash.Redisx.Lock.Watchdog.{ticks, Leaves, total, one_failed_tick, watchdog_keeps}

unfoldable marks : ℕ → String
marks zero = ""
marks (suc n) = String.◌∷◌ "m" (marks n)

unfoldable length_of : String → ℕ
length_of String.[] = 0
length_of (String.◌∷◌ c s) = suc (length_of s)

length_of-marks : (n : ℕ) → length_of (marks n) ≡ n
unfolding length_of marks
length_of-marks zero = refl
length_of-marks (suc n) = ap suc (length_of-marks n)

marks_unique : (i j : ℕ) → marks i ≡ marks j → i ≡ j
marks_unique i j e = sym (length_of-marks i) ∙ (ap length_of e ∙ length_of-marks j)

-- The client tries twice. The second and third command, an extension, do not reach Redis, and
-- between them another key is taken.
abbrev lock_env : LockEnv
lock_env = record {
  token = marks;
  reply = λ n. if n == 1 then not_reached else if n == 2 then not_reached else answered;
  expiry = λ t. some t;
  max_retries = 1;
  others = λ n. takes "video" (record { value = "other"; deadline = none }) ∷ [];
}

-- The code of the first character, or 0.
unfoldable first_code : String → ℕ
first_code String.[] = 0
first_code (String.◌∷◌ c s) = code c

other_code : (j : ℕ) → first_code "other" ≢ first_code (marks j)
unfolding first_code marks
other_code zero h = absurd (omega (arith, h))
other_code (suc j) h = absurd (omega (arith, h))

marks-ne : (j : ℕ) → str_eq "other" (marks j) ≡ false
marks-ne j = elim (Bool-cases (str_eq "other" (marks j))) [
  | inr other ↦ other
  | inl same ↦ elim (other_code j (ap first_code ((eq_iff "other" (marks j)).0 same))) [ ]
]

abbrev no_keys : World
no_keys = record { slots = λ k. none; now = 0; commands = 0; watching = [] }

abbrev first_lock : Lock
first_lock = record { key = "photo"; token = marks 0; ttl = 30 * millisecond }

-- The answer to the first attempt of `Unlock` is lost; the script has run.
abbrev lossy_env : LockEnv
lossy_env = record lock_env { reply = λ n. if n == 1 then unanswered else answered }

called_not_ours :
    let since = (acquire lossy_env "photo" (30 * millisecond) no_keys).1 in
    (is_owned first_lock since ≡ true) × ((unlock lossy_env first_lock since).0 ≡ not_ours)
unfolding acquire unlock marks value_of is_owned put
called_not_ours = (refl, refl)

-- The extension fails, the ttl goes by, and another worker takes the lock.
abbrev taken_over : List Event
taken_over =
    on_pass (10 * millisecond)
    ∷ on_tick first_lock
    ∷ on_pass (20 * millisecond)
    ∷ on_acquire "photo" (30 * millisecond)
    ∷ []

said :
    (unlock lock_env first_lock
      (run_events lock_env taken_over (acquire lock_env "photo" (30 * millisecond) no_keys).1)).0
    ≡ not_ours
unfolding acquire unlock run_events marks value_of is_owned is_watched put
said = refl

unlock-Tells_example :
    let since = (acquire lock_env "photo" (30 * millisecond) no_keys).1 in
    let before = run_events lock_env taken_over since in
    let (u, after) = unlock lock_env first_lock before in
    Tells lock_env first_lock taken_over since u after
      (send lock_env idle (stop_watchdog first_lock before)).1
unfolding acquire marks value_of Strange
unlock-Tells_example =
    unlock-Tells lock_env marks_unique (λ i j. (marks-ne j, tt)) "photo" (30 * millisecond) no_keys
      first_lock refl taken_over

abbrev held_slot : Slot
held_slot = record { value = marks 0; deadline = some (30 * millisecond) }

abbrev locked : World
locked = record {
  slots = λ k. some held_slot;
  now = 10 * millisecond;
  commands = 1;
  watching = marks 0 ∷ [];
}

unreached : (j : ℕ) → j ≤ 1 → lock_env.reply (1 + j) ≡ not_reached
unreached zero h = refl
unreached (suc zero) h = refl
unreached (suc (suc j)) h = ground arith

one_failed_tick_example :
    value_of "photo" (
      run_events lock_env
        (ticks first_lock (20 * millisecond ∷ []))
        (tick lock_env first_lock locked))
    ≡ none
unfolding marks is_watched total Leaves
one_failed_tick_example =
    one_failed_tick lock_env first_lock locked held_slot (30 * millisecond) unreached
      (λ i. (refl, tt)) refl refl refl (20 * millisecond ∷ []) (omega arith)

-- Every command is answered.
abbrev calm_env : LockEnv
calm_env = record lock_env { reply = λ n. answered }

watchdog_keeps_example :
    is_owned first_lock (
      run_events calm_env
        (ticks first_lock (20 * millisecond ∷ []))
        (tick calm_env first_lock locked))
    ≡ true
unfolding marks is_watched watchdog_interval is_owned value_of
watchdog_keeps_example =
    watchdog_keeps calm_env first_lock locked (λ n. refl) (omega arith) refl refl
      (20 * millisecond ∷ []) (omega arith, tt)
