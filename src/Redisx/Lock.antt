-- ===== src/Redisx/Lock.antt =====
-- `Client.Acquire`, the watchdog and `Lock.Unlock` of pkg/redisx/lock.go. Redis is a map of keys to
-- values with deadlines, read at a clock in nanoseconds; a schedule of events stands for the callers,
-- the watchdogs and the clock.
pub mod Owner
pub mod Steps
pub mod Counts
pub mod Answer
pub mod Exclusive
pub mod Watchdog
mod Tests
use gosplash.Prelude.{
  ℕ, zero, suc, ◌+◌, ◌*◌, ◌/◌, String, List, [], ◌∷◌, Option, none, some, Bool, true, false, str_eq,
  leb, ltb, if◌then◌else◌,
}
use gosplash.Redisx.Idempotency.{Reply, answered, unanswered, not_reached}

-- A value, and when its key expires; none is never.
pub record Slot : Type 0 where
  pub value : String
  pub deadline : Option ℕ

-- `Lock`, whose ttl is in nanoseconds.
pub record Lock : Type 0 where
  pub key : String
  pub token : String
  pub ttl : ℕ

-- What happens between two attempts at one command: time passes, a key is lost or freed, or somebody
-- else sets a key that is free, if only for some time.
pub data Other : Type 0 where
  passes : ℕ → Other
  loses : String → Other
  takes : String → Slot → Other

-- The token that `uuid.NewString` gives, by the number of commands sent before, and the fate of the
-- n-th command; for how many nanoseconds SET NX of the client keeps a key for a ttl (none is for
-- ever); how often the client sends a command again that had no answer, the option MaxRetries of
-- client.go; and what happens before the n-th command if it is one sent again.
pub record LockEnv : Type 0 where
  pub token : ℕ → String
  pub reply : ℕ → Reply
  pub expiry : ℕ → Option ℕ
  pub max_retries : ℕ
  pub others : ℕ → List Other

-- `watching` are the tokens of the locks whose watchdogs run.
pub record World : Type 0 where
  pub slots : String → Option Slot
  pub now : ℕ
  pub commands : ℕ
  pub watching : List String

pub data Acquired : Type 0 where
  acquire_error busy : Acquired
  acquired : Lock → Acquired

pub data Unlocked : Type 0 where
  unlock_error not_ours released : Unlocked

abbrev pub millisecond : ℕ
millisecond = 1000000

abbrev pub watchdog_fraction : ℕ
watchdog_fraction = 3

unfoldable pub is_over : ℕ → Option ℕ → Bool
is_over now none = false
is_over now (some d) = leb d now

-- GET: an expired key has no value.
unfoldable pub live_value : ℕ → Option Slot → Option String
unfolding is_over
live_value now none = none
live_value now (some s) = if is_over now s.deadline then none else some s.value

unfoldable pub value_of : String → World → Option String
unfolding live_value
value_of k w = live_value w.now (w.slots k)

unfoldable pub put : String → Option Slot → World → World
put k s w = record w { slots = λ k'. if str_eq k' k then s else w.slots k' }

unfoldable pub is_value : String → Option String → Bool
is_value v none = false
is_value v (some v') = str_eq v' v

-- `redis.call('GET', KEYS[1]) == ARGV[1]`
unfoldable pub is_owned : Lock → World → Bool
unfolding is_value value_of
is_owned l w = is_value l.token (value_of l.key w)

-- `unlockScript`; true is a result other than 0.
unfoldable pub unlock_script : Lock → World → Bool × World
unfolding is_owned
unlock_script l w = if is_owned l w then (true, put l.key none w) else (false, w)

-- `extendScript`, with the milliseconds of the ttl
unfoldable pub extend_script : Lock → World → Bool × World
unfolding is_owned
extend_script l w =
    let slot : Slot = record {
      value = l.token;
      deadline = some (w.now + l.ttl / millisecond * millisecond);
    } in
    if is_owned l w then (true, put l.key (some slot) w) else (false, w)

unfoldable pub deadline_after : ℕ → Option ℕ → Option ℕ
deadline_after now none = none
deadline_after now (some t) = some (now + t)

-- The interval of the watchdog
unfoldable pub watchdog_interval : ℕ → ℕ
watchdog_interval ttl =
    let interval = ttl / watchdog_fraction in if leb interval 0 then 10 * millisecond else interval

unfoldable pub remove : String → List String → List String
remove t [] = []
remove t (x ∷ xs) = let rest = remove t xs in if str_eq x t then rest else x ∷ rest

unfoldable pub is_watched : String → List String → Bool
is_watched t [] = false
is_watched t (x ∷ xs) = let rest = is_watched t xs in if str_eq x t then true else rest

-- Either closes `stop` or ends the context: the watchdog returns.
unfoldable pub stop_watchdog : Lock → World → World
unfolding remove
stop_watchdog l w = record w { watching = remove l.token w.watching }

unfoldable pub count_command : World → World
count_command w = record w { commands = suc w.commands }

-- A command on its way: the answer, if it comes back, and the state it leaves.
unfoldable pub deliver : Reply → World → Bool × World → Option Bool × World
deliver answered w (b, w') = (some b, w')
deliver unanswered w (b, w') = (none, w')
deliver not_reached w (b, w') = (none, w)

-- Without an answer, the client may try again.
unfoldable pub retry : Option Bool × World → (World → Option Bool × World) → Option Bool × World
retry (some b, w) again = (some b, w)
retry (none, w) again = again w

unfoldable pub take_if_free : Option String → String → Slot → World → World
unfolding put
take_if_free none k s w = put k (some s) w
take_if_free (some old) k s w = w

unfoldable pub act_other : Other → World → World
unfolding take_if_free put value_of
act_other (passes t) w = record w { now = w.now + t }
act_other (loses k) w = put k none w
act_other (takes k s) w = take_if_free (value_of k w) k s w

unfoldable pub act_others : List Other → World → World
unfolding act_other
act_others [] w = w
act_others (a ∷ rest) w = act_others rest (act_other a w)

-- The case of the ticker in `runWatchdog`: an error ends the watchdog, any answer does not.
unfoldable pub after_extend : Lock → Option Bool × World → World
unfolding stop_watchdog
after_extend l (none, w) = stop_watchdog l w
after_extend l (some b, w) = w

unfoldable pub after_unlock : Option Bool × World → Unlocked × World
after_unlock (none, w) = (unlock_error, w)
after_unlock (some false, w) = (not_ours, w)
after_unlock (some true, w) = (released, w)

-- What is done with the answer to SET NX.
unfoldable pub after_claim : Lock → Option Bool × World → Acquired × World
after_claim l (none, w) = (acquire_error, w)
after_claim l (some false, w) = (busy, w)
after_claim l (some true, w) = (acquired l, record w { watching = l.token ∷ w.watching })

pub data Event : Type 0 where
  on_acquire : String → ℕ → Event
  on_tick on_cancel on_unlock : Lock → Event
  on_pass : ℕ → Event
  on_loss : String → Event

module _ (env : LockEnv) where
  -- SET NX, given the value that the key has.
  unfoldable pub claim_if_free : Option String → Lock → World → Bool × World
  unfolding deadline_after
  claim_if_free none l w =
      let slot : Slot = record {
        value = l.token;
        deadline = deadline_after w.now (env.expiry l.ttl);
      } in
      (true, put l.key (some slot) w)
  claim_if_free (some old) l w = (false, w)

  unfoldable pub claim_key : Lock → World → Bool × World
  unfolding claim_if_free
  claim_key l w = claim_if_free (value_of l.key w) l w

  -- A command with so many attempts left after this one.
  unfoldable pub attempt : ℕ → (World → Bool × World) → World → Option Bool × World
  unfolding deliver count_command retry act_others
  attempt zero command w =
      deliver (env.reply w.commands) (count_command w) (command (count_command w))
  attempt (suc more) command w =
      retry (deliver (env.reply w.commands) (count_command w) (command (count_command w)))
        (λ w'. attempt more command (act_others (env.others w'.commands) w'))

  -- A command as the client sends it.
  unfoldable pub send : (World → Bool × World) → World → Option Bool × World
  unfolding attempt
  send command w = attempt env.max_retries command w

  unfoldable pub acquire : String → ℕ → World → Acquired × World
  unfolding send claim_key after_claim
  acquire k ttl w =
      let l : Lock = record { key = k; token = env.token w.commands; ttl = ttl } in
      after_claim l (send (claim_key l) w)

  unfoldable pub tick : Lock → World → World
  unfolding send extend_script after_extend
  tick l w =
      let after = after_extend l (send (extend_script l) w) in
      if is_watched l.token w.watching then after else w

  unfoldable pub unlock : Lock → World → Unlocked × World
  unfolding send unlock_script after_unlock stop_watchdog
  unlock l w = after_unlock (send (unlock_script l) (stop_watchdog l w))

  -- Besides the clock, a key may be lost: evicted, or by a failover of Redis.
  unfoldable pub happen : Event → World → World
  unfolding acquire tick unlock
  happen (on_acquire k ttl) w = (acquire k ttl w).1
  happen (on_tick l) w = tick l w
  happen (on_cancel l) w = stop_watchdog l w
  happen (on_unlock l) w = (unlock l w).1
  happen (on_pass t) w = record w { now = w.now + t }
  happen (on_loss k) w = put k none w

  unfoldable pub run_events : List Event → World → World
  unfolding happen
  run_events [] w = w
  run_events (v ∷ vs) w = run_events vs (happen v w)
