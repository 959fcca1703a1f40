-- ===== src/Redisx/Lock/Watchdog.antt =====
-- What the watchdog of pkg/redisx/lock.go does for a lock: `runWatchdog` between two failures.
use gosplash.Redisx.Idempotency.{answered, not_reached}
use gosplash.Prelude.{
  ℕ, ◌+◌, ◌*◌, ◌/◌, ◌≤◌, ◌<◌, String, str_eq, eq_iff, List, [], ◌∷◌, true, false, ◌≡◌, inl, inr,
  arith, Bool-cases, none, refl, some, All, leb, subst, sym, Bool, Option, suc, zero,
}
use gosplash.Redisx.Lock.Counts.{act_others-commands}
use gosplash.Redisx.Lock.{
  Other, passes, loses, takes, act_other, act_others, take_if_free, attempt, retry, is_owned, Lock,
  LockEnv, World, Slot, value_of, put, is_over, count_command, Event, on_tick, on_pass, happen,
  send, tick, run_events, stop_watchdog, is_value, deliver, live_value, extend_script, after_extend,
  is_watched, remove, watchdog_interval, watchdog_fraction, millisecond,
}

-- The ticks of a watchdog after these pauses.
unfoldable pub ticks : Lock → List ℕ → List Event
ticks l [] = []
ticks l (t ∷ ts) = on_pass t ∷ on_tick l ∷ ticks l ts

unfoldable pub total : List ℕ → ℕ
total [] = 0
total (t ∷ ts) = t + total ts

-- What an extension keeps a key for.
abbrev extension : Lock → ℕ
extension l = l.ttl / millisecond * millisecond

interval_is_short : (l : Lock) → 3 * millisecond ≤ l.ttl → 2 * watchdog_interval l.ttl < extension l
unfolding watchdog_interval
interval_is_short l h = elim (Bool-cases (leb (l.ttl / watchdog_fraction) 0)) [
  | inl short ↦ absurd (ground arith)
  | inr long ↦ rw long (omega arith)
]

is_watched-remove : (t : String) (xs : List String) → is_watched t (remove t xs) ≡ false
unfolding is_watched remove
is_watched-remove t [] = refl
is_watched-remove t (x ∷ xs) = elim (Bool-cases (str_eq x t)) [
  | inl same ↦ rw same (is_watched-remove t xs)
  | inr other ↦ rw other (rw (is_watched, other) (is_watched-remove t xs))
]

abbrev owned_slot : Lock → ℕ → Slot
owned_slot l now = record { value = l.token; deadline = some (now + extension l) }

-- A command that is answered at once is sent once.
answered_once :
    (env : LockEnv) (more : ℕ) (command : World → Bool × World) (w : World)
    → env.reply w.commands ≡ answered
    → attempt env more command w
      ≡ (some (command (count_command w)).0, (command (count_command w)).1)
unfolding attempt deliver retry
answered_once env zero command w r = rw r refl
answered_once env (suc more) command w r = rw r refl

-- Nobody else takes the key.
unfoldable pub Leaves : String → Other → Type 0
Leaves k (passes t) = Unit
Leaves k (loses k') = Unit
Leaves k (takes k' s) = str_eq k k' ≡ false

is_over-later : (a b : ℕ) (d : Option ℕ) → a ≤ b → is_over a d ≡ true → is_over b d ≡ true
unfolding is_over
is_over-later a b none le h = h
is_over-later a b (some d) le h = ground arith

live-later : (a b : ℕ) (s : Option Slot) → a ≤ b → live_value a s ≡ none → live_value b s ≡ none
unfolding live_value
live-later a b none le h = refl
live-later a b (some s) le h = elim (Bool-cases (is_over a s.deadline)) [
  | inl over ↦ rw (is_over-later a b s.deadline le over) refl
  | inr live ↦ let kept : some s.value ≡ none = rw live at h in absurd (cc)
]

module _ (env : LockEnv) (l : Lock) where
  -- An answered tick of a watchdog that owns its lock.
  abbrev Extended : World → Type 0
  Extended w = (w.slots l.key ≡ some (owned_slot l w.now)) × (is_watched l.token w.watching ≡ true)

  tick-extends :
      (w : World)
      → env.reply w.commands ≡ answered
      → is_watched l.token w.watching ≡ true
      → is_owned l w ≡ true
      → Extended (tick env l w)
  unfolding tick send extend_script put after_extend is_owned value_of
  tick-extends w r watched owned =
      rw (watched, answered_once env env.max_retries (extend_script l) w r, owned)
        (rw ((eq_iff l.key l.key).1 refl) refl, watched)

  slot-owned :
      (since : ℕ) (w : World)
      → w.slots l.key ≡ some (owned_slot l since)
      → w.now < since + extension l
      → is_owned l w ≡ true
  unfolding is_owned value_of live_value is_over is_value
  slot-owned since w slot early =
      let live : leb (since + extension l) w.now ≡ false = ground arith in
      rw (slot, live) ((eq_iff l.token l.token).1 refl)

  ticks-owned :
      ((n : ℕ) → env.reply n ≡ answered)
      → 3 * millisecond ≤ l.ttl
      → (ts : List ℕ) → All (λ t. t ≤ 2 * watchdog_interval l.ttl) ts
      → (w : World) → Extended w
      → Extended (run_events env (ticks l ts) w)
  unfolding run_events happen ticks
  ticks-owned r long [] early w e = e
  ticks-owned r long (t ∷ ts) (early, later) w (slot, watched) =
      let w' : World = record w { now = w.now + t } in
      let short = interval_is_short l long in
      let owned = slot-owned w.now w' slot (omega arith) in
      ticks-owned r long ts later (tick env l w') (tick-extends w' (r w'.commands) watched owned)

  -- At the time d the key will be gone.
  unfoldable Gone : ℕ → World → Type 0
  Gone d w = live_value d (w.slots l.key) ≡ none

  lost-Gone : (d : ℕ) (k : String) (w : World) → Gone d w → Gone d (put k none w)
  unfolding Gone put live_value
  lost-Gone d k w h = elim (Bool-cases (str_eq l.key k)) [
    | inl same ↦ rw same refl
    | inr other ↦ rw other h
  ]

  take-Gone :
      (d : ℕ) (o : Option String) (k : String) (s : Slot) (w : World)
      → str_eq l.key k ≡ false
      → Gone d w
      → Gone d (take_if_free o k s w) × ((take_if_free o k s w).now ≡ w.now)
  unfolding Gone take_if_free put
  take-Gone d none k s w other h = (rw other h, refl)
  take-Gone d (some old) k s w other h = (h, refl)

  act_others-Gone :
      (d : ℕ) (acts : List Other) (w : World)
      → All (Leaves l.key) acts
      → Gone d w
      → Gone d (act_others acts w) × (w.now ≤ (act_others acts w).now)
  unfolding act_others act_other Leaves put Gone
  act_others-Gone d [] w h g = (g, omega arith)
  act_others-Gone d (passes t ∷ rest) w (h, hs) g =
      let (g', le) = act_others-Gone d rest (record w { now = w.now + t }) hs g in
      (g', omega (arith, le))
  act_others-Gone d (loses k ∷ rest) w (h, hs) g =
      act_others-Gone d rest (put k none w) hs (lost-Gone d k w g)
  act_others-Gone d (takes k s ∷ rest) w (h, hs) g =
      let (g₁, same) = take-Gone d (value_of k w) k s w h g in
      let (g', le) = act_others-Gone d rest (take_if_free (value_of k w) k s w) hs g₁ in
      (g', omega (arith, le, same))

  reply-at : (n m : ℕ) → n ≡ m → env.reply m ≡ not_reached → env.reply n ≡ not_reached
  reply-at n m e h = subst (λ i. env.reply i ≡ not_reached) (sym e) h

  -- A command of which no attempt reaches Redis.
  record Unsent (d : ℕ) (w : World) (p : Option Bool × World) : Type 0 where
    silent : p.0 ≡ none
    gone : Gone d p.1
    later : w.now ≤ p.1.now

  attempt-Unsent :
      (d : ℕ) (command : World → Bool × World)
      → ((i : ℕ) → All (Leaves l.key) (env.others i))
      → (more : ℕ) (w : World) → ((j : ℕ) → j ≤ more → env.reply (w.commands + j) ≡ not_reached)
      → Gone d w
      → Unsent d w (attempt env more command w)
  unfolding attempt deliver retry count_command Gone
  attempt-Unsent d command leaves zero w r g =
      rw (reply-at w.commands (w.commands + 0) (omega arith) (r 0 (omega arith)))
        (record { silent = refl; gone = g; later = omega arith })
  attempt-Unsent d command leaves (suc more) w r g =
      let cw = count_command w in
      let next = act_others (env.others cw.commands) cw in
      let (g', le) = act_others-Gone d (env.others cw.commands) cw (leaves cw.commands) g in
      let u =
        attempt-Unsent d command leaves more next
          (λ j small.
            reply-at (next.commands + j) (w.commands + suc j)
              (omega (arith, act_others-commands (env.others cw.commands) cw))
              (r (suc j) (omega (arith, small))))
          g' in
      rw (reply-at w.commands (w.commands + 0) (omega arith) (r 0 (omega arith)))
        (record { silent = u.silent; gone = u.gone; later = omega (arith, le, u.later) })

  tick-stopped : (w : World) → is_watched l.token w.watching ≡ false → tick env l w ≡ w
  unfolding tick
  tick-stopped w alone = rw alone refl

  ticks-lost :
      (d : ℕ) (ts : List ℕ) (w : World)
      → Gone d w
      → is_watched l.token w.watching ≡ false
      → d ≤ w.now + total ts
      → value_of l.key (run_events env (ticks l ts) w) ≡ none
  unfolding run_events happen ticks total value_of Gone
  ticks-lost d [] w g alone late = live-later d w.now (w.slots l.key) (omega (arith, late)) g
  ticks-lost d (t ∷ ts) w g alone late =
      let w' : World = record w { now = w.now + t } in
      subst (λ x. value_of l.key (run_events env (ticks l ts) x) ≡ none)
        (sym (tick-stopped w' alone)) (ticks-lost d ts w' g alone (omega arith))

  after_extend-silent :
      (p : Option Bool × World) → p.0 ≡ none → after_extend l p ≡ stop_watchdog l p.1
  unfolding after_extend
  after_extend-silent (none, w) h = refl
  after_extend-silent (some b, w) h = absurd (cc)

-- If every command is answered and the ttl is at least three milliseconds, the watchdog of a lock
-- that has its key keeps it, as long as each tick comes at most one interval late.
pub watchdog_keeps :
    (env : LockEnv) (l : Lock) (w : World)
    → ((n : ℕ) → env.reply n ≡ answered)
    → 3 * millisecond ≤ l.ttl
    → is_watched l.token w.watching ≡ true
    → is_owned l w ≡ true
    → (ts : List ℕ) → All (λ t. t ≤ 2 * watchdog_interval l.ttl) ts
    → is_owned l (run_events env (ticks l ts) (tick env l w)) ≡ true
watchdog_keeps env l w r long watched owned ts early =
    let short = interval_is_short l long in
    let e =
      ticks-owned env l r long ts early _ (tick-extends env l w (r w.commands) watched owned) in
    slot-owned env l _ _ e.0 (omega arith)

-- One extension that does not reach Redis, in none of the attempts that the client makes at it, ends
-- the watchdog: whatever becomes of later commands, and however often its ticker would tick until
-- then, the key is gone when the deadline that it had at that tick has come, unless somebody else
-- takes it between the attempts.
pub one_failed_tick :
    (env : LockEnv) (l : Lock) (w : World) (s : Slot) (d : ℕ)
    → ((j : ℕ) → j ≤ env.max_retries → env.reply (w.commands + j) ≡ not_reached)
    → ((i : ℕ) → All (Leaves l.key) (env.others i))
    → is_watched l.token w.watching ≡ true
    → w.slots l.key ≡ some s
    → s.deadline ≡ some d
    → (ts : List ℕ) → d ≤ w.now + total ts
    → value_of l.key (run_events env (ticks l ts) (tick env l w)) ≡ none
unfolding tick send stop_watchdog live_value is_over Gone
one_failed_tick env l w s d r leaves watched slot ends ts late =
    let over : leb d d ≡ true = ground arith in
    let p = attempt env env.max_retries (extend_script l) w in
    let u =
      attempt-Unsent env l d (extend_script l) leaves env.max_retries w r
        (rw (slot, ends, over) refl) in
    rw (watched, after_extend-silent env l p u.silent)
      (ticks-lost env l d ts (stop_watchdog l p.1) u.gone (is_watched-remove l.token p.1.watching)
        (omega (arith, late, u.later)))
