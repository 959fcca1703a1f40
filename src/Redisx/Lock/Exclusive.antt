-- ===== src/Redisx/Lock/Exclusive.antt =====
-- What `Unlock` of pkg/redisx/lock.go tells its caller about the time since `Acquire`.
use gosplash.Redisx.Lock.Owner.{is_value-slot}
use gosplash.Redisx.Idempotency.{Reply, answered, unanswered, not_reached}
use gosplash.Prelude.{
  ℕ, ◌≤◌, String, str_eq, eq_iff, List, [], ◌∷◌, Bool, true, false, ◌≡◌, inl, inr, ◌⊎◌, arith,
  Bool-cases, Option-cases, ◌&&◌, ◌≢◌, none, refl, Option, subst, some, sym, suc, ap, ◌∙◌, All,
  zero,
}
use gosplash.Redisx.Lock.{
  is_owned, Lock, LockEnv, World, Acquired, acquire_error, busy, acquired, value_of, put,
  count_command, claim_key, acquire, Event, on_acquire, on_tick, on_cancel, on_unlock, on_pass,
  on_loss, attempt, retry, act_others, happen, send, unlock, run_events, stop_watchdog,
  claim_if_free, after_claim, deliver, Unlocked, released, not_ours, unlock_error, after_unlock,
  unlock_script,
}
use gosplash.Redisx.Lock.Answer.{Told, idle, attempt-Told}
use gosplash.Redisx.Lock.Counts.{attempt-counts}
use gosplash.Redisx.Lock.Steps.{Strange, happen-Follows, run_events-lost, token-other}

-- Whether `Acquire` returned a lock.
unfoldable pub is_lock : Acquired → Bool
is_lock acquire_error = false
is_lock busy = false
is_lock (acquired l) = true

module _ (env : LockEnv) where
  -- Whether an event is an `Acquire` of the key that returns a lock.
  unfoldable pub obtains : String → Event → World → Bool
  unfolding is_lock
  obtains k (on_acquire k' ttl) w = str_eq k' k && is_lock (acquire env k' ttl w).0
  obtains k (on_tick l) w = false
  obtains k (on_cancel l) w = false
  obtains k (on_unlock l) w = false
  obtains k (on_pass t) w = false
  obtains k (on_loss k') w = false

  -- Throughout these events, the key has the token of the lock, and nobody else obtains it.
  unfoldable pub Held : Lock → List Event → World → Type 0
  Held l [] w = is_owned l w ≡ true
  Held l (v ∷ vs) w =
      (is_owned l w ≡ true) × (obtains l.key v w ≡ false) × Held l vs (happen env v w)

  -- What holds wherever a command ended with 1 holds when the client has that answer.
  once-true :
      (Q : World → Type 0) (r : Reply) (w : World) (p : Bool × World)
      → (p.0 ≡ true → Q p.1)
      → (deliver r w p).0 ≡ some true
      → Q (deliver r w p).1
  unfolding deliver
  once-true Q answered w (true, w') f h = f refl
  once-true Q answered w (false, w') f h = absurd (cc)
  once-true Q unanswered w p f h = absurd (cc)
  once-true Q not_reached w p f h = absurd (cc)

  retry-true :
      (Q : World → Type 0) (p : Option Bool × World) (next : World → Option Bool × World)
      → (p.0 ≡ some true → Q p.1)
      → ((u : World) → (next u).0 ≡ some true → Q (next u).1)
      → (retry p next).0 ≡ some true
      → Q (retry p next).1
  unfolding retry
  retry-true Q (some b, w) next f g h = f h
  retry-true Q (none, w) next f g h = g w h

  attempt-true :
      (Q : World → Type 0) (command : World → Bool × World)
      → ((u : World) → (command u).0 ≡ true → Q (command u).1)
      → (more : ℕ) (w : World) → (attempt env more command w).0 ≡ some true
      → Q (attempt env more command w).1
  unfolding attempt
  attempt-true Q command f zero w =
      once-true Q (env.reply w.commands) (count_command w) (command (count_command w))
        (f (count_command w))
  attempt-true Q command f (suc more) w =
      retry-true Q (deliver (env.reply w.commands) (count_command w) (command (count_command w)))
        (λ u. attempt env more command (act_others (env.others u.commands) u))
        (once-true Q (env.reply w.commands) (count_command w) (command (count_command w))
          (f (count_command w)))
        (λ u. attempt-true Q command f more (act_others (env.others u.commands) u))

  module _ (l : Lock) (n : ℕ) (fresh : (i : ℕ) → n ≤ i → env.token i ≢ l.token)
      (strange : (i : ℕ) → All (Strange l.token) (env.others i)) where
    -- A key that another token has just been written to is not ours.
    claim_key-lost :
        (l' : Lock) (w : World)
        → l'.key ≡ l.key
        → str_eq l'.token l.token ≡ false
        → (claim_key env l' w).0 ≡ true
        → is_owned l (claim_key env l' w).1 ≡ false
    unfolding claim_key claim_if_free is_owned value_of put
    claim_key-lost l' w same other = elim (Option-cases (value_of l'.key w)) [
      | inl free ↦
          rw (free, same)
            (rw ((eq_iff l.key l.key).1 refl) (λ h. is_value-slot l.token w.now _ other))
      | inr (old, taken) ↦ rw taken (λ h. cc)
    ]

    after_claim-lost :
        (l' : Lock) (p : Option Bool × World)
        → (p.0 ≡ some true → is_owned l p.1 ≡ false)
        → is_lock (after_claim l' p).0 ≡ true
        → is_owned l (after_claim l' p).1 ≡ false
    unfolding after_claim is_lock is_owned value_of
    after_claim-lost l' (none, w) f h = absurd (cc)
    after_claim-lost l' (some false, w) f h = absurd (cc)
    after_claim-lost l' (some true, w) f h = f refl

    acquire-lost :
        (k : String) (ttl : ℕ) (w : World)
        → n ≤ w.commands
        → k ≡ l.key
        → is_lock (acquire env k ttl w).0 ≡ true
        → is_owned l (acquire env k ttl w).1 ≡ false
    unfolding acquire send
    acquire-lost k ttl w le same =
        let l' : Lock = record { key = k; token = env.token w.commands; ttl = ttl } in
        after_claim-lost l' (attempt env env.max_retries (claim_key env l') w) (
          attempt-true (λ u. is_owned l u ≡ false) (claim_key env l')
            (λ u. claim_key-lost l' u same (token-other env l n fresh strange w.commands le))
            env.max_retries w)

    obtains-lost :
        (v : Event) (w : World)
        → n ≤ w.commands
        → obtains l.key v w ≡ true
        → is_owned l (happen env v w) ≡ false
    unfolding obtains happen
    obtains-lost (on_acquire k ttl) w le h =
        let same : str_eq k l.key ≡ true = ground arith in
        acquire-lost k ttl w le ((eq_iff k l.key).0 same) (ground arith)
    obtains-lost (on_tick l') w le h = absurd (cc)
    obtains-lost (on_cancel l') w le h = absurd (cc)
    obtains-lost (on_unlock l') w le h = absurd (cc)
    obtains-lost (on_pass t) w le h = absurd (cc)
    obtains-lost (on_loss k) w le h = absurd (cc)

    -- A lock whose key has the token at the end had it all the time.
    Held-back :
        (vs : List Event) (w : World)
        → n ≤ w.commands
        → is_owned l (run_events env vs w) ≡ true
        → Held l vs w
    unfolding Held run_events
    Held-back [] w h last = last
    Held-back (v ∷ vs) w h last =
        let (more, f) = happen-Follows env l n fresh strange v w h in
        elim (Bool-cases (is_owned l w)) [
          | inr lost ↦
              let gone = run_events-lost env l n fresh strange (v ∷ vs) w h lost in absurd (cc)
          | inl owned ↦ elim (Bool-cases (obtains l.key v w)) [
            | inl obtained ↦
                let gone =
                  run_events-lost env l n fresh strange vs (happen env v w) (omega arith)
                    (obtains-lost v w h obtained) in
                absurd (cc)
            | inr alone ↦ (owned, alone, Held-back vs (happen env v w) (omega arith) last)
          ]
        ]

  -- What `Acquire` returned, if it returned a lock.
  after_claim-lock :
      (l' l : Lock) (p : Option Bool × World) → (after_claim l' p).0 ≡ acquired l → l' ≡ l
  unfolding after_claim
  after_claim-lock l' l (none, w) h = cc
  after_claim-lock l' l (some false, w) h = cc
  after_claim-lock l' l (some true, w) h = cc

  claim_key-commands : (l : Lock) (w : World) → (claim_key env l w).1.commands ≡ w.commands
  unfolding claim_key claim_if_free put
  claim_key-commands l w = elim (Option-cases (value_of l.key w)) [
    | inl free ↦ rw free refl
    | inr (old, taken) ↦ rw taken refl
  ]

  after_claim-commands :
      (l : Lock) (p : Option Bool × World) → (after_claim l p).1.commands ≡ p.1.commands
  unfolding after_claim
  after_claim-commands l (none, w) = refl
  after_claim-commands l (some false, w) = refl
  after_claim-commands l (some true, w) = refl

  issued :
      (k : String) (ttl : ℕ) (w : World) (l : Lock)
      → (acquire env k ttl w).0 ≡ acquired l
      → (l.token ≡ env.token w.commands) × (suc w.commands ≤ (acquire env k ttl w).1.commands)
  unfolding acquire send
  issued k ttl w l h =
      let l' : Lock = record { key = k; token = env.token w.commands; ttl = ttl } in
      let p = send env (claim_key env l') w in
      (
        sym (ap (λ x. x.token) (after_claim-lock l' l p h)),
        omega (
          arith,
          after_claim-commands l' p,
          attempt-counts env (claim_key env l') (claim_key-commands l') env.max_retries w,
        ),
      )

  -- What an answer of `Unlock` says of the events since `Acquire`, and of the state after it, given
  -- the state that there would be if its script had done nothing.
  unfoldable pub Tells : Lock → List Event → World → Unlocked → World → World → Type 0
  Tells l vs since released after unchanged = Held l vs since × (value_of l.key after ≡ none)
  Tells l vs since not_ours after unchanged =
      (is_owned l after ≡ false)
      × ((is_owned l (run_events env vs since) ≡ true) ⊎ (after ≡ unchanged))
  Tells l vs since unlock_error after unchanged =
      (is_owned l (run_events env vs since) ≡ true) ⊎ (after ≡ unchanged)

  module _ (l : Lock) (n : ℕ) (fresh : (i : ℕ) → n ≤ i → env.token i ≢ l.token)
      (strange : (i : ℕ) → All (Strange l.token) (env.others i)) where
    stopped_owned : (w : World) → is_owned l (stop_watchdog l w) ≡ is_owned l w
    unfolding is_owned value_of stop_watchdog
    stopped_owned w = refl

    after_unlock-Tells :
        (vs : List Event) (since : World)
        → n ≤ since.commands
        → (p : Option Bool × World) (unchanged : World)
        → Told l p.0 (stop_watchdog l (run_events env vs since)) p.1 unchanged
        → Tells l vs since (after_unlock p).0 (after_unlock p).1 unchanged
    unfolding Told Tells after_unlock is_owned value_of stop_watchdog
    after_unlock-Tells vs since le (some true, w) x (owned, free) =
        (Held-back l n fresh strange vs since le owned, free)
    after_unlock-Tells vs since le (some false, w) x told = told
    after_unlock-Tells vs since le (none, w) x told = told

-- Tokens are unique, and nobody else writes one. If `Acquire` has returned a lock, and after any
-- events of any callers, watchdogs and the clock its owner calls `Unlock`, whose script the client may
-- send several times, then: if that returns no error, the key had the token of the lock all the time,
-- nobody else obtained the lock meanwhile, and the key is free now; if it says that the lock is not
-- ours, the key does not have the token now; and after any error, unless the lock was still ours when
-- `Unlock` was called, all is as if the script had done nothing.
pub unlock-Tells :
    (env : LockEnv)
    → ((i j : ℕ) → env.token i ≡ env.token j → i ≡ j)
    → ((i j : ℕ) → All (Strange (env.token j)) (env.others i))
    → (k : String) (ttl : ℕ) (w : World) (l : Lock) → (acquire env k ttl w).0 ≡ acquired l
    → (vs : List Event)
    → let since = (acquire env k ttl w).1 in
      let before = run_events env vs since in
      let (u, after) = unlock env l before in
      Tells env l vs since u after (send env idle (stop_watchdog l before)).1
unfolding unlock send
unlock-Tells env fresh strange k ttl w l h vs =
    let (drawn, counted) = issued env k ttl w l h in
    let since = (acquire env k ttl w).1 in
    let before = stop_watchdog l (run_events env vs since) in
    let others : (i : ℕ) → All (Strange l.token) (env.others i) =
      λ i. subst (λ t. All (Strange t) (env.others i)) (sym drawn) (strange i w.commands) in
    after_unlock-Tells env l (suc w.commands)
      (λ i later same. absurd (omega (arith, fresh i w.commands (same ∙ drawn)))) others vs since
      counted (attempt env env.max_retries (unlock_script l) before)
      (attempt env env.max_retries idle before).1 (attempt-Told env l others env.max_retries before)
