-- ===== src/Redisx/Lock/Steps.antt =====
-- A lock of pkg/redisx/lock.go that is lost once is lost for good, whatever any caller does.
use gosplash.Prelude.{
  ℕ, ◌≤◌, String, str_eq, eq_iff, List, [], ◌∷◌, Bool, false, ◌≡◌, inl, inr, arith, Bool-cases,
  Option-cases, ◌≢◌, ◌+◌, none, All, Option, some, suc, zero,
}
use gosplash.Redisx.Lock.{
  Other, passes, loses, takes, act_other, act_others, take_if_free, attempt, retry, Slot, is_owned,
  Lock, LockEnv, World, value_of, put, count_command, claim_key, acquire, Event, on_acquire,
  on_tick, on_cancel, on_unlock, on_pass, on_loss, happen, send, tick, unlock, run_events,
  is_watched, stop_watchdog, extend_script, unlock_script, claim_if_free, deliver,
}
use gosplash.Redisx.Lock.Owner.{
  lost-put-some, Follows, after_claim-Follows, stop-Follows, count-Follows, is_value-later,
  lost-put-none, deliver-Follows, after_extend-Follows, after_unlock-Follows, Follows-trans,
  extend_script-Follows, unlock_script-Follows,
}

-- Somebody else writes a value other than this.
unfoldable pub Strange : String → Other → Type 0
Strange t (passes d) = Unit
Strange t (loses k) = Unit
Strange t (takes k s) = str_eq s.value t ≡ false

module _ (l : Lock) (n : ℕ) where
  deadline_passes : (t : ℕ) (w : World) → Follows l n w (record w { now = w.now + t })
  unfolding is_owned value_of
  deadline_passes t w = (omega arith, λ h. is_value-later l.token w.now t (w.slots l.key))

  loss-Follows : (k : String) (w : World) → Follows l n w (put k none w)
  unfolding put
  loss-Follows k w = (omega arith, λ h. lost-put-none l k w)

  take-Follows :
      (o : Option String) (k : String) (s : Slot) (w : World)
      → str_eq s.value l.token ≡ false
      → Follows l n w (take_if_free o k s w)
  unfolding take_if_free put
  take-Follows none k s w other = (omega arith, λ h. lost-put-some l k s w (λ same. other))
  take-Follows (some old) k s w other = (omega arith, λ h lost. lost)

  pub act_others-Follows :
      (acts : List Other) (w : World)
      → All (Strange l.token) acts
      → Follows l n w (act_others acts w)
  unfolding act_others act_other Strange
  act_others-Follows [] w h = (omega arith, λ h lost. lost)
  act_others-Follows (passes t ∷ rest) w (h, hs) =
      let w' : World = record w { now = w.now + t } in
      Follows-trans l n w w' _ (deadline_passes t w) (act_others-Follows rest w' hs)
  act_others-Follows (loses k ∷ rest) w (h, hs) =
      let w' = put k none w in
      Follows-trans l n w w' _ (loss-Follows k w) (act_others-Follows rest w' hs)
  act_others-Follows (takes k s ∷ rest) w (h, hs) =
      let w' = take_if_free (value_of k w) k s w in
      Follows-trans l n w w' _ (take-Follows (value_of k w) k s w h) (act_others-Follows rest w' hs)

module _ (env : LockEnv) where
  module _ (l : Lock) (n : ℕ) (fresh : (i : ℕ) → n ≤ i → env.token i ≢ l.token)
      (strange : (i : ℕ) → All (Strange l.token) (env.others i)) where
    pub token-other : (i : ℕ) → n ≤ i → str_eq (env.token i) l.token ≡ false
    token-other i h = elim (Bool-cases (str_eq (env.token i) l.token)) [
      | inl same ↦ absurd (fresh i h ((eq_iff (env.token i) l.token).0 same))
      | inr other ↦ other
    ]

    -- SET NX with another token
    claim_key-Follows :
        (l' : Lock) (w : World)
        → str_eq l'.token l.token ≡ false
        → Follows l n w (claim_key env l' w).1
    unfolding claim_key put claim_if_free
    claim_key-Follows l' w other = elim (Option-cases (value_of l'.key w)) [
      | inl free ↦ rw free (omega arith, λ h. lost-put-some l l'.key _ w (λ same. other))
      | inr (old, taken) ↦ rw taken (omega arith, λ h lost. lost)
    ]

    retry-Follows :
        (w : World) (p : Option Bool × World) (next : World → Option Bool × World)
        → Follows l n w p.1
        → ((u : World) → Follows l n u (next u).1)
        → Follows l n w (retry p next).1
    unfolding retry
    retry-Follows w (some b, u) next f g = f
    retry-Follows w (none, u) next f g = Follows-trans l n w u (next u).1 f (g u)

    once-Follows :
        (command : World → Bool × World) (w : World)
        → ((u : World) → Follows l n u (command u).1)
        → Follows l n w
            (deliver (env.reply w.commands) (count_command w) (command (count_command w))).1
    once-Follows command w f =
        let counted = count-Follows l n w in
        let cw = count_command w in
        deliver-Follows l n (env.reply w.commands) w cw (command cw) counted
          (Follows-trans l n w cw (command cw).1 counted (f cw))

    attempt-Follows :
        (more : ℕ) (command : World → Bool × World) (w : World)
        → ((u : World) → Follows l n u (command u).1)
        → Follows l n w (attempt env more command w).1
    unfolding attempt
    attempt-Follows zero command w f = once-Follows command w f
    attempt-Follows (suc more) command w f =
        retry-Follows w
          (deliver (env.reply w.commands) (count_command w) (command (count_command w)))
          (λ u. attempt env more command (act_others (env.others u.commands) u))
          (once-Follows command w f)
          (λ u.
            Follows-trans l n u (act_others (env.others u.commands) u) _
              (act_others-Follows l n (env.others u.commands) u (strange u.commands))
              (attempt-Follows more command (act_others (env.others u.commands) u) f))

    send-Follows :
        (command : World → Bool × World) (w : World)
        → ((u : World) → Follows l n u (command u).1)
        → Follows l n w (send env command w).1
    unfolding send
    send-Follows command w f = attempt-Follows env.max_retries command w f

    tick-Follows : (l' : Lock) (w : World) → Follows l n w (tick env l' w)
    unfolding tick
    tick-Follows l' w = elim (Bool-cases (is_watched l'.token w.watching)) [
      | inl watched ↦ rw watched (
          after_extend-Follows l n l' w _
            (send-Follows (extend_script l') w (extend_script-Follows l n l')))
      | inr alone ↦ rw alone (omega arith, λ h lost. lost)
    ]

    unlock-Follows : (l' : Lock) (w : World) → Follows l n w (unlock env l' w).1
    unfolding unlock
    unlock-Follows l' w =
        let stopped = stop_watchdog l' w in
        let sent = send env (unlock_script l') stopped in
        after_unlock-Follows l n w sent (
          Follows-trans l n w stopped sent.1 (stop-Follows l n l' w)
            (send-Follows (unlock_script l') stopped (unlock_script-Follows l n l')))

    acquire-Follows :
        (k : String) (ttl : ℕ) (w : World) → n ≤ w.commands → Follows l n w (acquire env k ttl w).1
    unfolding acquire
    acquire-Follows k ttl w h =
        let l' : Lock = record { key = k; token = env.token w.commands; ttl = ttl } in
        after_claim-Follows l n l' w _ (
          send-Follows (claim_key env l') w
            (λ u. claim_key-Follows l' u (token-other w.commands h)))

    pub happen-Follows : (v : Event) (w : World) → n ≤ w.commands → Follows l n w (happen env v w)
    unfolding happen
    happen-Follows (on_acquire k ttl) w h = acquire-Follows k ttl w h
    happen-Follows (on_tick l') w h = tick-Follows l' w
    happen-Follows (on_cancel l') w h = stop-Follows l n l' w
    happen-Follows (on_unlock l') w h = unlock-Follows l' w
    happen-Follows (on_pass t) w h = deadline_passes l n t w
    happen-Follows (on_loss k) w h = loss-Follows l n k w

    pub run_events-lost :
        (vs : List Event) (w : World)
        → n ≤ w.commands
        → is_owned l w ≡ false
        → is_owned l (run_events env vs w) ≡ false
    unfolding run_events
    run_events-lost [] w h lost = lost
    run_events-lost (v ∷ vs) w h lost =
        let (more, f) = happen-Follows v w h in
        run_events-lost vs (happen env v w) (omega arith) (f h lost)
