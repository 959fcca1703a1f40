-- ===== src/Redisx/Lock/Answer.antt =====
-- The answers of `Unlock` of pkg/redisx/lock.go, whose script the client may send more than once.
use gosplash.Redisx.Idempotency.{Reply, answered, unanswered, not_reached}
use gosplash.Prelude.{
  ℕ, zero, suc, String, eq_iff, Bool, true, false, Option, ◌≡◌, ◌≢◌, ◌∙◌, inl, inr, ◌⊎◌, Bool-cases,
  none, some, refl, ap, arith, All, sym,
}
use gosplash.Redisx.Lock.{
  is_owned, Lock, LockEnv, World, value_of, put, count_command, unlock_script, deliver, live_value,
  attempt, retry, act_others,
}
use gosplash.Redisx.Lock.Steps.{Strange, act_others-Follows}

-- A script that does nothing.
abbrev pub idle : World → Bool × World
idle w = (false, w)

-- What an answer to the script of `Unlock` says of the state before it and after it, and of the state
-- that there would be if the script had done nothing.
unfoldable pub Told : Lock → Option Bool → World → World → World → Type 0
Told l (some true) before after unchanged =
    (is_owned l before ≡ true) × (value_of l.key after ≡ none)
Told l (some false) before after unchanged =
    (is_owned l after ≡ false) × ((is_owned l before ≡ true) ⊎ (after ≡ unchanged))
Told l none before after unchanged = (is_owned l before ≡ true) ⊎ (after ≡ unchanged)

-- What it says of the state after it alone.
unfoldable Ended : Lock → Option Bool → World → Type 0
Ended l (some true) after = value_of l.key after ≡ none
Ended l (some false) after = is_owned l after ≡ false
Ended l none after = Unit

value_of-put : (k : String) (w : World) → value_of k (put k none w) ≡ none
unfolding value_of put live_value
value_of-put k w = rw ((eq_iff k k).1 refl) refl

module _ (l : Lock) where
  once-Ended :
      (r : Reply) (w : World)
      → Ended l (deliver r w (unlock_script l w)).0 (deliver r w (unlock_script l w)).1
  unfolding unlock_script deliver Ended
  once-Ended answered w = elim (Bool-cases (is_owned l w)) [
    | inl mine ↦ rw mine (value_of-put l.key w)
    | inr other ↦ rw other other
  ]
  once-Ended unanswered w = tt
  once-Ended not_reached w = tt

  retry-Ended :
      (p : Option Bool × World) (next : World → Option Bool × World)
      → Ended l p.0 p.1
      → ((u : World) → Ended l (next u).0 (next u).1)
      → Ended l (retry p next).0 (retry p next).1
  unfolding retry
  retry-Ended (some b, w) next h f = h
  retry-Ended (none, w) next h f = f w

  owned-Told :
      (o : Option Bool) (w after x : World)
      → is_owned l w ≡ true
      → Ended l o after
      → Told l o w after x
  unfolding Told Ended
  owned-Told (some true) w after x owned e = (owned, e)
  owned-Told (some false) w after x owned e = (e, inl owned)
  owned-Told none w after x owned e = inl owned

  lost-Told :
      (o : Option Bool) (w after x : World)
      → after ≡ x
      → o ≢ some true
      → Ended l o after
      → Told l o w after x
  unfolding Told Ended
  lost-Told (some true) w after x same unsaid e = elim (unsaid refl) [ ]
  lost-Told (some false) w after x same unsaid e = (e, inr same)
  lost-Told none w after x same unsaid e = inr same

  -- Without the lock the script does nothing.
  unlock_script-lost : (w : World) → is_owned l w ≡ false → unlock_script l w ≡ idle w
  unfolding unlock_script
  unlock_script-lost w lost = rw lost refl

module _ (env : LockEnv) (l : Lock) where
  attempt-Ended :
      (more : ℕ) (w : World)
      → Ended l (attempt env more (unlock_script l) w).0 (attempt env more (unlock_script l) w).1
  unfolding attempt
  attempt-Ended zero w = once-Ended l (env.reply w.commands) (count_command w)
  attempt-Ended (suc more) w =
      retry-Ended l
        (deliver (env.reply w.commands) (count_command w) (unlock_script l (count_command w)))
        (λ u. attempt env more (unlock_script l) (act_others (env.others u.commands) u))
        (once-Ended l (env.reply w.commands) (count_command w))
        (λ u. attempt-Ended more (act_others (env.others u.commands) u))

  idle_retry :
      (p : Option Bool × World) (next : World → Option Bool × World)
      → p.0 ≢ some true
      → ((u : World) → (next u).0 ≢ some true)
      → (retry p next).0 ≢ some true
  unfolding retry
  idle_retry (some b, w) next h f = h
  idle_retry (none, w) next h f = f w

  idle_deliver : (r : Reply) (w : World) → (deliver r w (idle w)).0 ≢ some true
  unfolding deliver
  idle_deliver answered w h = cc
  idle_deliver unanswered w h = cc
  idle_deliver not_reached w h = cc

  attempt-idle : (more : ℕ) (w : World) → (attempt env more idle w).0 ≢ some true
  unfolding attempt
  attempt-idle zero w = idle_deliver (env.reply w.commands) (count_command w)
  attempt-idle (suc more) w =
      idle_retry (deliver (env.reply w.commands) (count_command w) (idle (count_command w)))
        (λ u. attempt env more idle (act_others (env.others u.commands) u))
        (idle_deliver (env.reply w.commands) (count_command w))
        (λ u. attempt-idle more (act_others (env.others u.commands) u))

  module _ (strange : (i : ℕ) → All (Strange l.token) (env.others i)) where
    count-lost : (w : World) → is_owned l w ≡ false → is_owned l (count_command w) ≡ false
    unfolding is_owned value_of count_command
    count-lost w lost = lost

    -- Two ways to go on that agree where the lock is lost, after the script did nothing.
    retry-lost :
        (r : Reply) (w : World) (f g : World → Option Bool × World)
        → f w ≡ g w
        → retry (deliver r w (idle w)) f ≡ retry (deliver r w (idle w)) g
    unfolding retry deliver
    retry-lost answered w f g h = refl
    retry-lost unanswered w f g h = h
    retry-lost not_reached w f g h = h

    attempt-lost :
        (more : ℕ) (w : World)
        → is_owned l w ≡ false
        → attempt env more (unlock_script l) w ≡ attempt env more idle w
    unfolding attempt
    attempt-lost zero w lost =
        ap (deliver (env.reply w.commands) (count_command w))
          (unlock_script-lost l (count_command w) (count-lost w lost))
    attempt-lost (suc more) w lost =
        let cw = count_command w in
        let r = env.reply w.commands in
        let go : (World → Bool × World) → World → Option Bool × World =
          λ command u. attempt env more command (act_others (env.others u.commands) u) in
        let next = act_others (env.others cw.commands) cw in
        let f = act_others-Follows l 0 (env.others cw.commands) cw (strange cw.commands) in
        ap (λ p. retry (deliver r cw p) (go (unlock_script l)))
          (unlock_script-lost l cw (count-lost w lost))
        ∙ retry-lost r cw (go (unlock_script l)) (go idle)
            (attempt-lost more next (f.1 (omega arith) (count-lost w lost)))

    -- All that the answer to the script says.
    pub attempt-Told :
        (more : ℕ) (w : World)
        → Told l
            (attempt env more (unlock_script l) w).0
            w
            (attempt env more (unlock_script l) w).1
            (attempt env more idle w).1
    attempt-Told more w =
        let p = attempt env more (unlock_script l) w in
        elim (Bool-cases (is_owned l w)) [
          | inl owned ↦
              owned-Told l p.0 w p.1 (attempt env more idle w).1 owned (attempt-Ended more w)
          | inr lost ↦
              let same = attempt-lost more w lost in
              lost-Told l p.0 w p.1 (attempt env more idle w).1 (ap (λ q. q.1) same)
                (λ h. attempt-idle more w (sym (ap (λ q. q.0) same) ∙ h)) (attempt-Ended more w)
        ]
