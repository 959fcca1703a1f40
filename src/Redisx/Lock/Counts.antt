-- ===== src/Redisx/Lock/Counts.antt =====
-- How many commands the client of pkg/redisx/lock.go has sent after one.
use gosplash.Prelude.{
  ℕ, zero, suc, ◌≤◌, String, List, [], ◌∷◌, Option, none, some, Bool, ◌≡◌, ◌∙◌, refl, arith, ◌+◌,
}
use gosplash.Redisx.Idempotency.{Reply, answered, unanswered, not_reached}
use gosplash.Redisx.Lock.{
  LockEnv, World, Slot, Other, passes, loses, takes, put, take_if_free, act_other, act_others,
  value_of, count_command, deliver, retry, attempt,
}

take-commands :
    (o : Option String) (k : String) (s : Slot) (w : World)
    → (take_if_free o k s w).commands ≡ w.commands
unfolding take_if_free put
take-commands none k s w = refl
take-commands (some old) k s w = refl

pub act_others-commands :
    (acts : List Other) (w : World) → (act_others acts w).commands ≡ w.commands
unfolding act_others act_other put
act_others-commands [] w = refl
act_others-commands (passes t ∷ rest) w = act_others-commands rest (record w { now = w.now + t })
act_others-commands (loses k ∷ rest) w = act_others-commands rest (put k none w)
act_others-commands (takes k s ∷ rest) w =
    act_others-commands rest (take_if_free (value_of k w) k s w)
    ∙ take-commands (value_of k w) k s w

once-counts :
    (r : Reply) (w : World) (p : Bool × World)
    → p.1.commands ≡ w.commands
    → (deliver r w p).1.commands ≡ w.commands
unfolding deliver
once-counts answered w p h = h
once-counts unanswered w p h = h
once-counts not_reached w p h = refl

retry-counts :
    (n : ℕ) (p : Option Bool × World) (next : World → Option Bool × World)
    → n ≤ p.1.commands
    → ((u : World) → n ≤ u.commands → n ≤ (next u).1.commands)
    → n ≤ (retry p next).1.commands
unfolding retry
retry-counts n (some b, w) next h f = h
retry-counts n (none, w) next h f = f w h

counted : (w : World) → (count_command w).commands ≡ suc w.commands
unfolding count_command
counted w = refl

-- At least one.
pub attempt-counts :
    (env : LockEnv) (command : World → Bool × World)
    → ((u : World) → (command u).1.commands ≡ u.commands)
    → (more : ℕ) (w : World) → suc w.commands ≤ (attempt env more command w).1.commands
unfolding attempt
attempt-counts env command same zero w =
    let cw = count_command w in
    omega (arith, once-counts (env.reply w.commands) cw (command cw) (same cw), counted w)
attempt-counts env command same (suc more) w =
    let cw = count_command w in
    let one = once-counts (env.reply w.commands) cw (command cw) (same cw) in
    retry-counts (suc w.commands) (deliver (env.reply w.commands) cw (command cw))
      (λ u. attempt env more command (act_others (env.others u.commands) u))
      (omega (arith, one, counted w))
      (λ u le.
        let u' = act_others (env.others u.commands) u in
        omega (
          arith,
          attempt-counts env command same more u',
          act_others-commands (env.others u.commands) u,
          le,
        ))
