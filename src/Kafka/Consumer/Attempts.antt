-- ===== src/Kafka/Consumer/Attempts.antt =====
-- How often a consumer calls its handler for one message: pkg/kafkax/kafka.go.
use gosplash.Kafka.Backoff.{max_retry_attempts}
use gosplash.Kafka.Record.{Message}
use gosplash.Prelude.{
  ℕ, zero, suc, ◌+◌, ◌≤◌, List, [], ◌∷◌, Option, none, some, Bool, true, false, Bool-cases, inl,
  inr, ◌≡◌, refl, arith, All, length, String, ◌-◌,
}
use gosplash.Prelude.Int.{ℤ, pos, ◌+ℤ◌}
use gosplash.Kafka.Failing.{Failing, is_permanent, wrapped}
use gosplash.Kafka.Runtime.{Runtime, World, finish_sent, commit_record, produce, looked}
use gosplash.Kafka.Consumer.{
  run_handler, or_retry, try_in_place, nap, settle, process_one, finish_with_dlq, finish_with_retry,
}

-- The surroundings with a log of the handler's answers in its state, newest first.
abbrev pub logging : {E S : Type 0} → Runtime E S → Runtime E (S × List (Option Failing))
logging rt = record {
  strconv = rt.strconv;
  unmarshal = rt.unmarshal;
  unmarshal_error = rt.unmarshal_error;
  handle = λ e s. let (r, s') = rt.handle e s.0 in (r, (s', r ∷ s.1));
  accepts = rt.accepts;
  int64_n = rt.int64_n;
  after_ms = rt.after_ms;
  still_ahead = rt.still_ahead;
  stopped = rt.stopped;
}

-- An error after which another attempt is worth it.
unfoldable pub is_transient : Option Failing → Bool
is_transient none = false
is_transient (some f) = elim (is_permanent f) [ true ↦ false | false ↦ true ]

-- At most so many answers, and every one before the last is such an error.
unfoldable pub Attempted : ℕ → List (Option Failing) → Type 0
Attempted n [] = 0 ≤ n
Attempted n (r ∷ earlier) = (length earlier + 1 ≤ n) × All (λ a. is_transient a ≡ true) earlier

module _ {E S : Type 0} (rt : Runtime E S) where
  or_retry-Attempted :
      (n : ℕ) (e : E) (w : World (S × List (Option Failing)))
      (again : Failing
        → World (S × List (Option Failing))
        → Option Failing × World (S × List (Option Failing)))
      → length w.user.1 + 1 ≤ n
      → All (λ a. is_transient a ≡ true) w.user.1
      → ((f : Failing)
          → is_transient (some f) ≡ true
          → Attempted n
              (again f
                (record w { user = ((rt.handle e w.user.0).1, some f ∷ w.user.1) })).1.user.1)
      → Attempted n (or_retry (logging rt) (run_handler (logging rt) e w) again).1.user.1
  unfolding or_retry Attempted is_transient
  or_retry-Attempted n e w again le all step = by_answer (rt.handle e w.user.0).0
    where
      by_answer :
          (r : Option Failing)
          → Attempted n
              (or_retry
                (logging rt)
                (r, record w { user = ((rt.handle e w.user.0).1, r ∷ w.user.1) })
                again).1.user.1
      by_answer none = (le, all)
      by_answer (some f) = elim (Bool-cases (is_permanent f)) [
        | inl stop ↦ rw (stop, or_retry) (le, all)
        | inr on ↦ rw (on, or_retry) (step f (rw (on, is_transient) refl))
      ]

  try_in_place-Attempted :
      (n more : ℕ) (attempt : ℤ) (e : E) (w : World (S × List (Option Failing)))
      → length w.user.1 + more + 1 ≤ n
      → All (λ a. is_transient a ≡ true) w.user.1
      → Attempted n (try_in_place (logging rt) more attempt e w).1.user.1
  unfolding try_in_place Attempted
  try_in_place-Attempted n zero attempt e w le all =
      or_retry-Attempted n e w (λ f w'. (some f, w')) (omega (arith, le)) all
        (λ f h. (omega (arith, le), all))
  try_in_place-Attempted n (suc more) attempt e w le all =
      or_retry-Attempted n e w
        (λ f w'. try_in_place (logging rt) more (attempt +ℤ pos 1) e (nap (logging rt) attempt w'))
        (omega (arith, le)) all
        (λ f h. try_in_place-Attempted n more (attempt +ℤ pos 1) e _ (omega (arith, le)) (h, all))

-- What follows the handler leaves its state alone.
module _ {E S : Type 0} (rt : Runtime E S) where
  finish_sent-user :
      (m copy : Message) (result failed : String) (w : World S)
      → (finish_sent rt m result failed (produce rt copy w)).user ≡ w.user
  unfolding finish_sent commit_record produce
  finish_sent-user m copy result failed w = ground arith

  settle-user :
      (topic : String) (m : Message) (r : Option Failing) (w : World S)
      → (settle rt topic m (r, w)).user ≡ w.user
  unfolding settle finish_with_dlq finish_with_retry commit_record
  settle-user topic m none w = ground arith
  settle-user topic m (some f) w = elim (Bool-cases (is_permanent f)) [
    | inl stop ↦ rw (stop, settle) (finish_sent-user m _ "dlq" "dlq_failed" w)
    | inr on ↦ rw (on, settle) (finish_sent-user m _ "retry" "retry_failed" (looked w))
  ]

module _ {E S : Type 0} (rt : Runtime E S) where
  -- A consumer calls its handler at most three times for one message, and calls it again only after
  -- an error that is not permanent: in a log of the answers, newest first, that was empty before,
  -- there are at most `max_retry_attempts` answers, and all but the newest are such errors.
  pub process_one-Attempted :
      (topic : String) (m : Message) (w : World (S × List (Option Failing)))
      → w.user.1 ≡ []
      → Attempted max_retry_attempts (process_one (logging rt) topic m w).user.1
  unfolding process_one Attempted finish_with_dlq
  process_one-Attempted topic m w new = by_envelope (rt.unmarshal m.value)
    where
      by_envelope :
          (o : Option E)
          → Attempted max_retry_attempts
              (elim o as (λ _. World (S × List (Option Failing))) [
                | none ↦
                    finish_with_dlq
                      (logging rt)
                      topic
                      m
                      (wrapped "разбор конверта: " (rt.unmarshal_error m.value))
                      w
                | some e ↦
                    settle
                      (logging rt)
                      topic
                      m
                      (try_in_place (logging rt) (max_retry_attempts - 1) (pos 1) e w)
              ]).user.1
      by_envelope none =
          rw (finish_sent-user (logging rt) m _ "dlq" "dlq_failed" w) (rw new (omega arith))
      by_envelope (some e) =
          let t = try_in_place (logging rt) (max_retry_attempts - 1) (pos 1) e w in
          rw (settle-user (logging rt) topic m t.0 t.1)
            (try_in_place-Attempted rt 3 2 (pos 1) e w (rw new (omega arith)) (rw new tt))
