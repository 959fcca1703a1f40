-- ===== src/Kafka/Consumer.antt =====
-- `Consumer.processOne` of pkg/kafkax/kafka.go, with `sendToDLQ` and `sendToRetry` of retry.go.
-- Spans, logs and the time that a message took are left out.
pub mod Attempts
pub mod Outcome
pub mod Passed
use gosplash.Prelude.{ℕ, zero, suc, ◌+◌, ◌-◌, String, Bool, true, false, Option, none, some, ◌∷◌}
use gosplash.Prelude.Int.{ℤ, pos, ◌+ℤ◌}
use gosplash.Kafka.Record.{Message, retry_topic, dlq_topic, header_retry_at, header_retry_count}
use gosplash.Kafka.Headers.{set_header, mark_original, dlq_headers}
use gosplash.Kafka.Failing.{Failing, wrapped, text_of, is_permanent}
use gosplash.Kafka.Backoff.{backoff, max_retry_attempts}
use gosplash.Kafka.Runtime.{Runtime, World, looked, observe, produce, commit_record, finish_sent}

module _ {E S : Type 0} (rt : Runtime E S) where
  abbrev pub run_handler : E → World S → Option Failing × World S
  run_handler e w = let (r, s) = rt.handle e w.user in (r, record w { user = s })

  -- Whether the loop goes on: only after an error that is not permanent.
  unfoldable pub or_retry :
      Option Failing × World S
      → (Failing → World S → Option Failing × World S)
      → Option Failing × World S
  or_retry (none, w) again = (none, w)
  or_retry (some f, w) again = elim (is_permanent f) [ true ↦ (some f, w) | false ↦ again f w ]

  -- The pause after an attempt, `time.Sleep(Backoff(attempt))`.
  abbrev pub nap : ℤ → World S → World S
  nap attempt w = record (looked w) { naps = backoff (rt.int64_n w.looks) attempt ∷ w.naps }

  -- The attempts in place, by how many may follow, and the number of the first.
  unfoldable pub try_in_place : ℕ → ℤ → E → World S → Option Failing × World S
  unfolding or_retry
  try_in_place zero attempt e w = or_retry (run_handler e w) (λ f w'. (some f, w'))
  try_in_place (suc more) attempt e w =
      or_retry (run_handler e w) (λ f w'. try_in_place more (attempt +ℤ pos 1) e (nap attempt w'))

  -- `sendToDLQ` and `sendToRetry`, for a consumer of `topic`.
  unfoldable pub dlq_message : String → Message → String → Message
  unfolding dlq_headers
  dlq_message topic m cause = record m {
    topic = dlq_topic topic;
    headers = dlq_headers rt.strconv m.headers cause m.topic m.partition m.offset;
  }

  unfoldable pub retry_message : String → Message → ℤ → Message
  unfolding mark_original
  retry_message topic m at =
      let timed = set_header m.headers header_retry_at (rt.strconv.format_int at) in
      let counted = set_header timed header_retry_count "1" in
      record m {
        topic = retry_topic topic;
        headers = mark_original rt.strconv counted m.topic m.partition m.offset;
      }

  -- `finishWithDLQ`
  unfoldable pub finish_with_dlq : String → Message → Failing → World S → World S
  unfolding produce finish_sent dlq_message
  finish_with_dlq topic m cause w =
      finish_sent rt m "dlq" "dlq_failed" (produce rt (dlq_message topic m (text_of cause)) w)

  -- `finishWithRetry`
  unfoldable pub finish_with_retry : String → Message → World S → World S
  unfolding produce finish_sent retry_message
  finish_with_retry topic m w =
      let delay = backoff (rt.int64_n w.looks) (pos max_retry_attempts) in
      finish_sent rt m "retry" "retry_failed"
        (produce rt (retry_message topic m (rt.after_ms w.looks delay)) (looked w))

  -- The three ends of `processOne`.
  unfoldable pub settle : String → Message → Option Failing × World S → World S
  unfolding commit_record finish_with_dlq finish_with_retry
  settle topic m (none, w) = observe "ok" (commit_record rt m w)
  settle topic m (some f, w) = elim (is_permanent f) [
    | true ↦ finish_with_dlq topic m f w
    | false ↦ finish_with_retry topic m w
  ]

  -- `processOne`
  unfoldable pub process_one : String → Message → World S → World S
  unfolding try_in_place settle finish_with_dlq
  process_one topic m w = elim (rt.unmarshal m.value) [
    | none ↦ finish_with_dlq topic m (wrapped "разбор конверта: " (rt.unmarshal_error m.value)) w
    | some e ↦ settle topic m (try_in_place (max_retry_attempts - 1) (pos 1) e w)
  ]
