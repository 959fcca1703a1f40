-- ===== src/Kafka/RetryConsumer.antt =====
-- `RetryConsumer.processOne` of pkg/kafkax/retry.go. Pausing the partition during the wait does not
-- change what becomes of the message.
pub mod Rounds
pub mod Travels
use gosplash.Prelude.{ℕ, String, Bool, true, false, Option, none, some, ◌&&◌, if◌then◌else◌, not}
use gosplash.Prelude.Int.{ℤ, pos, leb_ℤ, ◌+ℤ◌}
use gosplash.Kafka.Record.{Message, retry_topic, dlq_topic, header_retry_at, header_retry_count}
use gosplash.Kafka.Headers.{
  set_header, dlq_headers, parse_retry_at, retry_round, original_topic, original_partition,
  original_offset,
}
use gosplash.Kafka.Failing.{Failing, wrapped, text_of, is_permanent}
use gosplash.Kafka.Backoff.{backoff, max_retry_attempts}
use gosplash.Kafka.Runtime.{Runtime, World, looked, observe, produce, commit_record, finish_sent}
use gosplash.Kafka.Consumer.{run_handler}
use Prim.Native.String.{◌++◌ as append}

abbrev pub max_retry_rounds : ℤ
max_retry_rounds = pos 3

module _ {E S : Type 0} (rt : Runtime E S) (source : String) where
  -- `RetryConsumer.finishWithDLQ`: the source's coordinates are read from the headers.
  unfoldable pub buried_message : Message → String → Message
  unfolding dlq_headers original_topic original_partition original_offset
  buried_message m cause = record m {
    topic = dlq_topic source;
    headers =
        dlq_headers rt.strconv m.headers cause (original_topic m) (original_partition rt.strconv m)
          (original_offset rt.strconv m);
  }

  unfoldable pub bury : Message → Failing → World S → World S
  unfolding buried_message produce finish_sent
  bury m cause w =
      finish_sent rt m "dlq" "dlq_failed" (produce rt (buried_message m (text_of cause)) w)

  -- `reescalate`
  unfoldable pub next_message : Message → ℤ → ℤ → Message
  next_message m round at =
      let counted = set_header m.headers header_retry_count (rt.strconv.format_int round) in
      record m {
        topic = retry_topic source;
        headers = set_header counted header_retry_at (rt.strconv.format_int at);
      }

  unfoldable pub reescalate : Message → ℤ → World S → World S
  unfolding next_message produce finish_sent
  reescalate m round w =
      let delay = backoff (rt.int64_n w.looks) (pos max_retry_attempts +ℤ round) in
      finish_sent rt m "retry" "retry_failed"
        (produce rt (next_message m round (rt.after_ms w.looks delay)) (looked w))

  -- The ends after a handler's error that is not permanent: another round, or the last one was.
  unfoldable pub next_round : Message → Failing → ℤ → World S → World S
  unfolding bury reescalate
  next_round m f round w =
      if leb_ℤ max_retry_rounds round
      then bury m
          (wrapped (append (append "исчерпаны раунды retry (" (rt.strconv.format_int round)) "): ")
            f)
          w
      else reescalate m (round +ℤ pos 1) w

  unfoldable pub settle_retry : Message → Option Failing × World S → World S
  unfolding commit_record bury next_round
  settle_retry m (none, w) = observe "ok" (commit_record rt m w)
  settle_retry m (some f, w) = elim (is_permanent f) [
    | true ↦ bury m f w
    | false ↦ next_round m f (retry_round rt.strconv m.headers) w
  ]

  -- `waitForRetryAt`: false if the service stops first.
  unfoldable pub wait_for_retry_at : Option ℤ → World S → Bool
  wait_for_retry_at none w = true
  wait_for_retry_at (some at) w = not (rt.still_ahead w.looks at && rt.stopped w.looks)

  -- `RetryConsumer.processOne`
  unfoldable pub process_retry : Message → World S → World S
  unfolding wait_for_retry_at settle_retry bury
  process_retry m w = elim (wait_for_retry_at (parse_retry_at rt.strconv m.headers) w) [
    | false ↦ looked w
    | true ↦ elim (rt.unmarshal m.value) [
      | none ↦ bury m (wrapped "разбор конверта в retry: " (rt.unmarshal_error m.value)) (looked w)
      | some e ↦ settle_retry m (run_handler rt e (looked w))
    ]
  ]
