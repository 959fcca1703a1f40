-- ===== src/Kafka/RetryConsumer/Rounds.antt =====
-- What becomes of a message in the retry topic: pkg/kafkax/retry.go.
use gosplash.Kafka.Consumer.{run_handler}
use gosplash.Kafka.Backoff.Bounds.{next_pos}
use gosplash.Kafka.Backoff.{backoff, max_retry_attempts}
use gosplash.Prelude.{
  ℕ, ◌+◌, ◌≤◌, String, ◌∷◌, none, some, Bool-cases, inl, inr, ◌≡◌, refl, arith, List, Option, ◌∙◌,
}
use gosplash.Prelude.Int.{ℤ, pos, leb_ℤ, ◌+ℤ◌}
use gosplash.Kafka.Record.{Header, Message, retry_topic, dlq_topic}
use gosplash.Kafka.Headers.{
  Strconv, header_value, retry_round, original_topic, original_partition, original_offset,
  int_header, int_or, parse_retry_at,
}
use gosplash.Kafka.Headers.Laws.{NamesSource, header_value-set_header, dlq_headers-NamesSource}
use gosplash.Kafka.Failing.{Failing, text_of, wrapped, is_permanent}
use gosplash.Kafka.Runtime.{Runtime, World, looked}
use gosplash.Kafka.Consumer.Outcome.{sent_or_kept, commit_produced}
use gosplash.Kafka.RetryConsumer.{
  max_retry_rounds, buried_message, bury, next_message, reescalate, next_round, settle_retry,
  process_retry, wait_for_retry_at,
}

-- The numbers of a message's headers are read as they were written.
pub record Readable (lib : Strconv) (partition offset : ℤ) : Type 0 where
  pub reads_partition : lib.parse_int 32 (lib.format_int partition) ≡ some partition
  pub reads_offset : lib.parse_int 64 (lib.format_int offset) ≡ some offset
  pub reads_round : (n : ℕ) → n ≤ 3 → lib.parse_int 64 (lib.format_int (pos n)) ≡ some (pos n)

-- A copy in a topic, with the key and the value of a message and the headers of the source.
pub record Forwarded (lib : Strconv) (m : Message) (topic src : String) (partition offset : ℤ)
    (copy : Message) : Type 0 where
  pub where_to : copy.topic ≡ topic
  pub same_key : copy.key ≡ m.key
  pub same_value : copy.value ≡ m.value
  pub source : NamesSource lib copy.headers src partition offset

module _ {E S : Type 0} (rt : Runtime E S) (source : String) (m : Message) (src : String)
    (partition offset : ℤ) where
  -- The four things that can become of a retried message, which was in the given round.
  pub data Visit (round : ℕ) (w w' : World S) : Type 0 where
    handled :
        (e : E) (s : S)
        → rt.unmarshal m.value ≡ some e
        → (rt.handle e s).0 ≡ none
        → w'.produced ≡ w.produced
        → Visit round w w'
    buried :
        (copy : Message)
        → Forwarded rt.strconv m (dlq_topic source) src partition offset copy
        → w'.produced ≡ copy ∷ w.produced
        → Visit round w w'
    postponed :
        (copy : Message)
        → Forwarded rt.strconv m (retry_topic source) src partition offset copy
        → round + 1 ≤ 3
        → retry_round rt.strconv copy.headers ≡ pos (round + 1)
        → w'.produced ≡ copy ∷ w.produced
        → Visit round w w'
    kept : w'.produced ≡ w.produced → w'.commits ≡ w.commits → Visit round w w'

-- What a header's integer is, where it can be read.
pub int_header-eq :
    (lib : Strconv) (bits : ℕ) (hs : List Header) (k v : String) (other n : ℤ)
    → header_value hs k ≡ some v
    → lib.parse_int bits v ≡ some n
    → int_header lib bits hs k other ≡ n
unfolding int_header int_or
int_header-eq lib bits hs k v other n h e = rw (h, int_header) (rw (e, int_or) refl)

module _ {E S : Type 0} (rt : Runtime E S) (source : String) (m : Message) (src : String)
    (partition offset : ℤ) (can : Readable rt.strconv partition offset)
    (names : NamesSource rt.strconv m.headers src partition offset) where
  reads_topic : original_topic m ≡ src
  unfolding original_topic
  reads_topic = rw (names.at_topic, original_topic) refl

  reads_partition : original_partition rt.strconv m ≡ partition
  unfolding original_partition
  reads_partition =
      int_header-eq rt.strconv 32 m.headers _ _ _ _ names.at_partition can.reads_partition

  reads_offset : original_offset rt.strconv m ≡ offset
  unfolding original_offset
  reads_offset = int_header-eq rt.strconv 64 m.headers _ _ _ _ names.at_offset can.reads_offset

  buried_message-Forwarded :
      (cause : String)
      → Forwarded rt.strconv m
          (dlq_topic source)
          src
          partition
          offset
          (buried_message rt source m cause)
  unfolding buried_message
  buried_message-Forwarded cause = record {
    where_to = refl;
    same_key = refl;
    same_value = refl;
    source =
        rw (reads_topic, reads_partition, reads_offset)
          (dlq_headers-NamesSource rt.strconv m.headers cause src partition offset);
  }

  next_message-Forwarded :
      (round at : ℤ)
      → Forwarded rt.strconv m
          (retry_topic source)
          src
          partition
          offset
          (next_message rt source m round at)
  unfolding next_message
  next_message-Forwarded round at = record {
    where_to = refl;
    same_key = refl;
    same_value = refl;
    source = record {
      at_topic = simp (header_value-set_header, names.at_topic);
      at_partition = simp (header_value-set_header, names.at_partition);
      at_offset = simp (header_value-set_header, names.at_offset);
    };
  }

  next_message-retry_round :
      (n : ℕ) (at : ℤ)
      → n ≤ 3
      → retry_round rt.strconv (next_message rt source m (pos n) at).headers ≡ pos n
  unfolding next_message retry_round
  next_message-retry_round n at le =
      int_header-eq rt.strconv 64 (next_message rt source m (pos n) at).headers _ _ _ _
        (simp header_value-set_header) (can.reads_round n le)

  bury-Visit :
      (n : ℕ) (cause : Failing) (w w₀ : World S)
      → w.produced ≡ w₀.produced
      → w.commits ≡ w₀.commits
      → Visit rt source m src partition offset n w₀ (bury rt source m cause w)
  unfolding bury
  bury-Visit n cause w w₀ e₀ e₁ =
      let copy = buried_message rt source m (text_of cause) in
      elim (sent_or_kept rt source m copy "dlq" "dlq_failed" w w₀ e₀ e₁) [
        | inl e ↦ buried copy (buried_message-Forwarded (text_of cause)) e
        | inr e ↦ kept e.0 e.1
      ]

  reescalate-Visit :
      (n : ℕ) (w w₀ : World S)
      → n + 1 ≤ 3
      → w.produced ≡ w₀.produced
      → w.commits ≡ w₀.commits
      → Visit rt source m src partition offset n w₀ (reescalate rt source m (pos (n + 1)) w)
  unfolding reescalate
  reescalate-Visit n w w₀ le e₀ e₁ =
      let at =
        rt.after_ms w.looks
          (backoff (rt.int64_n w.looks) (pos max_retry_attempts +ℤ pos (n + 1))) in
      let copy = next_message rt source m (pos (n + 1)) at in
      elim (sent_or_kept rt source m copy "retry" "retry_failed" (looked w) w₀ e₀ e₁) [
        | inl e ↦
            postponed copy (next_message-Forwarded (pos (n + 1)) at) le
              (rw (next_message-retry_round (n + 1) at le) refl) e
        | inr e ↦ kept e.0 e.1
      ]

  next_round-Visit :
      (n : ℕ) (cause : Failing) (w w₀ : World S)
      → w.produced ≡ w₀.produced
      → w.commits ≡ w₀.commits
      → Visit rt source m src partition offset n w₀ (next_round rt source m cause (pos n) w)
  unfolding next_round reescalate
  next_round-Visit n cause w w₀ e₀ e₁ = elim (Bool-cases (leb_ℤ max_retry_rounds (pos n))) [
    | inl last ↦ rw (last, next_round) (bury-Visit n _ w w₀ e₀ e₁)
    | inr more ↦
        rw (more, next_round) (rw (next_pos n) (reescalate-Visit n w w₀ (ground arith) e₀ e₁))
  ]

  settle_retry-Visit :
      (n : ℕ) (e : E) (w : World S) (w₁ w₂ : World S) (r : Option Failing)
      → retry_round rt.strconv m.headers ≡ pos n
      → rt.unmarshal m.value ≡ some e
      → (rt.handle e w₂.user).0 ≡ r
      → w₁.produced ≡ w.produced
      → w₁.commits ≡ w.commits
      → Visit rt source m src partition offset n w (settle_retry rt source m (r, w₁))
  unfolding settle_retry
  settle_retry-Visit n e w w₁ w₂ none at good answer e₀ e₁ =
      handled e w₂.user good answer (commit_produced rt source m w₁ ∙ e₀)
  settle_retry-Visit n e w w₁ w₂ (some f) at good answer e₀ e₁ =
      elim (Bool-cases (is_permanent f)) [
        | inl stop ↦ rw (stop, settle_retry) (bury-Visit n f w₁ w e₀ e₁)
        | inr on ↦ rw (on, settle_retry) (rw at (next_round-Visit n f w₁ w e₀ e₁))
      ]

  -- A message in its n-th retry round, whose headers name its source in numbers that `strconv` reads
  -- as it wrote them, ends a visit of the retry consumer in one of four ways, whatever the handler,
  -- the broker and the clock do: the handler took it; the broker took a copy of it into the DLQ; the
  -- broker took a copy into the retry topic, in round n + 1, which is at most 3; or nothing was
  -- sent and nothing committed. A copy has the same key and value, and names the same source.
  pub process_retry-Visit :
      (n : ℕ) (w : World S)
      → retry_round rt.strconv m.headers ≡ pos n
      → Visit rt source m src partition offset n w (process_retry rt source m w)
  unfolding process_retry
  process_retry-Visit n w at =
      elim (Bool-cases (wait_for_retry_at rt source (parse_retry_at rt.strconv m.headers) w)) [
        | inl due ↦ rw (due, process_retry) (by_envelope (rt.unmarshal m.value) refl)
        | inr stops ↦ rw (stops, process_retry) (kept refl refl)
      ]
    where
      by_envelope :
          (o : Option E)
          → rt.unmarshal m.value ≡ o
          → Visit rt source m src partition offset n w (elim o as (λ _. World S) [
            | none ↦
                bury rt source m
                  (wrapped "разбор конверта в retry: " (rt.unmarshal_error m.value))
                  (looked w)
            | some e ↦ settle_retry rt source m (run_handler rt e (looked w))
          ])
      by_envelope none good = bury-Visit n _ (looked w) w refl refl
      by_envelope (some e) good = settle_retry-Visit n e w _ w _ at good refl refl refl
