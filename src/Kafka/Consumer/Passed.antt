-- ===== src/Kafka/Consumer/Passed.antt =====
-- What becomes of a message whose offset was not committed: pkg/kafkax/kafka.go, under the loop over
-- the records of a partition in engine.go.
use gosplash.Prelude.{
  ◌+◌, ◌-◌, List, [], ◌∷◌, Option, String, none, some, ◌≡◌, ◌≢◌, ◌⊎◌, inl, inr, refl, true, false,
  All, ap, ◌∙◌, Bool-cases,
}
use gosplash.Prelude.Int.{pos, ltb_ℤ}
use gosplash.Kafka.Failing.{Failing, is_permanent, wrapped}
use gosplash.Kafka.Backoff.{max_retry_attempts}
use gosplash.Kafka.Record.{Message}
use gosplash.Kafka.Runtime.{
  Runtime, World, Position, produce, commit_record, finish_sent, observe, looked,
}
use gosplash.Kafka.Consumer.{process_one, finish_with_dlq, finish_with_retry, try_in_place, settle}
use gosplash.Kafka.Consumer.Outcome.{try_in_place-Tried}

abbrev position_of : Message → Position
position_of m = record { topic = m.topic; partition = m.partition; offset = m.offset }

-- A message comes later in the same partition.
abbrev pub IsLater : Message → Message → Type 0
IsLater m x = (x.topic ≡ m.topic) × (x.partition ≡ m.partition) × (ltb_ℤ m.offset x.offset ≡ true)

-- The newest commit is for the partition of the message, and past it.
pub record PassedBy (m : Message) (commits : List Position) : Type 0 where
  pub newest : Position
  pub earlier : List Position
  pub is_newest : commits ≡ newest ∷ earlier
  pub same_topic : newest.topic ≡ m.topic
  pub same_partition : newest.partition ≡ m.partition
  pub past : ltb_ℤ m.offset newest.offset ≡ true

module _ {E S : Type 0} (rt : Runtime E S) (topic : String) where
  -- The loop of a goroutine over the records of its partition that are not cut short.
  unfoldable pub work_off : List Message → World S → World S
  work_off [] w = w
  work_off (m ∷ ms) w = work_off ms (process_one rt topic m w)

  abbrev Commits : Message → World S → World S → Type 0
  Commits m w w' = (w'.commits ≡ w.commits) ⊎ (w'.commits ≡ position_of m ∷ w.commits)

  finish_sent-Commits :
      (m copy : Message) (result failed : String) (w : World S)
      → Commits m w (finish_sent rt m result failed (produce rt copy w))
  unfolding finish_sent produce commit_record
  finish_sent-Commits m copy result failed w = elim (Bool-cases (rt.accepts w.requests)) [
    | inr no_copy ↦ rw no_copy (inl refl)
    | inl taken ↦ elim (Bool-cases (rt.accepts (w.requests + 1))) [
      | inr lost ↦ rw (taken, lost) (inl refl)
      | inl noted ↦ rw (taken, noted) (inr refl)
    ]
  ]

  settle-Commits :
      (m : Message) (p : Option Failing × World S) → Commits m p.1 (settle rt topic m p)
  unfolding settle commit_record finish_with_dlq finish_with_retry
  settle-Commits m (none, w) = elim (Bool-cases (rt.accepts w.requests)) [
    | inl noted ↦ rw noted (inr refl)
    | inr lost ↦ rw lost (inl refl)
  ]
  settle-Commits m (some f, w) = elim (Bool-cases (is_permanent f)) [
    | inl stop ↦ rw (stop, settle) (finish_sent-Commits m _ "dlq" "dlq_failed" w)
    | inr on ↦ rw (on, settle) (finish_sent-Commits m _ "retry" "retry_failed" (looked w))
  ]

  same_start :
      (m : Message) (u w w' : World S) → w.commits ≡ u.commits → Commits m w w' → Commits m u w'
  same_start m u w w' e (inl same) = inl (same ∙ e)
  same_start m u w w' e (inr more) = inr (more ∙ ap (λ ps. position_of m ∷ ps) e)

  -- A message commits its own position or nothing.
  process_one-Commits : (m : Message) (w : World S) → Commits m w (process_one rt topic m w)
  unfolding process_one finish_with_dlq
  process_one-Commits m w = by_envelope (rt.unmarshal m.value)
    where
      by_envelope :
          (o : Option E)
          → Commits m w (elim o as (λ _. World S) [
            | none ↦
                finish_with_dlq rt topic m
                  (wrapped "разбор конверта: " (rt.unmarshal_error m.value))
                  w
            | some e ↦ settle rt topic m (try_in_place rt (max_retry_attempts - 1) (pos 1) e w)
          ])
      by_envelope none = finish_sent-Commits m _ "dlq" "dlq_failed" w
      by_envelope (some e) =
          let p = try_in_place rt (max_retry_attempts - 1) (pos 1) e w in
          let t = try_in_place-Tried rt topic m (max_retry_attempts - 1) (pos 1) e w in
          same_start m w p.1 (settle rt topic m p) t.commits (settle-Commits m p)

  process_one-PassedBy :
      (m x : Message) (w : World S)
      → IsLater m x
      → PassedBy m w.commits
      → PassedBy m (process_one rt topic x w).commits
  process_one-PassedBy m x w (t, p, o) h = elim (process_one-Commits x w) [
    | inl same ↦ record {
      newest = h.newest;
      earlier = h.earlier;
      is_newest = same ∙ h.is_newest;
      same_topic = h.same_topic;
      same_partition = h.same_partition;
      past = h.past;
    }
    | inr more ↦ record {
      newest = position_of x;
      earlier = w.commits;
      is_newest = more;
      same_topic = t;
      same_partition = p;
      past = o;
    }
  ]

  work_off-PassedBy :
      (m : Message) (ms : List Message) (w : World S)
      → All (IsLater m) ms
      → PassedBy m w.commits
      → PassedBy m (work_off ms w).commits
  unfolding work_off
  work_off-PassedBy m [] w later h = h
  work_off-PassedBy m (x ∷ ms) w (l, ls) h =
      work_off-PassedBy m ms (process_one rt topic x w) ls (process_one-PassedBy m x w l h)

  work_off-Commits :
      (m : Message) (ms : List Message) (w : World S)
      → All (IsLater m) ms
      → ((work_off ms w).commits ≡ w.commits) ⊎ PassedBy m (work_off ms w).commits
  unfolding work_off
  work_off-Commits m [] w later = inl refl
  work_off-Commits m (x ∷ ms) w ((t, p, o), ls) = elim (process_one-Commits x w) [
    | inl same ↦ elim (work_off-Commits m ms (process_one rt topic x w) ls) [
      | inl same' ↦ inl (same' ∙ same)
      | inr passed ↦ inr passed
    ]
    | inr more ↦ inr (
        work_off-PassedBy m ms (process_one rt topic x w) ls (record {
          newest = position_of x;
          earlier = w.commits;
          is_newest = more;
          same_topic = t;
          same_partition = p;
          past = o;
        }))
  ]

  -- A message that cannot be decoded, whose copy is refused.
  kept_back :
      (m : Message) (w : World S)
      → rt.unmarshal m.value ≡ none
      → rt.accepts w.requests ≡ false
      → process_one rt topic m w ≡ observe "dlq_failed" (record w { requests = w.requests + 1 })
  unfolding process_one finish_with_dlq produce finish_sent
  kept_back m w bad refused = rw (bad, process_one) (rw (refused, produce) refl)

-- A message cannot be decoded and the broker refuses its copy for the DLQ. Then nothing was sent or
-- committed for it and the handler never had it; and when the goroutine goes on with later messages
-- of the partition, whatever becomes of each, and has committed anything by then, the newest
-- committed position of the partition is past the message.
pub refused_copy_is_passed :
    {E S : Type 0} (rt : Runtime E S) (topic : String) (m : Message) (ms : List Message)
    (w : World S)
    → rt.unmarshal m.value ≡ none
    → rt.accepts w.requests ≡ false
    → All (IsLater m) ms
    → (work_off rt topic (m ∷ ms) w).commits ≢ w.commits
    → let kept = process_one rt topic m w in
      (kept.produced ≡ w.produced)
      × (kept.commits ≡ w.commits)
      × (kept.user ≡ w.user)
      × PassedBy m (work_off rt topic (m ∷ ms) w).commits
unfolding work_off
refused_copy_is_passed rt topic m ms w bad refused later moved =
    let e = kept_back rt topic m w bad refused in
    (
      ap (λ x. x.produced) e,
      ap (λ x. x.commits) e,
      ap (λ x. x.user) e,
      elim (work_off-Commits rt topic m ms (process_one rt topic m w) later) [
        | inl same ↦ elim (moved (same ∙ ap (λ x. x.commits) e)) [ ]
        | inr passed ↦ passed
      ],
    )
