-- ===== src/Kafka/Runtime.antt =====
-- What a consumer takes from its surroundings, and the state it works on. The broker may refuse any
-- request, by the number of requests sent so far; the clock and the random draws are parameters too.
use gosplash.Prelude.{ℕ, ◌+◌, String, Bool, Option, List, ◌∷◌, if◌then◌else◌, true, false}
use gosplash.Prelude.Int.{ℤ}
use gosplash.Kafka.Record.{Message}
use gosplash.Kafka.Headers.{Strconv}
use gosplash.Kafka.Failing.{Failing}

-- `E` is a decoded envelope, and `S` the state of the handler. `after_ms` is the unix time in
-- milliseconds a delay after the n-th look at the clock, `still_ahead` whether a time in
-- milliseconds is ahead at the n-th look, and `stopped` whether the service stops during the wait.
pub record Runtime (E S : Type 0) : Type 0 where
  pub strconv : Strconv
  pub unmarshal : String → Option E
  pub unmarshal_error : String → Failing
  pub handle : E → S → Option Failing × S
  pub accepts : ℕ → Bool
  pub int64_n : ℕ → ℤ → ℤ
  pub after_ms : ℕ → ℤ → ℤ
  pub still_ahead : ℕ → ℤ → Bool
  pub stopped : ℕ → Bool

-- A committed position: the topic, the partition, and the offset of the last record done.
pub record Position : Type 0 where
  pub topic : String
  pub partition : ℤ
  pub offset : ℤ

-- The state of the handler; the messages that the broker took and the commits it took, newest
-- first; the results that the metric counted; how many requests and looks were made; and the pauses.
pub record World (S : Type 0) : Type 0 where
  pub user : S
  pub produced : List Message
  pub commits : List Position
  pub observed : List String
  pub requests : ℕ
  pub looks : ℕ
  pub naps : List ℤ

module _ {S : Type 0} where
  abbrev pub looked : World S → World S
  looked w = record w { looks = w.looks + 1 }

  -- `observe`
  abbrev pub observe : String → World S → World S
  observe result w = record w { observed = result ∷ w.observed }

  module _ {E : Type 0} (rt : Runtime E S) where
    -- `ProduceSync`
    unfoldable pub produce : Message → World S → Bool × World S
    produce m w =
        let sent : World S = record w { requests = w.requests + 1 } in
        if rt.accepts w.requests
        then (true, record sent { produced = m ∷ w.produced })
        else (false, sent)

    -- `commit`: an error is only logged.
    unfoldable pub commit_record : Message → World S → World S
    commit_record m w =
        let sent : World S = record w { requests = w.requests + 1 } in
        let done : Position = record {
          topic = m.topic;
          partition = m.partition;
          offset = m.offset;
        } in
        if rt.accepts w.requests then record sent { commits = done ∷ w.commits } else sent

    -- What follows a message sent to another topic: the source is committed only if it was taken.
    unfoldable pub finish_sent : Message → String → String → Bool × World S → World S
    unfolding commit_record
    finish_sent m result failed (true, w) = observe result (commit_record m w)
    finish_sent m result failed (false, w) = observe failed w
