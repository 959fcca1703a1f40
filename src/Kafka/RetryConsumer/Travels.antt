-- ===== src/Kafka/RetryConsumer/Travels.antt =====
-- The way of a message from its topic through the retry rounds: pkg/kafkax/kafka.go and retry.go.
use gosplash.Kafka.Consumer.{process_one}
use gosplash.Prelude.{
  ℕ, suc, ◌+◌, ◌≤◌, String, List, ◌∷◌, ◌≡◌, ◌≢◌, refl, arith, length, ap, ◌∙◌, sym, str_eq, eq_iff,
  true,
}
use gosplash.Prelude.Int.{ℤ, pos}
use gosplash.Kafka.Record.{Message, retry_topic, dlq_topic}
use gosplash.Kafka.Headers.{Strconv, retry_round}
use gosplash.Kafka.Headers.Laws.{NamesSource}
use gosplash.Kafka.Runtime.{Runtime, World}
use gosplash.Kafka.Consumer.Outcome.{Outcome, process_one-Outcome}
use gosplash.Kafka.RetryConsumer.{process_retry}
use gosplash.Kafka.RetryConsumer.Rounds.{Readable, process_retry-Visit, Visit, int_header-eq}
use gosplash.Kafka.RetryConsumer.Rounds as Rounds
use text.Mathlib.TextLemmas.{append_cancel_left}

-- A message as the broker hands it out: with a place in its partition.
abbrev pub delivered : Message → ℤ → ℤ → Message
delivered m partition offset = record m { partition = partition; offset = offset }

-- The retry consumer of a topic sent a message on, so many times, and it became another.
pub data Travels {E S : Type 0} (rt : Runtime E S) (source : String)
    : Message → ℕ → Message → Type 0 where
  here : {m : Message} → Travels rt source m 0 m
  onward :
      {m copy m' : Message} {n : ℕ} (w : World S) (partition offset : ℤ)
      → (process_retry rt source m w).produced ≡ copy ∷ w.produced
      → copy.topic ≡ retry_topic source
      → Travels rt source (delivered copy partition offset) n m'
      → Travels rt source m (suc n) m'

retry≢dlq : (topic : String) → retry_topic topic ≢ dlq_topic topic
unfolding retry_topic dlq_topic
retry≢dlq topic h =
    let same : str_eq ".retry" ".dlq" ≡ true =
      (eq_iff ".retry" ".dlq").1 (append_cancel_left topic _ _ h) in
    cc

not_longer : {A : Type 0} (x : A) (xs : List A) → xs ≢ x ∷ xs
not_longer x xs h = omega (arith, ap length h)

same_head : {A : Type 0} (x y : A) (xs : List A) → x ∷ xs ≡ y ∷ xs → x ≡ y
same_head x y xs h = cc

-- What a message in round `round` is after so many more rounds.
pub record Arrived (lib : Strconv) (src : String) (partition offset : ℤ) (m : Message)
    (round more : ℕ) (m' : Message) : Type 0 where
  pub within : round + more ≤ 3
  pub same_key : m'.key ≡ m.key
  pub same_value : m'.value ≡ m.value
  pub source : NamesSource lib m'.headers src partition offset
  pub in_round : retry_round lib m'.headers ≡ pos (round + more)

module _ {E S : Type 0} (rt : Runtime E S) (topic src : String) (partition offset : ℤ)
    (can : Readable rt.strconv partition offset) where
  -- What a copy that went to the retry topic is.
  record Onward (m : Message) (round : ℕ) (copy : Message) : Type 0 where
    within : round + 1 ≤ 3
    same_key : copy.key ≡ m.key
    same_value : copy.value ≡ m.value
    source : NamesSource rt.strconv copy.headers src partition offset
    in_round : retry_round rt.strconv copy.headers ≡ pos (round + 1)

  Visit-Onward :
      (m copy : Message) (round : ℕ) (w w' : World S)
      → w'.produced ≡ copy ∷ w.produced
      → copy.topic ≡ retry_topic topic
      → Visit rt topic m src partition offset round w w'
      → Onward m round copy
  Visit-Onward m copy round w w' sent there (Rounds.handled e s good taken nothing) =
      elim (not_longer copy w.produced (sym nothing ∙ sent)) [ ]
  Visit-Onward m copy round w w' sent there (Rounds.kept nothing c) =
      elim (not_longer copy w.produced (sym nothing ∙ sent)) [ ]
  Visit-Onward m copy round w w' sent there (Rounds.buried copy' f sent') =
      let same = same_head copy copy' w.produced (sym sent ∙ sent') in
      elim (retry≢dlq topic (sym there ∙ ap (λ c. c.topic) same ∙ f.where_to)) [ ]
  Visit-Onward m copy round w w' sent there (Rounds.postponed copy' f le next sent') =
      let same = same_head copy copy' w.produced (sym sent ∙ sent') in
      rw same (record {
        within = le;
        same_key = f.same_key;
        same_value = f.same_value;
        source = f.source;
        in_round = next;
      })

  -- Whatever the handlers, the broker and the clock do at each visit: a message in round `round`
  -- that the retry consumer has sent on so many times is in a round that is larger by that number,
  -- and at most 3; and it has the key and the value that it had, and names the same source.
  pub Travels-Arrived :
      (m m' : Message) (round more : ℕ)
      → NamesSource rt.strconv m.headers src partition offset
      → retry_round rt.strconv m.headers ≡ pos round
      → round ≤ 3
      → Travels rt topic m more m'
      → Arrived rt.strconv src partition offset m round more m'
  Travels-Arrived m _ round _ names at le here = record {
    within = omega (arith, le);
    same_key = refl;
    same_value = refl;
    source = names;
    in_round = at ∙ ap pos (omega arith);
  }
  Travels-Arrived m m' round _ names at le (onward {copy = copy} {n = n} w p q sent there rest) =
      let o =
        Visit-Onward m copy round w (process_retry rt topic m w) sent there
          (process_retry-Visit rt topic m src partition offset can names round w at) in
      let a =
        Travels-Arrived (delivered copy p q) m' (round + 1) n o.source o.in_round o.within rest in
      record {
        within = omega (arith, a.within);
        same_key = a.same_key ∙ o.same_key;
        same_value = a.same_value ∙ o.same_value;
        source = a.source;
        in_round = a.in_round ∙ ap pos (omega arith);
      }

-- The whole way of a message: when a consumer has sent a copy of it to the retry topic, and the
-- retry consumer has sent that on so many times, then that was at most two times, whatever the
-- handlers, the broker and the clock did; and what is in the retry topic has the key and the value of
-- the message and names its topic, partition and offset.
pub retries_are_bounded :
    {E S : Type 0} (rt : Runtime E S) (topic : String) (m copy m' : Message) (more : ℕ)
    (w : World S) (partition offset : ℤ)
    → Readable rt.strconv m.partition m.offset
    → rt.strconv.format_int (pos 1) ≡ "1"
    → (process_one rt topic m w).produced ≡ copy ∷ w.produced
    → copy.topic ≡ retry_topic topic
    → Travels rt topic (delivered copy partition offset) more m'
    → (more ≤ 2)
      × (m'.key ≡ m.key)
      × (m'.value ≡ m.value)
      × NamesSource rt.strconv m'.headers m.topic m.partition m.offset
unfolding retry_round
retries_are_bounded rt topic m copy m' more w p o can one sent there way =
    by_outcome (process_one-Outcome rt topic m w)
  where
    by_outcome :
        Outcome rt topic m w (process_one rt topic m w)
        → (more ≤ 2)
          × (m'.key ≡ m.key)
          × (m'.value ≡ m.value)
          × NamesSource rt.strconv m'.headers m.topic m.partition m.offset
    by_outcome (Outcome.handled e n good le calls nothing) =
        elim (not_longer copy w.produced (sym nothing ∙ sent)) [ ]
    by_outcome (Outcome.kept why nothing c) =
        elim (not_longer copy w.produced (sym nothing ∙ sent)) [ ]
    by_outcome (Outcome.buried copy' why f sent') =
        let same = same_head copy copy' w.produced (sym sent ∙ sent') in
        elim (retry≢dlq topic (sym there ∙ ap (λ c. c.topic) same ∙ f.where_to)) [ ]
    by_outcome (Outcome.postponed copy' why f first sent') =
        let same = same_head copy copy' w.produced (sym sent ∙ sent') in
        let a =
          Travels-Arrived rt topic m.topic m.partition m.offset can (delivered copy p o) m' 1 more
            (rw same f.source)
            (rw same (
              int_header-eq rt.strconv 64 copy'.headers _ _ _ _ first
                (rw (← one) (can.reads_round 1 (omega arith)))))
            (omega arith) way in
        (
          omega (arith, a.within),
          a.same_key ∙ ap (λ c. c.key) same ∙ f.same_key,
          a.same_value ∙ ap (λ c. c.value) same ∙ f.same_value,
          a.source,
        )
