-- ===== src/Kafka/Tests.antt =====
-- A consumer at work: the properties of the consumers applied to concrete messages.
use gosplash.Kafka.RetryConsumer.{next_message, process_retry}
use gosplash.Kafka.Headers.Laws.{NamesSource}
use gosplash.Kafka.RetryConsumer.Travels.{delivered, Travels, onward, retries_are_bounded, here}
use gosplash.Kafka.RetryConsumer.Rounds.{Readable, Visit, process_retry-Visit}
use gosplash.Prelude.{
  ℕ, ◌+◌, ◌≤◌, String, [], ◌∷◌, none, some, false, str_eq, if◌then◌else◌, ◌≡◌, refl, arith, ◌==◌,
  not, suc, zero,
}
use gosplash.Prelude.Int.{pos, negsuc, ◌+ℤ◌}
use gosplash.Kafka.Record.{Message, retry_topic}
use gosplash.Kafka.Headers.{retry_round, parse_retry_at, header_value, set_header, Strconv}
use gosplash.Kafka.Failing.{plain, is_permanent}
use gosplash.Kafka.Runtime.{Runtime, World}
use gosplash.Kafka.Consumer.{process_one, retry_message}
use gosplash.Kafka.Consumer.Outcome.{Outcome, process_one-Outcome}
use gosplash.Kafka.Consumer.Passed.{refused_copy_is_passed, PassedBy, work_off}

-- A `strconv` for the few numbers below.
abbrev digits : ℕ → String
digits n =
    if n == 0
    then "0"
    else if n == 1
    then "1"
    else if n == 2
    then "2"
    else if n == 3
    then "3"
    else "7"

abbrev few : Strconv
few = record {
  format_int = λ n. elim n [ pos n ↦ digits n | negsuc n ↦ "-" ];
  parse_int = λ bits s.
      if str_eq s "0"
      then some (pos 0)
      else if str_eq s "1"
      then some (pos 1)
      else if str_eq s "2"
      then some (pos 2)
      else if str_eq s "3"
      then some (pos 3)
      else if str_eq s "7"
      then some (pos 7)
      else none;
}

-- A handler that counts its calls and never takes "late"; a broker that refuses request 8.
abbrev runtime : Runtime String ℕ
runtime = record {
  strconv = few;
  unmarshal = λ v. if str_eq v "garbage" then none else some v;
  unmarshal_error = λ v. plain "proto";
  handle = λ e s. (if str_eq e "late" then some (plain "not yet") else none, s + 1);
  accepts = λ n. not (n == 8);
  int64_n = λ n b. pos 0;
  after_ms = λ n d. pos 7;
  still_ahead = λ n t. false;
  stopped = λ n. false;
}

abbrev started : {S : Type 0} → S → ℕ → World S
started s n = record {
  user = s;
  produced = [];
  commits = [];
  observed = [];
  requests = n;
  looks = 0;
  naps = [];
}

abbrev message : String → ℕ → Message
message value offset = record {
  topic = "photo";
  partition = pos 2;
  offset = pos offset;
  key = "k";
  value = value;
  headers = [];
}

process_one-Outcome_example :
    Outcome runtime "photo"
      (message "late" 7)
      (started 0 0)
      (process_one runtime "photo" (message "late" 7) (started 0 0))
process_one-Outcome_example = process_one-Outcome runtime "photo" (message "late" 7) (started 0 0)

refused_copy_is_passed_example :
    let m = message "garbage" 7 in
    let kept = process_one runtime "photo" m (started 0 8) in
    (kept.produced ≡ [])
    × (kept.commits ≡ [])
    × (kept.user ≡ 0)
    × PassedBy m (work_off runtime "photo" (m ∷ message "fine" 8 ∷ []) (started 0 8)).commits
unfolding work_off process_one
refused_copy_is_passed_example =
    refused_copy_is_passed runtime "photo" (message "garbage" 7) (message "fine" 8 ∷ [])
      (started 0 8) refl refl ((refl, refl, refl), tt) (λ h. cc)

few-Readable : Readable few (pos 2) (pos 7)
few-Readable = record { reads_partition = refl; reads_offset = refl; reads_round = rounds }
  where
    rounds : (n : ℕ) → n ≤ 3 → few.parse_int 64 (few.format_int (pos n)) ≡ some (pos n)
    rounds zero h = refl
    rounds (suc zero) h = refl
    rounds (suc (suc zero)) h = refl
    rounds (suc (suc (suc zero))) h = refl
    rounds (suc (suc (suc (suc n)))) h = ground arith

-- The copies of a message that is late every time, as the broker hands them out.
abbrev first_copy : Message
first_copy = delivered (retry_message runtime "photo" (message "late" 7) (pos 7)) (pos 0) (pos 3)

abbrev second_copy : Message
second_copy = delivered (next_message runtime "photo" first_copy (pos 2) (pos 7)) (pos 0) (pos 4)

abbrev third_copy : Message
third_copy = delivered (next_message runtime "photo" second_copy (pos 3) (pos 7)) (pos 0) (pos 5)

second_sent :
    (process_retry runtime "photo" first_copy (started 0 0)).produced
    ≡ next_message runtime "photo" first_copy (pos 2) (pos 7) ∷ []
unfolding process_retry parse_retry_at header_value retry_message set_header is_permanent
    retry_round ◌+ℤ◌
second_sent = refl

third_sent :
    (process_retry runtime "photo" second_copy (started 0 0)).produced
    ≡ next_message runtime "photo" second_copy (pos 3) (pos 7) ∷ []
unfolding process_retry parse_retry_at header_value retry_message set_header is_permanent
    retry_round ◌+ℤ◌
third_sent = refl

late_twice : Travels runtime "photo" first_copy 2 third_copy
unfolding retry_topic next_message
late_twice =
    onward (started 0 0) (pos 0) (pos 4) second_sent refl
      (onward (started 0 0) (pos 0) (pos 5) third_sent refl here)

retries_are_bounded_example :
    (2 ≤ 2)
    × (third_copy.key ≡ "k")
    × (third_copy.value ≡ "late")
    × NamesSource few third_copy.headers "photo" (pos 2) (pos 7)
unfolding process_one is_permanent
retries_are_bounded_example =
    retries_are_bounded runtime "photo" (message "late" 7)
      (retry_message runtime "photo" (message "late" 7) (pos 7)) third_copy 2 (started 0 0) (pos 0)
      (pos 3) few-Readable refl refl refl late_twice

process_retry-Visit_example :
    Visit runtime "photo" third_copy "photo"
      (pos 2)
      (pos 7)
      3
      (started 0 0)
      (process_retry runtime "photo" third_copy (started 0 0))
unfolding retry_round header_value next_message set_header retry_message
process_retry-Visit_example =
    process_retry-Visit runtime "photo" third_copy "photo" (pos 2) (pos 7) few-Readable
      retries_are_bounded_example.3 3 (started 0 0) refl
