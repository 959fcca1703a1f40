-- ===== src/Kafka/Engine/Tests.antt =====
-- Schedules of the engine of pkg/kafkax/engine.go, and its theorems at examples.
use gosplash.Prelude.{ℕ, List, [], ◌∷◌, ◌≡◌, ◌≤◌, refl, map, All}
use gosplash.Prelude.Int.{pos, ◌==ℤ◌}
use gosplash.Kafka.Record.{Message}
use gosplash.Kafka.Engine.{
  Tp, no_workers, Event, on_assigned, on_stop, on_stopped, on_dispatch, on_step, takes, starts,
  finishes, leaves, run_events, is_listed, happen,
}
use gosplash.Kafka.Engine.Fifo.{Fifo, records_in_order}
use gosplash.Kafka.Engine.Counts.{count, is_live, Obeys}
use gosplash.Kafka.Engine.Single.{one_at_a_time}

abbrev first_partition : Tp
first_partition = record { topic = "orders"; partition = pos 0 }

abbrev message : ℕ → Message
message n = record {
  topic = "orders";
  partition = pos 0;
  offset = pos n;
  key = "";
  value = "";
  headers = [];
}

-- The partition is taken back while its first record is processed; the second is left to the next
-- owner. Then the partition comes again, to a goroutine of its own.
abbrev taken_back : List Event
taken_back =
    on_assigned (first_partition ∷ [])
    ∷ on_dispatch first_partition (message 1 ∷ message 2 ∷ [])
    ∷ on_step 0 takes
    ∷ on_step 0 starts
    ∷ on_stop (first_partition ∷ [])
    ∷ on_stopped
    ∷ on_step 0 finishes
    ∷ on_step 0 starts
    ∷ on_step 0 leaves
    ∷ on_stopped
    ∷ on_assigned (first_partition ∷ [])
    ∷ []

one_handled :
    map (λ w. w.handled) (run_events taken_back no_workers).workers ≡ [] ∷ (message 1 ∷ []) ∷ []
unfolding run_events ◌==ℤ◌
one_handled = refl

taken_back-Obeys : Obeys taken_back no_workers
unfolding Obeys count happen ◌==ℤ◌
taken_back-Obeys =
    ((refl, refl, tt), (tt, (tt, (tt, (tt, (tt, (tt, (tt, (tt, (tt, ((refl, refl, tt), tt)))))))))))

one_at_a_time_example :
    (count (is_live first_partition) (run_events taken_back no_workers).workers ≤ 1)
    × ((run_events taken_back no_workers).waiting ≡ []
        → count (is_listed first_partition) (run_events taken_back no_workers).workers ≡ 0
        → count (is_live first_partition) (run_events taken_back no_workers).workers ≡ 0)
one_at_a_time_example = one_at_a_time taken_back taken_back-Obeys first_partition

records_in_order_example : All Fifo (run_events taken_back no_workers).workers
records_in_order_example = records_in_order taken_back
