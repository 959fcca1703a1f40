-- ===== src/Kafka/Engine.antt =====
-- One goroutine for each partition: pkg/kafkax/engine.go. A schedule of events stands for the
-- callbacks of the client, the polls and the steps of the goroutines, in any order; an event that
-- the code cannot do now changes nothing.
pub mod Fifo
pub mod Counts
pub mod Single
mod Tests
use gosplash.Prelude.{
  ℕ, suc, String, List, [], ◌∷◌, ◌++◌, Option, none, some, Bool, true, false, ◌&&◌, ◌||◌, not,
  str_eq, if◌then◌else◌, length, ltb, ◌==◌, map,
}
use gosplash.Prelude.Int.{ℤ, ◌==ℤ◌}
use gosplash.Kafka.Record.{Message}

-- `tp`
pub record Tp : Type 0 where
  pub topic : String
  pub partition : ℤ

unfoldable pub same_tp : Tp → Tp → Bool
same_tp a b = str_eq a.topic b.topic && a.partition ==ℤ b.partition

-- A `partitionWorker` with the variables of its `run`: the channel, the batch in hand and the record
-- that is being processed. `listed` says that the map of the engine has it; `sent` and `handled`
-- log what `dispatch` sent and what was processed.
pub record Worker : Type 0 where
  pub id : ℕ
  pub tp : Tp
  pub listed : Bool
  pub recs : List (List Message)
  pub batch : List Message
  pub busy : Option Message
  pub quit : Bool
  pub done : Bool
  pub sent : List Message
  pub handled : List Message

-- The goroutines that were ever started, the number of the next, and those for which a callback
-- waits.
pub record Engine : Type 0 where
  pub workers : List Worker
  pub next_id : ℕ
  pub waiting : List ℕ

abbrev pub no_workers : Engine
no_workers = record { workers = []; next_id = 0; waiting = [] }

-- The buffer of `recs`.
abbrev pub recs_capacity : ℕ
recs_capacity = 4

-- `newPartitionWorker`
unfoldable pub new_worker : ℕ → Tp → Worker
new_worker i p = record {
  id = i;
  tp = p;
  listed = true;
  recs = [];
  batch = [];
  busy = none;
  quit = false;
  done = false;
  sent = [];
  handled = [];
}

-- The entry of the map for a partition.
unfoldable pub is_listed : Tp → Worker → Bool
unfolding same_tp
is_listed p w = w.listed && same_tp w.tp p

-- An entry of the map that is overwritten or deleted; the goroutine is not told.
unfoldable pub unlist : Tp → Worker → Worker
unfolding is_listed
unlist p w = if is_listed p w then record w { listed = false } else w

-- `assigned`
unfoldable pub assign_one : Tp → Engine → Engine
unfolding unlist new_worker
assign_one p e = record {
  workers = new_worker e.next_id p ∷ map (unlist p) e.workers;
  next_id = suc e.next_id;
  waiting = e.waiting;
}

unfoldable pub assigned : List Tp → Engine → Engine
unfolding assign_one
assigned [] e = e
assigned (p ∷ ps) e = assigned ps (assign_one p e)

-- The loop of `stop` under the lock: what was stopped is then waited for.
unfoldable pub close_quit : Tp → Worker → Worker
unfolding is_listed
close_quit p w = if is_listed p w then record w { listed = false; quit = true } else w

unfoldable pub listed_ids : Tp → List Worker → List ℕ
unfolding is_listed
listed_ids p [] = []
listed_ids p (w ∷ ws) = let rest = listed_ids p ws in if is_listed p w then w.id ∷ rest else rest

unfoldable pub stop_one : Tp → Engine → Engine
unfolding close_quit listed_ids
stop_one p e = record e {
  workers = map (close_quit p) e.workers;
  waiting = listed_ids p e.workers ++ e.waiting;
}

unfoldable pub stop : List Tp → Engine → Engine
unfolding stop_one
stop [] e = e
stop (p ∷ ps) e = stop ps (stop_one p e)

-- `stopAll`
unfoldable pub all_listed : List Worker → List Tp
all_listed [] = []
all_listed (w ∷ ws) = let rest = all_listed ws in if w.listed then w.tp ∷ rest else rest

unfoldable pub stop_all : Engine → Engine
unfolding stop all_listed
stop_all e = stop (all_listed e.workers) e

-- The end of `stop`: every channel `done` that it waits for is closed.
unfoldable pub is_in : ℕ → List ℕ → Bool
is_in i [] = false
is_in i (j ∷ js) = i == j || is_in i js

unfoldable pub all_done : List ℕ → List Worker → Bool
unfolding is_in
all_done ids [] = true
all_done ids (w ∷ ws) = (not (is_in w.id ids) || w.done) && all_done ids ws

unfoldable pub stopped : Engine → Engine
unfolding all_done
stopped e = if all_done e.waiting e.workers then record e { waiting = [] } else e

-- `dispatch` of the records of one partition. At a full channel the code waits, so nothing happens.
unfoldable pub send : Tp → List Message → Worker → Worker
unfolding is_listed
send p ms w =
    if is_listed p w && ltb (length w.recs) recs_capacity
    then record w { recs = w.recs ++ ms ∷ []; sent = w.sent ++ ms }
    else w

unfoldable pub dispatch : Tp → List Message → Engine → Engine
unfolding send
dispatch p [] e = e
dispatch p (m ∷ ms) e = record e { workers = map (send p (m ∷ ms)) e.workers }

-- Receiving from `recs`, with nothing in hand.
unfoldable pub take_batch : List (List Message) → List Message → Option Message → Worker → Worker
take_batch [] batch busy w = w
take_batch (b ∷ bs) [] none w = if w.done then w else record w { recs = bs; batch = b }
take_batch (b ∷ bs) [] (some m) w = w
take_batch (b ∷ bs) (x ∷ xs) busy w = w

-- The next record of the batch, after the test of `quit`.
unfoldable pub start_record : List Message → Option Message → Worker → Worker
start_record [] busy w = w
start_record (m ∷ ms) (some x) w = w
start_record (m ∷ ms) none w =
    if w.quit || w.done then w else record w { batch = ms; busy = some m }

-- `process` returns.
unfoldable pub finish_record : Option Message → Worker → Worker
finish_record none w = w
finish_record (some m) w = record w { busy = none; handled = w.handled ++ m ∷ [] }

-- A `return` of `run` on `quit`, between two records or two batches.
unfoldable pub leave : Option Message → Worker → Worker
leave (some m) w = w
leave none w = if w.quit then record w { done = true } else w

pub data Step : Type 0 where
  takes starts finishes leaves : Step

unfoldable pub step_worker : Step → Worker → Worker
unfolding take_batch start_record finish_record leave
step_worker takes w = take_batch w.recs w.batch w.busy w
step_worker starts w = start_record w.batch w.busy w
step_worker finishes w = finish_record w.busy w
step_worker leaves w = leave w.busy w

unfoldable pub on_worker : ℕ → Step → Worker → Worker
unfolding step_worker
on_worker i s w = if w.id == i then step_worker s w else w

pub data Event : Type 0 where
  on_assigned on_stop : List Tp → Event
  on_exit on_stopped : Event
  on_dispatch : Tp → List Message → Event
  on_step : ℕ → Step → Event

unfoldable pub happen : Event → Engine → Engine
unfolding assigned stop stop_all stopped dispatch on_worker
happen (on_assigned ps) e = assigned ps e
happen (on_stop ps) e = stop ps e
happen on_exit e = stop_all e
happen on_stopped e = stopped e
happen (on_dispatch p ms) e = dispatch p ms e
happen (on_step i s) e = record e { workers = map (on_worker i s) e.workers }

unfoldable pub run_events : List Event → Engine → Engine
unfolding happen
run_events [] e = e
run_events (v ∷ vs) e = run_events vs (happen v e)
