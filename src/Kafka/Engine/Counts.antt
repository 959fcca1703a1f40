-- ===== src/Kafka/Engine/Counts.antt =====
-- How many goroutines a partition has, and the changes that keep them: pkg/kafkax/engine.go.
use gosplash.Prelude.{
  ℕ, ◌+◌, ◌≤◌, List, [], ◌∷◌, Option, none, some, Bool, true, false, ◌≡◌, refl, ap, All, map, arith,
  ◌&&◌, ◌||◌, not, if◌then◌else◌, eq_iff, ◌==◌, ltb, length, ◌∙◌,
}
use gosplash.Prelude.Int.{==ℤ_iff}
use gosplash.Kafka.Record.{Message}
use gosplash.Kafka.Engine.{
  Tp, same_tp, Worker, Engine, assign_one, send, take_batch, start_record, finish_record, leave,
  Step, takes, starts, finishes, leaves, step_worker, on_worker, Event, on_assigned, on_stop,
  on_exit, on_stopped, on_dispatch, on_step, happen, is_listed, is_in, recs_capacity,
}
use gosplash.Kafka.Engine.Fifo.{map-All}

-- How many goroutines pass a test.
unfoldable pub count : (Worker → Bool) → List Worker → ℕ
count f [] = 0
count f (w ∷ ws) = (if f w then 1 else 0) + count f ws

-- A goroutine of a partition that has not left `run`.
unfoldable pub is_live : Tp → Worker → Bool
is_live p w = same_tp w.tp p && not w.done

-- The contract of the client: its callbacks come one after another, and it assigns a partition only
-- if it has not assigned it, or has taken it back since.
unfoldable pub MayAssign : List Tp → Engine → Type 0
unfolding count
MayAssign [] e = Unit
MayAssign (p ∷ ps) e =
    (e.waiting ≡ []) × (count (is_listed p) e.workers ≡ 0) × MayAssign ps (assign_one p e)

unfoldable pub Allowed : Event → Engine → Type 0
unfolding MayAssign
Allowed (on_assigned ps) e = MayAssign ps e
Allowed (on_stop ps) e = Unit
Allowed on_exit e = Unit
Allowed on_stopped e = Unit
Allowed (on_dispatch p ms) e = Unit
Allowed (on_step i s) e = Unit

unfoldable pub Obeys : List Event → Engine → Type 0
unfolding Allowed
Obeys [] e = Unit
Obeys (v ∷ vs) e = Allowed v e × Obeys vs (happen v e)

pub same_tp-eq : (a b : Tp) → same_tp a b ≡ true → a ≡ b
unfolding same_tp
same_tp-eq a b h = ground (arith, eq_iff a.topic b.topic, ==ℤ_iff a.partition b.partition)

-- A goroutine is in the map, or has left, or a callback waits for it.
unfoldable pub is_accounted : List ℕ → Worker → Bool
unfolding is_in
is_accounted waiting w = w.listed || (w.done || is_in w.id waiting)

-- For one partition: the map has one goroutine at most, and one at most is live.
pub record Sound (p : Tp) (e : Engine) : Type 0 where
  pub one_listed : count (is_listed p) e.workers ≤ 1
  pub accounted : All (λ w. is_accounted e.waiting w ≡ true) e.workers
  pub one_live : count (is_live p) e.workers ≤ 1

-- With nothing to wait for, a live goroutine is in the map.
pub live-le-listed :
    (p : Tp) (ws : List Worker)
    → All (λ w. is_accounted [] w ≡ true) ws
    → count (is_live p) ws ≤ count (is_listed p) ws
unfolding count is_live is_listed is_accounted
live-le-listed p [] h = omega arith
live-le-listed p (w ∷ ws) (h, hs) = ground (arith, live-le-listed p ws hs)

-- A goroutine after a change that keeps what it is.
pub record Kept (w v : Worker) : Type 0 where
  pub same_id : v.id ≡ w.id
  pub same_partition : v.tp ≡ w.tp
  pub same_listed : v.listed ≡ w.listed
  pub stays_done : w.done ≡ true → v.done ≡ true

module _ (f : Worker → Worker) (k : (w : Worker) → Kept w (f w)) (p : Tp) where
  map-listed : (ws : List Worker) → count (is_listed p) (map f ws) ≡ count (is_listed p) ws
  unfolding count is_listed
  map-listed [] = refl
  map-listed (w ∷ ws) = ground (arith, map-listed ws, (k w).same_listed, (k w).same_partition)

  map-live : (ws : List Worker) → count (is_live p) (map f ws) ≤ count (is_live p) ws
  unfolding count is_live
  map-live [] = omega arith
  map-live (w ∷ ws) = ground (arith, map-live ws, (k w).stays_done, (k w).same_partition)

  Kept-accounted :
      (ids : List ℕ) (w : Worker) → is_accounted ids w ≡ true → is_accounted ids (f w) ≡ true
  unfolding is_accounted
  Kept-accounted ids w h =
      ground (arith, (k w).same_listed, (k w).stays_done, ap (λ i. is_in i ids) (k w).same_id)

  pub map-Sound : (e : Engine) → Sound p e → Sound p (record e { workers = map f e.workers })
  map-Sound e s = record {
    one_listed = rw (map-listed e.workers) s.one_listed;
    accounted =
        map-All (λ w. is_accounted e.waiting w ≡ true) f (λ w h. Kept-accounted e.waiting w h)
          e.workers s.accounted;
    one_live = omega (arith, map-live e.workers, s.one_live);
  }

kept : {w v : Worker} → v.id ≡ w.id → v.tp ≡ w.tp → v.listed ≡ w.listed → v.done ≡ w.done → Kept w v
kept i t l d = record { same_id = i; same_partition = t; same_listed = l; stays_done = λ h. d ∙ h }

if-Kept : (b : Bool) {w u v : Worker} → Kept w u → Kept w v → Kept w (if b then u else v)
if-Kept true f g = f
if-Kept false f g = g

unchanged : (w : Worker) → Kept w w
unchanged w = kept refl refl refl refl

pub send-Kept : (p : Tp) (ms : List Message) (w : Worker) → Kept w (send p ms w)
unfolding send
send-Kept p ms w =
    if-Kept (is_listed p w && ltb (length w.recs) recs_capacity)
      (record { same_id = refl; same_partition = refl; same_listed = refl; stays_done = λ h. h })
      (unchanged w)

take_batch-Kept :
    (recs : List (List Message)) (batch : List Message) (busy : Option Message) (w : Worker)
    → Kept w (take_batch recs batch busy w)
unfolding take_batch
take_batch-Kept [] batch busy w = unchanged w
take_batch-Kept (b ∷ bs) [] none w =
    if-Kept w.done (unchanged w)
      (record { same_id = refl; same_partition = refl; same_listed = refl; stays_done = λ h. h })
take_batch-Kept (b ∷ bs) [] (some m) w = unchanged w
take_batch-Kept (b ∷ bs) (x ∷ xs) busy w = unchanged w

start_record-Kept :
    (batch : List Message) (busy : Option Message) (w : Worker) → Kept w (start_record batch busy w)
unfolding start_record
start_record-Kept [] busy w = unchanged w
start_record-Kept (m ∷ ms) (some x) w = unchanged w
start_record-Kept (m ∷ ms) none w =
    if-Kept (w.quit || w.done) (unchanged w)
      (record { same_id = refl; same_partition = refl; same_listed = refl; stays_done = λ h. h })

finish_record-Kept : (busy : Option Message) (w : Worker) → Kept w (finish_record busy w)
unfolding finish_record
finish_record-Kept none w = unchanged w
finish_record-Kept (some m) w = kept refl refl refl refl

leave-Kept : (busy : Option Message) (w : Worker) → Kept w (leave busy w)
unfolding leave
leave-Kept (some m) w = unchanged w
leave-Kept none w =
    if-Kept w.quit
      (record { same_id = refl; same_partition = refl; same_listed = refl; stays_done = λ h. refl })
      (unchanged w)

step_worker-Kept : (s : Step) (w : Worker) → Kept w (step_worker s w)
unfolding step_worker
step_worker-Kept takes w = take_batch-Kept w.recs w.batch w.busy w
step_worker-Kept starts w = start_record-Kept w.batch w.busy w
step_worker-Kept finishes w = finish_record-Kept w.busy w
step_worker-Kept leaves w = leave-Kept w.busy w

pub on_worker-Kept : (i : ℕ) (s : Step) (w : Worker) → Kept w (on_worker i s w)
unfolding on_worker
on_worker-Kept i s w = if-Kept (w.id == i) (step_worker-Kept s w) (unchanged w)
