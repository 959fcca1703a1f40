-- ===== src/Kafka/Engine/Fifo.antt =====
-- The records of a partition, in order: `partitionWorker.run` and `dispatch` of
-- pkg/kafkax/engine.go.
use gosplash.Prelude.{
  List, [], ◌∷◌, ◌++◌, Option, none, some, Bool, true, false, ◌≡◌, refl, ◌∙◌, ap, sym, All, map,
  append_assoc, Bool-cases, inl, inr, arith, ◌&&◌, ◌||◌, ltb, length, if◌then◌else◌, ◌==◌,
}
use gosplash.Kafka.Record.{Message}
use gosplash.Kafka.Engine.{
  Tp, Worker, Engine, no_workers, new_worker, unlist, assign_one, assigned, close_quit, stop_one,
  stop, stop_all, stopped, send, dispatch, take_batch, start_record, finish_record, leave, Step,
  takes, starts, finishes, leaves, step_worker, on_worker, Event, on_assigned, on_stop, on_exit,
  on_stopped, on_dispatch, on_step, happen, run_events, is_listed, all_done, recs_capacity,
  all_listed,
}
use mathlib.Core.List.{append-nil}

abbrev pub in_hand : Option Message → List Message
in_hand none = []
in_hand (some m) = m ∷ []

unfoldable pub join_all : List (List Message) → List Message
join_all [] = []
join_all (b ∷ bs) = b ++ join_all bs

-- What a goroutine has processed, what it is processing, and what it still has, is what it was sent,
-- in that order; and when it has left, it processes nothing.
pub record Fifo (w : Worker) : Type 0 where
  pub order : w.sent ≡ w.handled ++ (in_hand w.busy ++ (w.batch ++ join_all w.recs))
  pub idle : w.done ≡ true → w.busy ≡ none

join_all-append :
    (bs : List (List Message)) (b : List Message) → join_all (bs ++ b ∷ []) ≡ join_all bs ++ b
unfolding join_all
join_all-append [] b = append-nil b
join_all-append (c ∷ bs) b =
    ap (λ l. c ++ l) (join_all-append bs b) ∙ sym (append_assoc c (join_all bs) b)

if-Fifo :
    (b : Bool) {w v : Worker}
    → (b ≡ true → Fifo w)
    → (b ≡ false → Fifo v)
    → Fifo (if b then w else v)
if-Fifo true f g = f refl
if-Fifo false f g = g refl

-- What is in hand, with one of its parts named.
module _ (w : Worker) (f : Fifo w) where
  order_busy :
      (busy : Option Message)
      → w.busy ≡ busy
      → w.sent ≡ w.handled ++ (in_hand busy ++ (w.batch ++ join_all w.recs))
  order_busy busy e = f.order ∙ ap (λ b. w.handled ++ (in_hand b ++ (w.batch ++ join_all w.recs))) e

  order_batch :
      (busy : Option Message) (batch : List Message)
      → w.busy ≡ busy
      → w.batch ≡ batch
      → w.sent ≡ w.handled ++ (in_hand busy ++ (batch ++ join_all w.recs))
  order_batch busy batch e e' =
      order_busy busy e ∙ ap (λ b. w.handled ++ (in_hand busy ++ (b ++ join_all w.recs))) e'

send-Fifo : (p : Tp) (ms : List Message) (w : Worker) → Fifo w → Fifo (send p ms w)
unfolding send
send-Fifo p ms w f =
    if-Fifo (is_listed p w && ltb (length w.recs) recs_capacity)
      (λ room. record {
        order = ap (λ l. l ++ ms) f.order ∙ simp (append_assoc, join_all-append);
        idle = f.idle;
      })
      (λ full. f)

take_batch-Fifo :
    (recs : List (List Message)) (batch : List Message) (busy : Option Message) (w : Worker)
    → w.recs ≡ recs
    → w.batch ≡ batch
    → w.busy ≡ busy
    → Fifo w
    → Fifo (take_batch recs batch busy w)
unfolding take_batch join_all
take_batch-Fifo [] batch busy w e e' e'' f = f
take_batch-Fifo (b ∷ bs) [] none w e e' e'' f =
    if-Fifo w.done (λ gone. f)
      (λ here. record {
        order =
            order_batch w f w.busy [] refl e'
            ∙ ap (λ r. w.handled ++ (in_hand w.busy ++ join_all r)) e;
        idle = f.idle;
      })
take_batch-Fifo (b ∷ bs) [] (some m) w e e' e'' f = f
take_batch-Fifo (b ∷ bs) (x ∷ xs) busy w e e' e'' f = f

start_record-Fifo :
    (batch : List Message) (busy : Option Message) (w : Worker)
    → w.batch ≡ batch
    → w.busy ≡ busy
    → Fifo w
    → Fifo (start_record batch busy w)
unfolding start_record
start_record-Fifo [] busy w e e' f = f
start_record-Fifo (m ∷ ms) (some x) w e e' f = f
start_record-Fifo (m ∷ ms) none w e e' f =
    if-Fifo (w.quit || w.done) (λ stays. f)
      (λ goes. record { order = order_batch w f none (m ∷ ms) e' e; idle = λ h. ground arith })

finish_record-Fifo :
    (busy : Option Message) (w : Worker) → w.busy ≡ busy → Fifo w → Fifo (finish_record busy w)
unfolding finish_record
finish_record-Fifo none w e f = f
finish_record-Fifo (some m) w e f = record {
  order = order_busy w f (some m) e ∙ sym (append_assoc w.handled (m ∷ []) _);
  idle = λ h. refl;
}

leave-Fifo : (busy : Option Message) (w : Worker) → w.busy ≡ busy → Fifo w → Fifo (leave busy w)
unfolding leave
leave-Fifo (some m) w e f = f
leave-Fifo none w e f =
    if-Fifo w.quit (λ told. record { order = f.order; idle = λ h. e }) (λ untold. f)

step_worker-Fifo : (s : Step) (w : Worker) → Fifo w → Fifo (step_worker s w)
unfolding step_worker
step_worker-Fifo takes w f = take_batch-Fifo w.recs w.batch w.busy w refl refl refl f
step_worker-Fifo starts w f = start_record-Fifo w.batch w.busy w refl refl f
step_worker-Fifo finishes w f = finish_record-Fifo w.busy w refl f
step_worker-Fifo leaves w f = leave-Fifo w.busy w refl f

module _ (P : Worker → Type 0) where
  pub map-All :
      (f : Worker → Worker)
      → ((w : Worker) → P w → P (f w))
      → (ws : List Worker) → All P ws
      → All P (map f ws)
  map-All f keep [] h = tt
  map-All f keep (w ∷ ws) (h, hs) = (keep w h, map-All f keep ws hs)

abbrev Ordered : Engine → Type 0
Ordered e = All Fifo e.workers

unlist-Fifo : (p : Tp) (w : Worker) → Fifo w → Fifo (unlist p w)
unfolding unlist
unlist-Fifo p w f =
    if-Fifo (is_listed p w) (λ h. record { order = f.order; idle = f.idle }) (λ h. f)

close_quit-Fifo : (p : Tp) (w : Worker) → Fifo w → Fifo (close_quit p w)
unfolding close_quit
close_quit-Fifo p w f =
    if-Fifo (is_listed p w) (λ h. record { order = f.order; idle = f.idle }) (λ h. f)

assigned-Ordered : (ps : List Tp) (e : Engine) → Ordered e → Ordered (assigned ps e)
unfolding assigned assign_one new_worker join_all
assigned-Ordered [] e h = h
assigned-Ordered (p ∷ ps) e h =
    assigned-Ordered ps (assign_one p e) (
      record { order = refl; idle = λ d. refl },
      map-All Fifo (unlist p) (unlist-Fifo p) e.workers h,
    )

stop-Ordered : (ps : List Tp) (e : Engine) → Ordered e → Ordered (stop ps e)
unfolding stop stop_one
stop-Ordered [] e h = h
stop-Ordered (p ∷ ps) e h =
    stop-Ordered ps (stop_one p e) (map-All Fifo (close_quit p) (close_quit-Fifo p) e.workers h)

happen-Ordered : (v : Event) (e : Engine) → Ordered e → Ordered (happen v e)
unfolding happen stop_all stopped dispatch on_worker
happen-Ordered (on_assigned ps) e h = assigned-Ordered ps e h
happen-Ordered (on_stop ps) e h = stop-Ordered ps e h
happen-Ordered on_exit e h = stop-Ordered (all_listed e.workers) e h
happen-Ordered on_stopped e h = elim (Bool-cases (all_done e.waiting e.workers)) [
  | inl finished ↦ rw finished h
  | inr running ↦ rw running h
]
happen-Ordered (on_dispatch p []) e h = h
happen-Ordered (on_dispatch p (m ∷ ms)) e h =
    map-All Fifo (send p (m ∷ ms)) (send-Fifo p (m ∷ ms)) e.workers h
happen-Ordered (on_step i s) e h =
    map-All Fifo (on_worker i s)
      (λ w f. if-Fifo (w.id == i) (λ e'. step_worker-Fifo s w f) (λ e'. f)) e.workers h

run_events-Ordered : (vs : List Event) (e : Engine) → Ordered e → Ordered (run_events vs e)
unfolding run_events
run_events-Ordered [] e h = h
run_events-Ordered (v ∷ vs) e h = run_events-Ordered vs (happen v e) (happen-Ordered v e h)

-- In whatever order callbacks, polls and steps of goroutines come: what each goroutine has
-- processed, what it is processing, the rest of its batch and its channel are together what was
-- sent to it, in that order, none left out and none twice; and a goroutine that has left processes
-- nothing.
pub records_in_order : (vs : List Event) → All Fifo (run_events vs no_workers).workers
records_in_order vs = run_events-Ordered vs no_workers tt
