-- ===== src/Kafka/Engine/Single.antt =====
-- One goroutine at a time for each partition: the callbacks of pkg/kafkax/engine.go, which stop a
-- goroutine and wait for it.
use gosplash.Prelude.{
  ℕ, ◌≤◌, List, [], ◌∷◌, Bool, true, false, ◌≡◌, refl, ap, All, map, arith, ◌&&◌, ◌||◌, Bool-cases,
  ◌++◌, inl, subst, inr,
}
use gosplash.Kafka.Engine.{
  Tp, same_tp, Worker, Engine, assign_one, send, on_worker, Event, on_assigned, on_stop, on_exit,
  on_stopped, on_dispatch, on_step, happen, is_listed, is_in, unlist, new_worker, close_quit,
  listed_ids, stop_one, assigned, stop, all_done, stopped, stop_all, run_events, no_workers,
  dispatch, all_listed,
}
use gosplash.Kafka.Engine.Counts.{
  count, is_live, MayAssign, Allowed, Obeys, same_tp-eq, is_accounted, Sound, live-le-listed,
  map-Sound, send-Kept, on_worker-Kept,
}

unlist-none : (q : Tp) (ws : List Worker) → count (is_listed q) ws ≡ 0 → map (unlist q) ws ≡ ws
unfolding count unlist
unlist-none q [] h = refl
unlist-none q (w ∷ ws) h = elim (Bool-cases (is_listed q w)) [
  | inl here ↦ absurd (ground arith)
  | inr other ↦ rw other (ap (◌∷◌ w) (unlist-none q ws (ground arith)))
]

and-true : (b : Bool) → (b && true) ≡ b
and-true true = refl
and-true false = refl

All-weaken :
    (P Q : Worker → Type 0) → ((w : Worker) → P w → Q w) → (ws : List Worker) → All P ws → All Q ws
All-weaken P Q f [] h = tt
All-weaken P Q f (w ∷ ws) (h, hs) = (f w h, All-weaken P Q f ws hs)

module _ (p q : Tp) where
  count-new :
      (f : Tp → Worker → Bool) (w : Worker) (ws : List Worker)
      → f p w ≡ same_tp q p
      → count (f p) ws ≤ 1
      → count (f q) ws ≡ 0
      → count (f p) (w ∷ ws) ≤ 1
  unfolding count
  count-new f w ws e h z = elim (Bool-cases (same_tp q p)) [
    | inl same ↦
        let none' : count (f p) ws ≡ 0 = subst (λ r. count (f r) ws ≡ 0) (same_tp-eq q p same) z in
        ground arith
    | inr other ↦ ground arith
  ]

  assign_one-Sound :
      (e : Engine)
      → e.waiting ≡ []
      → count (is_listed q) e.workers ≡ 0
      → Sound p e
      → Sound p (assign_one q e)
  unfolding assign_one new_worker is_listed is_live is_accounted
  assign_one-Sound e idle free s =
      let none' =
        live-le-listed q e.workers
          (subst (λ ids. All (λ w. is_accounted ids w ≡ true) e.workers) idle s.accounted) in
      rw (unlist-none q e.workers free) (record {
        one_listed = count-new is_listed _ e.workers refl s.one_listed free;
        accounted = (refl, s.accounted);
        one_live = count-new is_live _ e.workers (and-true (same_tp q p)) s.one_live (omega arith);
      })

  close_quit-listed :
      (ws : List Worker) → count (is_listed p) (map (close_quit q) ws) ≤ count (is_listed p) ws
  unfolding count is_listed close_quit
  close_quit-listed [] = omega arith
  close_quit-listed (w ∷ ws) = ground (arith, close_quit-listed ws)

  close_quit-live :
      (ws : List Worker) → count (is_live p) (map (close_quit q) ws) ≡ count (is_live p) ws
  unfolding count is_live close_quit
  close_quit-live [] = refl
  close_quit-live (w ∷ ws) = ground (arith, close_quit-live ws)

  is_in-append : (i : ℕ) (xs ys : List ℕ) → is_in i (xs ++ ys) ≡ (is_in i xs || is_in i ys)
  unfolding is_in
  is_in-append i [] ys = refl
  is_in-append i (x ∷ xs) ys = ground (arith, is_in-append i xs ys)

  listed_ids-head :
      (rest : List ℕ) (w : Worker) (ws : List Worker)
      → is_listed q w ≡ true
      → is_in w.id (listed_ids q (w ∷ ws) ++ rest) ≡ true
  unfolding listed_ids is_in
  listed_ids-head rest w ws h = rw h (ground arith)

  listed_ids-more :
      (rest : List ℕ) (w : Worker) (ws : List Worker) (i : ℕ)
      → is_in i (listed_ids q ws ++ rest) ≡ true
      → is_in i (listed_ids q (w ∷ ws) ++ rest) ≡ true
  unfolding listed_ids is_in
  listed_ids-more rest w ws i h = elim (Bool-cases (is_listed q w)) [
    | inl here ↦ rw here (ground arith)
    | inr other ↦ rw other h
  ]

  listed_ids-has :
      (rest : List ℕ) (ws : List Worker)
      → All (λ w. is_listed q w ≡ true → is_in w.id (listed_ids q ws ++ rest) ≡ true) ws
  listed_ids-has rest [] = tt
  listed_ids-has rest (w ∷ ws) = (
    listed_ids-head rest w ws,
    All-weaken (λ v. is_listed q v ≡ true → is_in v.id (listed_ids q ws ++ rest) ≡ true)
        (λ v. is_listed q v ≡ true → is_in v.id (listed_ids q (w ∷ ws) ++ rest) ≡ true)
        (λ v old h. listed_ids-more rest w ws v.id (old h)) ws (listed_ids-has rest ws),
  )

  stop_accounted :
      (ids : List ℕ) (ws : List Worker) (waiting : List ℕ)
      → ((i : ℕ) → is_in i waiting ≡ true → is_in i ids ≡ true)
      → All (λ w. is_listed q w ≡ true → is_in w.id ids ≡ true) ws
      → All (λ w. is_accounted waiting w ≡ true) ws
      → All (λ w. is_accounted ids w ≡ true) (map (close_quit q) ws)
  unfolding is_accounted close_quit
  stop_accounted ids [] waiting more h k = tt
  stop_accounted ids (w ∷ ws) waiting more (h, hs) (k, ks) =
      (ground (arith, more w.id), stop_accounted ids ws waiting more hs ks)

  stop_one-Sound : (e : Engine) → Sound p e → Sound p (stop_one q e)
  unfolding stop_one
  stop_one-Sound e s = record {
    one_listed = omega (arith, close_quit-listed e.workers, s.one_listed);
    accounted =
        stop_accounted _ e.workers e.waiting
          (λ i h. rw (is_in-append i (listed_ids q e.workers) e.waiting) (ground arith))
          (listed_ids-has e.waiting e.workers) s.accounted;
    one_live = omega (arith, close_quit-live e.workers, s.one_live);
  }

module _ (p : Tp) where
  assigned-Sound :
      (ps : List Tp) (e : Engine) → MayAssign ps e → Sound p e → Sound p (assigned ps e)
  unfolding assigned MayAssign
  assigned-Sound [] e h s = s
  assigned-Sound (q ∷ qs) e (idle, free, h) s =
      assigned-Sound qs (assign_one q e) h (assign_one-Sound p q e idle free s)

  stop-Sound : (ps : List Tp) (e : Engine) → Sound p e → Sound p (stop ps e)
  unfolding stop
  stop-Sound [] e s = s
  stop-Sound (q ∷ qs) e s = stop-Sound qs (stop_one q e) (stop_one-Sound p q e s)

  -- What was waited for has left.
  all_done-accounted :
      (ids : List ℕ) (ws : List Worker)
      → all_done ids ws ≡ true
      → All (λ w. is_accounted ids w ≡ true) ws
      → All (λ w. is_accounted [] w ≡ true) ws
  unfolding all_done is_accounted is_in
  all_done-accounted ids [] h k = tt
  all_done-accounted ids (w ∷ ws) h (k, ks) =
      (ground arith, all_done-accounted ids ws (ground arith) ks)

  stopped-Sound : (e : Engine) → Sound p e → Sound p (stopped e)
  unfolding stopped
  stopped-Sound e s = elim (Bool-cases (all_done e.waiting e.workers)) [
    | inl finished ↦ rw finished (record {
      one_listed = s.one_listed;
      accounted = all_done-accounted e.waiting e.workers finished s.accounted;
      one_live = s.one_live;
    })
    | inr running ↦ rw running s
  ]

  happen-Sound : (v : Event) (e : Engine) → Allowed v e → Sound p e → Sound p (happen v e)
  unfolding happen Allowed stop_all dispatch
  happen-Sound (on_assigned ps) e h s = assigned-Sound ps e h s
  happen-Sound (on_stop ps) e h s = stop-Sound ps e s
  happen-Sound on_exit e h s = stop-Sound (all_listed e.workers) e s
  happen-Sound on_stopped e h s = stopped-Sound e s
  happen-Sound (on_dispatch q []) e h s = s
  happen-Sound (on_dispatch q (m ∷ ms)) e h s =
      map-Sound (send q (m ∷ ms)) (send-Kept q (m ∷ ms)) p e s
  happen-Sound (on_step i st) e h s = map-Sound (on_worker i st) (on_worker-Kept i st) p e s

  run_events-Sound :
      (vs : List Event) (e : Engine) → Obeys vs e → Sound p e → Sound p (run_events vs e)
  unfolding run_events Obeys
  run_events-Sound [] e h s = s
  run_events-Sound (v ∷ vs) e (h, hs) s = run_events-Sound vs (happen v e) hs (happen-Sound v e h s)

-- If the client keeps its contract, then in whatever order its callbacks, polls and the steps of
-- goroutines come, a partition has at most one goroutine that has not left; and once `stop` has
-- waited, a partition that is not in the map has none, so that nobody processes its records.
pub one_at_a_time :
    (vs : List Event)
    → Obeys vs no_workers
    → (p : Tp)
    → (count (is_live p) (run_events vs no_workers).workers ≤ 1)
      × ((run_events vs no_workers).waiting ≡ []
          → count (is_listed p) (run_events vs no_workers).workers ≡ 0
          → count (is_live p) (run_events vs no_workers).workers ≡ 0)
unfolding count
one_at_a_time vs h p =
    let e = run_events vs no_workers in
    let s =
      run_events-Sound p vs no_workers h
        (record { one_listed = omega arith; accounted = tt; one_live = omega arith }) in
    (
      s.one_live,
      λ idle free.
          let none' =
            live-le-listed p e.workers
              (subst (λ ids. All (λ w. is_accounted ids w ≡ true) e.workers) idle s.accounted) in
          omega arith,
    )
