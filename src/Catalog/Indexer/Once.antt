-- ===== src/Catalog/Indexer/Once.antt =====
-- An event is applied once: services/catalog/internal/app/indexer.go.
use gosplash.Kafka.Failing.{Failing}
use gosplash.Prelude.{
  ℕ, ◌+◌, ◌≤◌, String, List, ◌∷◌, Option, true, false, str_eq, eq_iff, ◌≡◌, refl, arith, length,
  Bool-cases, Option-cases, inl, inr, if◌then◌else◌, subst, ◌-◌, [],
}
use gosplash.Catalog.Db.{
  Catalog, IndexError, DbEnv, Worked, is_processed, Applied, applied, skipped, with_claim,
  not_applied,
}
use gosplash.Catalog.Indexer.{
  Services, index_photo, apply_thumbnails, handle_photo_uploaded, finish_event,
  handle_photo_thumbnail_ready,
}
use gosplash.Catalog.Indexer.Writes.{more, index_photo-Writes, apply_thumbnails-Writes, Writes}
use gosplash.Catalog.Indexer.Claimed.{Claimed, idle-Claimed, with_claim-Claimed}

-- An event that reaches one of the two handlers, which are handlers of a Kafka consumer.
pub data Delivery (E : Type 0) : Type 0 where
  uploaded_event ready_event : E → Delivery E

unfoldable pub envelope_of : {E : Type 0} → Delivery E → E
envelope_of (uploaded_event e) = e
envelope_of (ready_event e) = e

unfoldable pub deliver :
    {E : Type 0} → DbEnv → Services E → Delivery E → Catalog → Option Failing × Catalog
unfolding handle_photo_uploaded handle_photo_thumbnail_ready
deliver env srv (uploaded_event e) w = handle_photo_uploaded env srv e w
deliver env srv (ready_event e) w = handle_photo_thumbnail_ready env srv e w

-- How many rows of the outbox the deliveries of one event write, among some that follow one another.
unfoldable pub rows_for :
    {E : Type 0} → DbEnv → Services E → String → List (Delivery E) → Catalog → ℕ
unfolding deliver envelope_of
rows_for env srv event [] w = 0
rows_for env srv event (d ∷ ds) w =
    let w' = (deliver env srv d w).1 in
    let rest = rows_for env srv event ds w' in
    (if str_eq (srv.event_id (envelope_of d)) event
      then length w'.db.outbox - length w.db.outbox
      else 0)
    + rest

module _ {E : Type 0} (env : DbEnv) (srv : Services E) where
  finish_event-db :
      (classify : IndexError → Failing) (i : String) (p : Applied × Catalog)
      → (finish_event env srv classify i p).1.db ≡ p.1.db
  unfolding finish_event
  finish_event-db classify i (applied, w) = refl
  finish_event-db classify i (skipped, w) = refl
  finish_event-db classify i (not_applied e, w) = refl

  handled-Claimed :
      (event i : String) (classify : IndexError → Failing) (fn : Catalog → Worked) (w : Catalog)
      → ((w' : Catalog) → Writes 1 w' (fn w'))
      → Claimed event w.db (finish_event env srv classify i (with_claim env event fn w)).1.db
  handled-Claimed event i classify fn w writes =
      rw (finish_event-db classify i (with_claim env event fn w))
        (with_claim-Claimed env event fn w writes)

  deliver-Claimed :
      (d : Delivery E) (w : Catalog)
      → Claimed (srv.event_id (envelope_of d)) w.db (deliver env srv d w).1.db
  unfolding deliver envelope_of handle_photo_uploaded handle_photo_thumbnail_ready
  deliver-Claimed (uploaded_event e) w = elim (Option-cases (srv.uploaded e)) [
    | inl bad ↦ rw (bad, handle_photo_uploaded) (idle-Claimed env (srv.event_id e) w.db w.db refl)
    | inr (p, good) ↦
        rw (good, handle_photo_uploaded)
          (handled-Claimed (srv.event_id e) p.photo_id _ (index_photo env srv p) w
            (λ w'. more env 0 1 w' _ (omega arith) (index_photo-Writes env srv p w')))
  ]
  deliver-Claimed (ready_event e) w = elim (Option-cases (srv.ready e)) [
    | inl bad ↦
        rw (bad, handle_photo_thumbnail_ready) (idle-Claimed env (srv.event_id e) w.db w.db refl)
    | inr (p, good) ↦
        rw (good, handle_photo_thumbnail_ready)
          (handled-Claimed (srv.event_id e) p.photo_id _
            (apply_thumbnails env srv p (srv.occurred_at e)) w
            (λ w'. apply_thumbnails-Writes env srv p (srv.occurred_at e) w'))
  ]

  rows_for_processed :
      (event : String) (ds : List (Delivery E)) (w : Catalog)
      → is_processed event w.db.processed ≡ true
      → rows_for env srv event ds w ≡ 0
  unfolding rows_for
  rows_for_processed event [] w h = refl
  rows_for_processed event (d ∷ ds) w h =
      let c = deliver-Claimed d w in
      let rest = rows_for_processed event ds (deliver env srv d w).1 (c.keeps event h) in
      elim (Bool-cases (str_eq (srv.event_id (envelope_of d)) event)) [
        | inr other ↦ rw (other, rows_for) (omega (arith, rest))
        | inl mine ↦
            let e = (eq_iff (srv.event_id (envelope_of d)) event).0 mine in
            rw (mine, rows_for)
              (elim c.rows [
                | inl none_now ↦ omega (arith, none_now, rest)
                | inr (one_now, new, done) ↦
                    let fresh : is_processed event w.db.processed ≡ false =
                      subst (λ i. is_processed i w.db.processed ≡ false) e new in
                    cc
              ])
      ]

  -- However statements, COMMIT and calls of media fail: among deliveries of events that follow one
  -- another, to either handler, those with one event id write at most one row into
  -- `outbox_catalog`, however often the event comes.
  pub event_published_once :
      (event : String) (ds : List (Delivery E)) (w : Catalog) → rows_for env srv event ds w ≤ 1
  unfolding rows_for
  event_published_once event [] w = omega arith
  event_published_once event (d ∷ ds) w =
      let c = deliver-Claimed d w in
      let rest = event_published_once event ds (deliver env srv d w).1 in
      elim (Bool-cases (str_eq (srv.event_id (envelope_of d)) event)) [
        | inr other ↦ rw (other, rows_for) (omega (arith, rest))
        | inl mine ↦
            let e = (eq_iff (srv.event_id (envelope_of d)) event).0 mine in
            rw (mine, rows_for)
              (elim c.rows [
                | inl none_now ↦ omega (arith, none_now, rest)
                | inr (one_now, new, done) ↦
                    let now : is_processed event (deliver env srv d w).1.db.processed ≡ true =
                      subst (λ i. is_processed i (deliver env srv d w).1.db.processed ≡ true) e
                        done in
                    omega (arith, one_now, rows_for_processed event ds (deliver env srv d w).1 now)
              ])
      ]
