-- ===== src/Catalog/Indexer/Writes.antt =====
-- What the work on an event writes: services/catalog/internal/adapters/pg/tx.go and app/indexer.go.
use gosplash.Prelude.Int.{ℤ}
use gosplash.Prelude.{
  ℕ, ◌+◌, ◌≤◌, String, List, Option, none, some, Bool, true, false, ◌≡◌, ◌⊎◌, refl, arith, length,
  ap, ◌∙◌, Bool-cases, Option-cases, inl, inr,
}
use gosplash.Kafka.Record.{Header}
use gosplash.Outbox.Row.{OutboxRow, Encoding, WriteError, build_row, insert_row, put_all}
use gosplash.Catalog.Db.{
  ListingRow, Db, Catalog, IndexError, index_failed, DbEnv, Worked, find_listing, find_author,
  statement, execute, upsert_listing, upsert_author_snapshot, insert_listing, insert_author,
  unless_there, written, write_outbox, publish_listing,
}
use gosplash.Catalog.Indexer.{
  Services, PhotoUploaded, ThumbnailReady, or_stop, index_photo, publish_event, read_author,
  apply_to_row, apply_thumbnails, name_of,
}

-- Work that leaves the processed events alone and writes at most so many rows into the outbox.
pub record Writes (most : ℕ) (w : Catalog) (r : Worked) : Type 0 where
  pub processed : r.1.db.processed ≡ w.db.processed
  pub rows : length r.1.db.outbox ≤ most + length w.db.outbox

-- An insert leaves the processed events and the outbox alone.
record Inserted (db db' : Db) : Type 0 where
  processed : db'.processed ≡ db.processed
  outbox : db'.outbox ≡ db.outbox

unless_there-Inserted :
    {A : Type 0} (o : Option A) (added db : Db)
    → Inserted db added
    → Inserted db (unless_there o added db)
unfolding unless_there
unless_there-Inserted none added db h = h
unless_there-Inserted (some old) added db h = record { processed = refl; outbox = refl }

insert_listing-Inserted :
    (row : ListingRow) (json : String) (db : Db) → Inserted db (insert_listing row json db)
unfolding insert_listing
insert_listing-Inserted row json db =
    unless_there-Inserted (find_listing row.id db.listings) _ db
      (record { processed = refl; outbox = refl })

insert_author-Inserted : (i : ℤ) (name : String) (db : Db) → Inserted db (insert_author i name db)
unfolding insert_author
insert_author-Inserted i name db =
    unless_there-Inserted (find_author i db.authors) _ db
      (record { processed = refl; outbox = refl })

module _ (env : DbEnv) where
  pub more : (n k : ℕ) (w : Catalog) (r : Worked) → n ≤ k → Writes n w r → Writes k w r
  more n k w r le h = record { processed = h.processed; rows = omega (arith, le, h.rows) }

  execute-Writes :
      (text : String) (change : Db → Db) (w : Catalog)
      → (change w.db).processed ≡ w.db.processed
      → (change w.db).outbox ≡ w.db.outbox
      → Writes 0 w (execute env text change w)
  unfolding execute statement
  execute-Writes text change w e f = elim (Bool-cases (env.sql_ok w.statements)) [
    | inl ok ↦ rw (ok, execute) (record { processed = e; rows = omega (arith, ap length f) })
    | inr refused ↦ rw (refused, execute) (record { processed = refl; rows = omega arith })
  ]

  upsert_listing-Writes :
      (row : ListingRow) (hs : List Header) (w : Catalog) → Writes 0 w (upsert_listing env row hs w)
  unfolding upsert_listing
  upsert_listing-Writes row hs w = elim (Option-cases (env.marshal_thumbnails hs)) [
    | inl bad ↦ rw (bad, upsert_listing) (record { processed = refl; rows = omega arith })
    | inr (json, good) ↦
        rw (good, upsert_listing)
          (let h = insert_listing-Inserted row json w.db in
            execute-Writes "создание карточки" (insert_listing row json) w h.processed h.outbox)
  ]

  upsert_author-Writes :
      (i : ℤ) (name : String) (w : Catalog) → Writes 0 w (upsert_author_snapshot env i name w)
  unfolding upsert_author_snapshot
  upsert_author-Writes i name w =
      let h = insert_author-Inserted i name w.db in
      execute-Writes "слепок автора" (insert_author i name) w h.processed h.outbox

  insert_row-length :
      {E : Type 0} (enc : Encoding E) (ok : Bool) (made : WriteError ⊎ OutboxRow)
      (rows : List OutboxRow)
      → length (insert_row enc ok made rows).1 ≤ 1 + length rows
  unfolding insert_row
  insert_row-length enc ok (inl e) rows = omega arith
  insert_row-length enc true (inr r) rows = omega arith
  insert_row-length enc false (inr r) rows = omega arith

  write_outbox-Writes :
      {E : Type 0} (enc : Encoding E) (e : E) (topic : String) (w : Catalog)
      → Writes 1 w (write_outbox env enc e topic w)
  unfolding write_outbox
  write_outbox-Writes enc e topic w =
      by_result
        (insert_row enc (env.sql_ok w.statements)
          (build_row enc "catalog" e topic (env.new_row_id w.statements)) w.db.outbox)
        (insert_row-length enc (env.sql_ok w.statements) _ w.db.outbox)
    where
      by_result :
          (p : Option WriteError × List OutboxRow)
          → length p.1 ≤ 1 + length w.db.outbox
          → Writes 1 w (written env p (statement env w).1)
      by_result (none, rows) le = record { processed = refl; rows = le }
      by_result (some err, rows) le = record { processed = refl; rows = omega arith }

  or_stop-Writes :
      {E : Type 0} (srv : Services E) (n : ℕ) (w : Catalog) (r : Worked) (next : Catalog → Worked)
      → Writes 0 w r
      → ((w' : Catalog) → Writes n w' (next w'))
      → Writes n w (or_stop env srv r next)
  unfolding or_stop
  or_stop-Writes srv n w (some e, w') next first then_next =
      more 0 n w (some e, w') (omega arith) first
  or_stop-Writes srv n w (none, w') next first then_next =
      let second = then_next w' in
      record {
        processed = second.processed ∙ first.processed;
        rows = omega (arith, first.rows, second.rows);
      }

module _ {E : Type 0} (env : DbEnv) (srv : Services E) where
  pub index_photo-Writes : (p : PhotoUploaded) (w : Catalog) → Writes 0 w (index_photo env srv p w)
  unfolding index_photo
  index_photo-Writes p w = by_fetch (srv.fetch w.statements p.photo_id p.user_id)
    where
      by_fetch :
          (x : IndexError ⊎ (ListingRow × List Header))
          → Writes 0 w (elim x as (λ _. Worked) [
            | inl err ↦ (some err, w)
            | inr (row, thumbnails) ↦
                or_stop env srv
                  (upsert_author_snapshot env row.author_id (srv.author_name row.author_id) w)
                  (λ w'. upsert_listing env row thumbnails w')
          ])
      by_fetch (inl err) = record { processed = refl; rows = omega arith }
      by_fetch (inr (row, hs)) =
          or_stop-Writes env srv 0 w _ _ (upsert_author-Writes env row.author_id _ w)
            (λ w'. upsert_listing-Writes env row hs w')

  publish_event-Writes :
      (listing : ListingRow × String) (w : Catalog) → Writes 1 w (publish_event env srv listing w)
  unfolding publish_event
  publish_event-Writes listing w = elim (Bool-cases (srv.envelope_fits listing)) [
    | inl fits ↦
        rw (fits, publish_event)
          (write_outbox-Writes env srv.published listing "catalog.listing.published" w)
    | inr misfit ↦ rw (misfit, publish_event) (record { processed = refl; rows = omega arith })
  ]

  read_author-Writes : (row : ListingRow) (w : Catalog) → Writes 1 w (read_author env srv row w)
  unfolding read_author statement
  read_author-Writes row w = elim (Option-cases (env.unmarshal_thumbnails row.thumbnails)) [
    | inl bad ↦ rw (bad, read_author) (record { processed = refl; rows = omega arith })
    | inr (hs, good) ↦
        let name = name_of env srv (statement env w).0 (find_author row.author_id w.db.authors) in
        let h = publish_event-Writes (row, name) (statement env w).1 in
        rw (good, read_author) (record { processed = h.processed; rows = h.rows })
  ]

  apply_to_row-Writes :
      (row : ListingRow) (hs : List Header) (at : String) (w : Catalog)
      → Writes 1 w (apply_to_row env srv row hs at w)
  unfolding apply_to_row
  apply_to_row-Writes row hs at w = by_existing (env.unmarshal_thumbnails row.thumbnails)
    where
      by_merged :
          (o : Option String)
          → Writes 1 w (elim o as (λ _. Worked) [
            | none ↦ (some (index_failed "thumbnails"), w)
            | some merged ↦
                or_stop env srv
                  (execute env "публикация карточки"
                    (λ db. record db { listings = publish_listing row.id merged at db.listings })
                    w)
                  (λ w'.
                    read_author env srv
                      (record row {
                        thumbnails = merged;
                        status = "published";
                        published_at = some at;
                      })
                      w')
          ])
      by_merged none = record { processed = refl; rows = omega arith }
      by_merged (some merged) =
          or_stop-Writes env srv 1 w _ _
            (execute-Writes env "публикация карточки"
              (λ db. record db { listings = publish_listing row.id merged at db.listings }) w refl
              refl)
            (λ w'. read_author-Writes _ w')

      by_existing :
          (o : Option (List Header))
          → Writes 1 w (elim o as (λ _. Worked) [
            | none ↦ (some (index_failed "thumbnails"), w)
            | some existing ↦ elim (env.marshal_thumbnails (put_all hs existing)) as (λ _. Worked) [
              | none ↦ (some (index_failed "thumbnails"), w)
              | some merged ↦
                  or_stop env srv
                    (execute env "публикация карточки"
                      (λ db. record db { listings = publish_listing row.id merged at db.listings })
                      w)
                    (λ w'.
                      read_author env srv
                        (record row {
                          thumbnails = merged;
                          status = "published";
                          published_at = some at;
                        })
                        w')
            ]
          ])
      by_existing none = record { processed = refl; rows = omega arith }
      by_existing (some existing) = by_merged (env.marshal_thumbnails (put_all hs existing))

  pub apply_thumbnails-Writes :
      (p : ThumbnailReady) (at : String) (w : Catalog)
      → Writes 1 w (apply_thumbnails env srv p at w)
  unfolding apply_thumbnails
  apply_thumbnails-Writes p at w =
      or_stop-Writes env srv 1 w _ _ (execute-Writes env "применение превью" (λ db. db) w refl refl)
        (λ w'. by_row w' (find_listing p.photo_id w'.db.listings))
    where
      by_row :
          (w' : Catalog) (o : Option ListingRow)
          → Writes 1 w' (elim o as (λ _. Worked) [
            | none ↦ (some (index_failed "карточка не найдена"), w')
            | some row ↦ apply_to_row env srv row p.thumbnails at w'
          ])
      by_row w' none = record { processed = refl; rows = omega arith }
      by_row w' (some row) = apply_to_row-Writes row p.thumbnails at w'
