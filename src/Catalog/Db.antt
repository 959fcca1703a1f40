-- ===== src/Catalog/Db.antt =====
-- The transaction of one event: services/catalog/internal/adapters/pg/tx.go, on `Claim` of
-- pkg/idempotency.
use gosplash.Prelude.{
  ℕ, suc, String, List, [], ◌∷◌, Option, none, some, Bool, true, false, str_eq, if◌then◌else◌, ◌||◌,
}
use gosplash.Prelude.Int.{ℤ, ◌==ℤ◌}
use gosplash.Kafka.Record.{Header}
use gosplash.Outbox.Row.{OutboxRow, Encoding, WriteError, write_row}

-- `ListingRow`; `thumbnails` is the text of a JSON object.
pub record ListingRow : Type 0 where
  pub id : String
  pub author_id : ℤ
  pub title : String
  pub tags : List String
  pub storage_key : String
  pub thumbnails : String
  pub price_cents : ℤ
  pub currency : String
  pub status : String
  pub published_at : Option String
  pub width : ℤ
  pub height : ℤ

pub record AuthorSnapshot : Type 0 where
  pub id : ℤ
  pub name : String

-- The tables: the ids of processed events, listings, authors and `outbox_catalog`.
pub record Db : Type 0 where
  pub processed : List String
  pub listings : List ListingRow
  pub authors : List AuthorSnapshot
  pub outbox : List OutboxRow

-- The tables, the number of statements sent, and the ids that were dropped from the cache, newest
-- first.
pub record Catalog : Type 0 where
  pub db : Db
  pub statements : ℕ
  pub invalidated : List String

pub data IndexError : Type 0 where
  photo_not_found : IndexError
  index_failed : String → IndexError

-- Whether the n-th statement succeeds; JSON of thumbnails; the id of a new row of the outbox.
pub record DbEnv : Type 0 where
  pub sql_ok : ℕ → Bool
  pub unmarshal_thumbnails : String → Option (List Header)
  pub marshal_thumbnails : List Header → Option String
  pub new_row_id : ℕ → String

-- What the work on an event answers, and the new state.
abbrev pub Worked : Type 0
Worked = Option IndexError × Catalog

unfoldable pub is_processed : String → List String → Bool
is_processed i [] = false
is_processed i (j ∷ js) = str_eq j i || is_processed i js

unfoldable pub find_listing : String → List ListingRow → Option ListingRow
find_listing i [] = none
find_listing i (r ∷ rs) = if str_eq r.id i then some r else find_listing i rs

unfoldable pub find_author : ℤ → List AuthorSnapshot → Option AuthorSnapshot
find_author i [] = none
find_author i (r ∷ rs) = if r.id ==ℤ i then some r else find_author i rs

unfoldable pub publish_listing : String → String → String → List ListingRow → List ListingRow
publish_listing i thumbnails at [] = []
publish_listing i thumbnails at (r ∷ rs) =
    (if str_eq r.id i
      then record r { thumbnails = thumbnails; status = "published"; published_at = some at }
      else r)
    ∷ publish_listing i thumbnails at rs

-- INSERT ... ON CONFLICT DO NOTHING, given what is there.
unfoldable pub unless_there : {A : Type 0} → Option A → Db → Db → Db
unless_there none added db = added
unless_there (some old) added db = db

unfoldable pub insert_listing : ListingRow → String → Db → Db
unfolding unless_there find_listing
insert_listing row json db =
    let draft = record row { thumbnails = json; status = "draft"; published_at = none } in
    unless_there (find_listing row.id db.listings) (record db { listings = draft ∷ db.listings }) db

unfoldable pub insert_author : ℤ → String → Db → Db
unfolding unless_there find_author
insert_author i name db =
    unless_there (find_author i db.authors)
      (record db { authors = record { id = i; name = name } ∷ db.authors }) db

-- What `WithClaim` answers.
pub data Applied : Type 0 where
  applied skipped : Applied
  not_applied : IndexError → Applied

module _ (env : DbEnv) where
  unfoldable pub statement : Catalog → Bool × Catalog
  statement w = (env.sql_ok w.statements, record w { statements = suc w.statements })

  -- A statement that changes the tables, with the text of its error.
  unfoldable pub execute : String → (Db → Db) → Catalog → Worked
  unfolding statement
  execute text change w =
      if (statement w).0
      then (none, record (statement w).1 { db = change w.db })
      else (some (index_failed text), (statement w).1)

  -- `UpsertListing`
  unfoldable pub upsert_listing : ListingRow → List Header → Catalog → Worked
  unfolding execute
  upsert_listing row thumbnails w = elim (env.marshal_thumbnails thumbnails) [
    | none ↦ (some (index_failed "thumbnails"), w)
    | some json ↦ execute "создание карточки" (insert_listing row json) w
  ]

  -- `UpsertAuthorSnapshot`
  unfoldable pub upsert_author_snapshot : ℤ → String → Catalog → Worked
  unfolding execute
  upsert_author_snapshot i name w = execute "слепок автора" (insert_author i name) w

  -- `Outbox`: a row of `outbox_catalog`.
  unfoldable pub written : Option WriteError × List OutboxRow → Catalog → Worked
  written (none, rows) w = (none, record w { db = record w.db { outbox = rows } })
  written (some e, rows) w = (some (index_failed "outbox"), w)

  unfoldable pub write_outbox : {E : Type 0} → Encoding E → E → String → Catalog → Worked
  unfolding written write_row statement
  write_outbox enc e topic w =
      written
        (write_row enc (statement w).0 "catalog" e topic (env.new_row_id w.statements) w.db.outbox)
        (statement w).1

  -- `Transaction`: an error of its body or of COMMIT restores the tables.
  unfoldable pub settle_tx : Db → Worked → Worked
  unfolding execute
  settle_tx before (some e, w) = (some e, record w { db = before })
  settle_tx before (none, w) =
      if (statement w).0
      then (none, (statement w).1)
      else (some (index_failed "commit"), record (statement w).1 { db = before })

  unfoldable pub answer_tx : Applied → Worked → Applied × Catalog
  answer_tx done (none, w) = (done, w)
  answer_tx done (some e, w) = (not_applied e, w)

  -- After the INSERT of `Claim`.
  unfoldable pub after_claim : String → (Catalog → Worked) → Bool × Catalog → Applied × Catalog
  unfolding settle_tx answer_tx is_processed
  after_claim event_id fn (false, w) = (not_applied (index_failed "отметка события"), w)
  after_claim event_id fn (true, w) =
      if is_processed event_id w.db.processed
      then answer_tx skipped (settle_tx w.db (none, w))
      else answer_tx applied (
          settle_tx w.db
            (fn (record w { db = record w.db { processed = event_id ∷ w.db.processed } })))

  -- `WithClaim`
  unfoldable pub with_claim : String → (Catalog → Worked) → Catalog → Applied × Catalog
  unfolding after_claim statement
  with_claim event_id fn w =
      if str_eq event_id ""
      then (not_applied (index_failed "пустой event_id"), w)
      else after_claim event_id fn (statement w)
