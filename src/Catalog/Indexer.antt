-- ===== src/Catalog/Indexer.antt =====
-- The two handlers of services/catalog/internal/app/indexer.go. A call of media is a parameter;
-- notifications of subscribers and logs are left out.
pub mod Claimed
pub mod Once
pub mod Writes
use gosplash.Prelude.{
  ℕ, String, List, [], ◌∷◌, Option, none, some, Bool, true, false, str_eq, if◌then◌else◌, inl, inr,
  ◌⊎◌,
}
use gosplash.Prelude.Int.{ℤ}
use gosplash.Kafka.Record.{Header}
use gosplash.Kafka.Failing.{Failing, plain, wrapped, classified, err_permanent, err_retryable}
use gosplash.Outbox.Row.{Encoding, put_all}
use gosplash.Catalog.Db.{
  ListingRow, Db, Catalog, IndexError, photo_not_found, index_failed, DbEnv, Worked, find_listing,
  publish_listing, statement, execute, upsert_listing, upsert_author_snapshot, write_outbox,
  Applied, applied, skipped, not_applied, with_claim, AuthorSnapshot, find_author,
}

-- The payloads of the two events.
pub record PhotoUploaded : Type 0 where
  pub photo_id : String
  pub user_id : ℤ

pub record ThumbnailReady : Type 0 where
  pub photo_id : String
  pub thumbnails : List Header

-- An envelope `E` with its payloads, `Fetch` of media (the listing's row and its thumbnails) at
-- the n-th statement, and the event of a published listing.
pub record Services (E : Type 0) : Type 0 where
  pub event_id : E → String
  pub occurred_at : E → String
  pub uploaded : E → Option PhotoUploaded
  pub ready : E → Option ThumbnailReady
  pub fetch : ℕ → String → ℤ → IndexError ⊎ (ListingRow × List Header)
  pub author_name : ℤ → String
  pub envelope_fits : ListingRow × String → Bool
  pub published : Encoding (ListingRow × String)

abbrev pub topic_listing_published : String
topic_listing_published = "catalog.listing.published"

-- `classifyMediaErr`
unfoldable pub classify_media_err : IndexError → Failing
classify_media_err photo_not_found = classified err_permanent (plain "photo not found")
classify_media_err (index_failed text) =
    classified err_retryable (wrapped "gRPC GetPhoto: " (plain text))

unfoldable pub text_of_index : IndexError → String
text_of_index photo_not_found = "photo not found"
text_of_index (index_failed text) = text

module _ {E : Type 0} (env : DbEnv) (srv : Services E) where
  unfoldable pub or_stop : Worked → (Catalog → Worked) → Worked
  or_stop (some e, w) next = (some e, w)
  or_stop (none, w) next = next w

  -- The work of `HandlePhotoUploaded` in its transaction.
  unfoldable pub index_photo : PhotoUploaded → Catalog → Worked
  unfolding or_stop upsert_author_snapshot upsert_listing
  index_photo e w = elim (srv.fetch w.statements e.photo_id e.user_id) [
    | inl err ↦ (some err, w)
    | inr (row, thumbnails) ↦
        or_stop (upsert_author_snapshot env row.author_id (srv.author_name row.author_id) w)
          (λ w'. upsert_listing env row thumbnails w')
  ]

  -- The event of a listing with the name of its author.
  unfoldable pub publish_event : ListingRow × String → Catalog → Worked
  unfolding write_outbox
  publish_event listing w =
      if srv.envelope_fits listing
      then write_outbox env srv.published listing topic_listing_published w
      else (some (index_failed "конверт catalog.listing.published"), w)

  -- The name in a snapshot that was read, if it was.
  unfoldable pub name_of : Bool → Option AuthorSnapshot → String
  name_of false a = ""
  name_of true none = ""
  name_of true (some a) = a.name

  -- The end of `ApplyThumbnails`, with `toDomain`, which reads the thumbnails; then the event.
  unfoldable pub read_author : ListingRow → Catalog → Worked
  unfolding publish_event statement name_of find_author
  read_author row w = elim (env.unmarshal_thumbnails row.thumbnails) [
    | none ↦ (some (index_failed "thumbnails"), (statement env w).1)
    | some thumbnails ↦
        publish_event (row, name_of (statement env w).0 (find_author row.author_id w.db.authors))
          (statement env w).1
  ]

  -- `ApplyThumbnails` on the row that was found, then the event.
  unfoldable pub apply_to_row : ListingRow → List Header → String → Catalog → Worked
  unfolding or_stop execute publish_listing read_author put_all
  apply_to_row row thumbnails at w = elim (env.unmarshal_thumbnails row.thumbnails) [
    | none ↦ (some (index_failed "thumbnails"), w)
    | some existing ↦ elim (env.marshal_thumbnails (put_all thumbnails existing)) [
      | none ↦ (some (index_failed "thumbnails"), w)
      | some merged ↦
          or_stop
            (execute env "публикация карточки"
              (λ db. record db { listings = publish_listing row.id merged at db.listings }) w)
            (λ w'.
              read_author
                (record row { thumbnails = merged; status = "published"; published_at = some at })
                w')
    ]
  ]

  -- The work of `HandlePhotoThumbnailReady` in its transaction.
  unfoldable pub apply_thumbnails : ThumbnailReady → String → Catalog → Worked
  unfolding or_stop execute find_listing apply_to_row
  apply_thumbnails e at w = or_stop (execute env "применение превью" (λ db. db) w) (λ w'.
      elim (find_listing e.photo_id w'.db.listings) [
        | none ↦ (some (index_failed "карточка не найдена"), w')
        | some row ↦ apply_to_row row e.thumbnails at w'
      ])

  -- The answer of a handler, and `afterApply`.
  unfoldable pub finish_event :
      (IndexError → Failing) → String → Applied × Catalog → Option Failing × Catalog
  finish_event classify photo_id (not_applied e, w) = (some (classify e), w)
  finish_event classify photo_id (skipped, w) = (none, w)
  finish_event classify photo_id (applied, w) =
      (none, record w { invalidated = photo_id ∷ w.invalidated })

  -- `HandlePhotoUploaded`
  unfoldable pub handle_photo_uploaded : E → Catalog → Option Failing × Catalog
  unfolding finish_event with_claim index_photo classify_media_err
  handle_photo_uploaded e w = elim (srv.uploaded e) [
    | none ↦ (some (classified err_permanent (plain "payload media.photo.uploaded")), w)
    | some p ↦
        finish_event classify_media_err p.photo_id
          (with_claim env (srv.event_id e) (index_photo p) w)
  ]

  -- `HandlePhotoThumbnailReady`
  unfoldable pub handle_photo_thumbnail_ready : E → Catalog → Option Failing × Catalog
  unfolding finish_event with_claim apply_thumbnails text_of_index
  handle_photo_thumbnail_ready e w = elim (srv.ready e) [
    | none ↦ (some (classified err_permanent (plain "payload media.photo.thumbnail-ready")), w)
    | some p ↦
        finish_event
          (λ err.
            classified err_retryable (wrapped "применение превью: " (plain (text_of_index err))))
          p.photo_id (with_claim env (srv.event_id e) (apply_thumbnails p (srv.occurred_at e)) w)
  ]
