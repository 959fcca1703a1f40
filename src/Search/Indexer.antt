-- ===== src/Search/Indexer.antt =====
-- The handler of `catalog.listing.published`: services/search/internal/app/indexer.go. The index is
-- a parameter, an `IndexWriter` on a state of any type.
use gosplash.Prelude.{String, List, Option, none, some, str_eq, if◌then◌else◌}
use gosplash.Prelude.Int.{ℤ}
use Prim.Native.String.{◌++◌ as append}
use gosplash.Kafka.Failing.{Failing, plain, wrapped, permanently, retryable}
use gosplash.Search.Errors.{IndexFailure, invalid_document, index_unavailable, context_ended}
use gosplash.Search.Bulk.{ListingDoc}

pub record ListingPublished : Type 0 where
  pub listing_id : String
  pub author_id : ℤ
  pub author_name : String
  pub title : String
  pub tags : List String
  pub price_cents : ℤ
  pub currency : String
  pub status : String

-- An envelope: its payload, if it can be read, and its time, in milliseconds and as a text.
pub record Published : Type 0 where
  pub payload : Option ListingPublished
  pub occurred_at_unix_ms : ℤ
  pub occurred_at : String

-- `ports.IndexWriter`; none is no error.
pub record IndexWriter (S : Type 0) : Type 0 where
  pub index_listing : ListingDoc → ℤ → S → Option IndexFailure × S
  pub delete_listing : String → ℤ → S → Option IndexFailure × S

unfoldable pub text_of_failure : IndexFailure → String
text_of_failure (invalid_document t) = t
text_of_failure (index_unavailable t) = t
text_of_failure (context_ended t) = t

-- `classifyESErr` on an error with a prefix
unfoldable pub classify_es_err : String → IndexFailure → Option Failing
unfolding text_of_failure permanently retryable
classify_es_err prefix (invalid_document t) = permanently (some (wrapped prefix (plain t)))
classify_es_err prefix (index_unavailable t) = retryable (some (wrapped prefix (plain t)))
classify_es_err prefix (context_ended t) = retryable (some (wrapped prefix (plain t)))

unfoldable pub to_doc : ListingPublished → String → ListingDoc
to_doc e at = record {
  listing_id = e.listing_id;
  author_id = e.author_id;
  author_name = e.author_name;
  title = e.title;
  tags = e.tags;
  price_cents = e.price_cents;
  currency = e.currency;
  status = e.status;
  published_at = at;
}

-- The prefix of the error.
unfoldable pub prefix_of : ListingPublished → String
prefix_of e =
    if str_eq e.status "removed"
    then append "удаление документа " e.listing_id
    else append "индексация документа " e.listing_id

module _ {S : Type 0} where
  unfoldable pub answer_es : String → Option IndexFailure × S → Option Failing × S
  unfolding classify_es_err
  answer_es prefix (none, s) = (none, s)
  answer_es prefix (some e, s) = (classify_es_err prefix e, s)

  module _ (writer : IndexWriter S) where
    -- What the handler asks of the index.
    unfoldable pub write_listing : ListingPublished → Published → S → Option IndexFailure × S
    unfolding to_doc
    write_listing e env s =
        if str_eq e.status "removed"
        then writer.delete_listing e.listing_id env.occurred_at_unix_ms s
        else writer.index_listing (to_doc e env.occurred_at) env.occurred_at_unix_ms s

    unfoldable pub handle_payload : Option ListingPublished → Published → S → Option Failing × S
    unfolding answer_es write_listing prefix_of permanently
    handle_payload none env s =
        (permanently (some (plain "разбор payload catalog.listing.published")), s)
    handle_payload (some e) env s = answer_es (prefix_of e) (write_listing e env s)

    -- `HandleListingPublished`
    unfoldable pub handle_listing_published : Published → S → Option Failing × S
    unfolding handle_payload
    handle_listing_published env s = handle_payload env.payload env s
