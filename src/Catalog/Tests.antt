-- ===== src/Catalog/Tests.antt =====
-- The index of listings at work: its property applied to concrete events.
use gosplash.Prelude.{◌≤◌, String, [], ◌∷◌, none, some, true, ◌≡◌, refl, inr, if◌then◌else◌, ◌==◌}
use gosplash.Prelude.Int.{pos}
use gosplash.Outbox.Row.{Encoding}
use gosplash.Catalog.Db.{ListingRow, Catalog, DbEnv, insert_listing, insert_author}
use gosplash.Catalog.Indexer.{Services}
use gosplash.Catalog.Licenses.{License, LicenseEnv, Licenses, insert_license, revoke_license, grant}
use gosplash.Catalog.Licenses.Once.{Grown, grants_agree}
use gosplash.Catalog.Indexer.Once.{uploaded_event, ready_event, rows_for, event_published_once}

abbrev listing : ListingRow
listing = record {
  id = "photo-1";
  author_id = pos 5;
  title = "sea";
  tags = [];
  storage_key = "k";
  thumbnails = "{}";
  price_cents = pos 0;
  currency = "";
  status = "draft";
  published_at = none;
  width = pos 10;
  height = pos 10;
}

abbrev db_env : DbEnv
db_env = record {
  sql_ok = λ n. true;
  unmarshal_thumbnails = λ t. some [];
  marshal_thumbnails = λ hs. some "{}";
  new_row_id = λ n. "row";
}

abbrev published_encoding : Encoding (ListingRow × String)
published_encoding = record {
  event_id = λ r. r.0.id;
  event_type = λ r. "catalog.listing.published";
  aggregate_id = λ r. r.0.id;
  marshal = λ r. some r.1;
  marshal_headers = λ hs. some "json";
  carrier = [];
}

-- An envelope is the id of its event.
abbrev services : Services String
services = record {
  event_id = λ e. e;
  occurred_at = λ e. "now";
  uploaded = λ e. some (record { photo_id = "photo-1"; user_id = pos 5 });
  ready = λ e. some (record { photo_id = "photo-1"; thumbnails = [] });
  fetch = λ n i u. inr (listing, []);
  author_name = λ i. "author-5";
  envelope_fits = λ r. true;
  published = published_encoding;
}

abbrev nothing_indexed : Catalog
nothing_indexed = record {
  db = record { processed = []; listings = []; authors = []; outbox = [] };
  statements = 0;
  invalidated = [];
}

-- The event comes twice, and one row is written.
redelivered_ready :
    rows_for db_env services "ready"
      (uploaded_event "up" ∷ ready_event "ready" ∷ ready_event "ready" ∷ [])
      nothing_indexed
    ≡ 1
unfolding rows_for insert_listing insert_author
redelivered_ready = refl

event_published_once_example :
    rows_for db_env services "ready"
      (uploaded_event "up" ∷ ready_event "ready" ∷ ready_event "ready" ∷ [])
      nothing_indexed
    ≤ 1
event_published_once_example =
    event_published_once db_env services "ready"
      (uploaded_event "up" ∷ ready_event "ready" ∷ ready_event "ready" ∷ []) nothing_indexed

-- A license of an order, and another that a race inserts before the third statement.
abbrev license : String → String → License
license i o = record {
  id = i;
  listing_id = "photo-1";
  buyer_id = pos 7;
  order_id = o;
  status = "granted";
  reason = "";
}

abbrev license_env : LicenseEnv
license_env = record {
  sql_ok = λ n. true;
  others = λ n. insert_license (license "z" "order-2") ∷ [];
  lag = λ n. if n == 5 then 1 else 0;
}

abbrev no_licenses : Licenses
no_licenses = record { rows = []; past = []; statements = 0 }

abbrev granted_license : License
granted_license = license "a" "order-1"

abbrev revoked_license : License
revoked_license = record granted_license { status = "revoked"; reason = "saga" }

-- The order is granted, its license is revoked, and it is granted again.
grants_agree_example :
    (revoked_license.id ≡ granted_license.id)
    × (revoked_license.listing_id ≡ granted_license.listing_id)
    × (revoked_license.buyer_id ≡ granted_license.buyer_id)
unfolding grant Grown
grants_agree_example =
    grants_agree license_env license_env "order-1" "a" "b" "photo-1" "photo-1" (pos 7) (pos 7)
      (revoke_license "order-1" "saga" ∷ []) 5 no_licenses granted_license revoked_license tt refl
      refl
