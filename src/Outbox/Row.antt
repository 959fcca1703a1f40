-- ===== src/Outbox/Row.antt =====
-- The rows of an outbox, and how one is written: pkg/outbox/model.go and outbox.go.
use gosplash.Prelude.{
  String, List, [], ◌∷◌, Option, none, some, Bool, true, false, str_eq, if◌then◌else◌, ◌⊎◌, inl,
  inr,
}
use gosplash.Kafka.Record.{Header, header_event_id, header_event_type, header_producer}
use gosplash.Kafka.Headers.{set_header}

-- `OutboxRow`; `published` tells whether `published_at` is set.
pub record OutboxRow : Type 0 where
  pub id : String
  pub aggregate_id : String
  pub topic : String
  pub key : String
  pub headers : String
  pub payload : String
  pub published : Bool

-- The generated type of an envelope and the libraries that encode it, and the carrier that the
-- propagator fills from the context of the request.
pub record Encoding (E : Type 0) : Type 0 where
  pub event_id : E → String
  pub event_type : E → String
  pub aggregate_id : E → String
  pub marshal : E → Option String
  pub marshal_headers : List Header → Option String
  pub carrier : List Header

pub data WriteError : Type 0 where
  no_service marshal_envelope_failed marshal_headers_failed insert_failed : WriteError

-- The entries of one Go map put into another.
unfoldable pub put_all : List Header → List Header → List Header
put_all [] hs = hs
put_all (h ∷ more) hs = put_all more (set_header hs h.key h.value)

module _ {E : Type 0} (enc : Encoding E) where
  unfoldable pub row_headers : String → E → List Header
  unfolding put_all
  row_headers service e = put_all enc.carrier (
      record { key = header_event_id; value = enc.event_id e }
      ∷ record { key = header_event_type; value = enc.event_type e }
      ∷ record { key = header_producer; value = service }
      ∷ [])

  -- `buildRow`, given the new id.
  unfoldable pub build_row : String → E → String → String → WriteError ⊎ OutboxRow
  unfolding row_headers
  build_row service e topic id = elim (enc.marshal e) [
    | none ↦ inl marshal_envelope_failed
    | some payload ↦ elim (enc.marshal_headers (row_headers service e)) [
      | none ↦ inl marshal_headers_failed
      | some json ↦ inr (record {
        id = id;
        aggregate_id = enc.aggregate_id e;
        topic = topic;
        key = enc.aggregate_id e;
        headers = json;
        payload = payload;
        published = false;
      })
    ]
  ]

  -- `Write` into the table of a service; the INSERT may fail.
  unfoldable pub insert_row :
      Bool → WriteError ⊎ OutboxRow → List OutboxRow → Option WriteError × List OutboxRow
  insert_row accepted (inl e) rows = (some e, rows)
  insert_row true (inr r) rows = (none, r ∷ rows)
  insert_row false (inr r) rows = (some insert_failed, rows)

  unfoldable pub write_row :
      Bool → String → E → String → String → List OutboxRow → Option WriteError × List OutboxRow
  unfolding build_row insert_row
  write_row accepted service e topic id rows =
      if str_eq service ""
      then (some no_service, rows)
      else insert_row accepted (build_row service e topic id) rows
