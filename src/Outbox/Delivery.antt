-- ===== src/Outbox/Delivery.antt =====
-- An event from the write to the record: pkg/outbox/outbox.go and relay.go.
use gosplash.Prelude.{
  ℕ, String, List, [], ◌∷◌, Option, none, some, Bool, true, false, str_eq, ◌≡◌, refl, arith, ◌∙◌,
  Bool-cases, inl, inr, ◌⊎◌, subst,
}
use gosplash.Kafka.Record.{Header, Message, header_producer, header_event_id, header_event_type}
use gosplash.Kafka.Headers.{header_value, set_header, has_header}
use gosplash.Kafka.Headers.Laws.{header_value-set_header}
use gosplash.Outbox.Row.{
  OutboxRow, Encoding, WriteError, put_all, row_headers, build_row, insert_row, write_row,
  marshal_headers_failed, marshal_envelope_failed,
}
use gosplash.Outbox.Relay.{Surroundings, record_headers, with_producer, record_of}

header_value-put_all :
    (more hs : List Header) (k : String)
    → header_value more k ≡ none
    → header_value (put_all more hs) k ≡ header_value hs k
unfolding put_all header_value
header_value-put_all [] hs k h = refl
header_value-put_all (x ∷ more) hs k h = ground (
  arith,
  h,
  header_value-put_all more (set_header hs x.key x.value) k,
  header_value-set_header hs x.key x.value k,
)

has_header-header_value :
    (hs : List Header) (k v : String) → header_value hs k ≡ some v → has_header hs k ≡ true
unfolding has_header header_value
has_header-header_value [] k v h = cc
has_header-header_value (x ∷ hs) k v h = ground (arith, h, has_header-header_value hs k v)

-- `encoding/json` reads a map of strings as it wrote it, in any order, and never writes nothing.
pub record ReadsBack {E : Type 0} (enc : Encoding E) (s : Surroundings) (hs : List Header)
    : Type 0 where
  pub not_empty : (json : String) → enc.marshal_headers hs ≡ some json → str_eq json "" ≡ false
  pub read :
      (n : ℕ) (json : String)
      → enc.marshal_headers hs ≡ some json
      → (hs' : List Header) × (s.entries n json ≡ some hs')
        × ((k : String) → header_value hs' k ≡ header_value hs k)

record_headers-eq :
    (s : Surroundings) (n : ℕ) (json : String) (hs : List Header)
    → str_eq json "" ≡ false
    → s.entries n json ≡ some hs
    → record_headers s n json ≡ hs
unfolding record_headers
record_headers-eq s n json hs e f = rw (e, record_headers) (rw (f, record_headers) refl)

with_producer-eq :
    (s : Surroundings) (hs : List Header) (v : String)
    → header_value hs header_producer ≡ some v
    → with_producer s hs ≡ hs
unfolding with_producer
with_producer-eq s hs v h = rw (has_header-header_value hs header_producer v h, with_producer) refl

module _ {E : Type 0} (enc : Encoding E) (service : String) (e : E) where
  row_headers-producer :
      header_value enc.carrier header_producer ≡ none
      → header_value (row_headers enc service e) header_producer ≡ some service
  unfolding row_headers header_value
  row_headers-producer h = header_value-put_all enc.carrier _ header_producer h

  row_headers-event_id :
      header_value enc.carrier header_event_id ≡ none
      → header_value (row_headers enc service e) header_event_id ≡ some (enc.event_id e)
  unfolding row_headers header_value
  row_headers-event_id h = header_value-put_all enc.carrier _ header_event_id h

  row_headers-event_type :
      header_value enc.carrier header_event_type ≡ none
      → header_value (row_headers enc service e) header_event_type ≡ some (enc.event_type e)
  unfolding row_headers header_value
  row_headers-event_type h = header_value-put_all enc.carrier _ header_event_type h

-- The record that a row gives rise to carries an event of a service.
pub record Carries {E : Type 0} (enc : Encoding E) (service : String) (e : E) (topic : String)
    (m : Message) : Type 0 where
  pub to_topic : m.topic ≡ topic
  pub by_aggregate : m.key ≡ enc.aggregate_id e
  pub envelope : enc.marshal e ≡ some m.value
  pub producer : header_value m.headers header_producer ≡ some service
  pub event_id : header_value m.headers header_event_id ≡ some (enc.event_id e)
  pub event_type : header_value m.headers header_event_type ≡ some (enc.event_type e)

module _ {E : Type 0} (enc : Encoding E) (s : Surroundings) (service : String) (e : E)
    (back : ReadsBack enc s (row_headers enc service e))
    (clear_producer : header_value enc.carrier header_producer ≡ none)
    (clear_id : header_value enc.carrier header_event_id ≡ none)
    (clear_type : header_value enc.carrier header_event_type ≡ none) where
  -- The headers of the record of a row: those that the row was written with.
  record_of-headers :
      (n : ℕ) (json k v : String)
      → enc.marshal_headers (row_headers enc service e) ≡ some json
      → header_value (row_headers enc service e) k ≡ some v
      → header_value (with_producer s (record_headers s n json)) k ≡ some v
  record_of-headers n json k v h at =
      let hs = row_headers enc service e in
      let b = back.read n json h in
      rw (record_headers-eq s n json b.0 (back.not_empty json h) b.1) (
        rw
          (with_producer-eq s b.0 service
            (b.2 header_producer ∙ row_headers-producer enc service e clear_producer))
          (b.2 k ∙ at))

  -- A row that is made waits, and each of its records carries the event.
  abbrev Delivers : String → OutboxRow → Type 0
  Delivers topic r =
      (r.published ≡ false) × ((n : ℕ) → Carries enc service e topic (record_of s n r))

  build_row-Delivers :
      (topic id : String) (r : OutboxRow)
      → build_row enc service e topic id ≡ inr r
      → Delivers topic r
  unfolding build_row record_of
  build_row-Delivers topic id r h = by_payload (enc.marshal e) refl h
    where
      built : String → String → OutboxRow
      built payload json = record {
        id = id;
        aggregate_id = enc.aggregate_id e;
        topic = topic;
        key = enc.aggregate_id e;
        headers = json;
        payload = payload;
        published = false;
      }

      by_headers :
          (payload : String) (o : Option String)
          → enc.marshal e ≡ some payload
          → enc.marshal_headers (row_headers enc service e) ≡ o
          → (elim o as (λ _. WriteError ⊎ OutboxRow) [
            | none ↦ inl marshal_headers_failed
            | some json ↦ inr (built payload json)
          ])
            ≡ inr r
          → Delivers topic r
      by_headers payload none em eh h = cc
      by_headers payload (some json) em eh h =
          let same : built payload json ≡ r = cc in
          subst (Delivers topic) same (
            refl,
            λ n. record {
              to_topic = refl;
              by_aggregate = refl;
              envelope = em;
              producer =
                  record_of-headers n json _ _ eh
                    (row_headers-producer enc service e clear_producer);
              event_id =
                  record_of-headers n json _ _ eh (row_headers-event_id enc service e clear_id);
              event_type =
                  record_of-headers n json _ _ eh (row_headers-event_type enc service e clear_type);
            },
          )

      by_payload :
          (o : Option String)
          → enc.marshal e ≡ o
          → (elim o as (λ _. WriteError ⊎ OutboxRow) [
            | none ↦ inl marshal_envelope_failed
            | some payload ↦ elim (enc.marshal_headers (row_headers enc service e)) [
              | none ↦ inl marshal_headers_failed
              | some json ↦ inr (built payload json)
            ]
          ])
            ≡ inr r
          → Delivers topic r
      by_payload none em h = cc
      by_payload (some payload) em h =
          by_headers payload (enc.marshal_headers (row_headers enc service e)) em refl h

  -- What a write without an error has left.
  abbrev Stored : String → List OutboxRow → Option WriteError × List OutboxRow → Type 0
  Stored topic rows result =
      result.0 ≡ none
      → (r : OutboxRow) × (result.1 ≡ r ∷ rows)
        × (r.published ≡ false)
        × ((n : ℕ) → Carries enc service e topic (record_of s n r))

  insert_row-Stored :
      (accepted : Bool) (topic : String) (rows : List OutboxRow) (made : WriteError ⊎ OutboxRow)
      → ((r : OutboxRow) → made ≡ inr r → Delivers topic r)
      → Stored topic rows (insert_row enc accepted made rows)
  unfolding insert_row
  insert_row-Stored accepted topic rows (inl x) good h = cc
  insert_row-Stored true topic rows (inr r) good h = let d = good r refl in (r, refl, d.0, d.1)
  insert_row-Stored false topic rows (inr r) good h = cc

  -- An event that is written without an error is one new row, which waits; and every record that a
  -- relay of any service makes of this row goes to the topic of the event, with the aggregate's id
  -- as its key, the marshalled envelope as its value, and headers that name the event's id and type and,
  -- as its producer, the service that wrote it. This takes that the propagator sets none of these
  -- headers, and that `encoding/json` reads the headers back.
  pub write_row-Carries :
      (accepted : Bool) (topic id : String) (rows : List OutboxRow)
      → (write_row enc accepted service e topic id rows).0 ≡ none
      → (r : OutboxRow) × ((write_row enc accepted service e topic id rows).1 ≡ r ∷ rows)
        × (r.published ≡ false)
        × ((n : ℕ) → Carries enc service e topic (record_of s n r))
  unfolding write_row
  write_row-Carries accepted topic id rows = elim (Bool-cases (str_eq service "")) [
    | inl unnamed ↦ rw (unnamed, write_row) (λ h. cc)
    | inr named ↦
        rw (named, write_row)
          (insert_row-Stored accepted topic rows (build_row enc service e topic id)
            (build_row-Delivers topic id))
  ]
