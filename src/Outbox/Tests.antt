-- ===== src/Outbox/Tests.antt =====
-- The outbox at work: its properties applied to concrete rows.
use gosplash.Kafka.Headers.{header_value}
use gosplash.Prelude.{
  ℕ, String, [], ◌∷◌, none, some, Bool, true, false, str_eq, ◌==◌, not, ◌≡◌, refl, arith, subst,
}
use gosplash.Outbox.Row.{OutboxRow, Encoding, write_row, row_headers}
use gosplash.Outbox.Delivery.{Carries, write_row-Carries}
use gosplash.Outbox.Relay.{
  Surroundings, Shard, poll_shard, pending, record_of, order_by_id, batch_size_or_default,
}
use gosplash.Outbox.Relay.Poll.{Polled, poll_shard-Polled}
use gosplash.Outbox.Relay.Drain.{poll_shard-drains, records_of, onto}
use gosplash.Outbox.Relay.Overtaken.{second_first}

-- An event is its own id; the carrier holds a traceparent.
abbrev encoding : Encoding String
encoding = record {
  event_id = λ e. e;
  event_type = λ e. "media.photo.uploaded";
  aggregate_id = λ e. "photo-1";
  marshal = λ e. some e;
  marshal_headers = λ hs. some "json";
  carrier = record { key = "traceparent"; value = "00-1-1-01" } ∷ [];
}

abbrev relay : (ℕ → Bool) → Surroundings
relay accepts = record {
  service_name = "media";
  batch_size = 0;
  sql_ok = λ n. true;
  accepts = accepts;
  locked = λ n i. false;
  entries = λ n json. some (row_headers encoding "thumbnail-worker" "event-1");
  uuid_le = λ i j. str_eq i "row-1";
}

abbrev row : String → OutboxRow
row id = record {
  id = id;
  aggregate_id = "photo-1";
  topic = "media.photo.uploaded";
  key = "photo-1";
  headers = "json";
  payload = "event-1";
  published = false;
}

abbrev shard : Shard
shard = record {
  rows = row "row-1" ∷ row "row-2" ∷ [];
  taken = [];
  statements = 0;
  requests = 0;
  gauge = 0;
}

write_row-Carries_example :
    (r : OutboxRow) × ((write_row encoding true "thumbnail-worker" "event-1" "media.photo.uploaded"
        "row-1" []).1
      ≡ r ∷ [])
    × (r.published ≡ false)
    × ((n : ℕ)
        → Carries encoding "thumbnail-worker" "event-1" "media.photo.uploaded"
            (record_of (relay (λ n. true)) n r))
unfolding header_value write_row
write_row-Carries_example =
    write_row-Carries encoding (relay (λ n. true)) "thumbnail-worker" "event-1"
      (record {
        not_empty =
            λ json h. let same : "json" ≡ json = cc in subst (λ j. str_eq j "" ≡ false) same refl;
        read = λ n json h. (_, refl, λ k. refl);
      })
      refl refl refl true "media.photo.uploaded" "row-1" [] refl

poll_shard-Polled_example :
    Polled (relay (λ n. not (n == 0))) shard (poll_shard (relay (λ n. not (n == 0))) shard)
poll_shard-Polled_example = poll_shard-Polled (relay (λ n. not (n == 0))) shard

poll_shard-drains_example :
    ((poll_shard (relay (λ n. true)) shard).0 ≡ none)
    × (pending (poll_shard (relay (λ n. true)) shard).1.rows ≡ [])
    × ((poll_shard (relay (λ n. true)) shard).1.taken
        ≡ onto
            (records_of
              (relay (λ n. true))
              0
              (order_by_id (relay (λ n. true)) (pending shard.rows)))
            [])
unfolding pending batch_size_or_default
poll_shard-drains_example =
    poll_shard-drains (relay (λ n. true)) shard (λ n. refl) (λ n h. refl) (λ n i. refl)
      (omega arith)

second_first_example :
    (poll_shard
      (relay (λ n. not (n == 0)))
      (poll_shard (relay (λ n. not (n == 0))) shard).1).1.taken
    ≡ record_of (relay (λ n. not (n == 0))) 2 (row "row-1")
      ∷ record_of (relay (λ n. not (n == 0))) 1 (row "row-2")
      ∷ []
unfolding batch_size_or_default
second_first_example =
    second_first (relay (λ n. not (n == 0))) (row "row-1") (row "row-2") shard (λ n. refl)
      (λ n i. refl) refl refl refl refl (omega arith) refl refl (λ n h. ground arith)
