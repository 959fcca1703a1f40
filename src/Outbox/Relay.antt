-- ===== src/Outbox/Relay.antt =====
-- One poll of the relay: `pollShard` of pkg/outbox/relay.go, with what it calls. Every SQL statement
-- and every record sent to the broker may fail.
pub mod Batch
pub mod Drain
pub mod Overtaken
pub mod Poll
use gosplash.Prelude.{
  ℕ, zero, suc, ◌+◌, String, List, [], ◌∷◌, Option, none, some, Bool, true, false, ◌&&◌, ◌||◌, not,
  str_eq, if◌then◌else◌, length, map, ◌++◌,
}
use gosplash.Prelude.Int.{pos}
use gosplash.Kafka.Record.{Header, Message, header_producer}
use gosplash.Kafka.Headers.{has_header}
use gosplash.Outbox.Row.{OutboxRow}

-- What a relay takes from its surroundings: its service and the size of a batch; whether the n-th
-- statement and the n-th record succeed; which rows another relay has locked at the n-th statement;
-- the entries of a JSON object, in the order that ranging over a map takes at the n-th record; and
-- the order of the uuid column.
pub record Surroundings : Type 0 where
  pub service_name : String
  pub batch_size : ℕ
  pub sql_ok : ℕ → Bool
  pub accepts : ℕ → Bool
  pub locked : ℕ → String → Bool
  pub entries : ℕ → String → Option (List Header)
  pub uuid_le : String → String → Bool

-- A shard with its outbox, what the broker has taken, newest first, how many statements and records
-- were sent, and the last value of the metric `outbox_pending`.
pub record Shard : Type 0 where
  pub rows : List OutboxRow
  pub taken : List Message
  pub statements : ℕ
  pub requests : ℕ
  pub gauge : ℕ

pub data PollError : Type 0 where
  begin_failed select_failed nothing_published update_failed commit_failed : PollError

-- `withDefaults` of config.go for the size of a batch.
abbrev pub default_batch_size : ℕ
default_batch_size = 100

unfoldable pub batch_size_or_default : ℕ → ℕ
batch_size_or_default zero = default_batch_size
batch_size_or_default (suc n) = suc n

-- WHERE published_at IS NULL
unfoldable pub pending : List OutboxRow → List OutboxRow
pending [] = []
pending (r ∷ rs) = let rest = pending rs in if r.published then rest else r ∷ rest

-- SET published_at = now() WHERE id = ANY(ids)
unfoldable pub is_in : String → List String → Bool
is_in i [] = false
is_in i (j ∷ js) = str_eq i j || is_in i js

unfoldable pub mark : List String → List OutboxRow → List OutboxRow
unfolding is_in
mark ids [] = []
mark ids (r ∷ rs) =
    let rest = mark ids rs in (if is_in r.id ids then record r { published = true } else r) ∷ rest

-- LIMIT
unfoldable pub limit : ℕ → List OutboxRow → List OutboxRow
limit zero rs = []
limit (suc n) [] = []
limit (suc n) (r ∷ rs) = r ∷ limit n rs

module _ (s : Surroundings) where
  -- FOR UPDATE SKIP LOCKED
  unfoldable pub unlocked : ℕ → List OutboxRow → List OutboxRow
  unlocked n [] = []
  unlocked n (r ∷ rs) = let rest = unlocked n rs in if s.locked n r.id then rest else r ∷ rest

  -- ORDER BY id
  unfoldable pub insert_by_id : OutboxRow → List OutboxRow → List OutboxRow
  insert_by_id r [] = r ∷ []
  insert_by_id r (q ∷ qs) =
      let rest = insert_by_id r qs in if s.uuid_le r.id q.id then r ∷ q ∷ qs else q ∷ rest

  unfoldable pub order_by_id : List OutboxRow → List OutboxRow
  unfolding insert_by_id
  order_by_id [] = []
  order_by_id (r ∷ rs) = insert_by_id r (order_by_id rs)

  -- The rows of a batch, as the n-th statement selects them.
  unfoldable pub select_batch : ℕ → List OutboxRow → List OutboxRow
  unfolding pending unlocked order_by_id limit
  select_batch n rows =
      limit (batch_size_or_default s.batch_size) (order_by_id (unlocked n (pending rows)))

  -- `headersToRecordHeaders`, whose error is only logged.
  unfoldable pub record_headers : ℕ → String → List Header
  record_headers n raw =
      if str_eq raw "" then [] else elim (s.entries n raw) [ none ↦ [] | some hs ↦ hs ]

  unfoldable pub with_producer : List Header → List Header
  with_producer hs =
      if has_header hs header_producer
      then hs
      else hs ++ (record { key = header_producer; value = s.service_name } ∷ [])

  -- The record of a row. The client sets the partition and the offset.
  unfoldable pub record_of : ℕ → OutboxRow → Message
  unfolding with_producer record_headers
  record_of n r = record {
    topic = r.topic;
    partition = pos 0;
    offset = pos 0;
    key = r.key;
    value = r.payload;
    headers = with_producer (record_headers n r.headers);
  }

  -- One turn of the loop of `publishBatch`: whether the broker took the record.
  unfoldable pub publish_row : OutboxRow → Shard → Bool × Shard
  unfolding record_of
  publish_row r w =
      let sent : Shard = record w { requests = suc w.requests } in
      if s.accepts w.requests
      then (true, record sent { taken = record_of w.requests r ∷ w.taken })
      else (false, sent)

  unfoldable pub keep_id : Bool → String → List String × Shard → List String × Shard
  keep_id true i (ids, w) = (i ∷ ids, w)
  keep_id false i (ids, w) = (ids, w)

  -- `publishBatch`: the ids of the rows that the broker took.
  unfoldable pub publish_batch : List OutboxRow → Shard → List String × Shard
  unfolding publish_row keep_id
  publish_batch [] w = ([], w)
  publish_batch (r ∷ rs) w = let p = publish_row r w in keep_id p.0 r.id (publish_batch rs p.1)

  unfoldable pub statement : Shard → Bool × Shard
  statement w = (s.sql_ok w.statements, record w { statements = suc w.statements })

  -- `reportPending`, whose error is only logged.
  unfoldable pub report_pending : Shard → Shard
  unfolding statement pending
  report_pending w =
      let (ok, w') = statement w in if ok then record w' { gauge = length (pending w.rows) } else w'

  -- COMMIT, after the UPDATE in the same transaction.
  unfoldable pub commit_rows : List String → Bool × Shard → Option PollError × Shard
  commit_rows ids (true, w) = (none, record w { rows = mark ids w.rows })
  commit_rows ids (false, w) = (some commit_failed, w)

  unfoldable pub update_rows : List String → Bool × Shard → Option PollError × Shard
  unfolding commit_rows
  update_rows ids (true, w) = commit_rows ids (statement w)
  update_rows ids (false, w) = (some update_failed, w)

  unfoldable pub after_publish : List String × Shard → Option PollError × Shard
  unfolding update_rows
  after_publish ([], w) = (some nothing_published, w)
  after_publish (i ∷ ids, w) = update_rows (i ∷ ids) (statement w)

  unfoldable pub publish_selected : List OutboxRow → Shard → Option PollError × Shard
  unfolding after_publish
  publish_selected [] w = (none, w)
  publish_selected (r ∷ rs) w = after_publish (publish_batch (r ∷ rs) w)

  unfoldable pub after_select : ℕ → Bool × Shard → Option PollError × Shard
  unfolding publish_selected
  after_select n (true, w) = publish_selected (select_batch n w.rows) w
  after_select n (false, w) = (some select_failed, w)

  unfoldable pub after_begin : Bool × Shard → Option PollError × Shard
  unfolding after_select
  after_begin (true, w) = after_select w.statements (statement w)
  after_begin (false, w) = (some begin_failed, w)

  -- `pollShard`
  unfoldable pub poll_shard : Shard → Option PollError × Shard
  unfolding after_begin report_pending
  poll_shard w = after_begin (statement (report_pending w))

  -- `pollAllShards`: an error of one shard is only logged.
  unfoldable pub poll_all_shards : List Shard → List Shard
  unfolding poll_shard
  poll_all_shards [] = []
  poll_all_shards (w ∷ ws) = (poll_shard w).1 ∷ poll_all_shards ws
