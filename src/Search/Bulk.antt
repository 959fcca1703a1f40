-- ===== src/Search/Bulk.antt =====
-- Documents in batches: `BulkIndexer` of services/search/internal/adapters/es/bulk_indexer.go. A
-- schedule of events stands for the callers of `do`, the goroutine of `run` and `Close`, in any
-- order; an event that the code cannot do now changes nothing. JSON and Elasticsearch are
-- parameters.
pub mod Flush
pub mod Answers
pub mod Stopped
use gosplash.Prelude.{
  ℕ, zero, suc, ◌*◌, String, List, [], ◌∷◌, ◌++◌, Option, none, some, Bool, true, false,
  if◌then◌else◌, length, ltb, leb, ◌==◌, map,
}
use gosplash.Prelude.Int.{ℤ, pos, negsuc}
use Prim.Native.String.{◌++◌ as append}
use gosplash.Search.Errors.{
  IndexFailure, invalid_document, index_unavailable, BulkItem, err_type, err_reason,
  classify_bulk_item_err, classify_transport_err, classify_http_status_err,
}

-- `ListingDoc`, whose time is a text.
pub record ListingDoc : Type 0 where
  pub listing_id : String
  pub author_id : ℤ
  pub author_name : String
  pub title : String
  pub tags : List String
  pub price_cents : ℤ
  pub currency : String
  pub status : String
  pub published_at : String

-- `bulkAction`; a number stands for the channel `result` of its call.
pub record BulkAction : Type 0 where
  pub is_delete : Bool
  pub id : String
  pub version : ℤ
  pub doc : ListingDoc
  pub call : ℕ

-- What becomes of a request: it fails, its body cannot be read, or it has a status and a body.
pub data BulkReply : Type 0 where
  unreachable unreadable : String → BulkReply
  is_error : String → BulkReply
  answered : String → BulkReply

-- JSON of the metadata, of a document and of a reply, whose items list their entries in the order
-- of ranging over a map; the reply to the n-th flush; the index; and the wanted size of a batch.
pub record BulkEnv : Type 0 where
  pub meta_json : String → String → BulkAction → Option String
  pub doc_json : ListingDoc → Option String
  pub items : String → Option (List (List BulkItem))
  pub reply : ℕ → String → BulkReply
  pub alias : String
  pub batch_size : ℤ

-- `NewBulkIndexer`: the size of a batch, and the buffer of `submit`.
abbrev pub default_batch_size : ℕ
default_batch_size = 100

abbrev pub submit_buffer_factor : ℕ
submit_buffer_factor = 2

unfoldable pub size_or_default : ℤ → ℕ
size_or_default (pos zero) = default_batch_size
size_or_default (pos (suc n)) = suc n
size_or_default (negsuc n) = default_batch_size

-- A result for the channel of a call; none is no error.
abbrev pub Answer : Type 0
Answer = ℕ × Option IndexFailure

unfoldable pub fail_all : List BulkAction → IndexFailure → List Answer
fail_all [] e = []
fail_all (a ∷ batch) e = (a.call, some e) ∷ fail_all batch e

-- The loop over a batch with its results, which are as many.
unfoldable pub hand_out : List BulkAction → List (Option IndexFailure) → List Answer
hand_out [] results = []
hand_out (a ∷ batch) [] = []
hand_out (a ∷ batch) (r ∷ results) = (a.call, r) ∷ hand_out batch results

-- `parseBulkResponse`: of several entries of an item the last counts, and no entry is no error.
unfoldable pub item_result : Option IndexFailure → List BulkItem → Option IndexFailure
unfolding classify_bulk_item_err err_type err_reason
item_result r [] = r
item_result r (v ∷ vs) =
    item_result (classify_bulk_item_err v.status (err_type v.failure) (err_reason v.failure)) vs

unfoldable pub item_results : List (List BulkItem) → List (Option IndexFailure)
unfolding item_result
item_results its = map (item_result none) its

unfoldable pub put_line : Option String → Option String → Option String
put_line none rest = none
put_line (some line) none = none
put_line (some line) (some rest) = some (append line (append "\n" rest))

-- Where the goroutine of `run` is: in its loop, in the loop after `done`, or gone.
pub data Phase : Type 0 where
  working draining gone : Phase

-- The channels and variables; `accepted`, `answers` and `refused` log the calls that were put into
-- `submit`, what was sent to them, and those that found the indexer stopped, oldest first.
pub record Bulk : Type 0 where
  pub submit : List BulkAction
  pub batch : List BulkAction
  pub phase : Phase
  pub closed : Bool
  pub requests : ℕ
  pub accepted : List ℕ
  pub answers : List Answer
  pub refused : List Answer

abbrev pub new_bulk : Bulk
new_bulk = record {
  submit = [];
  batch = [];
  phase = working;
  closed = false;
  requests = 0;
  accepted = [];
  answers = [];
  refused = [];
}

pub data Event : Type 0 where
  on_submit on_stopped : BulkAction → Event
  on_receive on_tick on_close on_done on_empty : Event

-- The case of `done` in the first `select` of `do`.
unfoldable pub finds_stopped : BulkAction → Bulk → Bulk
finds_stopped a b =
    if b.closed
    then record b {
      refused = b.refused ++ (a.call, some (index_unavailable "индексатор остановлен")) ∷ [];
    }
    else b

-- The case of `done` in the first loop of `run`.
unfoldable pub see_done : Phase → Bulk → Bulk
see_done working b = if b.closed then record b { phase = draining } else b
see_done draining b = b
see_done gone b = b

module _ (env : BulkEnv) where
  -- `buildBulkBody`
  unfoldable pub build_bulk_body : List BulkAction → Option String
  unfolding put_line
  build_bulk_body [] = some ""
  build_bulk_body (a ∷ batch) =
      let rest = build_bulk_body batch in
      let op = if a.is_delete then "delete" else "index" in
      put_line (env.meta_json op env.alias a)
        (if a.is_delete then rest else put_line (env.doc_json a.doc) rest)

  -- The results of a reply that could be parsed.
  unfoldable pub on_results : List BulkAction → List (Option IndexFailure) → List Answer
  unfolding hand_out fail_all
  on_results batch results =
      if length results == length batch
      then hand_out batch results
      else fail_all batch (index_unavailable "bulk: число результатов")

  unfoldable pub on_reply : List BulkAction → BulkReply → List Answer
  unfolding on_results item_results classify_transport_err classify_http_status_err
  on_reply batch (unreachable e) = fail_all batch (classify_transport_err e)
  on_reply batch (unreadable e) = fail_all batch (classify_transport_err e)
  on_reply batch (is_error e) = fail_all batch (classify_http_status_err e)
  on_reply batch (answered raw) = elim (env.items raw) [
    | none ↦ fail_all batch (classify_transport_err "bulk: разбор ответа")
    | some its ↦ on_results batch (item_results its)
  ]

  -- `flush`, given the number of the request.
  unfoldable pub flush_answers : ℕ → List BulkAction → List Answer
  unfolding build_bulk_body on_reply
  flush_answers n batch = elim (build_bulk_body batch) [
    | none ↦ fail_all batch (invalid_document "сборка bulk-тела")
    | some body ↦ on_reply batch (env.reply n body)
  ]

  unfoldable pub flush : Bulk → Bulk
  unfolding flush_answers
  flush b = record b {
    batch = [];
    requests = suc b.requests;
    answers = b.answers ++ flush_answers b.requests b.batch;
  }

  -- The first `select` of `do`: with both ready, either case may be taken.
  unfoldable pub submits : BulkAction → Bulk → Bulk
  unfolding size_or_default
  submits a b =
      if ltb (length b.submit) (size_or_default env.batch_size * submit_buffer_factor)
      then record b { submit = b.submit ++ a ∷ []; accepted = b.accepted ++ a.call ∷ [] }
      else b

  -- A receive of `run`, in either loop.
  unfoldable pub flush_if_full : Bulk → Bulk
  unfolding flush
  flush_if_full b = if leb (size_or_default env.batch_size) (length b.batch) then flush b else b

  unfoldable pub receive : Phase → List BulkAction → Bulk → Bulk
  unfolding flush_if_full
  receive phase [] b = b
  receive working (a ∷ rest) b =
      flush_if_full (record b { submit = rest; batch = b.batch ++ a ∷ [] })
  receive draining (a ∷ rest) b = record b { submit = rest; batch = b.batch ++ a ∷ [] }
  receive gone (a ∷ rest) b = b

  unfoldable pub flush_if_any : List BulkAction → Bulk → Bulk
  unfolding flush
  flush_if_any [] b = b
  flush_if_any (a ∷ batch) b = flush b

  unfoldable pub tick : Phase → Bulk → Bulk
  unfolding flush_if_any
  tick working b = flush_if_any b.batch b
  tick draining b = b
  tick gone b = b

  -- The `default` of the second loop, with `submit` empty.
  unfoldable pub return_if_empty : Phase → List BulkAction → Bulk → Bulk
  unfolding flush_if_any
  return_if_empty draining [] b = record (flush_if_any b.batch b) { phase = gone }
  return_if_empty draining (a ∷ rest) b = b
  return_if_empty working rest b = b
  return_if_empty gone rest b = b

  unfoldable pub happen : Event → Bulk → Bulk
  unfolding submits finds_stopped receive tick see_done return_if_empty
  happen (on_submit a) b = submits a b
  happen (on_stopped a) b = finds_stopped a b
  happen on_receive b = receive b.phase b.submit b
  happen on_tick b = tick b.phase b
  happen on_close b = record b { closed = true }
  happen on_done b = see_done b.phase b
  happen on_empty b = return_if_empty b.phase b.submit b

  unfoldable pub run_events : List Event → Bulk → Bulk
  unfolding happen
  run_events [] b = b
  run_events (v ∷ vs) b = run_events vs (happen v b)
