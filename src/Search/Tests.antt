-- ===== src/Search/Tests.antt =====
-- Schedules of the bulk indexer and events of the handler (services/search), and their theorems at
-- examples.
use gosplash.Search.Bulk.Stopped.{late_call_hangs}
use gosplash.Search.Indexer.{IndexWriter, Published, handle_listing_published}
use gosplash.Search.Bulk.Answers.{calls_answered}
use gosplash.Search.Bulk.Flush.{callers, calls, Justified}
use gosplash.Prelude.{
  ℕ, String, List, [], ◌∷◌, none, some, ◌≡◌, refl, false, ◌++◌, true, All, arith,
}
use gosplash.Prelude.Int.{pos}
use gosplash.Search.Errors.{index_unavailable, invalid_document}
use gosplash.Search.Bulk.{
  ListingDoc, BulkAction, answered, BulkEnv, new_bulk, Event, on_submit, on_receive, on_close,
  on_done, on_empty, run_events, Bulk, size_or_default, gone, submits,
}

abbrev listing_doc : String → ListingDoc
listing_doc i = record {
  listing_id = i;
  author_id = pos 1;
  author_name = "";
  title = "";
  tags = [];
  price_cents = pos 100;
  currency = "RUB";
  status = "published";
  published_at = "";
}

abbrev action : ℕ → String → BulkAction
action n i = record { is_delete = false; id = i; version = pos n; doc = listing_doc i; call = n }

-- Batches of two; the second item of the first reply is refused by the mapping.
abbrev bulk_env : BulkEnv
bulk_env = record {
  meta_json = λ op index a. some op;
  doc_json = λ d. some d.listing_id;
  items = λ raw. some (
      (record { status = 200; failure = none } ∷ [])
      ∷ (record { status = 400; failure = some ("mapper_parsing_exception", "tags") } ∷ [])
      ∷ []);
  reply = λ n body. answered "ok";
  alias = "listings";
  batch_size = pos 2;
}

-- Two calls, which fill a batch; a third, while the indexer stops.
abbrev schedule : List Event
schedule =
    on_submit (action 1 "a")
    ∷ on_submit (action 2 "b")
    ∷ on_receive
    ∷ on_receive
    ∷ on_close
    ∷ on_submit (action 3 "c")
    ∷ on_done
    ∷ on_receive
    ∷ on_empty
    ∷ []

told :
    (run_events bulk_env schedule new_bulk).answers
    ≡ (1, none)
      ∷ (2, some (invalid_document "tags"))
      ∷ (3, some (index_unavailable "bulk: число результатов"))
      ∷ []
unfolding run_events
told = refl

calls_answered_example :
    let b = run_events bulk_env schedule new_bulk in
    (b.accepted ≡ callers b.answers ++ (calls b.batch ++ calls b.submit))
    × All (Justified bulk_env) b.answers
    × (b.phase ≡ gone → b.batch ≡ [])
calls_answered_example = calls_answered bulk_env schedule

abbrev closed_bulk : Bulk
closed_bulk = record new_bulk { phase = gone; closed = true }

late_call_hangs_example :
    ((submits bulk_env (action 4 "d") closed_bulk).accepted ≡ [] ++ 4 ∷ [])
    × ((run_events bulk_env schedule (submits bulk_env (action 4 "d") closed_bulk)).answers ≡ [])
unfolding size_or_default
late_call_hangs_example =
    late_call_hangs bulk_env (action 4 "d") closed_bulk schedule refl (omega arith)

-- An index that finds one document invalid.
abbrev strict_index : IndexWriter ℕ
strict_index = record {
  index_listing = λ d v n. (some (invalid_document "tags"), n);
  delete_listing = λ i v n. (none, n);
}

abbrev sold : Published
sold = record {
  payload = some (record {
    listing_id = "a";
    author_id = pos 1;
    author_name = "";
    title = "";
    tags = [];
    price_cents = pos 100;
    currency = "RUB";
    status = "published";
  });
  occurred_at_unix_ms = pos 5;
  occurred_at = "t";
}

turned_down : (handle_listing_published strict_index sold 0).1 ≡ 0
unfolding handle_listing_published
turned_down = refl
