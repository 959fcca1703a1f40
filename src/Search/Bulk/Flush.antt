-- ===== src/Search/Bulk/Flush.antt =====
-- What one flush tells the calls of its batch: `flush` and `parseBulkResponse` of
-- services/search/internal/adapters/es/bulk_indexer.go.
use gosplash.Prelude.{
  ℕ, String, List, [], ◌∷◌, Option, none, some, ◌≡◌, refl, ap, All, map, Bool-cases, Option-cases,
  inl, inr, arith, length, ◌==◌, ==_iff,
}
use gosplash.Search.Errors.{
  IndexFailure, index_unavailable, invalid_document, classify_transport_err,
  classify_http_status_err, BulkItem,
}
use gosplash.Search.Bulk.{
  BulkAction, BulkReply, unreachable, unreadable, is_error, answered, BulkEnv, Answer, fail_all,
  hand_out, item_result, item_results, on_results, on_reply, build_bulk_body, flush_answers,
}

abbrev pub callers : List Answer → List ℕ
callers = map (λ r. r.0)

abbrev pub calls : List BulkAction → List ℕ
calls = map (λ a. a.call)

fail_all-callers :
    (batch : List BulkAction) (e : IndexFailure) → callers (fail_all batch e) ≡ calls batch
unfolding fail_all
fail_all-callers [] e = refl
fail_all-callers (a ∷ batch) e = ap (◌∷◌ a.call) (fail_all-callers batch e)

hand_out-callers :
    (batch : List BulkAction) (rs : List (Option IndexFailure))
    → length rs ≡ length batch
    → callers (hand_out batch rs) ≡ calls batch
unfolding hand_out
hand_out-callers [] rs h = refl
hand_out-callers (a ∷ batch) [] h = absurd (omega arith)
hand_out-callers (a ∷ batch) (r ∷ rs) h = ap (◌∷◌ a.call) (hand_out-callers batch rs (omega arith))

-- An action with the item at its own place in the reply.
pub data SamePlace (a : BulkAction) (it : List BulkItem)
    : List BulkAction → List (List BulkItem) → Type 0 where
  here :
      (batch : List BulkAction) (its : List (List BulkItem)) → SamePlace a it (a ∷ batch) (it ∷ its)
  there :
      (b : BulkAction) (v : List BulkItem) {batch : List BulkAction} {its : List (List BulkItem)}
      → SamePlace a it batch its
      → SamePlace a it (b ∷ batch) (v ∷ its)

module _ (env : BulkEnv) where
  -- Elasticsearch has answered a batch that has the call, and the item at the call's place is no
  -- failure.
  pub record Stored (call : ℕ) : Type 0 where
    pub flushes : ℕ
    pub batch : List BulkAction
    pub body : String
    pub raw : String
    pub its : List (List BulkItem)
    pub action : BulkAction
    pub item : List BulkItem
    pub sent : build_bulk_body env batch ≡ some body
    pub replied : env.reply flushes body ≡ answered raw
    pub parsed : env.items raw ≡ some its
    pub place : SamePlace action item batch its
    pub own : action.call ≡ call
    pub good : item_result none item ≡ none

  abbrev pub Justified : Answer → Type 0
  Justified r = r.1 ≡ none → Stored r.0

  fail_all-Justified :
      (batch : List BulkAction) (e : IndexFailure) → All Justified (fail_all batch e)
  unfolding fail_all
  fail_all-Justified [] e = tt
  fail_all-Justified (a ∷ batch) e = (λ h. cc, fail_all-Justified batch e)

  hand_out-Justified :
      (batch : List BulkAction) (its : List (List BulkItem))
      → ((a : BulkAction) (it : List BulkItem)
          → SamePlace a it batch its
          → item_result none it ≡ none
          → Stored a.call)
      → All Justified (hand_out batch (item_results its))
  unfolding hand_out item_results
  hand_out-Justified [] its f = tt
  hand_out-Justified (a ∷ batch) [] f = tt
  hand_out-Justified (a ∷ batch) (it ∷ its) f = (
    λ h. f a it (here batch its) h,
    hand_out-Justified batch its (λ b v p h. f b v (there a it p) h),
  )

  module _ (P : List Answer → Type 0) (batch : List BulkAction)
      (failing : (e : IndexFailure) → P (fail_all batch e)) where
    reply_cases :
        (reply : BulkReply)
        → ((raw : String) (its : List (List BulkItem))
            → reply ≡ answered raw
            → env.items raw ≡ some its
            → length (item_results its) ≡ length batch
            → P (hand_out batch (item_results its)))
        → P (on_reply env batch reply)
    unfolding on_reply on_results
    reply_cases (unreachable e) good = failing (classify_transport_err e)
    reply_cases (unreadable e) good = failing (classify_transport_err e)
    reply_cases (is_error e) good = failing (classify_http_status_err e)
    reply_cases (answered raw) good = elim (Option-cases (env.items raw)) [
      | inl unparsed ↦
          rw (unparsed, on_reply) (failing (classify_transport_err "bulk: разбор ответа"))
      | inr (its, parsed) ↦
          rw (parsed, on_reply)
            (elim (Bool-cases (length (item_results its) == length batch)) [
              | inl fits ↦ rw (fits, on_results) (good raw its refl parsed ((==_iff _ _).0 fits))
              | inr other ↦
                  rw (other, on_results) (failing (index_unavailable "bulk: число результатов"))
            ])
    ]

    -- A property of what a flush tells: of a failure for all, and of results that fit.
    flush_cases :
        (n : ℕ)
        → ((body raw : String) (its : List (List BulkItem))
            → build_bulk_body env batch ≡ some body
            → env.reply n body ≡ answered raw
            → env.items raw ≡ some its
            → length (item_results its) ≡ length batch
            → P (hand_out batch (item_results its)))
        → P (flush_answers env n batch)
    unfolding flush_answers
    flush_cases n good = elim (Option-cases (build_bulk_body env batch)) [
      | inl unbuilt ↦ rw (unbuilt, flush_answers) (failing (invalid_document "сборка bulk-тела"))
      | inr (body, built) ↦
          rw (built, flush_answers)
            (reply_cases (env.reply n body) (λ raw its. good body raw its built))
    ]

  pub flush_answers-callers :
      (n : ℕ) (batch : List BulkAction) → callers (flush_answers env n batch) ≡ calls batch
  flush_answers-callers n batch =
      flush_cases (λ rs. callers rs ≡ calls batch) batch (fail_all-callers batch) n
        (λ body raw its built replied parsed fits. hand_out-callers batch (item_results its) fits)

  pub flush_answers-Justified :
      (n : ℕ) (batch : List BulkAction) → All Justified (flush_answers env n batch)
  flush_answers-Justified n batch =
      flush_cases (All Justified) batch (fail_all-Justified batch) n
        (λ body raw its built replied parsed fits. hand_out-Justified batch its (λ a it p good.
          record {
            flushes = n;
            batch = batch;
            body = body;
            raw = raw;
            its = its;
            action = a;
            item = it;
            sent = built;
            replied = replied;
            parsed = parsed;
            place = p;
            own = refl;
            good = good;
          }))
