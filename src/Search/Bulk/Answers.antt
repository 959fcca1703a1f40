-- ===== src/Search/Bulk/Answers.antt =====
-- What the callers of `do` are told: `run` and `flush` of
-- services/search/internal/adapters/es/bulk_indexer.go.
use gosplash.Prelude.{
  List, [], ◌∷◌, ◌++◌, Bool, true, false, ◌≡◌, refl, ◌∙◌, ap, sym, All, append_assoc, length,
  if◌then◌else◌, leb, ltb, ◌*◌, ◌≢◌,
}
use mathlib.Core.List.{map-append}
use gosplash.Search.Bulk.{
  BulkAction, BulkEnv, Answer, flush_answers, flush, Bulk, new_bulk, Phase, working, draining, gone,
  submits, finds_stopped, flush_if_full, receive, flush_if_any, tick, see_done, return_if_empty,
  Event, on_submit, on_stopped, on_receive, on_tick, on_close, on_done, on_empty, happen,
  run_events, size_or_default, submit_buffer_factor,
}
use gosplash.Search.Bulk.Flush.{
  callers, calls, Justified, flush_answers-callers, flush_answers-Justified,
}

module _ (env : BulkEnv) where
  -- Every accepted call is answered, in the batch or in the channel, in this order; the answers are
  -- those of Elasticsearch; and nothing is left in the batch when the goroutine is gone.
  record Fair (b : Bulk) : Type 0 where
    order : b.accepted ≡ callers b.answers ++ (calls b.batch ++ calls b.submit)
    justified : All (Justified env) b.answers
    finished : b.phase ≡ gone → b.batch ≡ []

  All-append : (P : Answer → Type 0) (xs ys : List Answer) → All P xs → All P ys → All P (xs ++ ys)
  All-append P [] ys h k = k
  All-append P (x ∷ xs) ys (h, hs) k = (h, All-append P xs ys hs k)

  if-Fair :
      (c : Bool) {b d : Bulk}
      → (c ≡ true → Fair b)
      → (c ≡ false → Fair d)
      → Fair (if c then b else d)
  if-Fair true f g = f refl
  if-Fair false f g = g refl

  flush-Fair : (b : Bulk) → Fair b → Fair (flush env b)
  unfolding flush
  flush-Fair b f = record {
    order =
        f.order
        ∙ sym (append_assoc (callers b.answers) (calls b.batch) (calls b.submit))
        ∙ ap (λ l. l ++ calls b.submit)
            (ap (λ l. callers b.answers ++ l) (sym (flush_answers-callers env b.requests b.batch))
              ∙ sym (map-append (λ r. r.0) b.answers (flush_answers env b.requests b.batch)));
    justified =
        All-append (Justified env) b.answers _ f.justified
          (flush_answers-Justified env b.requests b.batch);
    finished = λ h. refl;
  }

  receive_one :
      (b : Bulk) (a : BulkAction) (rest : List BulkAction)
      → b.submit ≡ a ∷ rest
      → b.phase ≢ gone
      → Fair b
      → Fair (record b { submit = rest; batch = b.batch ++ a ∷ [] })
  receive_one b a rest e runs f = record {
    order =
        f.order
        ∙ ap (λ l. callers b.answers ++ (calls b.batch ++ calls l)) e
        ∙ ap (λ l. callers b.answers ++ l)
            (sym (append_assoc (calls b.batch) (a.call ∷ []) (calls rest))
              ∙ ap (λ l. l ++ calls rest) (sym (map-append (λ x. x.call) b.batch (a ∷ []))));
    justified = f.justified;
    finished = λ h. absurd (runs h);
  }

  receive-Fair :
      (phase : Phase) (submit : List BulkAction) (b : Bulk)
      → b.phase ≡ phase
      → b.submit ≡ submit
      → Fair b
      → Fair (receive env phase submit b)
  unfolding receive flush_if_full
  receive-Fair phase [] b e e' f = f
  receive-Fair working (a ∷ rest) b e e' f =
      let one = receive_one b a rest e' (λ h. cc) f in
      if-Fair (leb (size_or_default env.batch_size) (length (b.batch ++ a ∷ [])))
        (λ full. flush-Fair (record b { submit = rest; batch = b.batch ++ a ∷ [] }) one)
        (λ room. one)
  receive-Fair draining (a ∷ rest) b e e' f = receive_one b a rest e' (λ h. cc) f
  receive-Fair gone (a ∷ rest) b e e' f = f

  submits-Fair : (a : BulkAction) (b : Bulk) → Fair b → Fair (submits env a b)
  unfolding submits
  submits-Fair a b f =
      if-Fair (ltb (length b.submit) (size_or_default env.batch_size * submit_buffer_factor))
        (λ room. record {
          order = ap (λ l. l ++ a.call ∷ []) f.order ∙ simp (append_assoc, map-append);
          justified = f.justified;
          finished = f.finished;
        })
        (λ full. f)

  -- A change of what the order does not mention.
  same_calls :
      (b d : Bulk)
      → d.accepted ≡ b.accepted
      → d.answers ≡ b.answers
      → d.batch ≡ b.batch
      → d.submit ≡ b.submit
      → (d.phase ≡ gone → d.batch ≡ [])
      → Fair b
      → Fair d
  same_calls b d ac an ba su fin f = record {
    order = rw (ac, an, ba, su) f.order;
    justified = rw an f.justified;
    finished = fin;
  }

  flush_if_any-Fair :
      (batch : List BulkAction) (b : Bulk) → Fair b → Fair (flush_if_any env batch b)
  unfolding flush_if_any
  flush_if_any-Fair [] b f = f
  flush_if_any-Fair (a ∷ batch) b f = flush-Fair b f

  flush_if_any-empties :
      (batch : List BulkAction) (b : Bulk) → b.batch ≡ batch → (flush_if_any env batch b).batch ≡ []
  unfolding flush_if_any flush
  flush_if_any-empties [] b e = e
  flush_if_any-empties (a ∷ batch) b e = refl

  return_if_empty-Fair :
      (phase : Phase) (submit : List BulkAction) (b : Bulk)
      → Fair b
      → Fair (return_if_empty env phase submit b)
  unfolding return_if_empty
  return_if_empty-Fair working submit b f = f
  return_if_empty-Fair draining [] b f =
      let flushed = flush_if_any env b.batch b in
      same_calls flushed (record flushed { phase = gone }) refl refl refl refl
        (λ h. flush_if_any-empties b.batch b refl) (flush_if_any-Fair b.batch b f)
  return_if_empty-Fair draining (a ∷ rest) b f = f
  return_if_empty-Fair gone submit b f = f

  tick-Fair : (phase : Phase) (b : Bulk) → Fair b → Fair (tick env phase b)
  unfolding tick
  tick-Fair working b f = flush_if_any-Fair b.batch b f
  tick-Fair draining b f = f
  tick-Fair gone b f = f

  see_done-Fair : (phase : Phase) (b : Bulk) → Fair b → Fair (see_done phase b)
  unfolding see_done
  see_done-Fair working b f =
      if-Fair b.closed
        (λ h. same_calls b (record b { phase = draining }) refl refl refl refl (λ e. cc) f) (λ h. f)
  see_done-Fair draining b f = f
  see_done-Fair gone b f = f

  happen-Fair : (v : Event) (b : Bulk) → Fair b → Fair (happen env v b)
  unfolding happen finds_stopped
  happen-Fair (on_submit a) b f = submits-Fair a b f
  happen-Fair (on_stopped a) b f =
      if-Fair b.closed (λ h. same_calls b _ refl refl refl refl f.finished f) (λ h. f)
  happen-Fair on_receive b f = receive-Fair b.phase b.submit b refl refl f
  happen-Fair on_tick b f = tick-Fair b.phase b f
  happen-Fair on_close b f =
      same_calls b (record b { closed = true }) refl refl refl refl f.finished f
  happen-Fair on_done b f = see_done-Fair b.phase b f
  happen-Fair on_empty b f = return_if_empty-Fair b.phase b.submit b f

  run_events-Fair : (vs : List Event) (b : Bulk) → Fair b → Fair (run_events env vs b)
  unfolding run_events
  run_events-Fair [] b f = f
  run_events-Fair (v ∷ vs) b f = run_events-Fair vs (happen env v b) (happen-Fair v b f)

-- In whatever order callers, ticks, the goroutine and `Close` act, and whatever Elasticsearch
-- replies: the calls that put an action into the channel are, in this order, those that were
-- answered, those whose action is in the batch and those whose action is in the channel, so that
-- none is answered twice; a call is told of no error only if Elasticsearch has answered a batch with
-- its action and the item at that place is no failure; and a goroutine that is gone leaves nothing
-- in its batch.
pub calls_answered :
    (env : BulkEnv) (vs : List Event)
    → let b = run_events env vs new_bulk in
      (b.accepted ≡ callers b.answers ++ (calls b.batch ++ calls b.submit))
      × All (Justified env) b.answers
      × (b.phase ≡ gone → b.batch ≡ [])
calls_answered env vs =
    let f =
      run_events-Fair env vs new_bulk
        (record { order = refl; justified = tt; finished = λ h. refl }) in
    (f.order, f.justified, f.finished)
