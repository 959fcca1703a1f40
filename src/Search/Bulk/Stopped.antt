-- ===== src/Search/Bulk/Stopped.antt =====
-- A call that meets `Close`: `do` and `run` of
-- services/search/internal/adapters/es/bulk_indexer.go.
use gosplash.Prelude.{List, [], ◌∷◌, ◌++◌, ◌≡◌, ◌∙◌, refl, arith, length, ◌<◌, ◌*◌, lt→ltb}
use gosplash.Search.Bulk.{
  BulkAction, BulkEnv, Bulk, Phase, working, draining, gone, submits, finds_stopped, receive, tick,
  see_done, return_if_empty, Event, on_submit, on_stopped, on_receive, on_tick, on_close, on_done,
  on_empty, happen, run_events, size_or_default, submit_buffer_factor,
}

module _ (env : BulkEnv) where
  -- A goroutine that is gone does nothing more.
  receive_gone :
      (phase : Phase) (l : List BulkAction) (b : Bulk) → phase ≡ gone → receive env phase l b ≡ b
  unfolding receive
  receive_gone phase [] b e = refl
  receive_gone working (a ∷ l) b e = cc
  receive_gone draining (a ∷ l) b e = cc
  receive_gone gone (a ∷ l) b e = refl

  tick_gone : (phase : Phase) (b : Bulk) → phase ≡ gone → tick env phase b ≡ b
  unfolding tick
  tick_gone working b e = cc
  tick_gone draining b e = refl
  tick_gone gone b e = refl

  see_done_gone : (phase : Phase) (b : Bulk) → phase ≡ gone → see_done phase b ≡ b
  unfolding see_done
  see_done_gone working b e = cc
  see_done_gone draining b e = refl
  see_done_gone gone b e = refl

  return_gone :
      (phase : Phase) (l : List BulkAction) (b : Bulk)
      → phase ≡ gone
      → return_if_empty env phase l b ≡ b
  unfolding return_if_empty
  return_gone working l b e = refl
  return_gone draining l b e = cc
  return_gone gone l b e = refl

  abbrev Still : Bulk → Bulk → Type 0
  Still b d = (d.phase ≡ gone) × (d.answers ≡ b.answers)

  happen_gone : (v : Event) (b : Bulk) → b.phase ≡ gone → Still b (happen env v b)
  unfolding happen submits finds_stopped
  happen_gone (on_submit a) b e = (ground (arith), ground (arith))
  happen_gone (on_stopped a) b e = (ground (arith), ground (arith))
  happen_gone on_receive b e = rw (receive_gone b.phase b.submit b e) (e, refl)
  happen_gone on_tick b e = rw (tick_gone b.phase b e) (e, refl)
  happen_gone on_close b e = (e, refl)
  happen_gone on_done b e = rw (see_done_gone b.phase b e) (e, refl)
  happen_gone on_empty b e = rw (return_gone b.phase b.submit b e) (e, refl)

  run_gone : (vs : List Event) (b : Bulk) → b.phase ≡ gone → Still b (run_events env vs b)
  unfolding run_events
  run_gone [] b e = (e, refl)
  run_gone (v ∷ vs) b e =
      let (e', same) = happen_gone v b e in
      let (e'', same') = run_gone vs (happen env v b) e' in (e'', same' ∙ same)

-- After `Close` has returned, a call of `do` may still find room in the channel and put its action
-- there: it is then accepted, and whatever happens later, nobody is answered any more, so that it
-- waits until its own context ends.
pub late_call_hangs :
    (env : BulkEnv) (a : BulkAction) (b : Bulk) (vs : List Event)
    → b.phase ≡ gone
    → length b.submit < size_or_default env.batch_size * submit_buffer_factor
    → ((submits env a b).accepted ≡ b.accepted ++ a.call ∷ [])
      × ((run_events env vs (submits env a b)).answers ≡ b.answers)
unfolding submits
late_call_hangs env a b vs e room =
    let open_ = lt→ltb _ _ room in
    rw open_ (
      refl,
      (run_gone env vs
          (record b { submit = b.submit ++ a ∷ []; accepted = b.accepted ++ a.call ∷ [] }) e).1,
    )
