-- ===== src/Order/Idempotency/Stale.antt =====
-- A finished key that Redis still calls in progress:
-- services/order/internal/adapters/idempotency/store.go.
use gosplash.Order.Placement.{free, in_progress}
use gosplash.Order.Idempotency.{
  StoreEnv, begin_pg, complete_key, after_insert, after_update, execute, insert_key, Store,
  find_key, warm, set_done, begin_key, redis_key, after_claim, KeyRow,
}
use gosplash.Prelude.{
  ℕ, suc, String, List, [], ◌∷◌, none, some, true, false, ◌≡◌, refl, ap, Option, ◌∙◌, eq_iff,
}
use gosplash.Redisx.Idempotency.{
  answered, not_reached, RedisEnv, Redis, Entry, find_entry, surviving, arrive, put_entry,
  claim_key, set_nx, get, set, answer_of, effect_of, envelope_in_progress, complete_claim,
  begin_claim, envelope_done, begin_rounds, after_set_nx, claim_free, after_get, read_envelope,
  claim_in_progress, Claim,
}

-- Redis that loses nothing.
module _ (env : RedisEnv) (keeps : (n : ℕ) (i : String) → env.lost n i ≡ false) where
  surviving-eq : (n : ℕ) (es : List Entry) → surviving env n es ≡ es
  unfolding surviving
  surviving-eq n [] = refl
  surviving-eq n (e ∷ es) = rw (keeps n e.key, surviving) (ap (λ t. e ∷ t) (surviving-eq n es))

  set_nx_fresh :
      (k v : String) (w : Redis)
      → find_entry k w.entries ≡ none
      → env.reply w.commands ≡ answered
      → set_nx env k v w ≡ (some true, put_entry env k v (record w { commands = suc w.commands }))
  unfolding set_nx arrive claim_key answer_of effect_of put_entry
  set_nx_fresh k v w found first = rw (surviving-eq w.commands w.entries, found, first) refl

  set_nx_held :
      (k v old : String) (w : Redis)
      → find_entry k w.entries ≡ some old
      → env.reply w.commands ≡ answered
      → set_nx env k v w ≡ (some false, record w { commands = suc w.commands })
  unfolding set_nx arrive claim_key answer_of effect_of put_entry
  set_nx_held k v old w found first = rw (surviving-eq w.commands w.entries, found, first) refl

  get_held :
      (k old : String) (w : Redis)
      → find_entry k w.entries ≡ some old
      → env.reply w.commands ≡ answered
      → get env k w ≡ (some (some old), record w { commands = suc w.commands })
  unfolding get arrive answer_of
  get_held k old w found first = rw (surviving-eq w.commands w.entries, found, first) refl

  set_lost :
      (k v : String) (w : Redis)
      → env.reply w.commands ≡ not_reached
      → set env k v w ≡ (false, record w { commands = suc w.commands })
  unfolding set arrive effect_of put_entry
  set_lost k v w first = rw (surviving-eq w.commands w.entries, first) refl

  module _ (text : String) (tries : ℕ) (writes : env.marshal envelope_in_progress ≡ some text)
      (reads : env.unmarshal text ≡ some envelope_in_progress)
      (rounds : env.rounds ≡ suc tries) where
    begin_fresh :
        (k : String) (w : Redis)
        → find_entry k w.entries ≡ none
        → env.reply w.commands ≡ answered
        → begin_claim env k w
          ≡ (some claim_free, put_entry env k text (record w { commands = suc w.commands }))
    unfolding begin_claim begin_rounds after_set_nx
    begin_fresh k w found first =
        rw (writes, begin_claim)
          (rw (rounds, begin_rounds)
            (ap (λ p. after_set_nx env k p (λ w'. begin_rounds env tries k text w'))
              (set_nx_fresh k text w found first)))

    begin_held :
        (k : String) (w : Redis)
        → find_entry k w.entries ≡ some text
        → env.reply w.commands ≡ answered
        → env.reply (suc w.commands) ≡ answered
        → (begin_claim env k w).0 ≡ some claim_in_progress
    unfolding begin_claim begin_rounds after_set_nx after_get read_envelope
    begin_held k w found first second =
        let w' : Redis = record w { commands = suc w.commands } in
        let again : Redis → Option Claim × Redis = λ w''. begin_rounds env tries k text w'' in
        rw (writes, begin_claim)
          (rw (rounds, begin_rounds)
            (ap (λ p. (after_set_nx env k p again).0) (set_nx_held k text text w found first)
              ∙ ap (λ p. (after_get env p again).0) (get_held k text w' found second)
              ∙ rw (reads, read_envelope) refl))

  complete_lost :
      (k response : String) (done : String) (w : Redis)
      → env.marshal (envelope_done response) ≡ some done
      → env.reply w.commands ≡ not_reached
      → (complete_claim env k response w).1 ≡ record w { commands = suc w.commands }
  unfolding complete_claim
  complete_lost k response done w writes first =
      rw (writes, complete_claim) (ap (λ p. p.1) (set_lost k done w first))

-- The store, when every statement is answered.
module _ (env : StoreEnv) (sql : (n : ℕ) → env.sql n ≡ answered) where
  begin_pg_fresh :
      (k : String) (w : Store)
      → find_key k w.rows ≡ none
      → begin_pg env k w ≡ (
        some free,
        record w {
          rows = record { key = k; response = none } ∷ w.rows;
          statements = suc w.statements;
        },
      )
  unfolding begin_pg after_insert execute insert_key answer_of effect_of
  begin_pg_fresh k w fresh = rw (fresh, begin_pg) (rw (sql w.statements, begin_pg) refl)

  complete_answered :
      (k response : String) (w : Store)
      → complete_key env k response w ≡ (
        true,
        warm env k response
            (record w { rows = set_done k response w.rows; statements = suc w.statements }),
      )
  unfolding complete_key after_update execute answer_of effect_of
  complete_answered k response w = rw (sql w.statements, complete_key) refl

  begin_key_fresh :
      (k : String) (w : Store) (redis' : Redis)
      → begin_claim env.redis (redis_key env k) w.redis ≡ (some claim_free, redis')
      → find_key k w.rows ≡ none
      → begin_key env k w ≡ (
        some free,
        record w {
          redis = redis';
          rows = record { key = k; response = none } ∷ w.rows;
          statements = suc w.statements;
        },
      )
  unfolding begin_key after_claim
  begin_key_fresh k w redis' claimed fresh =
      ap (λ c. after_claim env k c.0 (record w { redis = c.1 })) claimed
      ∙ begin_pg_fresh k (record w { redis = redis' }) fresh

  begin_key_held :
      (k : String) (w : Store)
      → (begin_claim env.redis (redis_key env k) w.redis).0 ≡ some claim_in_progress
      → (begin_key env k w).0 ≡ some in_progress
  unfolding begin_key after_claim
  begin_key_held k w claimed =
      let c = begin_claim env.redis (redis_key env k) w.redis in
      ap (λ o. (after_claim env k o (record w { redis = c.1 })).0) claimed

  complete_key_lost :
      (k response : String) (w : Store) (redis' : Redis)
      → (complete_claim env.redis (redis_key env k) response w.redis).1 ≡ redis'
      → complete_key env k response w ≡ (
        true,
        record w {
          redis = redis';
          rows = set_done k response w.rows;
          statements = suc w.statements;
        },
      )
  unfolding warm
  complete_key_lost k response w redis' lost =
      complete_answered k response w
      ∙ ap
          (λ r. (
            true,
            record w {
              redis = r;
              rows = set_done k response w.rows;
              statements = suc w.statements;
            },
          ))
          lost

-- The row that a key was just given, with the answer set.
found_done :
    (k response : String) (rows : List KeyRow)
    → find_key k (set_done k response (record { key = k; response = none } ∷ rows))
      ≡ some (record { key = k; response = some response })
unfolding find_key set_done
found_done k response rows = let e = (eq_iff k k).1 refl in rw (e, set_done) (rw (e, find_key) refl)

found_put :
    (env : RedisEnv) (k v : String) (w : Redis)
    → find_entry k (put_entry env k v w).entries ≡ some v
unfolding find_entry put_entry
found_put env k v w = rw ((eq_iff k k).1 refl, find_entry) refl

-- A key that was free, and whose answer is stored in the table, is still called in progress if the
-- SET of `Complete` did not reach Redis: here every statement is answered, and the commands of the
-- two calls of `Begin` are, and Redis loses nothing.
pub stale_progress :
    (env : StoreEnv) (k response text done : String) (tries : ℕ) (w : Store)
    → ((n : ℕ) (i : String) → env.redis.lost n i ≡ false)
    → ((n : ℕ) → env.sql n ≡ answered)
    → env.redis.marshal envelope_in_progress ≡ some text
    → env.redis.unmarshal text ≡ some envelope_in_progress
    → env.redis.marshal (envelope_done response) ≡ some done
    → env.redis.rounds ≡ suc tries
    → find_entry (redis_key env k) w.redis.entries ≡ none
    → find_key k w.rows ≡ none
    → env.redis.reply w.redis.commands ≡ answered
    → env.redis.reply (suc w.redis.commands) ≡ not_reached
    → env.redis.reply (suc (suc w.redis.commands)) ≡ answered
    → env.redis.reply (suc (suc (suc w.redis.commands))) ≡ answered
    → let begun = begin_key env k w in
      let completed = complete_key env k response begun.1 in
      (begun.0 ≡ some free)
      × (completed.0 ≡ true)
      × (find_key k completed.1.rows ≡ some (record { key = k; response = some response }))
      × ((begin_key env k completed.1).0 ≡ some in_progress)
unfolding put_entry
stale_progress env k response text done tries w keeps sql writes reads stores rounds new_key new_row
      r₀ r₁ r₂ r₃ =
    let key = redis_key env k in
    let taken : Redis =
      put_entry env.redis key text (record w.redis { commands = suc w.redis.commands }) in
    let w₁ : Store = record w {
      redis = taken;
      rows = record { key = k; response = none } ∷ w.rows;
      statements = suc w.statements;
    } in
    let w₂ : Store = record w {
      redis = record taken { commands = suc (suc w.redis.commands) };
      rows = set_done k response w₁.rows;
      statements = suc (suc w.statements);
    } in
    let begun =
      begin_key_fresh env sql k w taken
        (begin_fresh env.redis keeps text tries writes reads rounds key w.redis new_key r₀)
        new_row in
    let completed =
      complete_key_lost env sql k response w₁ w₂.redis
        (complete_lost env.redis keeps key response done taken stores r₁) in
    let held = begin_key_held env sql k w₂ (
      begin_held env.redis keeps text tries writes reads rounds key w₂.redis
        (found_put env.redis key text w.redis) r₂ r₃) in
    rw (begun, completed) (refl, refl, found_done k response w.rows, held)
