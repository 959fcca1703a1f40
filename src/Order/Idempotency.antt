-- ===== src/Order/Idempotency.antt =====
-- The idempotency store of the order service: services/order/internal/adapters/idempotency/store.go. The
-- table `idempotency_keys` is the authority, and Redis stands in front of it.
pub mod Once
pub mod Orders
pub mod Stale
mod Tests
use gosplash.Prelude.{
  ℕ, suc, String, List, [], ◌∷◌, Option, none, some, Bool, true, false, str_eq, if◌then◌else◌, ◌||◌,
}
use gosplash.Order.Placement.{Begun, free, in_progress, finished}
use gosplash.Redisx.Idempotency.{
  Reply, answered, unanswered, not_reached, Claim, claim_free, claim_in_progress, claim_done,
  RedisEnv, Redis, client_key, begin_claim, complete_claim, answer_of, effect_of,
}

-- `IdempotencyKeyRow`: the response of a row is set when its status is done.
pub record KeyRow : Type 0 where
  pub key : String
  pub response : Option String

pub record StoreEnv : Type 0 where
  pub redis : RedisEnv
  pub sql : ℕ → Reply
  pub service : String

pub record Store : Type 0 where
  pub redis : Redis
  pub rows : List KeyRow
  pub statements : ℕ

unfoldable pub find_key : String → List KeyRow → Option KeyRow
find_key k [] = none
find_key k (r ∷ rs) = if str_eq r.key k then some r else find_key k rs

-- UPDATE ... SET status, response WHERE key
unfoldable pub set_done : String → String → List KeyRow → List KeyRow
set_done k response [] = []
set_done k response (r ∷ rs) =
    (if str_eq r.key k then record r { response = some response } else r) ∷ set_done k response rs

-- INSERT ... ON CONFLICT DO NOTHING: whether a row was inserted.
unfoldable pub insert_key : Option KeyRow → String → List KeyRow → Bool × List KeyRow
insert_key (some r) k rows = (false, rows)
insert_key none k rows = (true, record { key = k; response = none } ∷ rows)

module _ (env : StoreEnv) where
  -- A statement that takes the rows to others and answers.
  unfoldable pub execute : {A : Type 0} → A × List KeyRow → Store → Option A × Store
  unfolding answer_of effect_of
  execute (x, after) w =
      let fate = env.sql w.statements in
      (
        answer_of env.redis fate x,
        record w { rows = effect_of env.redis fate w.rows after; statements = suc w.statements },
      )

  unfoldable pub redis_key : String → String
  unfolding client_key
  redis_key k = client_key env.service ("idempotency" ∷ k ∷ [])

  unfoldable pub warm : String → String → Store → Store
  unfolding complete_claim redis_key
  warm k response w = record w {
    redis = (complete_claim env.redis (redis_key k) response w.redis).1;
  }

  -- The row of a key that was taken before.
  unfoldable pub after_first : String → Option (Option KeyRow) × Store → Option Begun × Store
  unfolding warm
  after_first k (none, w) = (none, w)
  after_first k (some none, w) = (none, w)
  after_first k (some (some r), w) = elim r.response [
    | none ↦ (some in_progress, w)
    | some response ↦ (some (finished response), warm k response w)
  ]

  unfoldable pub after_insert : String → Option Bool × Store → Option Begun × Store
  unfolding after_first execute find_key
  after_insert k (none, w) = (none, w)
  after_insert k (some true, w) = (some free, w)
  after_insert k (some false, w) = after_first k (execute (find_key k w.rows, w.rows) w)

  -- `beginPG`
  unfoldable pub begin_pg : String → Store → Option Begun × Store
  unfolding after_insert execute insert_key find_key
  begin_pg k w = after_insert k (execute (insert_key (find_key k w.rows) k w.rows) w)

  unfoldable pub after_claim : String → Option Claim → Store → Option Begun × Store
  unfolding begin_pg
  after_claim k none w = begin_pg k w
  after_claim k (some claim_in_progress) w = (some in_progress, w)
  after_claim k (some (claim_done response)) w = (some (finished response), w)
  after_claim k (some claim_free) w = begin_pg k w

  -- `Store.Begin`
  unfoldable pub begin_key : String → Store → Option Begun × Store
  unfolding after_claim begin_claim redis_key
  begin_key k w =
      let (claim, redis) = begin_claim env.redis (redis_key k) w.redis in
      after_claim k claim (record w { redis = redis })

  unfoldable pub after_update : String → String → Option Bool × Store → Bool × Store
  unfolding warm
  after_update k response (none, w) = (false, w)
  after_update k response (some x, w) = (true, warm k response w)

  -- `Store.Complete`
  unfoldable pub complete_key : String → String → Store → Bool × Store
  unfolding after_update execute set_done
  complete_key k response w = after_update k response (execute (true, set_done k response w.rows) w)
