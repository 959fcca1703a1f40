-- ===== src/Order/Idempotency/Tests.antt =====
-- The idempotency store at work: its properties applied to concrete requests.
use gosplash.Prelude.{
  ℕ, suc, ◌≤◌, [], ◌∷◌, none, some, true, false, str_eq, if◌then◌else◌, ◌==◌, ◌≡◌, refl,
}
use gosplash.Prelude.Int.{pos}
use gosplash.Order.Domain.{pending}
use gosplash.Order.Placement.{PlaceOrderCommand, Ports, Order, fetched, free, in_progress}
use gosplash.Redisx.Idempotency.{
  RedisEnv, envelope_in_progress, envelope_done, answered, not_reached, find_entry,
}
use gosplash.Order.Idempotency.{StoreEnv, Store, find_key, begin_key, complete_key}
use gosplash.Order.Idempotency.Once.{begin_op, complete_op, count_free, run_ops, free_at_most_once}
use gosplash.Order.Idempotency.Orders.{created_for, one_order_per_key}
use gosplash.Order.Idempotency.Stale.{stale_progress}

-- Command 1 does not reach Redis.
abbrev redis_env : RedisEnv
redis_env = record {
  reply = λ n. if n == 1 then not_reached else answered;
  lost = λ n i. false;
  marshal = λ e. elim e [ envelope_in_progress ↦ some "p" | envelope_done r ↦ some r ];
  unmarshal = λ t. if str_eq t "p" then some envelope_in_progress else some (envelope_done t);
  rounds = 3;
}

abbrev store_env : StoreEnv
store_env = record { redis = redis_env; sql = λ n. answered; service = "order" }

abbrev nothing_stored : Store
nothing_stored = record { redis = record { entries = []; commands = 0 }; rows = []; statements = 0 }

abbrev an_order : Order
an_order = record {
  id = "o";
  buyer_id = pos 1;
  listing_id = "l";
  price_cents = pos 100;
  currency = "USD";
  author_id = pos 2;
  status = pending;
  failure_reason = "";
  license_id = "";
}

abbrev ports : Ports ℕ
ports = record {
  begin = λ k s. (some free, s);
  complete = λ k json s. (true, s);
  get_listing = λ i s. (
    fetched (record {
      id = i;
      author_id = pos 2;
      price_cents = pos 100;
      currency = "USD";
      status = "published";
    }),
    s,
  );
  new_uuid = λ s. ("o", suc s);
  create = λ o e s. (true, s);
  start_place_order = λ o s. (true, s);
  get_by_id = λ i s. none;
  envelope_fits = λ e. true;
  marshal = λ o. some "stored";
  unmarshal = λ t. some an_order;
}

abbrev command : PlaceOrderCommand
command = record { buyer_id = pos 1; listing_id = "l"; idempotency_key = "a" }

free_at_most_once_example :
    count_free "a"
      (run_ops store_env
        (begin_op "a" ∷ complete_op "a" "done" ∷ begin_op "a" ∷ [])
        nothing_stored).0
    ≤ 1
free_at_most_once_example =
    free_at_most_once store_env "a" (begin_op "a" ∷ complete_op "a" "done" ∷ begin_op "a" ∷ [])
      nothing_stored

one_order_per_key_example :
    created_for store_env ports "place-order:a"
      (command ∷ command ∷ [])
      (record { store = nothing_stored; creates = 0; rest = 0 })
    ≤ 1
one_order_per_key_example =
    one_order_per_key store_env ports "place-order:a" (command ∷ command ∷ [])
      (record { store = nothing_stored; creates = 0; rest = 0 })

stale_progress_example :
    let begun = begin_key store_env "a" nothing_stored in
    let completed = complete_key store_env "a" "done" begun.1 in
    (begun.0 ≡ some free)
    × (completed.0 ≡ true)
    × (find_key "a" completed.1.rows ≡ some (record { key = "a"; response = some "done" }))
    × ((begin_key store_env "a" completed.1).0 ≡ some in_progress)
unfolding find_entry find_key
stale_progress_example =
    stale_progress store_env "a" "done" "p" "done" 2 nothing_stored (λ n i. refl) (λ n. refl) refl
      refl refl refl refl refl refl refl refl refl
