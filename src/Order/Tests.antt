-- ===== src/Order/Tests.antt =====
-- The order service at work: its properties applied to concrete orders.
use gosplash.Order.Saga.Traces.{
  lost_payment, unpaid_in, revoked_in, paid_is_final, paid_in, undone_in,
}
use gosplash.Order.Domain.{paid_order, Command, Outcome, done, error, PlaceOrderInput, commit_funds}
use gosplash.Prelude.{Bool, true, false, ◌≡◌, refl, if◌then◌else◌, some, none, ◌≢◌}
use gosplash.Prelude.Int.{pos}
use gosplash.Rpc.Status.{Failure, status_failure, unavailable}
use gosplash.Order.Placement.{
  Listing, PlaceOrderCommand, Order, new_order, Ports, finished, free, fetched, place_order, placed,
}
use gosplash.Order.Placement.Once.{Placement, place_order-Placement}
use gosplash.Order.Activities.{SagaPorts, raised}
use gosplash.Order.Saga.{on_outcome, execute, place_order_workflow}

-- Every activity answers "id", but for those refused.
abbrev perform : (Command → Bool) → Command → Unit {0} → Outcome × Unit {0}
perform refuses c v = (if refuses c then error "refused" else done "id", v)

abbrev order : PlaceOrderInput
order = record {
  order_id = "order";
  buyer_id = pos 1;
  listing_id = "listing";
  price_cents = pos 60;
  currency = "USD";
  payee_account_id = pos 2;
}

abbrev nothing : Command → Bool
nothing c = false

paid_is_final_example :
    undone_in (place_order_workflow (perform nothing) order tt).1.history ≡ false
unfolding place_order_workflow paid_in on_outcome execute
paid_is_final_example = paid_is_final (perform nothing) order tt refl

-- A catalog with one published listing, and an order table, an idempotency store and a workflow
-- server that accept everything; the state says whether a response is stored.
abbrev listing : Listing
listing = record {
  id = "listing";
  author_id = pos 2;
  price_cents = pos 60;
  currency = "USD";
  status = "published";
}

abbrev command : PlaceOrderCommand
command = record { buyer_id = pos 1; listing_id = "listing"; idempotency_key = "click" }

abbrev taken_order : Order
taken_order = new_order "order" command listing

abbrev ports : Ports Bool
ports = record {
  begin = λ key stored. (some (if stored then finished "response" else free), stored);
  complete = λ key json stored. (true, true);
  get_listing = λ i stored. (fetched listing, stored);
  new_uuid = λ stored. ("order", stored);
  create = λ o e stored. (true, stored);
  start_place_order = λ o stored. (true, stored);
  get_by_id = λ i stored. some none;
  envelope_fits = λ e. true;
  marshal = λ o. some "response";
  unmarshal = λ json. some taken_order;
}

place_order_run : place_order ports command false ≡ (placed taken_order, true)
unfolding place_order
place_order_run = refl

place_order-Placement_example : Placement ports command false taken_order true
place_order-Placement_example =
    place_order-Placement ports command false taken_order true place_order_run

-- Participants that are always out of reach.
abbrev unreachable : Failure
unreachable = status_failure (record { code = unavailable; message = "down"; reason = none })

abbrev down : SagaPorts (Unit {0})
down = record {
  wallet_reserve = λ o b p c s. (raised unreachable, s);
  wallet_commit = λ o r p s. (raised unreachable, s);
  wallet_release = λ o r s. (raised unreachable, s);
  catalog_grant = λ o l b s. (raised unreachable, s);
  catalog_revoke = λ o s. (raised unreachable, s);
  orders_update_status = λ o st s. (raised unreachable, s);
  orders_complete = λ o l e s. (raised unreachable, s);
  orders_fail = λ o r s. (raised unreachable, s);
  new_envelope = λ e. none;
}

abbrev paying : Command → Bool
paying (commit_funds _ _ _) = true
paying _ = false

lost_payment_example :
    (revoked_in (place_order_workflow (perform paying) order tt).1.history ≡ true)
    × ((place_order_workflow (perform paying) order tt).0 ≢ paid_order)
unfolding place_order_workflow unpaid_in on_outcome execute gosplash.Order.Saga.fail_saga
    gosplash.Order.Saga.revoke_compensation gosplash.Order.Saga.release_compensation
lost_payment_example = lost_payment (perform paying) order tt refl
