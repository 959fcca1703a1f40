-- ===== src/Order/Domain.antt =====
-- services/order/internal/domain/order.go and the inputs of the saga in
-- adapters/temporal/types.go.
use gosplash.Prelude.{String}
use gosplash.Prelude.Int.{ℤ}

-- `StatusPending` to `StatusFailed`
pub data OrderStatus : Type 0 where
  pending funds_reserved license_granted compensating completed failed : OrderStatus

pub record PlaceOrderInput : Type 0 where
  pub order_id : String
  pub buyer_id : ℤ
  pub listing_id : String
  pub price_cents : ℤ
  pub currency : String
  pub payee_account_id : ℤ

-- What the workflow asks of Temporal: the activity and its input.
pub data Command : Type 0 where
  -- order, buyer, price, currency
  reserve_funds : String → ℤ → ℤ → String → Command
  -- order, reservation
  release_funds : String → String → Command
  -- order, listing, buyer
  grant_license : String → String → ℤ → Command
  revoke_license : String → Command
  -- order, reservation, payee
  commit_funds : String → String → ℤ → Command
  -- the input with the license
  confirm_order : PlaceOrderInput → String → Command
  update_status : String → OrderStatus → Command
  -- order, reason
  fail_order : String → String → Command

-- How an activity ended after all the attempts of its retry policy: with the text that the workflow
-- keeps of its output (the reservation's or the license's id, otherwise nothing), or with an error.
pub data Outcome : Type 0 where
  done : String → Outcome
  error : String → Outcome

-- How the workflow ends: it returns nil, the first cause of the failure, or an error that wraps
-- what stopped the compensations, the mark of the failed order, or the confirmation.
pub data Ending : Type 0 where
  paid_order : Ending
  aborted : String → Ending
  compensation_failed : String → String → Ending
  not_marked_failed : String → Ending
  not_confirmed : String → Ending
