-- ===== src/Order/Saga.antt =====
-- adapters/temporal/workflow.go: `PlaceOrderWorkflow` and `failOrder`. Temporal and the services
-- behind the activities are a parameter: a function that carries out one activity, with its
-- retries, on a state of its own.
pub mod Traces
pub mod Atomic
mod Tests
use gosplash.Prelude.{String, List, [], ◌∷◌, ◌++◌, if◌then◌else◌}
use mathlib.Core.List.{reverse}
use gosplash.Order.Domain.{
  OrderStatus, funds_reserved, license_granted, compensating, PlaceOrderInput, Command,
  reserve_funds, release_funds, grant_license, revoke_license, commit_funds, confirm_order,
  update_status, fail_order, Outcome, done, error, Ending, paid_order, aborted, compensation_failed,
  not_marked_failed, not_confirmed,
}

-- The state of the participants, and the history of the workflow, newest command first.
pub record Run (S : Type 0) : Type 0 where
  pub world : S
  pub history : List (Command × Outcome)

-- A compensation is kept as a function, as in the source.
abbrev pub Compensation : Type 0 → Type 0
Compensation S = Run S → Outcome × Run S

module _ {S : Type 0} where
  -- The branch on `err != nil` after an activity.
  unfoldable pub on_outcome :
      {X : Type 0} → Outcome × Run S → (String → Run S → X) → (String → Run S → X) → X
  on_outcome (error e, r) failed_with went_on = failed_with e r
  on_outcome (done out, r) failed_with went_on = went_on out r

  module _ (perform : Command → S → Outcome × S) where
    -- `ExecuteActivity(...).Get(...)`
    unfoldable pub execute : Command → Run S → Outcome × Run S
    execute c r =
        let (out, s) = perform c r.world in
        (out, record { world = s; history = (c, out) ∷ r.history })

    -- The loop of `failOrder`, over the compensations in the order in which they run.
    unfoldable pub compensate :
        List (Compensation S) → String → (Run S → Ending × Run S) → Run S → Ending × Run S
    compensate [] cause next r = next r
    compensate (undo ∷ rest) cause next r =
        on_outcome (undo r) (λ e r'. (compensation_failed e cause, r'))
          (λ _ r'. compensate rest cause next r')

    -- The mark of the failed order at the end of `failOrder`.
    unfoldable pub mark_failed : String → String → Run S → Ending × Run S
    mark_failed order_id cause r =
        on_outcome (execute (fail_order order_id cause) r) (λ e r'. (not_marked_failed e, r'))
          (λ _ r'. (aborted cause, r'))

    -- `failOrder`: with compensations to run, the order is marked first, whatever comes of that.
    unfoldable pub fail_saga : String → String → List (Compensation S) → Run S → Ending × Run S
    unfolding compensate mark_failed
    fail_saga order_id cause [] r = mark_failed order_id cause r
    fail_saga order_id cause (undo ∷ rest) r =
        compensate (reverse (undo ∷ rest)) cause (mark_failed order_id cause)
          (execute (update_status order_id compensating) r).1

    unfoldable pub release_compensation : PlaceOrderInput → String → Compensation S
    release_compensation i reservation_id = execute (release_funds i.order_id reservation_id)

    unfoldable pub revoke_compensation : PlaceOrderInput → Compensation S
    revoke_compensation i = execute (revoke_license i.order_id)

    -- The list after step 1, and after RevokeLicense is appended before step 2.
    abbrev pub one_compensation : PlaceOrderInput → String → List (Compensation S)
    one_compensation i reservation_id = [] ++ release_compensation i reservation_id ∷ []

    abbrev pub two_compensations : PlaceOrderInput → String → List (Compensation S)
    two_compensations i reservation_id =
        one_compensation i reservation_id ++ revoke_compensation i ∷ []

    -- Step 4, ConfirmOrder: past the point of no return nothing is compensated.
    unfoldable pub confirm_step : PlaceOrderInput → String → Run S → Ending × Run S
    confirm_step i license_id r =
        on_outcome (execute (confirm_order i license_id) r) (λ e r'. (not_confirmed e, r'))
          (λ _ r'. (paid_order, r'))

    -- Step 3, CommitFunds.
    unfoldable pub commit_step : PlaceOrderInput → String → String → Run S → Ending × Run S
    unfolding confirm_step
    commit_step i reservation_id license_id r =
        on_outcome (execute (commit_funds i.order_id reservation_id i.payee_account_id) r)
          (λ e r'. fail_saga i.order_id e (two_compensations i reservation_id) r')
          (λ _ r'. confirm_step i license_id r')

    -- The status after step 2.
    unfoldable pub granted_step : PlaceOrderInput → String → String → Run S → Ending × Run S
    unfolding commit_step
    granted_step i reservation_id license_id r =
        on_outcome (execute (update_status i.order_id license_granted) r)
          (λ e r'. fail_saga i.order_id e (two_compensations i reservation_id) r')
          (λ _ r'. commit_step i reservation_id license_id r')

    -- Step 2, GrantLicense.
    unfoldable pub grant_step : PlaceOrderInput → String → Run S → Ending × Run S
    unfolding granted_step
    grant_step i reservation_id r =
        on_outcome (execute (grant_license i.order_id i.listing_id i.buyer_id) r)
          (λ e r'. fail_saga i.order_id e (two_compensations i reservation_id) r')
          (λ license_id r'. granted_step i reservation_id license_id r')

    -- The status after step 1.
    unfoldable pub reserved_step : PlaceOrderInput → String → Run S → Ending × Run S
    unfolding grant_step
    reserved_step i reservation_id r =
        on_outcome (execute (update_status i.order_id funds_reserved) r)
          (λ e r'. fail_saga i.order_id e (one_compensation i reservation_id) r')
          (λ _ r'. grant_step i reservation_id r')

    -- `PlaceOrderWorkflow`, from step 1, ReserveFunds.
    unfoldable pub place_order_workflow : PlaceOrderInput → S → Ending × Run S
    unfolding reserved_step
    place_order_workflow i s =
        on_outcome
          (execute (reserve_funds i.order_id i.buyer_id i.price_cents i.currency)
            (record { world = s; history = [] }))
          (λ e r. fail_saga i.order_id e [] r)
          (λ reservation_id r. reserved_step i reservation_id r)
