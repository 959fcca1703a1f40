-- ===== src/Order/Saga/Traces.antt =====
-- The histories that the saga can leave.
use gosplash.Order.Saga.{
  place_order_workflow, Run, execute, on_outcome, fail_saga, release_compensation,
  revoke_compensation,
}
use gosplash.Order.Domain.{
  Command, Outcome, PlaceOrderInput, Ending, paid_order, reserve_funds, confirm_order, error,
  fail_order, commit_funds, update_status, license_granted, grant_license, funds_reserved, done,
  release_funds, revoke_license,
}
use gosplash.Prelude.{List, Bool, false, ◌≡◌, String, true, arith, ◌∷◌, [], ◌≢◌}

abbrev pub Entries : Type 0
Entries = List (Command × Outcome)

-- CommitFunds has succeeded.
unfoldable pub paid_in : Entries → Bool
paid_in [] = false
paid_in ((commit_funds _ _ _, done _) ∷ h) = true
paid_in (_ ∷ h) = paid_in h

-- A compensation, or the mark of a failed order, was asked for.
unfoldable pub undone_in : Entries → Bool
undone_in [] = false
undone_in ((release_funds _ _, _) ∷ h) = true
undone_in ((revoke_license _, _) ∷ h) = true
undone_in ((fail_order _ _, _) ∷ h) = true
undone_in (_ ∷ h) = undone_in h

-- CommitFunds has ended with an error.
unfoldable pub unpaid_in : Entries → Bool
unpaid_in [] = false
unpaid_in ((commit_funds _ _ _, error _) ∷ h) = true
unpaid_in (_ ∷ h) = unpaid_in h

-- RevokeLicense was asked for.
unfoldable pub revoked_in : Entries → Bool
revoked_in [] = false
revoked_in ((revoke_license _, _) ∷ h) = true
revoked_in (_ ∷ h) = revoked_in h

-- The commands alone, newest first.
unfoldable pub commands : Entries → List Command
commands [] = []
commands ((c, _) ∷ h) = c ∷ commands h

abbrev text : Outcome → String
text (done out) = out
text (error e) = e

module _ {S : Type 0} (perform : Command → S → Outcome × S) (i : PlaceOrderInput) (s : S) where
  abbrev result : Ending × Run S
  result = place_order_workflow perform i s

  -- The first activities, as the success path runs them.
  abbrev reserving : Command
  reserving = reserve_funds i.order_id i.buyer_id i.price_cents i.currency

  abbrev granting : Command
  granting = grant_license i.order_id i.listing_id i.buyer_id

  abbrev reservation : String
  reservation = text (perform reserving s).0

  abbrev after_status : Outcome × S
  after_status = perform (update_status i.order_id funds_reserved) (perform reserving s).1

  -- Whatever the activities answer: once CommitFunds has succeeded, the workflow asks for no
  -- compensation and does not mark the order failed.
  pub paid_is_final : paid_in result.1.history ≡ true → undone_in result.1.history ≡ false
  unfolding place_order_workflow execute on_outcome fail_saga paid_in undone_in release_compensation
      revoke_compensation
  paid_is_final h = ground arith

  -- The workflow returns nil only after its six activities, each once and in order.
  pub paid_order_history :
      result.0 ≡ paid_order
      → (reservation_id license_id : String) × (commands result.1.history
          ≡ confirm_order i license_id
            ∷ commit_funds i.order_id reservation_id i.payee_account_id
            ∷ update_status i.order_id license_granted
            ∷ grant_license i.order_id i.listing_id i.buyer_id
            ∷ update_status i.order_id funds_reserved
            ∷ reserve_funds i.order_id i.buyer_id i.price_cents i.currency
            ∷ [])
  unfolding place_order_workflow execute on_outcome fail_saga commands release_compensation
      revoke_compensation
  paid_order_history h = (reservation, text (perform granting after_status.1).0, ground arith)

  -- If CommitFunds ends with an error, even one that stands for a lost answer, the workflow asks
  -- for RevokeLicense, and never ends as a paid order.
  pub lost_payment :
      unpaid_in result.1.history ≡ true
      → (revoked_in result.1.history ≡ true) × (result.0 ≢ paid_order)
  unfolding place_order_workflow execute on_outcome fail_saga unpaid_in revoked_in
      release_compensation revoke_compensation
  lost_payment h = (ground arith, ground arith)
