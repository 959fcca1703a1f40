-- ===== src/Order/Saga/Atomic.antt =====
-- The saga is all or nothing, for participants whose failed activities have had no effect.
use gosplash.Order.Saga.{
  place_order_workflow, execute, on_outcome, fail_saga, release_compensation, revoke_compensation,
  Run, mark_failed, one_compensation, two_compensations, compensate, confirm_step, commit_step,
  granted_step, grant_step, reserved_step,
}
use gosplash.Order.Saga.Traces.{Entries}
use gosplash.Order.Domain.{
  Command, Ending, OrderStatus, pending, Outcome, PlaceOrderInput, completed, reserve_funds,
  release_funds, grant_license, revoke_license, commit_funds, confirm_order, update_status,
  fail_order, failed, done, error, aborted, not_confirmed, license_granted, not_marked_failed,
  compensation_failed, paid_order, compensating, funds_reserved,
}
use gosplash.Prelude.Int.{ℤ}
use gosplash.Prelude.{
  Option, none, some, str_eq, if◌then◌else◌, ◌&&◌, [], ◌∷◌, Bool, false, ◌≡◌, String,
}

-- A reservation that the wallet holds, a payment that it made of one, and a license, each with what
-- was asked for.
pub record Hold : Type 0 where
  pub id : String
  pub order_id : String
  pub account_id : ℤ
  pub amount_cents : ℤ
  pub currency : String

pub record Payment : Type 0 where
  pub order_id : String
  pub payer_id : ℤ
  pub payee_id : ℤ
  pub amount_cents : ℤ
  pub currency : String

pub record Grant : Type 0 where
  pub id : String
  pub order_id : String
  pub listing_id : String
  pub buyer_id : ℤ

-- What the participants hold for one order, and its row.
pub record View : Type 0 where
  pub hold : Option Hold
  pub payment : Option Payment
  pub license : Option Grant
  pub order_id : String
  pub status : OrderStatus

abbrev pub start : PlaceOrderInput → View
start i = record {
  hold = none;
  payment = none;
  license = none;
  order_id = i.order_id;
  status = pending;
}

-- The reservation that a command names, by its own id and that of the order.
unfoldable pub names_hold : String → String → Hold → Bool
names_hold o rid h = str_eq h.order_id o && str_eq h.id rid

unfoldable pub without_hold : String → String → Option Hold → Option Hold
unfolding names_hold
without_hold o rid none = none
without_hold o rid (some h) = if names_hold o rid h then none else some h

unfoldable pub without_license : String → Option Grant → Option Grant
without_license o none = none
without_license o (some g) = if str_eq g.order_id o then none else some g

unfoldable pub pay_hold : String → String → ℤ → Option Hold → View → View
unfolding names_hold
pay_hold o rid payee none v = v
pay_hold o rid payee (some h) v =
    let p : Payment = record {
      order_id = h.order_id;
      payer_id = h.account_id;
      payee_id = payee;
      amount_cents = h.amount_cents;
      currency = h.currency;
    } in
    if names_hold o rid h then record v { hold = none; payment = some p } else v

-- The order is completed with its license.
unfoldable pub names_license : String → String → Option Grant → Bool
names_license o lid none = false
names_license o lid (some g) = str_eq g.order_id o && str_eq g.id lid

unfoldable pub set_status : String → OrderStatus → View → View
set_status o st v = if str_eq v.order_id o then record v { status = st } else v

-- What a successful activity does to it, given its answer. A command that names something else has
-- no effect here.
unfoldable pub effect : Command → String → View → View
unfolding without_hold without_license pay_hold names_license set_status
effect (reserve_funds o b p c) out v = record v {
  hold = some (record { id = out; order_id = o; account_id = b; amount_cents = p; currency = c });
}
effect (release_funds o rid) out v = record v { hold = without_hold o rid v.hold }
effect (grant_license o l b) out v = record v {
  license = some (record { id = out; order_id = o; listing_id = l; buyer_id = b });
}
effect (revoke_license o) out v = record v { license = without_license o v.license }
effect (commit_funds o rid payee) out v = pay_hold o rid payee v.hold v
effect (confirm_order x lid) out v =
    if names_license x.order_id lid v.license then set_status x.order_id completed v else v
effect (update_status o st) out v = set_status o st v
effect (fail_order o cause) out v = set_status o failed v

-- What an activity does to it; nothing, if it fails.
unfoldable pub after_activity : Command → Outcome → View → View
unfolding effect
after_activity c (done out) v = effect c out v
after_activity c (error e) v = v

unfoldable pub replay : View → Entries → View
unfolding after_activity
replay v [] = v
replay v ((c, out) ∷ h) = after_activity c out (replay v h)

-- The contract of the participants: an observation of their state that each activity changes by
-- its effect, and a failed one not at all.
pub record Participants {S : Type 0} (perform : Command → S → Outcome × S) : Type 0 where
  pub view : S → View
  pub law : (c : Command) (s : S) → view (perform c s).1 ≡ after_activity c (perform c s).0 (view s)

-- What the buyer pays, and the license for it.
abbrev pub price : PlaceOrderInput → Payment
price i = record {
  order_id = i.order_id;
  payer_id = i.buyer_id;
  payee_id = i.payee_account_id;
  amount_cents = i.price_cents;
  currency = i.currency;
}

unfoldable pub IsLicense : PlaceOrderInput → Option Grant → Type 0
IsLicense i none = ⊥
IsLicense i (some g) =
    (g.order_id ≡ i.order_id) × (g.listing_id ≡ i.listing_id) × (g.buyer_id ≡ i.buyer_id)

abbrev pub Paid : PlaceOrderInput → View → Type 0
Paid i v = (v.hold ≡ none) × (v.payment ≡ some (price i)) × IsLicense i v.license

abbrev pub Nothing : View → Type 0
Nothing v = (v.hold ≡ none) × (v.payment ≡ none) × (v.license ≡ none)

-- What each ending promises.
abbrev pub Promise : PlaceOrderInput → Ending → View → Type 0
Promise i paid_order v = Paid i v × (v.status ≡ completed)
Promise i (aborted _) v = Nothing v × (v.status ≡ failed)
Promise i (not_confirmed _) v = Paid i v × (v.status ≡ license_granted)
Promise i (not_marked_failed _) v = Nothing v
Promise i (compensation_failed _ _) v = v.payment ≡ none

-- The answer of an activity.
abbrev text : Outcome → String
text (done out) = out
text (error e) = e

module _ {S : Type 0} (perform : Command → S → Outcome × S) (i : PlaceOrderInput) (s : S) where
  -- The first activities, as the success path runs them.
  abbrev reserved : Outcome × S
  reserved = perform (reserve_funds i.order_id i.buyer_id i.price_cents i.currency) s

  abbrev marked : Outcome × S
  marked = perform (update_status i.order_id funds_reserved) reserved.1

  abbrev granted : Outcome × S
  granted = perform (grant_license i.order_id i.listing_id i.buyer_id) marked.1

-- A property of runs that every activity keeps holds at the end of the saga.
module _ {S : Type 0} (perform : Command → S → Outcome × S) (P : Run S → Type 0)
    (keeps : (c : Command) (r : Run S) → P r → P (execute perform c r).1) where
  on_outcome_keeps :
      (p : Outcome × Run S) (f g : String → Run S → Ending × Run S)
      → P p.1
      → ((e : String) (r : Run S) → P r → P (f e r).1)
      → ((out : String) (r : Run S) → P r → P (g out r).1)
      → P (on_outcome p f g).1
  unfolding on_outcome
  on_outcome_keeps (error e, r) f g h hf hg = hf e r h
  on_outcome_keeps (done out, r) f g h hf hg = hg out r h

  -- After an activity, both branches go on from a run with the property.
  step_keeps :
      (c : Command) (f g : String → Run S → Ending × Run S)
      → ((e : String) (r : Run S) → P r → P (f e r).1)
      → ((out : String) (r : Run S) → P r → P (g out r).1)
      → (r : Run S) → P r
      → P (on_outcome (execute perform c r) f g).1
  step_keeps c f g hf hg r h = on_outcome_keeps (execute perform c r) f g (keeps c r h) hf hg

  mark_failed_keeps : (o e : String) (r : Run S) → P r → P (mark_failed perform o e r).1
  unfolding mark_failed
  mark_failed_keeps o e =
      step_keeps (fail_order o e) (λ x r. (not_marked_failed x, r)) (λ x r. (aborted e, r))
        (λ x r h. h) (λ x r h. h)

  fail_saga_keeps :
      (i : PlaceOrderInput) (reservation_id e : String) (r : Run S)
      → P r
      → P (fail_saga perform i.order_id e (one_compensation perform i reservation_id) r).1
        × P (fail_saga perform i.order_id e (two_compensations perform i reservation_id) r).1
  unfolding fail_saga release_compensation revoke_compensation
  fail_saga_keeps i rid e r h =
      let r' = (execute perform (update_status i.order_id compensating) r).1 in
      let h' : P r' = keeps (update_status i.order_id compensating) r h in
      let release_then =
        step_keeps (release_funds i.order_id rid) (λ x r. (compensation_failed x e, r))
          (λ _ r. mark_failed perform i.order_id e r) (λ x r h. h)
          (λ x r h. mark_failed_keeps i.order_id e r h) in
      (
        release_then r' h',
        step_keeps (revoke_license i.order_id) (λ x r. (compensation_failed x e, r))
            (λ _ r.
              compensate perform (release_compensation perform i rid ∷ []) e
                (mark_failed perform i.order_id e) r)
            (λ x r h. h) (λ x r h. release_then r h) r' h',
      )

  -- The steps, last first.
  confirm_keeps :
      (i : PlaceOrderInput) (lid : String) (r : Run S) → P r → P (confirm_step perform i lid r).1
  unfolding confirm_step
  confirm_keeps i lid =
      step_keeps (confirm_order i lid) (λ e r. (not_confirmed e, r)) (λ _ r. (paid_order, r))
        (λ e r h. h) (λ e r h. h)

  commit_keeps :
      (i : PlaceOrderInput) (rid lid : String) (r : Run S)
      → P r
      → P (commit_step perform i rid lid r).1
  unfolding commit_step
  commit_keeps i rid lid =
      step_keeps (commit_funds i.order_id rid i.payee_account_id)
        (λ e r. fail_saga perform i.order_id e (two_compensations perform i rid) r)
        (λ _ r. confirm_step perform i lid r) (λ e r h. (fail_saga_keeps i rid e r h).1)
        (λ _ r h. confirm_keeps i lid r h)

  granted_keeps :
      (i : PlaceOrderInput) (rid lid : String) (r : Run S)
      → P r
      → P (granted_step perform i rid lid r).1
  unfolding granted_step
  granted_keeps i rid lid =
      step_keeps (update_status i.order_id license_granted)
        (λ e r. fail_saga perform i.order_id e (two_compensations perform i rid) r)
        (λ _ r. commit_step perform i rid lid r) (λ e r h. (fail_saga_keeps i rid e r h).1)
        (λ _ r h. commit_keeps i rid lid r h)

  grant_keeps :
      (i : PlaceOrderInput) (rid : String) (r : Run S) → P r → P (grant_step perform i rid r).1
  unfolding grant_step
  grant_keeps i rid =
      step_keeps (grant_license i.order_id i.listing_id i.buyer_id)
        (λ e r. fail_saga perform i.order_id e (two_compensations perform i rid) r)
        (λ lid r. granted_step perform i rid lid r) (λ e r h. (fail_saga_keeps i rid e r h).1)
        (λ lid r h. granted_keeps i rid lid r h)

  reserved_keeps :
      (i : PlaceOrderInput) (rid : String) (r : Run S) → P r → P (reserved_step perform i rid r).1
  unfolding reserved_step
  reserved_keeps i rid =
      step_keeps (update_status i.order_id funds_reserved)
        (λ e r. fail_saga perform i.order_id e (one_compensation perform i rid) r)
        (λ _ r. grant_step perform i rid r) (λ e r h. (fail_saga_keeps i rid e r h).0)
        (λ _ r h. grant_keeps i rid r h)

  pub saga_keeps :
      (i : PlaceOrderInput) (s : S)
      → P (record { world = s; history = [] })
      → P (place_order_workflow perform i s).1
  unfolding place_order_workflow fail_saga
  saga_keeps i s h =
      step_keeps (reserve_funds i.order_id i.buyer_id i.price_cents i.currency)
        (λ e r. fail_saga perform i.order_id e [] r) (λ rid r. reserved_step perform i rid r)
        (λ e r h₁. mark_failed_keeps i.order_id e r h₁) (λ rid r h₁. reserved_keeps i rid r h₁)
        (record { world = s; history = [] }) h
