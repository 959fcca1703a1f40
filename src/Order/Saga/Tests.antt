-- ===== src/Order/Saga/Tests.antt =====
-- A wallet, a catalog and an order table that check the ids they are asked for, and the saga on them.
use gosplash.Prelude.{
  String, Option, none, some, Bool, true, false, ◌≡◌, refl, str_eq, if◌then◌else◌, Bool-cases, inl,
  inr, arith,
}
use gosplash.Prelude.Int.{ℤ, pos}
use gosplash.Order.Domain.{
  Command, reserve_funds, release_funds, grant_license, revoke_license, commit_funds, confirm_order,
  update_status, fail_order, Outcome, done, error, PlaceOrderInput, OrderStatus, completed, failed,
}
use gosplash.Order.Saga.Atomic.{
  Hold, Payment, View, names_hold, without_hold, without_license, pay_hold, names_license,
  set_status, effect, after_activity, Participants,
}

-- ReleaseFunds, CommitFunds, an update of the order and ConfirmOrder, each of which fails on an id that
-- it does not know.
abbrev serve_release : String → String → Option Hold → View → Outcome × View
serve_release o rid none v = (error "no reservation", v)
serve_release o rid (some h) v =
    if names_hold o rid h
    then (done "released", record v { hold = none })
    else (error "no such reservation", v)

abbrev serve_commit : String → String → ℤ → Option Hold → View → Outcome × View
serve_commit o rid payee none v = (error "no reservation", v)
serve_commit o rid payee (some h) v =
    let p : Payment = record {
      order_id = h.order_id;
      payer_id = h.account_id;
      payee_id = payee;
      amount_cents = h.amount_cents;
      currency = h.currency;
    } in
    if names_hold o rid h
    then (done "committed", record v { hold = none; payment = some p })
    else (error "no such reservation", v)

abbrev serve_status : String → OrderStatus → View → Outcome × View
serve_status o st v =
    if str_eq v.order_id o
    then (done "updated", record v { status = st })
    else (error "no such order", v)

abbrev serve_confirm : PlaceOrderInput → String → View → Outcome × View
serve_confirm x lid v =
    if names_license x.order_id lid v.license
    then serve_status x.order_id completed v
    else (error "no such license", v)

abbrev serve : Command → View → Outcome × View
serve (reserve_funds o b p c) v = (
  done "reservation",
  record v {
    hold = some (record {
      id = "reservation";
      order_id = o;
      account_id = b;
      amount_cents = p;
      currency = c;
    });
  },
)
serve (release_funds o rid) v = serve_release o rid v.hold v
serve (grant_license o l b) v = (
  done "license",
  record v {
    license = some (record { id = "license"; order_id = o; listing_id = l; buyer_id = b });
  },
)
serve (revoke_license o) v = (done "revoked", record v { license = without_license o v.license })
serve (commit_funds o rid payee) v = serve_commit o rid payee v.hold v
serve (confirm_order x lid) v = serve_confirm x lid v
serve (update_status o st) v = serve_status o st v
serve (fail_order o cause) v = serve_status o failed v

release-law :
    (o rid : String) (h : Option Hold) (v : View)
    → v.hold ≡ h
    → (serve_release o rid h v).1
      ≡ after_activity (release_funds o rid) (serve_release o rid h v).0 v
unfolding after_activity effect without_hold
release-law o rid none v e = refl
release-law o rid (some h) v e = elim (Bool-cases (names_hold o rid h)) [
  | inl mine ↦ rw mine (rw e (rw mine refl))
  | inr other ↦ rw other refl
]

commit-law :
    (o rid : String) (payee : ℤ) (h : Option Hold) (v : View)
    → v.hold ≡ h
    → (serve_commit o rid payee h v).1
      ≡ after_activity (commit_funds o rid payee) (serve_commit o rid payee h v).0 v
unfolding after_activity effect pay_hold
commit-law o rid payee none v e = refl
commit-law o rid payee (some h) v e = elim (Bool-cases (names_hold o rid h)) [
  | inl mine ↦ rw mine (rw e (rw mine refl))
  | inr other ↦ rw other refl
]

serve-law : (c : Command) (v : View) → (serve c v).1 ≡ after_activity c (serve c v).0 v
unfolding after_activity effect set_status
serve-law (reserve_funds o b p c) v = refl
serve-law (release_funds o rid) v = release-law o rid v.hold v refl
serve-law (grant_license o l b) v = refl
serve-law (revoke_license o) v = refl
serve-law (commit_funds o rid payee) v = commit-law o rid payee v.hold v refl
serve-law (confirm_order x lid) v = ground arith
serve-law (update_status o st) v = ground arith
serve-law (fail_order o cause) v = ground arith

-- The participants, of which some activities do not reach any.
abbrev perform : (Command → Bool) → Command → View → Outcome × View
perform refuses c v = if refuses c then (error "refused", v) else serve c v

perform-law :
    (refuses : Command → Bool) (c : Command) (v : View)
    → (perform refuses c v).1 ≡ after_activity c (perform refuses c v).0 v
unfolding after_activity
perform-law refuses c v = elim (Bool-cases (refuses c)) [
  | inl down ↦ rw down refl
  | inr up ↦ rw up (serve-law c v)
]

abbrev participants : (refuses : Command → Bool) → Participants (perform refuses)
participants refuses = record { view = λ v. v; law = perform-law refuses }

abbrev order : PlaceOrderInput
order = record {
  order_id = "order";
  buyer_id = pos 1;
  listing_id = "listing";
  price_cents = pos 60;
  currency = "USD";
  payee_account_id = pos 2;
}

abbrev payments : Command → Bool
payments (commit_funds _ _ _) = true
payments _ = false
