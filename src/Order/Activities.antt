-- ===== src/Order/Activities.antt =====
-- adapters/temporal/activities.go: one attempt at each activity of the saga, over the ports of
-- internal/ports, and `classifyGRPCError`, which tells Temporal whether to try again.
use gosplash.Prelude.{String, Option, none, some, Bool, true, false, List, ◌≡◌, ◌≢◌}
use gosplash.Prelude.Int.{ℤ}
use gosplash.Rpc.Status.{
  invalid_argument, failed_precondition, not_found, permission_denied, already_exists,
  unauthenticated, Failure, status_code,
}
use gosplash.Order.Domain.{
  OrderStatus, PlaceOrderInput, Command, reserve_funds, release_funds, grant_license,
  revoke_license, commit_funds, confirm_order, update_status, fail_order,
}

-- The error of an activity: `NewNonRetryableApplicationError` around it, or as it is.
pub data ActivityError : Type 0 where
  permanent : Failure → ActivityError
  transient : Failure → ActivityError

-- The `switch` on the code
unfoldable pub classify : Failure → ActivityError
classify e = elim (status_code (some e)) [
  | invalid_argument ↦ permanent e
  | failed_precondition ↦ permanent e
  | not_found ↦ permanent e
  | permission_denied ↦ permanent e
  | already_exists ↦ permanent e
  | unauthenticated ↦ permanent e
  | _ ↦ transient e
]

unfoldable pub classify_grpc_error : Option Failure → Option ActivityError
unfolding classify
classify_grpc_error none = none
classify_grpc_error (some e) = some (classify e)

-- What a port returns, and how one attempt ends, with the text that the workflow keeps.
pub data Called (A : Type 0) : Type 0 where
  returned : A → Called A
  raised : Failure → Called A

pub data Attempt : Type 0 where
  completed : String → Attempt
  failed : ActivityError → Attempt

-- The payload of `order.order.paid`.
pub record OrderPaid : Type 0 where
  pub order_id : String
  pub buyer_id : ℤ
  pub author_id : ℤ
  pub listing_id : String
  pub license_id : String
  pub price_cents : ℤ
  pub currency : String

abbrev pub order_paid : PlaceOrderInput → String → OrderPaid
order_paid i license_id = record {
  order_id = i.order_id;
  buyer_id = i.buyer_id;
  author_id = i.payee_account_id;
  listing_id = i.listing_id;
  license_id = license_id;
  price_cents = i.price_cents;
  currency = i.currency;
}

-- `WalletSaga`, `CatalogSaga` and `SagaOrderRepository`, with `NewEnvelope` on the paid event.
pub record SagaPorts (S : Type 0) : Type 0 where
  pub wallet_reserve : String → ℤ → ℤ → String → S → Called String × S
  pub wallet_commit : String → String → ℤ → S → Called (List String) × S
  pub wallet_release : String → String → S → Called (Unit {0}) × S
  pub catalog_grant : String → String → ℤ → S → Called String × S
  pub catalog_revoke : String → S → Called Bool × S
  pub orders_update_status : String → OrderStatus → S → Called (Unit {0}) × S
  pub orders_complete : String → String → OrderPaid → S → Called (Unit {0}) × S
  pub orders_fail : String → String → S → Called (Unit {0}) × S
  pub new_envelope : OrderPaid → Option Failure

module _ {S : Type 0} where
  -- The calls of other services classify their error.
  unfoldable pub remote : {A : Type 0} → (A → String) → Called A × S → Attempt × S
  remote keep (returned a, s) = (completed (keep a), s)
  remote keep (raised e, s) = (failed (classify e), s)

  -- The bookkeeping of the order only wraps it.
  unfoldable pub local : Called (Unit {0}) × S → Attempt × S
  local (returned a, s) = (completed "", s)
  local (raised e, s) = (failed (transient e), s)

  module _ (p : SagaPorts S) where
    -- `ConfirmOrder`
    unfoldable pub confirm_order_activity : PlaceOrderInput → String → S → Attempt × S
    unfolding local
    confirm_order_activity i license_id s = elim (p.new_envelope (order_paid i license_id)) [
      | some e ↦ (failed (transient e), s)
      | none ↦ local (p.orders_complete i.order_id license_id (order_paid i license_id) s)
    ]

    -- One attempt at the activity that a command names: `ReserveFunds`, `ReleaseFunds`,
    -- `GrantLicense`, `RevokeLicense`, `CommitFunds`, `ConfirmOrder`, `UpdateStatus`, `FailOrder`.
    unfoldable pub activity : Command → S → Attempt × S
    unfolding remote local confirm_order_activity
    activity (reserve_funds o buyer price currency) s =
        remote (λ i. i) (p.wallet_reserve o buyer price currency s)
    activity (release_funds o reservation_id) s =
        remote (λ _. "") (p.wallet_release o reservation_id s)
    activity (grant_license o listing_id buyer) s =
        remote (λ i. i) (p.catalog_grant o listing_id buyer s)
    activity (revoke_license o) s = remote (λ _. "") (p.catalog_revoke o s)
    activity (commit_funds o reservation_id payee) s =
        remote (λ _. "") (p.wallet_commit o reservation_id payee s)
    activity (confirm_order i license_id) s = confirm_order_activity i license_id s
    activity (update_status o status) s = local (p.orders_update_status o status s)
    activity (fail_order o reason) s = local (p.orders_fail o reason s)

-- The commands that only touch the service's own database.
abbrev pub is_local : Command → Bool
is_local (confirm_order _ _) = true
is_local (update_status _ _) = true
is_local (fail_order _ _) = true
is_local _ = false

local_transient :
    {S : Type 0} (q : Called (Unit {0}) × S) (e : Failure) → (local q).0 ≢ failed (permanent e)
unfolding local
local_transient (returned a, s) e = λ h. cc h
local_transient (raised f, s) e = λ h. cc h

confirm_transient :
    {S : Type 0} (p : SagaPorts S) (i : PlaceOrderInput) (license_id : String) (s : S) (e : Failure)
    → (confirm_order_activity p i license_id s).0 ≢ failed (permanent e)
unfolding confirm_order_activity
confirm_transient {S} p i license_id s e =
    elim (p.new_envelope (order_paid i license_id))
      as (λ b.
        (elim b as (λ _. Attempt × S) [
          | some f ↦ (failed (transient f), s)
          | none ↦ local (p.orders_complete i.order_id license_id (order_paid i license_id) s)
        ]).0
        ≢ failed (permanent e)) [
          | some f ↦ λ h. cc h
          | none ↦
              local_transient (p.orders_complete i.order_id license_id (order_paid i license_id) s)
                e
        ]

-- No attempt at the bookkeeping of the order (the confirmation, a status, the mark of a failed
-- order) ends with an error that stops Temporal from trying again.
pub local_keeps_trying :
    {S : Type 0} (p : SagaPorts S) (c : Command) (s : S) (e : Failure)
    → is_local c ≡ true
    → (activity p c s).0 ≢ failed (permanent e)
unfolding activity
local_keeps_trying p (confirm_order i license_id) s e h = confirm_transient p i license_id s e
local_keeps_trying p (update_status o status) s e h =
    local_transient (p.orders_update_status o status s) e
local_keeps_trying p (fail_order o reason) s e h = local_transient (p.orders_fail o reason s) e
local_keeps_trying p (reserve_funds o buyer price currency) s e h = cc h
local_keeps_trying p (release_funds o reservation_id) s e h = cc h
local_keeps_trying p (grant_license o listing_id buyer) s e h = cc h
local_keeps_trying p (revoke_license o) s e h = cc h
local_keeps_trying p (commit_funds o reservation_id payee) s e h = cc h
