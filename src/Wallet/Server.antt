-- ===== src/Wallet/Server.antt =====
-- adapters/grpc/server.go and errors.go: the handlers of the gRPC service, and the status of each
-- error. The text of an error is a parameter, as is whether details fit into a status.
pub mod Refusals
use gosplash.Prelude.{String, Bool, List, Option, none, some}
use gosplash.Prelude.Int.{ℤ}
use gosplash.Rpc.Status.{
  Code, not_found, failed_precondition, invalid_argument, Status, Failure, to_status,
}
use gosplash.Wallet.Domain.{
  Money, Balance, Reservation, Error, account_not_found, insufficient_funds, currency_mismatch,
  invalid_amount, empty_idempotency_key, reservation_not_found, reservation_already_committed,
  reservation_already_released, storage, insert_conflict, bad_json,
}
use gosplash.Wallet.Tx.{Env, World, Result, ok, err}
use gosplash.Wallet.Reserve.{get_balance, reserve}
use gosplash.Wallet.Commit.{commit_funds}
use gosplash.Wallet.Release.{release_funds}

pub record GetBalanceResponse : Type 0 where
  pub account_id : ℤ
  pub available : Money
  pub reserved : Money

pub record ReserveFundsResponse : Type 0 where
  pub reservation_id : String
  pub available_after : Money

pub record CommitFundsResponse : Type 0 where
  pub ledger_entry_ids : List String

pub record ReleaseFundsResponse : Type 0 where
  pub available_after : Money

-- A handler's two results: a response, or none with the error that takes its place.
pub data Reply (A : Type 0) : Type 0 where
  replied : A → Reply A
  refused : Option Failure → Reply A

-- The code that `toDomainStatus` puts on an error with a `codedErr`, if it does.
unfoldable pub domain_code : Error → Option Code
domain_code account_not_found = some not_found
domain_code reservation_not_found = some not_found
domain_code insufficient_funds = some failed_precondition
domain_code reservation_already_committed = some failed_precondition
domain_code reservation_already_released = some failed_precondition
domain_code currency_mismatch = some invalid_argument
domain_code invalid_amount = some invalid_argument
domain_code empty_idempotency_key = some invalid_argument
domain_code storage = none
domain_code insert_conflict = none
domain_code bad_json = none

module _ (details_fit : Status → Bool) (error_text : Error → String) where
  -- `toDomainStatus`; no error of the service carries a gRPC status.
  unfoldable pub to_domain_status : Error → String → Option Failure
  unfolding domain_code
  to_domain_status e reason =
      let failure : Failure = record {
        message = error_text e;
        grpc_status = none;
        grpc_code = domain_code e;
      } in
      to_status details_fit (some failure) reason

  -- The branch on `err != nil` of a handler.
  unfoldable pub reply_of : {A B : Type 0} → String → (A → B) → Result A × World → Reply B × World
  unfolding to_domain_status
  reply_of reason response (ok a, w) = (replied (response a), w)
  reply_of reason response (err e, w) = (refused (to_domain_status e reason), w)

  module _ (env : Env) where
    -- `Server.GetBalance`
    unfoldable pub get_balance_handler : ℤ → World → Reply GetBalanceResponse × World
    unfolding reply_of
    get_balance_handler account_id w =
        reply_of "WALLET_GET_BALANCE_FAILED"
          (λ balance. record {
            account_id = balance.account_id;
            available = record { amount_cents = balance.available; currency = balance.currency };
            reserved = record { amount_cents = balance.reserved; currency = balance.currency };
          })
          (get_balance env account_id w)

    -- `Server.ReserveFunds`
    unfoldable pub reserve_funds_handler :
        ℤ → Money → String → World → Reply ReserveFundsResponse × World
    unfolding reply_of
    reserve_funds_handler account_id amount key w =
        reply_of "WALLET_RESERVE_FAILED"
          (λ answer. record {
            reservation_id = answer.0.id;
            available_after = record { amount_cents = answer.1; currency = answer.0.currency };
          })
          (reserve env account_id amount key w)

    -- `Server.CommitFunds`
    unfoldable pub commit_funds_handler :
        String → ℤ → String → World → Reply CommitFundsResponse × World
    unfolding reply_of
    commit_funds_handler reservation_id payee_account_id key w =
        reply_of "WALLET_COMMIT_FAILED" (λ ids. record { ledger_entry_ids = ids })
          (commit_funds env reservation_id payee_account_id key w)

    -- `Server.ReleaseFunds`
    unfoldable pub release_funds_handler :
        String → String → World → Reply ReleaseFundsResponse × World
    unfolding reply_of
    release_funds_handler reservation_id key w =
        reply_of "WALLET_RELEASE_FAILED" (λ m. record { available_after = m })
          (release_funds env reservation_id key w)
