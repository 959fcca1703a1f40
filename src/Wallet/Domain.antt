-- ===== src/Wallet/Domain.antt =====
-- services/wallet/internal/domain: money, accounts, ledger entries, reservations and the errors.
-- `CreatedAt` fields are left out: the database sets them and no code of the service reads them.
use gosplash.Prelude.{String}
use gosplash.Prelude.Int.{ℤ}

pub record Money : Type 0 where
  pub amount_cents : ℤ
  pub currency : String

-- `DirectionDebit` and `DirectionCredit`
pub data Direction : Type 0 where
  debit credit : Direction

-- `ReservationActive`, `ReservationCommitted`, `ReservationReleased`
pub data ReservationStatus : Type 0 where
  active committed released : ReservationStatus

pub record Account : Type 0 where
  pub id : ℤ
  pub owner_id : ℤ
  pub currency : String

pub record LedgerEntry : Type 0 where
  pub id : String
  pub account_id : ℤ
  pub amount_cents : ℤ
  pub direction : Direction
  pub operation_id : String
  pub reason : String
  pub reference_id : String

pub record Reservation : Type 0 where
  pub id : String
  pub account_id : ℤ
  pub amount_cents : ℤ
  pub currency : String
  pub status : ReservationStatus
  pub idempotency_key : String
  pub available_after_cents : ℤ

pub record Balance : Type 0 where
  pub account_id : ℤ
  pub currency : String
  pub available : ℤ
  pub reserved : ℤ

pub record AccountDebitedEvent : Type 0 where
  pub account_id : ℤ
  pub amount_cents : ℤ
  pub currency : String
  pub reason : String
  pub reference_id : String

-- The domain's errors, then what the service wraps with `fmt.Errorf`: a failed statement, an
-- insert that reports a conflict that cannot be read back, and JSON that cannot be handled.
pub data Error : Type 0 where
  account_not_found insufficient_funds currency_mismatch invalid_amount : Error
  empty_idempotency_key reservation_not_found : Error
  reservation_already_committed reservation_already_released : Error
  storage insert_conflict bad_json : Error
