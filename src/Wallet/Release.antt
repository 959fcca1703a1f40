-- ===== src/Wallet/Release.antt =====
-- app/service.go: `Release`, the compensation of `Reserve`. The reason is not stored, so it is no
-- argument here.
pub mod Effect
use gosplash.Prelude.{String, Bool, Option, none, some, str_eq, if◌then◌else◌}
use gosplash.Prelude.Int.{◌-ℤ◌, wrap64}
use gosplash.Wallet.Domain.{
  Money, ReservationStatus, active, committed, released, Reservation, empty_idempotency_key,
  bad_json, reservation_already_committed,
}
use gosplash.Wallet.Tx.{
  release, ReleaseResult, Env, Tx, pure, raise, or_raise, ◌>>=◌, ◌>>◌, within_tx,
}
use gosplash.Wallet.Store.{
  ledger_balance, active_reserved_sum, lock_reservation, set_reservation_status, find_operation,
  record_operation,
}

abbrev pub as_money : ReleaseResult → Money
as_money res = record { amount_cents = res.available_after_cents; currency = res.currency }

module _ (env : Env) where
  -- `currentAvailable`
  unfoldable pub current_available : Reservation → Tx ReleaseResult
  current_available r = do
    balance ← ledger_balance env r.account_id
    reserved ← active_reserved_sum env r.account_id
    pure (record { available_after_cents = wrap64 (balance -ℤ reserved); currency = r.currency })

  -- `recordJSON` of a release
  unfoldable pub record_release : String → String → ReleaseResult → Tx Bool
  record_release key reservation_id result = do
    payload ← or_raise (env.marshal_release result) bad_json
    record_operation env key release reservation_id payload

  -- What is available now is recorded and returned.
  unfoldable pub release_answer : String → Reservation → String → Tx Money
  unfolding current_available record_release
  release_answer reservation_id r key = do
    result ← current_available r
    record_release key reservation_id result
    pure (as_money result)

  -- The tests on the status
  unfoldable pub release_by_status : ReservationStatus → String → Reservation → String → Tx Money
  unfolding release_answer
  release_by_status committed reservation_id r key = raise reservation_already_committed
  release_by_status released reservation_id r key = release_answer reservation_id r key
  release_by_status active reservation_id r key = do
    set_reservation_status env reservation_id released
    release_answer reservation_id r key

  unfoldable pub release_or_replay : String → String → Option String → Tx Money
  unfolding release_by_status
  release_or_replay reservation_id key (some raw) = do
    result ← or_raise (env.unmarshal_release raw) bad_json
    pure (as_money result)
  release_or_replay reservation_id key none = do
    r ← lock_reservation env reservation_id
    release_by_status r.status reservation_id r key

  unfoldable pub release_tx : String → String → Tx Money
  unfolding release_or_replay
  release_tx reservation_id key = do
    stored ← find_operation env key release
    release_or_replay reservation_id key stored

  -- `Release`: the sum available after it.
  unfoldable pub release_funds : String → String → Tx Money
  unfolding release_tx
  release_funds reservation_id key =
      if str_eq key ""
      then raise empty_idempotency_key
      else within_tx env (release_tx reservation_id key)
