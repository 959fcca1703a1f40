-- ===== src/Wallet/Reserve.antt =====
-- app/service.go: `GetBalance` and `Reserve`.
pub mod Effect
use gosplash.Prelude.{String, Option, none, some, str_eq, not, if◌then◌else◌}
use gosplash.Prelude.Int.{ℤ, pos, ◌-ℤ◌, ltb_ℤ, leb_ℤ, wrap64}
use gosplash.Wallet.Domain.{
  Money, active, Reservation, Balance, empty_idempotency_key, invalid_amount, currency_mismatch,
  insufficient_funds, insert_conflict,
}
use gosplash.Wallet.Tx.{Env, Tx, pure, raise, ◌>>=◌, ◌>>◌, raise_if, new_id, within_tx}
use gosplash.Wallet.Store.{
  lock_account, ledger_balance, active_reserved_sum, find_reservation_by_idempotency_key,
  insert_reservation, store_get_balance,
}

-- The reservation that `Reserve` builds.
abbrev pub new_reservation : String → ℤ → Money → String → ℤ → Reservation
new_reservation i account_id amount key available = record {
  id = i;
  account_id = account_id;
  amount_cents = amount.amount_cents;
  currency = amount.currency;
  status = active;
  idempotency_key = key;
  available_after_cents = wrap64 (available -ℤ amount.amount_cents);
}

module _ (env : Env) where
  unfoldable pub get_balance : ℤ → Tx Balance
  get_balance account_id = store_get_balance env account_id

  -- The branch of `Reserve` after a lost race for the key.
  unfoldable pub reserve_winner : Option Reservation → Tx (Reservation × ℤ)
  reserve_winner none = raise insert_conflict
  reserve_winner (some r) = pure (r, r.available_after_cents)

  unfoldable pub reserve_new : ℤ → Money → String → Tx (Reservation × ℤ)
  unfolding reserve_winner
  reserve_new account_id amount key = do
    account ← lock_account env account_id
    raise_if (not (str_eq account.currency amount.currency)) currency_mismatch
    balance ← ledger_balance env account_id
    reserved ← active_reserved_sum env account_id
    let available = wrap64 (balance -ℤ reserved)
    raise_if (ltb_ℤ available amount.amount_cents) insufficient_funds
    i ← new_id env
    let row = new_reservation i account_id amount key available
    created ← insert_reservation env row
    if created
        then pure (row, row.available_after_cents)
        else do winner ← find_reservation_by_idempotency_key env key; reserve_winner winner

  unfoldable pub reserve_or_replay : ℤ → Money → String → Option Reservation → Tx (Reservation × ℤ)
  reserve_or_replay account_id amount key (some r) = pure (r, r.available_after_cents)
  reserve_or_replay account_id amount key none = reserve_new account_id amount key

  unfoldable pub reserve_tx : ℤ → Money → String → Tx (Reservation × ℤ)
  unfolding reserve_or_replay
  reserve_tx account_id amount key = do
    existing ← find_reservation_by_idempotency_key env key
    reserve_or_replay account_id amount key existing

  -- `Reserve`: the reservation and the available sum after it.
  unfoldable pub reserve : ℤ → Money → String → Tx (Reservation × ℤ)
  unfolding reserve_tx
  reserve account_id amount key =
      if str_eq key ""
      then raise empty_idempotency_key
      else if leb_ℤ amount.amount_cents (pos 0)
      then raise invalid_amount
      else within_tx env (reserve_tx account_id amount key)
