-- ===== src/Wallet/Commit.antt =====
-- app/service.go: `Commit`, which moves the reserved sum to the author by a pair of entries.
pub mod Effect
use gosplash.Prelude.{
  String, Bool, Option, none, some, List, [], ◌∷◌, str_eq, ◌||◌, not, if◌then◌else◌,
}
use gosplash.Prelude.Int.{ℤ}
use gosplash.Wallet.Domain.{
  Account, debit, credit, LedgerEntry, ReservationStatus, active, committed, released, Reservation,
  AccountDebitedEvent, empty_idempotency_key, currency_mismatch, bad_json,
  reservation_already_released,
}
use gosplash.Wallet.Tx.{
  commit, Env, Tx, pure, raise, or_raise, ◌>>=◌, ◌>>◌, raise_if, new_id, within_tx,
}
use gosplash.Wallet.Store.{
  lock_reservation, set_reservation_status, insert_ledger_entries, ledger_entry_ids_by_reference,
  find_operation, record_operation, write_account_debited,
}
use gosplash.Wallet.Locks.{lock_accounts_sorted}

-- The ledger entries of `Commit`, and its event.
abbrev pub debit_entry : String → String → String → Account → Reservation → LedgerEntry
debit_entry reservation_id i operation_id buyer r = record {
  id = i;
  account_id = buyer.id;
  amount_cents = r.amount_cents;
  direction = debit;
  operation_id = operation_id;
  reason = "order_payment";
  reference_id = reservation_id;
}

abbrev pub credit_entry : String → String → String → Account → Reservation → LedgerEntry
credit_entry reservation_id i operation_id payee r = record {
  id = i;
  account_id = payee.id;
  amount_cents = r.amount_cents;
  direction = credit;
  operation_id = operation_id;
  reason = "order_payment";
  reference_id = reservation_id;
}

abbrev pub debited_event : String → Account → Reservation → AccountDebitedEvent
debited_event reservation_id buyer r = record {
  account_id = buyer.id;
  amount_cents = r.amount_cents;
  currency = r.currency;
  reason = "order_payment";
  reference_id = reservation_id;
}

module _ (env : Env) where
  -- `recordJSON` of a list of entry ids
  unfoldable pub record_ids : String → String → List String → Tx Bool
  record_ids key reservation_id ids = do
    payload ← or_raise (env.marshal_ids ids) bad_json
    record_operation env key commit reservation_id payload

  -- `Commit` of an active reservation
  unfoldable pub commit_active : String → Reservation → ℤ → String → Tx (List String)
  unfolding record_ids
  commit_active reservation_id r payee_account_id key = do
    (buyer, payee) ← lock_accounts_sorted env r.account_id payee_account_id
    raise_if (not (str_eq buyer.currency r.currency) || not (str_eq payee.currency r.currency))
        currency_mismatch
    operation_id ← new_id env
    debit_id ← new_id env
    credit_id ← new_id env
    let debit = debit_entry reservation_id debit_id operation_id buyer r
    let credit = credit_entry reservation_id credit_id operation_id payee r
    insert_ledger_entries env (debit ∷ credit ∷ [])
    set_reservation_status env reservation_id committed
    write_account_debited env (debited_event reservation_id buyer r)
    record_ids key reservation_id (debit_id ∷ credit_id ∷ [])
    pure (debit_id ∷ credit_id ∷ [])

  -- A reservation that was committed under another key: its entries are returned again.
  unfoldable pub commit_again : String → String → Tx (List String)
  unfolding record_ids
  commit_again reservation_id key = do
    ids ← ledger_entry_ids_by_reference env reservation_id
    record_ids key reservation_id ids
    pure ids

  -- The `switch` on the status
  unfoldable pub commit_by_status :
      ReservationStatus → String → Reservation → ℤ → String → Tx (List String)
  unfolding commit_again commit_active
  commit_by_status committed reservation_id r payee_account_id key = commit_again reservation_id key
  commit_by_status released reservation_id r payee_account_id key =
      raise reservation_already_released
  commit_by_status active reservation_id r payee_account_id key =
      commit_active reservation_id r payee_account_id key

  unfoldable pub commit_or_replay : String → ℤ → String → Option String → Tx (List String)
  unfolding commit_by_status
  commit_or_replay reservation_id payee_account_id key (some raw) =
      or_raise (env.unmarshal_ids raw) bad_json
  commit_or_replay reservation_id payee_account_id key none = do
    r ← lock_reservation env reservation_id
    commit_by_status r.status reservation_id r payee_account_id key

  unfoldable pub commit_tx : String → ℤ → String → Tx (List String)
  unfolding commit_or_replay
  commit_tx reservation_id payee_account_id key = do
    stored ← find_operation env key commit
    commit_or_replay reservation_id payee_account_id key stored

  -- `Commit`: the ids of the two ledger entries.
  unfoldable pub commit_funds : String → ℤ → String → Tx (List String)
  unfolding commit_tx
  commit_funds reservation_id payee_account_id key =
      if str_eq key ""
      then raise empty_idempotency_key
      else within_tx env (commit_tx reservation_id payee_account_id key)
