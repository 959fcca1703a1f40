-- ===== src/Wallet/Store/Specs.antt =====
-- What each statement of the store returns and leaves in the tables, if the server accepts it.
use gosplash.Wallet.Tx.Ensures.{Ensures}
use gosplash.Wallet.Domain.{AccountDebitedEvent, Reservation, LedgerEntry, ReservationStatus}
use gosplash.Prelude.Int.{ℤ, in_int64}
use gosplash.Wallet.Store.{
  lock_account, ledger_balance, active_reserved_sum, find_reservation_by_idempotency_key,
  lock_reservation, insert_ledger_entries, set_reservation_status, ledger_entry_ids_by_reference,
  find_operation, write_account_debited, insert_reservation, record_operation, find_by_key,
  find_account, balance_of, reserved_of, find_reservation, update_status, order_by_id,
  stored_result, find_operation_row, fresh_entries, entry_ids_of,
}
use gosplash.Prelude.{◌≡◌, String, List, arith, ◌++◌, ◌∷◌, none, some, true}
use gosplash.Wallet.Tx.{Env, Db, World, OperationKind}

module _ (env : Env) {d : Db} (w : World) (here : w.db ≡ d) where
  pub Ensures-lock_account :
      (a : ℤ)
      → Ensures (λ x v. (v.db ≡ d) × (find_account a d.accounts ≡ some x)) (lock_account env a w)
  unfolding lock_account
  Ensures-lock_account a = record { at = λ x v e. ground arith }

  pub Ensures-ledger_balance :
      (a : ℤ)
      → Ensures
          (λ n v. (v.db ≡ d) × (n ≡ balance_of a d.ledger_entries) × (in_int64 n ≡ true))
          (ledger_balance env a w)
  unfolding ledger_balance
  Ensures-ledger_balance a = record { at = λ x v e. ground arith }

  pub Ensures-active_reserved_sum :
      (a : ℤ)
      → Ensures
          (λ n v. (v.db ≡ d) × (n ≡ reserved_of a d.reservations) × (in_int64 n ≡ true))
          (active_reserved_sum env a w)
  unfolding active_reserved_sum
  Ensures-active_reserved_sum a = record { at = λ x v e. ground arith }

  pub Ensures-find_by_key :
      (k : String)
      → Ensures
          (λ o v. (v.db ≡ d) × (o ≡ find_by_key k d.reservations))
          (find_reservation_by_idempotency_key env k w)
  unfolding find_reservation_by_idempotency_key
  Ensures-find_by_key k = record { at = λ x v e. ground arith }

  pub Ensures-lock_reservation :
      (i : String)
      → Ensures
          (λ r v. (v.db ≡ d) × (find_reservation i d.reservations ≡ some r))
          (lock_reservation env i w)
  unfolding lock_reservation
  Ensures-lock_reservation i = record { at = λ x v e. ground arith }

  pub Ensures-insert_ledger_entries :
      (es : List LedgerEntry)
      → Ensures
          (λ _ v.
            (v.db ≡ record d { ledger_entries = es ++ d.ledger_entries })
            × (fresh_entries es d.ledger_entries ≡ true))
          (insert_ledger_entries env es w)
  unfolding insert_ledger_entries
  Ensures-insert_ledger_entries es = record { at = λ x v e. ground arith }

  pub Ensures-set_reservation_status :
      (i : String) (s : ReservationStatus)
      → Ensures
          (λ _ v. v.db ≡ record d { reservations = update_status i s d.reservations })
          (set_reservation_status env i s w)
  unfolding set_reservation_status
  Ensures-set_reservation_status i s = record { at = λ x v e. ground arith }

  pub Ensures-entry_ids :
      (ref : String)
      → Ensures
          (λ is v. (v.db ≡ d) × (is ≡ order_by_id env (entry_ids_of ref d.ledger_entries)))
          (ledger_entry_ids_by_reference env ref w)
  unfolding ledger_entry_ids_by_reference
  Ensures-entry_ids ref = record { at = λ x v e. ground arith }

  pub Ensures-find_operation :
      (k : String) (kind : OperationKind)
      → Ensures
          (λ o v. (v.db ≡ d) × (o ≡ stored_result k kind d.operations))
          (find_operation env k kind w)
  unfolding find_operation
  Ensures-find_operation k kind = record { at = λ x v e. ground arith }

  pub Ensures-write_account_debited :
      (e : AccountDebitedEvent)
      → Ensures
          (λ _ v. v.db ≡ record d { outbox_wallet = e ∷ d.outbox_wallet })
          (write_account_debited env e w)
  unfolding write_account_debited
  Ensures-write_account_debited x = record { at = λ y v e. ground arith }

  pub Ensures-insert_reservation :
      (r : Reservation)
      → find_by_key r.idempotency_key d.reservations ≡ none
      → Ensures
          (λ created v.
            (created ≡ true)
            × (find_reservation r.id d.reservations ≡ none)
            × (v.db ≡ record d { reservations = r ∷ d.reservations }))
          (insert_reservation env r w)
  unfolding insert_reservation
  Ensures-insert_reservation r new = record { at = λ y v e. ground arith }

  pub Ensures-record_operation :
      (k : String) (kind : OperationKind) (i json : String)
      → find_operation_row k kind d.operations ≡ none
      → Ensures
          (λ _ v. v.db ≡ record d {
            operations =
                record { idempotency_key = k; kind = kind; reservation_id = i; result_json = json }
                ∷ d.operations;
          })
          (record_operation env k kind i json w)
  unfolding record_operation
  Ensures-record_operation k kind i json new = record { at = λ y v e. ground arith }
