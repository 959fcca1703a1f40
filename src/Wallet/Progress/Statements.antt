-- ===== src/Wallet/Progress/Statements.antt =====
-- What the statements of `Reserve` and `Commit` answer when the database accepts them.
use gosplash.Wallet.Commit.Effect.{operation_row}
use gosplash.Wallet.Locks.{lock_accounts_sorted, lock_pair}
use gosplash.Prelude.{
  String, ℕ, some, none, true, false, ◌≡◌, ◌+◌, ◌∷◌, List, ◌++◌, Bool-cases, inl, inr, refl,
}
use gosplash.Prelude.Int.{ℤ, in_int64, ◌==ℤ◌, ltb_ℤ, ==ℤ_iff}
use gosplash.Wallet.Domain.{
  Account, Reservation, ReservationStatus, AccountDebitedEvent, LedgerEntry,
}
use gosplash.Wallet.Tx.{
  Env, World, ok, statement, and_then, account_row, OperationKind, reservation_row,
}
use gosplash.Wallet.Store.{
  find_account, find_by_key, find_reservation, balance_of, reserved_of, lock_account,
  ledger_balance, active_reserved_sum, insert_reservation, find_reservation_by_idempotency_key,
  find_operation, lock_reservation, set_reservation_status, insert_ledger_entries,
  write_account_debited, record_operation, stored_result, update_status, find_operation_row,
  fresh_entries,
}

-- Every statement is accepted.
abbrev pub Up : Env → Type 0
Up env = (n : ℕ) → env.fails n ≡ false

abbrev pub sent : World → World
sent w = record w { calls = w.calls + 1 }

module _ (env : Env) (up : Up env) (w : World) where
  pub statement_up : statement env w ≡ (ok tt, sent w)
  unfolding statement
  statement_up = rw (up w.calls)

  pub lock_account_up :
      (a : ℤ) (account : Account)
      → find_account a w.db.accounts ≡ some account
      → lock_account env a w ≡ (ok account, record (sent w) { locks = account_row a ∷ w.locks })
  unfolding lock_account and_then
  lock_account_up a account h = rw (statement_up, h)

  pub ledger_balance_up :
      (a : ℤ)
      → in_int64 (balance_of a w.db.ledger_entries) ≡ true
      → ledger_balance env a w ≡ (ok (balance_of a w.db.ledger_entries), sent w)
  unfolding ledger_balance and_then
  ledger_balance_up a h = rw (statement_up, h)

  pub active_reserved_sum_up :
      (a : ℤ)
      → in_int64 (reserved_of a w.db.reservations) ≡ true
      → active_reserved_sum env a w ≡ (ok (reserved_of a w.db.reservations), sent w)
  unfolding active_reserved_sum and_then
  active_reserved_sum_up a h = rw (statement_up, h)

  pub find_reservation_by_idempotency_key_up :
      (key : String)
      → find_reservation_by_idempotency_key env key w
        ≡ (ok (find_by_key key w.db.reservations), sent w)
  unfolding find_reservation_by_idempotency_key and_then
  find_reservation_by_idempotency_key_up key = rw statement_up

  pub insert_reservation_up :
      (r : Reservation)
      → find_by_key r.idempotency_key w.db.reservations ≡ none
      → find_reservation r.id w.db.reservations ≡ none
      → insert_reservation env r w
        ≡ (ok true, record (sent w) { db = record w.db { reservations = r ∷ w.db.reservations } })
  unfolding insert_reservation and_then
  insert_reservation_up r h k = rw (statement_up, h, k)

  pub find_operation_up :
      (key : String) (kind : OperationKind)
      → find_operation env key kind w ≡ (ok (stored_result key kind w.db.operations), sent w)
  unfolding find_operation and_then
  find_operation_up key kind = rw statement_up

  pub lock_reservation_up :
      (i : String) (r : Reservation)
      → find_reservation i w.db.reservations ≡ some r
      → lock_reservation env i w ≡ (ok r, record (sent w) { locks = reservation_row i ∷ w.locks })
  unfolding lock_reservation and_then
  lock_reservation_up i r h = rw (statement_up, h)

  pub set_reservation_status_up :
      (i : String) (s : ReservationStatus) (r : Reservation)
      → find_reservation i w.db.reservations ≡ some r
      → set_reservation_status env i s w ≡ (
        ok tt,
        record (sent w) { db = record w.db { reservations = update_status i s w.db.reservations } },
      )
  unfolding set_reservation_status and_then
  set_reservation_status_up i s r h = rw (statement_up, h)

  pub insert_ledger_entries_up :
      (es : List LedgerEntry)
      → fresh_entries es w.db.ledger_entries ≡ true
      → insert_ledger_entries env es w ≡ (
        ok tt,
        record (sent w) { db = record w.db { ledger_entries = es ++ w.db.ledger_entries } },
      )
  unfolding insert_ledger_entries and_then
  insert_ledger_entries_up es h = rw (statement_up, h)

  pub write_account_debited_up :
      (e : AccountDebitedEvent)
      → write_account_debited env e w
        ≡ (ok tt, record (sent w) { db = record w.db { outbox_wallet = e ∷ w.db.outbox_wallet } })
  unfolding write_account_debited and_then
  write_account_debited_up e = rw statement_up

  pub record_operation_up :
      (key : String) (kind : OperationKind) (i json : String)
      → find_operation_row key kind w.db.operations ≡ none
      → record_operation env key kind i json w ≡ (
        ok true,
        record (sent w) {
          db = record w.db { operations = operation_row key kind i json ∷ w.db.operations };
        },
      )
  unfolding record_operation and_then
  record_operation_up key kind i json h = rw (statement_up, h)

  second_lock :
      (a b : ℤ) (y : Account)
      → find_account b w.db.accounts ≡ some y
      → lock_account env b (record (sent w) { locks = account_row a ∷ w.locks })
        ≡ (ok y, record (sent (sent w)) { locks = account_row b ∷ account_row a ∷ w.locks })
  unfolding lock_account and_then statement
  second_lock a b y k = rw (up (w.calls + 1), k)

  lock_pair_up :
      (a b : ℤ) (x y : Account)
      → find_account a w.db.accounts ≡ some x
      → find_account b w.db.accounts ≡ some y
      → (v : World) × (lock_pair env a b w ≡ (ok (x, y), v)) × (v.db ≡ w.db) × (v.drawn ≡ w.drawn)
  unfolding lock_pair and_then
  lock_pair_up a b x y h k =
      let first : World = record (sent w) { locks = account_row a ∷ w.locks } in
      elim (Bool-cases (a ==ℤ b)) [
        | inl same ↦
            let one : x ≡ y = cc (h, k, (==ℤ_iff a b).0 same) in
            (first, rw (lock_account_up a x h, same, one), refl, refl)
        | inr apart ↦ (
          record (sent (sent w)) { locks = account_row b ∷ account_row a ∷ w.locks },
          rw (lock_account_up a x h, apart, second_lock a b y k),
          refl,
          refl,
        )
      ]

  -- The locks depend on the order of the two ids; the accounts, tables and uuids do not.
  pub lock_accounts_sorted_up :
      (a b : ℤ) (x y : Account)
      → find_account a w.db.accounts ≡ some x
      → find_account b w.db.accounts ≡ some y
      → (v : World) × (lock_accounts_sorted env a b w ≡ (ok (x, y), v))
        × (v.db ≡ w.db)
        × (v.drawn ≡ w.drawn)
  unfolding lock_accounts_sorted and_then
  lock_accounts_sorted_up a b x y h k = elim (Bool-cases (ltb_ℤ b a)) [
    | inl down ↦
        let (v, e, same, drawn) = lock_pair_up b a y x k h in (v, rw (down, e), same, drawn)
    | inr up_order ↦
        let (v, e, same, drawn) = lock_pair_up a b x y h k in (v, rw (up_order, e), same, drawn)
  ]
