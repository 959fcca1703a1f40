-- ===== src/Wallet/Store.antt =====
-- adapters/pg/store.go: the statements of `txStore` on the tables. Tables are read by their unique
-- columns, so the order of rows does not matter. A statement that the server refuses is an error.
pub mod Specs
use gosplash.Prelude.{
  ℕ, String, ◌≡◌, Bool, true, false, Option, none, some, List, [], ◌∷◌, ◌++◌, map, str_eq, ◌&&◌,
  ◌||◌, not, if◌then◌else◌, arith,
}
use gosplash.Prelude.Int.{wrap64, ℤ, pos, ◌+ℤ◌, ◌-ℤ◌, ◌==ℤ◌, in_int64}
use gosplash.Wallet.Domain.{
  Account, Direction, debit, credit, LedgerEntry, ReservationStatus, active, committed, released,
  Reservation, Balance, AccountDebitedEvent, Error, storage, account_not_found,
  reservation_not_found,
}
use gosplash.Wallet.Tx.{
  OperationKind, commit, release, Operation, Db, Env, account_row, reservation_row, Tx, pure, raise,
  or_raise, ◌>>=◌, ◌>>◌, raise_if, read, modify, lock, statement, and_then,
}

-- SELECT ... FROM accounts WHERE id = ?
abbrev pub find_account : ℤ → List Account → Option Account
find_account a [] = none
find_account a (x ∷ xs) = if x.id ==ℤ a then some x else find_account a xs

-- SELECT ... FROM reservations WHERE idempotency_key = ?
abbrev pub find_by_key : String → List Reservation → Option Reservation
find_by_key k [] = none
find_by_key k (r ∷ rs) = if str_eq r.idempotency_key k then some r else find_by_key k rs

-- SELECT ... FROM reservations WHERE id = ?
abbrev pub find_reservation : String → List Reservation → Option Reservation
find_reservation i [] = none
find_reservation i (r ∷ rs) = if str_eq r.id i then some r else find_reservation i rs

-- UPDATE reservations SET status = ? WHERE id = ?
abbrev pub update_status : String → ReservationStatus → List Reservation → List Reservation
update_status i s [] = []
update_status i s (r ∷ rs) =
    (if str_eq r.id i then record r { status = s } else r) ∷ update_status i s rs

-- CASE WHEN direction = 'credit' THEN amount_cents ELSE -amount_cents END
abbrev pub signed_cents : LedgerEntry → ℤ
signed_cents e = elim e.direction [ credit ↦ e.amount_cents | debit ↦ pos 0 -ℤ e.amount_cents ]

-- SUM(...) FROM ledger_entries WHERE account_id = ?, 0 if there is none
abbrev pub balance_of : ℤ → List LedgerEntry → ℤ
balance_of a [] = pos 0
balance_of a (e ∷ es) =
    if e.account_id ==ℤ a then signed_cents e +ℤ balance_of a es else balance_of a es

abbrev pub is_active : ReservationStatus → Bool
is_active active = true
is_active _ = false

-- SUM(amount_cents) FROM reservations WHERE account_id = ? AND status = 'active'
abbrev pub reserved_of : ℤ → List Reservation → ℤ
reserved_of a [] = pos 0
reserved_of a (r ∷ rs) =
    if r.account_id ==ℤ a && is_active r.status
    then r.amount_cents +ℤ reserved_of a rs
    else reserved_of a rs

abbrev pub find_entry : String → List LedgerEntry → Option LedgerEntry
find_entry i [] = none
find_entry i (e ∷ es) = if str_eq e.id i then some e else find_entry i es

-- The ids of the entries WHERE reference_id = ?, in the order of the table.
abbrev pub entry_ids_of : String → List LedgerEntry → List String
entry_ids_of ref [] = []
entry_ids_of ref (e ∷ es) =
    if str_eq e.reference_id ref then e.id ∷ entry_ids_of ref es else entry_ids_of ref es

abbrev pub same_kind : OperationKind → OperationKind → Bool
same_kind commit commit = true
same_kind release release = true
same_kind _ _ = false

-- SELECT ... FROM wallet_operations WHERE idempotency_key = ? AND kind = ?
abbrev pub find_operation_row : String → OperationKind → List Operation → Option Operation
find_operation_row k kind [] = none
find_operation_row k kind (o ∷ os) =
    if str_eq o.idempotency_key k && same_kind o.kind kind
    then some o
    else find_operation_row k kind os

-- The `result_json` of that row
abbrev pub stored_result : String → OperationKind → List Operation → Option String
stored_result k kind os = elim (find_operation_row k kind os) [
  | none ↦ none
  | some o ↦ some o.result_json
]

abbrev pub is_some {ℓ} : {A : Type ℓ} → Option A → Bool
is_some none = false
is_some (some _) = true

-- The primary key of `ledger_entries` for the rows of one INSERT.
abbrev pub fresh_entries : List LedgerEntry → List LedgerEntry → Bool
fresh_entries [] es = true
fresh_entries (n ∷ ns) es = not (is_some (find_entry n.id (ns ++ es))) && fresh_entries ns es

-- `Scan` into an int64 fails on a sum out of its range.
abbrev pub scan_int64 : ℤ → Tx ℤ
scan_int64 n = do raise_if (not (in_int64 n)) storage; pure n

module _ (env : Env) where
  -- ORDER BY id
  unfoldable pub insert_by_id : String → List String → List String
  insert_by_id i [] = i ∷ []
  insert_by_id i (j ∷ js) = if env.uuid_le i j then i ∷ j ∷ js else j ∷ insert_by_id i js

  unfoldable pub order_by_id : List String → List String
  unfolding insert_by_id
  order_by_id [] = []
  order_by_id (i ∷ is) = insert_by_id i (order_by_id is)

  unfoldable pub lock_account : ℤ → Tx Account
  unfolding and_then statement
  lock_account a = do
    statement env
    row ← read (λ d. find_account a d.accounts)
    account ← or_raise row account_not_found
    lock (account_row a)
    pure account

  unfoldable pub ledger_balance : ℤ → Tx ℤ
  unfolding and_then statement
  ledger_balance a = do
    statement env
    sum ← read (λ d. balance_of a d.ledger_entries)
    scan_int64 sum

  unfoldable pub active_reserved_sum : ℤ → Tx ℤ
  unfolding and_then statement
  active_reserved_sum a = do
    statement env
    sum ← read (λ d. reserved_of a d.reservations)
    scan_int64 sum

  unfoldable pub find_reservation_by_idempotency_key : String → Tx (Option Reservation)
  unfolding and_then statement
  find_reservation_by_idempotency_key k = do statement env; read (λ d. find_by_key k d.reservations)

  unfoldable pub lock_reservation : String → Tx Reservation
  unfolding and_then statement
  lock_reservation i = do
    statement env
    row ← read (λ d. find_reservation i d.reservations)
    reservation ← or_raise row reservation_not_found
    lock (reservation_row i)
    pure reservation

  -- ON CONFLICT (idempotency_key) DO NOTHING; a taken primary key is an error.
  unfoldable pub insert_reservation : Reservation → Tx Bool
  unfolding and_then statement
  insert_reservation r = do
    statement env
    taken ← read (λ d. is_some (find_by_key r.idempotency_key d.reservations))
    if taken then pure false else do
      same_id ← read (λ d. is_some (find_reservation r.id d.reservations))
      raise_if same_id storage
      modify (λ d. record d { reservations = r ∷ d.reservations })
      pure true

  unfoldable pub set_reservation_status : String → ReservationStatus → Tx (Unit {0})
  unfolding and_then statement
  set_reservation_status i s = do
    statement env
    found ← read (λ d. is_some (find_reservation i d.reservations))
    modify (λ d. record d { reservations = update_status i s d.reservations })
    raise_if (not found) reservation_not_found

  unfoldable pub insert_ledger_entries : List LedgerEntry → Tx (Unit {0})
  unfolding and_then statement
  insert_ledger_entries es = do
    statement env
    fresh ← read (λ d. fresh_entries es d.ledger_entries)
    raise_if (not fresh) storage
    modify (λ d. record d { ledger_entries = es ++ d.ledger_entries })

  unfoldable pub ledger_entry_ids_by_reference : String → Tx (List String)
  unfolding and_then statement
  ledger_entry_ids_by_reference ref = do
    statement env
    read (λ d. order_by_id (entry_ids_of ref d.ledger_entries))

  unfoldable pub find_operation : String → OperationKind → Tx (Option String)
  unfolding and_then statement
  find_operation k kind = do statement env; read (λ d. stored_result k kind d.operations)

  -- ON CONFLICT (idempotency_key, kind) DO NOTHING
  unfoldable pub record_operation : String → OperationKind → String → String → Tx Bool
  unfolding and_then statement
  record_operation k kind i json = do
    statement env
    taken ← read (λ d. is_some (find_operation_row k kind d.operations))
    if taken then pure false else do
      modify (λ d. record d {
        operations =
            record { idempotency_key = k; kind = kind; reservation_id = i; result_json = json }
            ∷ d.operations;
      })
      pure true

  -- The envelope and its row of `outbox_wallet`, in the same transaction.
  unfoldable pub write_account_debited : AccountDebitedEvent → Tx (Unit {0})
  unfolding and_then statement
  write_account_debited e = do
    statement env
    modify (λ d. record d { outbox_wallet = e ∷ d.outbox_wallet })

  -- `Store.GetBalance`: three reads outside a transaction.
  unfoldable pub store_get_balance : ℤ → Tx Balance
  unfolding and_then statement
  store_get_balance a = do
    statement env
    row ← read (λ d. find_account a d.accounts)
    account ← or_raise row account_not_found
    balance ← ledger_balance a
    reserved ← active_reserved_sum a
    pure (record {
      account_id = a;
      currency = account.currency;
      available = wrap64 (balance -ℤ reserved);
      reserved = reserved;
    })

-- No stored result, no row.
pub stored_result-none :
    (k : String) (kind : OperationKind) (os : List Operation)
    → stored_result k kind os ≡ none
    → find_operation_row k kind os ≡ none
stored_result-none k kind os h = ground arith
