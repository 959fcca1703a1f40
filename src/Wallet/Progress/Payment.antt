-- ===== src/Wallet/Progress/Payment.antt =====
-- A `Commit` that can be paid is paid, when the database accepts every statement.
use gosplash.Wallet.Commit.Effect.{operation_row}
use gosplash.Prelude.{
  String, some, none, true, ◌≡◌, ◌+◌, ◌∷◌, [], str_eq, false, ℕ, List, subst, sym,
}
use gosplash.Prelude.Int.{ℤ}
use gosplash.Wallet.Domain.{Account, Reservation, committed, active, LedgerEntry}
use gosplash.Wallet.Tx.{Env, World, ok, and_then, commit, new_id, within_tx, reservation_row, Db}
use gosplash.Wallet.Store.{
  find_reservation, fresh_entries, find_operation_row, update_status, stored_result, find_account,
  stored_result-none,
}
use gosplash.Wallet.Locks.{lock_accounts_sorted}
use gosplash.Wallet.Commit.{
  commit_active, record_ids, debit_entry, credit_entry, debited_event, commit_funds, commit_tx,
  commit_or_replay, commit_by_status,
}
use gosplash.Wallet.Progress.Statements.{
  Up, sent, insert_ledger_entries_up, set_reservation_status_up, write_account_debited_up,
  record_operation_up, lock_accounts_sorted_up, find_operation_up, lock_reservation_up,
  statement_up,
}

module _ (env : Env) (up : Up env) (i : String) (payee_id : ℤ) (key json : String) (r : Reservation)
    (buyer payee : Account) (buyer_currency : str_eq buyer.currency r.currency ≡ true)
    (payee_currency : str_eq payee.currency r.currency ≡ true) where
  commit_active_pays :
      (w v : World)
      → lock_accounts_sorted env r.account_id payee_id w ≡ (ok (buyer, payee), v)
      → find_reservation i v.db.reservations ≡ some r
      → find_operation_row key commit v.db.operations ≡ none
      → fresh_entries
          (debit_entry i (env.uuid (v.drawn + 1)) (env.uuid v.drawn) buyer r
            ∷ credit_entry i (env.uuid (v.drawn + 1 + 1)) (env.uuid v.drawn) payee r
            ∷ [])
          v.db.ledger_entries
        ≡ true
      → env.marshal_ids (env.uuid (v.drawn + 1) ∷ env.uuid (v.drawn + 1 + 1) ∷ []) ≡ some json
      → (v' : World) × (commit_active env i r payee_id key w
          ≡ (ok (env.uuid (v.drawn + 1) ∷ env.uuid (v.drawn + 1 + 1) ∷ []), v'))
  unfolding commit_active and_then new_id record_ids
  commit_active_pays w v locked found new fresh encoded =
      let debit = debit_entry i (env.uuid (v.drawn + 1)) (env.uuid v.drawn) buyer r in
      let credit = credit_entry i (env.uuid (v.drawn + 1 + 1)) (env.uuid v.drawn) payee r in
      let drawn : World = record v { drawn = v.drawn + 1 + 1 + 1 } in
      let entered : World = record (sent drawn) {
        db = record v.db { ledger_entries = debit ∷ credit ∷ v.db.ledger_entries };
      } in
      let marked : World = record (sent entered) {
        db = record entered.db { reservations = update_status i committed v.db.reservations };
      } in
      let told : World = record (sent marked) {
        db = record marked.db { outbox_wallet = debited_event i buyer r ∷ v.db.outbox_wallet };
      } in
      (
        record (sent told) {
          db = record told.db { operations = operation_row key commit i json ∷ v.db.operations };
        },
        rw (
          locked,
          buyer_currency,
          payee_currency,
          insert_ledger_entries_up env up drawn (debit ∷ credit ∷ []) fresh,
          set_reservation_status_up env up entered i committed r found,
          write_account_debited_up env up marked (debited_event i buyer r),
          encoded,
          record_operation_up env up told key commit i json new,
        ),
      )

-- A `Commit` under a new key of an active reservation, whose buyer and payee have accounts in its
-- currency, with fresh ids for the two entries and ids that JSON writes, on a database that accepts
-- every statement, is answered with the ids of the debit and of the credit.
pub commit_pays :
    (env : Env) (i : String) (payee_id : ℤ) (key json : String) (r : Reservation)
    (buyer payee : Account) (w : World)
    → Up env
    → str_eq key "" ≡ false
    → stored_result key commit w.db.operations ≡ none
    → find_reservation i w.db.reservations ≡ some r
    → r.status ≡ active
    → find_account r.account_id w.db.accounts ≡ some buyer
    → find_account payee_id w.db.accounts ≡ some payee
    → str_eq buyer.currency r.currency ≡ true
    → str_eq payee.currency r.currency ≡ true
    → fresh_entries
        (debit_entry i (env.uuid (w.drawn + 1)) (env.uuid w.drawn) buyer r
          ∷ credit_entry i (env.uuid (w.drawn + 1 + 1)) (env.uuid w.drawn) payee r
          ∷ [])
        w.db.ledger_entries
      ≡ true
    → env.marshal_ids (env.uuid (w.drawn + 1) ∷ env.uuid (w.drawn + 1 + 1) ∷ []) ≡ some json
    → (commit_funds env i payee_id key w).0
      ≡ ok (env.uuid (w.drawn + 1) ∷ env.uuid (w.drawn + 1 + 1) ∷ [])
unfolding commit_funds within_tx commit_tx commit_or_replay commit_by_status and_then
commit_pays env i payee_id key json r buyer payee w up named new found was b_found p_found b_same
      p_same fresh encoded =
    let begun : World = record w { locks = [] } in
    let held : World = record (sent (sent begun)) { locks = reservation_row i ∷ [] } in
    let pair : ℕ → List LedgerEntry = λ n.
      debit_entry i (env.uuid (n + 1)) (env.uuid n) buyer r
      ∷ credit_entry i (env.uuid (n + 1 + 1)) (env.uuid n) payee r
      ∷ [] in
    let (v, locked, same, drawn) =
      lock_accounts_sorted_up env up held r.account_id payee_id buyer payee b_found p_found in
    let (v', paid) =
      commit_active_pays env up i payee_id key json r buyer payee b_same p_same held v locked
        (rw same found) (rw same (stored_result-none key commit w.db.operations new))
        (subst (λ n. fresh_entries (pair n) v.db.ledger_entries ≡ true) (sym drawn)
          (subst (λ (d : Db). fresh_entries (pair w.drawn) d.ledger_entries ≡ true) (sym same)
            fresh))
        (rw drawn encoded) in
    rw (
      named,
      find_operation_up env up begun key commit,
      new,
      lock_reservation_up env up (sent begun) i r found,
      was,
      paid,
      statement_up env up v',
      drawn,
    )
