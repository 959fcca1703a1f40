-- ===== src/Wallet/Commit/Effect.antt =====
-- What a successful `Commit` has done to the tables, as a relation.
use gosplash.Wallet.Locks.Order.{Ensures-lock_accounts_sorted}
use gosplash.Wallet.Store.Specs.{
  Ensures-record_operation, Ensures-entry_ids, Ensures-lock_reservation,
  Ensures-insert_ledger_entries, Ensures-set_reservation_status, Ensures-write_account_debited,
  Ensures-find_operation,
}
use gosplash.Wallet.Tx.Ensures.{
  Ensures, Ensures-weaken, Ensures-bind, Ensures-or_raise, Ensures-pure, Ensures-raise_if,
  Ensures-raise, Ensures-new_id, Ensures-within_tx,
}
use gosplash.Wallet.Store.{
  find_operation_row, stored_result, find_reservation, find_account, order_by_id, fresh_entries,
  entry_ids_of, stored_result-none, update_status,
}
use gosplash.Wallet.Domain.{released, Reservation, Account, active, committed, ReservationStatus}
use gosplash.Wallet.Commit.{
  record_ids, commit_or_replay, commit_funds, commit_tx, commit_again, commit_active,
  commit_by_status, debit_entry, credit_entry, debited_event,
}
use gosplash.Prelude.Int.{ℤ}
use gosplash.Wallet.Tx.{Env, OperationKind, Operation, Db, World, commit}
use gosplash.Prelude.{
  String, List, Option, ◌≡◌, none, some, Bool-cases, ◌∷◌, str_eq, [], true, arith, eq_iff, inl,
  refl, inr, sym,
}

abbrev pub operation_row : String → OperationKind → String → String → Operation
operation_row key kind reservation_id json = record {
  idempotency_key = key;
  kind = kind;
  reservation_id = reservation_id;
  result_json = json;
}

-- The reserved sum was moved from the buyer to the payee by a pair of entries.
pub record Paid (env : Env) (i : String) (payee_id : ℤ) (key : String) (d : Db) (r : Reservation)
    (buyer payee : Account) (op debit_id credit_id json : String) (ids : List String) (d' : Db)
    : Type 0 where
  pub new : stored_result key commit d.operations ≡ none
  pub found : find_reservation i d.reservations ≡ some r
  pub was_active : r.status ≡ active
  pub buyer_found : find_account r.account_id d.accounts ≡ some buyer
  pub payee_found : find_account payee_id d.accounts ≡ some payee
  pub buyer_currency : buyer.currency ≡ r.currency
  pub payee_currency : payee.currency ≡ r.currency
  pub fresh :
      fresh_entries
        (debit_entry i debit_id op buyer r ∷ credit_entry i credit_id op payee r ∷ [])
        d.ledger_entries
      ≡ true
  pub answer : ids ≡ debit_id ∷ credit_id ∷ []
  pub stored : env.marshal_ids ids ≡ some json
  pub after : d' ≡ record d {
    ledger_entries =
        debit_entry i debit_id op buyer r ∷ credit_entry i credit_id op payee r ∷ d.ledger_entries;
    reservations = update_status i committed d.reservations;
    operations = operation_row key commit i json ∷ d.operations;
    outbox_wallet = debited_event i buyer r ∷ d.outbox_wallet;
  }

pub data CommitEffect (env : Env) (i : String) (payee_id : ℤ) (key : String) (d : Db)
    (ids : List String) (d' : Db) : Type 0 where
  replayed :
      (json : String)
      → stored_result key commit d.operations ≡ some json
      → env.unmarshal_ids json ≡ some ids
      → d' ≡ d
      → CommitEffect env i payee_id key d ids d'
  already :
      (r : Reservation) (json : String)
      → stored_result key commit d.operations ≡ none
      → find_reservation i d.reservations ≡ some r
      → r.status ≡ committed
      → ids ≡ order_by_id env (entry_ids_of i d.ledger_entries)
      → env.marshal_ids ids ≡ some json
      → d' ≡ record d { operations = operation_row key commit i json ∷ d.operations }
      → CommitEffect env i payee_id key d ids d'
  paid :
      (r : Reservation) (buyer payee : Account) (op debit_id credit_id json : String)
      → Paid env i payee_id key d r buyer payee op debit_id credit_id json ids d'
      → CommitEffect env i payee_id key d ids d'

module _ (env : Env) (i : String) (payee_id : ℤ) (key : String) where
  Ensures-record_ids :
      {d : Db} (ids : List String) (w : World)
      → w.db ≡ d
      → find_operation_row key commit d.operations ≡ none
      → Ensures
          (λ _ v.
            (json : String) × (env.marshal_ids ids ≡ some json)
            × (v.db ≡ record d { operations = operation_row key commit i json ∷ d.operations }))
          (record_ids env key i ids w)
  unfolding record_ids
  Ensures-record_ids ids w here new =
      Ensures-bind _ _ (Ensures-or_raise (env.marshal_ids ids) _ w here) λ json w₁ (h₁, m).
        Ensures-weaken (Ensures-record_operation env w₁ h₁ key commit i json new)
          λ _ v h. (json, m, h)

  module _ (d : Db) (new : find_operation_row key commit d.operations ≡ none) (r : Reservation)
      (found : find_reservation i d.reservations ≡ some r) where
    abbrev Post : List String → World → Type 0
    Post ids v = CommitEffect env i payee_id key d ids v.db

    none_stored : stored_result key commit d.operations ≡ none
    none_stored = rw (new, stored_result)

    Ensures-commit_again :
        r.status ≡ committed → (w : World) → w.db ≡ d → Ensures Post (commit_again env i key w)
    unfolding commit_again
    Ensures-commit_again st w here =
        Ensures-bind _ _ (Ensures-entry_ids env w here i) λ ids w₁ (h₁, all).
          Ensures-bind _ _ (Ensures-record_ids ids w₁ h₁ new)
            λ _ w₂ (json, m, h₂). Ensures-pure _ w₂ (already r json none_stored found st all m h₂)

    Ensures-commit_active :
        r.status ≡ active
        → (w : World) → w.db ≡ d
        → Ensures Post (commit_active env i r payee_id key w)
    unfolding commit_active
    Ensures-commit_active st w here =
        Ensures-bind _ _ (Ensures-lock_accounts_sorted env r.account_id payee_id w here)
          λ (buyer, payee) w₁ (h₁, fb, fp).
            Ensures-bind _ _ (Ensures-raise_if _ _ w₁ h₁) λ _ w₂ (h₂, same).
              Ensures-bind _ _ (Ensures-new_id env w₂ h₂) λ op w₃ h₃.
                Ensures-bind _ _ (Ensures-new_id env w₃ h₃) λ debit_id w₄ h₄.
                  Ensures-bind _ _ (Ensures-new_id env w₄ h₄) λ credit_id w₅ h₅.
                    Ensures-bind _ _ (Ensures-insert_ledger_entries env w₅ h₅ _) λ _ w₆ (h₆, fresh).
                      Ensures-bind _ _ (Ensures-set_reservation_status env w₆ h₆ i committed)
                        λ _ w₇ h₇.
                          Ensures-bind _ _ (Ensures-write_account_debited env w₇ h₇ _) λ _ w₈ h₈.
                            Ensures-bind _ _ (Ensures-record_ids _ w₈ h₈ new) λ _ w₉ (json, m, h₉).
                              Ensures-pure _ w₉ (
                                paid r buyer payee op debit_id credit_id json (record {
                                  new = none_stored;
                                  found = found;
                                  was_active = st;
                                  buyer_found = fb;
                                  payee_found = fp;
                                  buyer_currency = ground (arith, eq_iff buyer.currency r.currency);
                                  payee_currency = ground (arith, eq_iff payee.currency r.currency);
                                  fresh = fresh;
                                  answer = refl;
                                  stored = m;
                                  after = h₉;
                                }))

    Ensures-commit_by_status :
        (s : ReservationStatus)
        → r.status ≡ s
        → (w : World) → w.db ≡ d
        → Ensures Post (commit_by_status env s i r payee_id key w)
    unfolding commit_by_status
    Ensures-commit_by_status active st w here = Ensures-commit_active st w here
    Ensures-commit_by_status committed st w here = Ensures-commit_again st w here
    Ensures-commit_by_status released st w here = Ensures-raise _ w

  Ensures-commit_or_replay :
      {d : Db} (o : Option String)
      → stored_result key commit d.operations ≡ o
      → (w : World) → w.db ≡ d
      → Ensures
          (λ ids v. CommitEffect env i payee_id key d ids v.db)
          (commit_or_replay env i payee_id key o w)
  unfolding commit_or_replay
  Ensures-commit_or_replay (some raw) old w here =
      Ensures-weaken (Ensures-or_raise (env.unmarshal_ids raw) _ w here)
        λ ids v (h, u). replayed raw old u h
  Ensures-commit_or_replay {d} none new w here =
      Ensures-bind _ _ (Ensures-lock_reservation env w here i) λ r w₁ (h₁, found).
        Ensures-commit_by_status d (stored_result-none key commit d.operations new) r found r.status
          refl w₁ h₁

  -- A successful `Commit` replayed its key, found the reservation committed, or paid.
  pub commit-CommitEffect :
      (w : World)
      → Ensures
          (λ ids v. CommitEffect env i payee_id key w.db ids v.db)
          (commit_funds env i payee_id key w)
  unfolding commit_funds commit_tx
  commit-CommitEffect w = elim (Bool-cases (str_eq key "")) [
    | inl empty ↦ rw empty (Ensures-raise _ w)
    | inr named ↦ rw named (
        Ensures-within_tx env _ _ w (
          Ensures-bind _ _
            (Ensures-find_operation env {d = w.db} (record w { locks = [] }) refl key commit)
            λ o w₁ (h₁, e). Ensures-commit_or_replay o (sym e) w₁ h₁))
  ]
