-- ===== src/Wallet/Progress.antt =====
-- A request whose conditions hold is answered, when the database accepts every statement.
pub mod Statements
pub mod Payment
use gosplash.Wallet.Progress.Statements.{
  Up, sent, statement_up, lock_account_up, ledger_balance_up, active_reserved_sum_up,
  find_reservation_by_idempotency_key_up, insert_reservation_up,
}
use gosplash.Prelude.{
  String, ℕ, some, none, true, false, ◌≡◌, str_eq, if◌then◌else◌, Bool-cases, inl, inr, Bool, ◌+◌,
  ◌∷◌, [],
}
use gosplash.Prelude.Int.{ℤ, pos, leb_ℤ, ltb_ℤ, in_int64, wrap64, ◌-ℤ◌}
use gosplash.Wallet.Domain.{Reservation, Money, Account, insufficient_funds}
use gosplash.Wallet.Tx.{
  Env, World, ok, err, within_tx, new_id, and_then, statement, account_row, Result,
}
use gosplash.Wallet.Store.{
  find_account, find_by_key, find_reservation, balance_of, reserved_of, lock_account,
  ledger_balance, active_reserved_sum, insert_reservation, find_reservation_by_idempotency_key,
}
use gosplash.Wallet.Reserve.{reserve, reserve_new, new_reservation, reserve_or_replay, reserve_tx}
use gosplash.Wallet.Reserve.Effect.{available_now}

module _ (env : Env) (up : Up env) (a : ℤ) (amount : Money) (key : String) (w : World)
    (account : Account) (new : find_by_key key w.db.reservations ≡ none)
    (found : find_account a w.db.accounts ≡ some account)
    (same : str_eq account.currency amount.currency ≡ true)
    (balance_fits : in_int64 (balance_of a w.db.ledger_entries) ≡ true)
    (reserved_fits : in_int64 (reserved_of a w.db.reservations) ≡ true)
    (fresh : find_reservation (env.uuid w.drawn) w.db.reservations ≡ none) where
  -- The worlds after the lock and after the two sums.
  abbrev locked : World
  locked = record (sent w) { locks = account_row a ∷ w.locks }

  abbrev summed : World
  summed = sent (sent locked)

  abbrev row : Reservation
  row = new_reservation (env.uuid w.drawn) a amount key (available_now a w.db)

  abbrev stored : World
  stored = record (sent (record summed { drawn = w.drawn + 1 })) {
    db = record w.db { reservations = row ∷ w.db.reservations };
  }

  reserve_new_refuses :
      ltb_ℤ (available_now a w.db) amount.amount_cents ≡ true
      → reserve_new env a amount key w ≡ (err insufficient_funds, summed)
  unfolding reserve_new and_then
  reserve_new_refuses short = rw (
    lock_account_up env up w a account found,
    same,
    ledger_balance_up env up locked a balance_fits,
    active_reserved_sum_up env up (sent locked) a reserved_fits,
    short,
  )

  reserve_new_takes :
      ltb_ℤ (available_now a w.db) amount.amount_cents ≡ false
      → reserve_new env a amount key w ≡ (ok (row, row.available_after_cents), stored)
  unfolding reserve_new and_then new_id
  reserve_new_takes enough = rw (
    lock_account_up env up w a account found,
    same,
    ledger_balance_up env up locked a balance_fits,
    active_reserved_sum_up env up (sent locked) a reserved_fits,
    enough,
    insert_reservation_up env up (record summed { drawn = w.drawn + 1 }) row new fresh,
  )

-- A `Reserve` under a new key with a positive sum, for an account of that currency whose sums fit
-- into 64 bits, with a uuid that no reservation has, and on a database that accepts every
-- statement, is decided by the available sum alone: it is refused for insufficient funds, or it
-- returns the new reservation with what is left.
pub reserve_decides :
    (env : Env) (a : ℤ) (amount : Money) (key : String) (w : World) (account : Account)
    → Up env
    → str_eq key "" ≡ false
    → leb_ℤ amount.amount_cents (pos 0) ≡ false
    → find_by_key key w.db.reservations ≡ none
    → find_account a w.db.accounts ≡ some account
    → str_eq account.currency amount.currency ≡ true
    → in_int64 (balance_of a w.db.ledger_entries) ≡ true
    → in_int64 (reserved_of a w.db.reservations) ≡ true
    → find_reservation (env.uuid w.drawn) w.db.reservations ≡ none
    → (reserve env a amount key w).0 ≡ (
        if ltb_ℤ (available_now a w.db) amount.amount_cents
        then err insufficient_funds
        else ok (
          new_reservation (env.uuid w.drawn) a amount key (available_now a w.db),
          wrap64 (available_now a w.db -ℤ amount.amount_cents),
        ))
unfolding reserve within_tx reserve_tx reserve_or_replay and_then
reserve_decides env a amount key w account up h₀ h₁ h₂ h₃ h₄ h₅ h₆ h₇ =
    let begun : World = record w { locks = [] } in
    let asked = find_reservation_by_idempotency_key_up env up begun key in
    elim (Bool-cases (ltb_ℤ (available_now a w.db) amount.amount_cents)) [
      | inl short ↦ rw (
        h₀,
        h₁,
        asked,
        h₂,
        reserve_new_refuses env up a amount key (sent begun) account h₂ h₃ h₄ h₅ h₆ h₇ short,
        short,
      )
      | inr enough ↦ rw (
        h₀,
        h₁,
        asked,
        h₂,
        reserve_new_takes env up a amount key (sent begun) account h₂ h₃ h₄ h₅ h₆ h₇ enough,
        statement_up env up (stored env up a amount key (sent begun) account h₂ h₃ h₄ h₅ h₆ h₇),
        enough,
      )
    ]
