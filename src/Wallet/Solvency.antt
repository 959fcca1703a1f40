-- ===== src/Wallet/Solvency.antt =====
-- No account reserves more than it holds.
use gosplash.Wallet.Reserve.{new_reservation}
use gosplash.Wallet.Reserve.Effect.{available_now}
use gosplash.Wallet.Api.{Request, run}
use gosplash.Wallet.Tables.{IsTable, reserved_of_nonneg, update_status-IsTable, reserved_of-close}
use gosplash.Wallet.Store.{reserved_of, find_reservation, find_account, balance_of}
use gosplash.Wallet.Api.Change.{Change, change_induction, same, inserted, journaled, moved, freed}
use gosplash.Wallet.Domain.{Reservation, Account, committed, released}
use gosplash.Wallet.Tx.{Env, Db, World}
use gosplash.Prelude.Int.{
  ℤ, pos, ◌≤ℤ◌, in_int64, ◌+ℤ◌, ◌-ℤ◌, ◌==ℤ◌, int_laws, ==ℤ_iff, wrap64-eq, ltb_ℤ,
  difference-InInt64, le_of_ltb_ℤ,
}
use gosplash.Prelude.{
  String, List, ◌≡◌, some, true, if◌then◌else◌, ◌∷◌, arith, refl, [], subst, false, sym,
}

pub find_reservation_pos :
    (i : String) (rs : List Reservation) (r : Reservation)
    → IsTable rs
    → find_reservation i rs ≡ some r
    → pos 1 ≤ℤ r.amount_cents
find_reservation_pos i [] r t h = cc
find_reservation_pos i (x ∷ rs) r t h = ground (arith, find_reservation_pos i rs r t.3)

pub find_account_id :
    (a : ℤ) (xs : List Account) (x : Account) → find_account a xs ≡ some x → x.id ≡ a
find_account_id a [] x h = cc
find_account_id a (y ∷ xs) x h = ground (arith, ==ℤ_iff y.id a, find_account_id a xs x)

-- Every change of the service keeps the constraints of the table.
pub Change-IsTable :
    (env : Env) (d d' : Db) → Change env d d' → IsTable d.reservations → IsTable d'.reservations
Change-IsTable env d d' (same e) h = rw e h
Change-IsTable env d d' (inserted a m k i r c) h =
    rw (c.after, c.row) (ground (arith, c.positive), c.fresh, c.new, h)
Change-IsTable env d d' (journaled k kind i json c) h = rw c.after h
Change-IsTable env d d' (moved i p k r b q op x y json ids c) h =
    rw c.after (update_status-IsTable i committed d.reservations h)
Change-IsTable env d d' (freed i k json r c) h =
    rw c.after (update_status-IsTable i released d.reservations h)

-- Account `a` holds at least what its active reservations take.
abbrev pub IsSolvent : ℤ → Db → Type 0
IsSolvent a d = reserved_of a d.reservations ≤ℤ balance_of a d.ledger_entries

-- For a solvent account the subtraction of the service is exact.
pub available_now-exact :
    (a : ℤ) (d : Db)
    → IsTable d.reservations
    → IsSolvent a d
    → in_int64 (balance_of a d.ledger_entries) ≡ true
    → available_now a d ≡ balance_of a d.ledger_entries -ℤ reserved_of a d.reservations
available_now-exact a d t s b = wrap64-eq _ (
    difference-InInt64 (balance_of a d.ledger_entries) (reserved_of a d.reservations)
      (reserved_of_nonneg a d.reservations t) s b)

-- The test of `Reserve` leaves room for the new reservation.
pub room :
    (a : ℤ) (d : Db) (amount : ℤ)
    → IsTable d.reservations
    → IsSolvent a d
    → in_int64 (balance_of a d.ledger_entries) ≡ true
    → ltb_ℤ (available_now a d) amount ≡ false
    → amount ≤ℤ balance_of a d.ledger_entries -ℤ reserved_of a d.reservations
room a d amount t s b covered = le_of_ltb_ℤ _ amount (rw (available_now-exact a d t s b) at covered)

insert_keeps :
    (a : ℤ) (rs : List Reservation) (x : Reservation) (balance : ℤ)
    → ((x.account_id ≡ a) → x.amount_cents ≤ℤ balance -ℤ reserved_of a rs)
    → reserved_of a rs ≤ℤ balance
    → reserved_of a (x ∷ rs) ≤ℤ balance
insert_keeps a rs x balance enough s = grind (int_laws, ==ℤ_iff x.account_id a)

pay_keeps :
    (a buyer payee amount balance reserved left : ℤ)
    → pos 1 ≤ℤ amount
    → left +ℤ (if buyer ==ℤ a then amount else pos 0) ≡ reserved
    → reserved ≤ℤ balance
    → left ≤ℤ (
        let after : ℤ = (if payee ==ℤ a then amount +ℤ balance else balance) in
        if buyer ==ℤ a then (pos 0 -ℤ amount) +ℤ after else after)
pay_keeps a buyer payee amount balance reserved left p e s = grind int_laws

free_keeps :
    (a buyer amount balance reserved left : ℤ)
    → pos 1 ≤ℤ amount
    → left +ℤ (if buyer ==ℤ a then amount else pos 0) ≡ reserved
    → reserved ≤ℤ balance
    → left ≤ℤ balance
free_keeps a buyer amount balance reserved left p e s = grind int_laws

module _ (env : Env) (a : ℤ) where
  abbrev pub Sound : Db → Type 0
  Sound d = IsTable d.reservations × IsSolvent a d

  Change-IsSolvent : (d d' : Db) → Change env d d' → Sound d → IsSolvent a d'
  Change-IsSolvent d d' (same e) h = rw e h.1
  Change-IsSolvent d d' (inserted x m k i r c) h =
      rw (c.after, c.row)
        (insert_keeps a d.reservations (new_reservation i x m k (available_now x d))
          (balance_of a d.ledger_entries)
          (λ e.
            subst
              (λ z. m.amount_cents ≤ℤ balance_of z d.ledger_entries -ℤ reserved_of z d.reservations)
              e
              (room x d m.amount_cents h.0 (subst (λ z. IsSolvent z d) (sym e) h.1) c.balance_fits
                c.covered))
          h.1)
  Change-IsSolvent d d' (journaled k kind i json c) h = rw c.after h.1
  Change-IsSolvent d d' (moved i p k r b q op x y json ids c) h = rw c.after (
      rw (find_account_id r.account_id d.accounts b c.buyer_found) (
        pay_keeps a r.account_id q.id r.amount_cents (balance_of a d.ledger_entries) _ _
          (find_reservation_pos i d.reservations r h.0 c.found)
          (reserved_of-close a i committed d.reservations r h.0 c.found c.was_active refl) h.1))
  Change-IsSolvent d d' (freed i k json r c) h = rw c.after (
      free_keeps a r.account_id r.amount_cents (balance_of a d.ledger_entries) _ _
        (find_reservation_pos i d.reservations r h.0 c.found)
        (reserved_of-close a i released d.reservations r h.0 c.found c.was_active refl) h.1)

  -- Take an account whose active reservations are covered by its ledger entries, in a table of
  -- positive reservations with unique ids and unique keys. Whatever requests follow, on whatever
  -- accounts, with whatever statements failing, both hold again.
  pub run-IsSolvent : (qs : List Request) (w : World) → Sound w.db → Sound (run env qs w).db
  run-IsSolvent qs w h =
      change_induction env Sound
        (λ d d' c s. (Change-IsTable env d d' c s.0, Change-IsSolvent d d' c s)) qs w h
