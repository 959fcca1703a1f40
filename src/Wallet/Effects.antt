-- ===== src/Wallet/Effects.antt =====
-- What an answered request means for the sums of every account.
use gosplash.Wallet.Api.Change.{Freed}
use gosplash.Wallet.Commit.{commit_funds}
use gosplash.Wallet.Reserve.{reserve}
use gosplash.Wallet.Release.Effect.{
  release_result, freed_tables, ReleaseEffect, release-ReleaseEffect,
}
use gosplash.Wallet.Commit.Effect.{Paid, CommitEffect, commit-CommitEffect}
use gosplash.Wallet.Release.{as_money, release_funds}
use gosplash.Wallet.Tables.{
  reserved_of_nonneg, IsTable, reserved_of-close, find_reservation-update_self,
}
use gosplash.Wallet.Reserve.Effect.{available_now, Created, ReserveEffect, reserve-ReserveEffect}
use gosplash.Wallet.Solvency.{Sound, available_now-exact, room, find_account_id}
use gosplash.Wallet.Store.{balance_of, reserved_of, find_reservation, find_by_key, stored_result}
use gosplash.Wallet.Domain.{Reservation, Money, active, committed, released, Account}
use gosplash.Wallet.Tx.{Env, Db, World, commit, release, ok}
use gosplash.Prelude.{
  String, if◌then◌else◌, ◌≡◌, List, length, Bool, eq_iff, some, ◌&&◌, true, refl, arith, false, ap,
  ◌∙◌, none, sym, subst,
}
use gosplash.Prelude.Int.{
  ℤ, ◌==ℤ◌, pos, ◌-ℤ◌, ◌+ℤ◌, ◌≤ℤ◌, wrap64, InInt64, difference-InInt64, int_laws, wrap64-eq,
  InInt64-in_int64, ==ℤ_iff,
}

abbrev pub funds : ℤ → Db → ℤ
funds a d = balance_of a d.ledger_entries

abbrev pub held : ℤ → Db → ℤ
held a d = reserved_of a d.reservations

-- `amount` if the two ids are one account, else 0
abbrev pub at_account : ℤ → ℤ → ℤ → ℤ
at_account a b amount = if a ==ℤ b then amount else pos 0

-- The new active reservation `r` is stored, no entry is written, the sum held grows by the amount
-- for account `a` and for no other, and `available` is what is left, not negative.
pub record Holds (a amount : ℤ) (r : Reservation) (available : ℤ) (d d' : Db) : Type 0 where
  pub answer : available ≡ funds a d' -ℤ held a d'
  pub nonneg : pos 0 ≤ℤ available
  pub stored : find_reservation r.id d'.reservations ≡ some r
  pub is_active : r.status ≡ active
  pub no_entry : d'.ledger_entries ≡ d.ledger_entries
  pub holds : (b : ℤ) → held b d' ≡ at_account a b amount +ℤ held b d

-- The sum of `r` went from the buyer's entries to the payee's, and out of what the buyer holds,
-- for every account, also when the two are one; two entries are named; `r` is committed.
pub record Moves (i : String) (payee_id : ℤ) (r : Reservation) (ids : List String) (d d' : Db)
    : Type 0 where
  pub paid :
      (b : ℤ)
      → funds b d' +ℤ at_account r.account_id b r.amount_cents
        ≡ at_account payee_id b r.amount_cents +ℤ funds b d
  pub freed : (b : ℤ) → held b d' +ℤ at_account r.account_id b r.amount_cents ≡ held b d
  pub pair : length ids ≡ 2
  pub stored : find_reservation i d'.reservations ≡ some (record r { status = committed })

-- The sum of `r` is no longer held, and no entry is written.
pub record Frees (i : String) (r : Reservation) (m : Money) (d d' : Db) : Type 0 where
  pub answer : m.amount_cents ≡ available_now r.account_id d'
  pub no_entry : d'.ledger_entries ≡ d.ledger_entries
  pub freed : (b : ℤ) → held b d' +ℤ at_account r.account_id b r.amount_cents ≡ held b d
  pub stored : find_reservation i d'.reservations ≡ some (record r { status = released })

regroup : (f h m : ℤ) → f -ℤ h -ℤ m ≡ f -ℤ (m +ℤ h)
regroup f h m = omega int_laws

left_nonneg : (f h m : ℤ) → m ≤ℤ f -ℤ h → pos 0 ≤ℤ f -ℤ h -ℤ m
left_nonneg f h m le = omega int_laws

module _ (env : Env) (a : ℤ) (amount : Money) (key : String) (d d' : Db) (i : String)
    (r : Reservation) (s : Sound env a d) (c : Created a amount key d i r d') where
  exact_answer :
      wrap64 (available_now a d -ℤ amount.amount_cents)
      ≡ funds a d -ℤ held a d -ℤ amount.amount_cents
  exact_answer =
      let fits : InInt64 (funds a d -ℤ held a d) =
        difference-InInt64 (funds a d) (held a d) (reserved_of_nonneg a d.reservations s.0) s.1
          c.balance_fits in
      rw (available_now-exact a d s.0 s.1 c.balance_fits) (
        wrap64-eq _ (
          difference-InInt64 (funds a d -ℤ held a d) amount.amount_cents
            (ground (arith, c.positive))
            (room a d amount.amount_cents s.0 s.1 c.balance_fits c.covered)
            (InInt64-in_int64 _ fits)))

  held_after : (b : ℤ) → held b d' ≡ at_account a b amount.amount_cents +ℤ held b d
  held_after b = rw (c.after, c.row) (held_insert b (a ==ℤ b) amount.amount_cents (held b d))
    where
      held_insert :
          (b : ℤ) (c : Bool) (x h : ℤ)
          → (if c && true then x +ℤ h else h) ≡ (if c then x else pos 0) +ℤ h
      held_insert b true x h = refl
      held_insert b false x h = omega int_laws

  stored_answer : r.available_after_cents ≡ funds a d -ℤ held a d -ℤ amount.amount_cents
  stored_answer = ap (λ (x : Reservation). x.available_after_cents) c.row ∙ exact_answer

  held_here : held a d' ≡ amount.amount_cents +ℤ held a d
  held_here =
      held_after a
      ∙ ap (λ (t : Bool). (if t then amount.amount_cents else pos 0) +ℤ held a d)
          ((==ℤ_iff a a).1 refl)

  funds_same : funds a d' ≡ funds a d
  funds_same = rw c.after

  created-Holds : Holds a amount.amount_cents r r.available_after_cents d d'
  created-Holds = record {
    answer =
        rw (held_here, funds_same)
          (stored_answer ∙ regroup (funds a d) (held a d) amount.amount_cents);
    nonneg = rw stored_answer (
        left_nonneg (funds a d) (held a d) amount.amount_cents
          (room a d amount.amount_cents s.0 s.1 c.balance_fits c.covered));
    stored = rw c.after (rw ((eq_iff r.id r.id).1 refl));
    is_active = rw c.row;
    no_entry = rw c.after;
    holds = held_after;
  }

-- A `Reserve` under a new key that was answered, for an account whose reservations are covered by
-- its entries: the returned reservation is stored and active, no ledger entry is written, the
-- account holds the amount more and every other account what it held, and the answer is what is
-- left, which is not negative.
pub reserve-Holds :
    (env : Env) (a : ℤ) (amount : Money) (key : String) (w : World) (r : Reservation)
    (available : ℤ) (v : World)
    → Sound env a w.db
    → find_by_key key w.db.reservations ≡ none
    → reserve env a amount key w ≡ (ok (r, available), v)
    → Holds a amount.amount_cents r available w.db v.db
reserve-Holds env a amount key w r available v s new h =
    let (effect, answer) = (reserve-ReserveEffect env a amount key w).at (r, available) v h in
    rw answer (by_effect effect)
  where
    by_effect :
        ReserveEffect a amount key w.db r v.db
        → Holds a amount.amount_cents r r.available_after_cents w.db v.db
    by_effect (ReserveEffect.replayed f _) = cc (new, f)
    by_effect (ReserveEffect.created account i _ _ c) =
        created-Holds env a amount key w.db v.db i r s c

pay_sum :
    (x y : Bool) (m f : ℤ)
    → (if x then (pos 0 -ℤ m) +ℤ (if y then m +ℤ f else f) else (if y then m +ℤ f else f))
        +ℤ (if x then m else pos 0)
      ≡ (if y then m else pos 0) +ℤ f
pay_sum true true m f = omega int_laws
pay_sum true false m f = omega int_laws
pay_sum false true m f = omega int_laws
pay_sum false false m f = omega int_laws

module _ (env : Env) (i : String) (key : String) (d d' : Db) (r : Reservation)
    (t : IsTable d.reservations) where
  Paid-Moves :
      (payee_id : ℤ) (buyer payee : Account) (op debit_id credit_id json : String)
      (ids : List String)
      → Paid env i payee_id key d r buyer payee op debit_id credit_id json ids d'
      → Moves i payee_id r ids d d'
  Paid-Moves payee_id buyer payee op debit_id credit_id json ids c = record {
    paid = λ b.
        rw
          (
            c.after,
            find_account_id r.account_id d.accounts buyer c.buyer_found,
            find_account_id payee_id d.accounts payee c.payee_found,
          )
          (pay_sum (r.account_id ==ℤ b) (payee_id ==ℤ b) r.amount_cents (funds b d));
    freed = λ b.
        rw c.after (reserved_of-close b i committed d.reservations r t c.found c.was_active refl);
    pair = rw c.answer;
    stored = rw c.after (find_reservation-update_self i committed d.reservations ∙ rw c.found);
  }

  Freed-Frees :
      (json : String) (m : Money)
      → m ≡ as_money (release_result r (freed_tables i d))
      → Freed i key json r d d'
      → Frees i r m d d'
  Freed-Frees json m e c = record {
    answer = rw (e, c.after);
    no_entry = rw c.after;
    freed = λ b.
        rw c.after (reserved_of-close b i released d.reservations r t c.found c.was_active refl);
    stored = rw c.after (find_reservation-update_self i released d.reservations ∙ rw c.found);
  }

module _ (env : Env) (i : String) (key : String) (w v : World) (r : Reservation)
    (t : IsTable w.db.reservations) (found : find_reservation i w.db.reservations ≡ some r)
    (was : r.status ≡ active) where
  -- A `Commit` of an active reservation under a new key that was answered: the reserved sum has
  -- moved from the buyer's entries to the payee's, once, and no other account's entries add up to
  -- anything else; the buyer no longer holds it; two entries are named; and the reservation is
  -- committed.
  pub commit-Moves :
      (payee_id : ℤ) (ids : List String)
      → stored_result key commit w.db.operations ≡ none
      → commit_funds env i payee_id key w ≡ (ok ids, v)
      → Moves i payee_id r ids w.db v.db
  commit-Moves payee_id ids new h =
      by_effect ((commit-CommitEffect env i payee_id key w).at ids v h)
    where
      by_effect : CommitEffect env i payee_id key w.db ids v.db → Moves i payee_id r ids w.db v.db
      by_effect (CommitEffect.replayed json f _ _) = cc (new, f)
      by_effect (CommitEffect.already x json _ f st _ _ _) =
          let is_x : r ≡ x = cc (found, f) in
          let both : active ≡ committed = sym was ∙ ap (λ (z : Reservation). z.status) is_x ∙ st in
          cc both
      by_effect (CommitEffect.paid x buyer payee op debit_id credit_id json c) =
          let is_x : x ≡ r = cc (found, c.found) in
          subst (λ z. Moves i payee_id z ids w.db v.db) is_x
            (Paid-Moves env i key w.db v.db x t payee_id buyer payee op debit_id credit_id json ids
              c)

  -- A `Release` of an active reservation under a new key that was answered: the buyer no longer
  -- holds the sum, no ledger entry is written, the reservation is released, and the answer is what
  -- is available afterwards.
  pub release-Frees :
      (m : Money)
      → stored_result key release w.db.operations ≡ none
      → release_funds env i key w ≡ (ok m, v)
      → Frees i r m w.db v.db
  release-Frees m new h = by_effect ((release-ReleaseEffect env i key w).at m v h)
    where
      by_effect : ReleaseEffect env i key w.db m v.db → Frees i r m w.db v.db
      by_effect (ReleaseEffect.replayed json res f _ _ _) = cc (new, f)
      by_effect (ReleaseEffect.already x json _ f st _ _ _) =
          let is_x : r ≡ x = cc (found, f) in
          let both : active ≡ released = sym was ∙ ap (λ (z : Reservation). z.status) is_x ∙ st in
          cc both
      by_effect (ReleaseEffect.freed x json n f st e j same) =
          let is_x : x ≡ r = cc (found, f) in
          subst (λ z. Frees i z m w.db v.db) is_x
            (Freed-Frees env i key w.db v.db x t json m e
              (record { new = n; found = f; was_active = st; after = same }))
