-- ===== src/Wallet/Reserve/Effect.antt =====
-- What a successful `Reserve` has done to the tables, as a relation.
use gosplash.Wallet.Store.Specs.{
  Ensures-lock_account, Ensures-ledger_balance, Ensures-active_reserved_sum,
  Ensures-insert_reservation, Ensures-find_by_key,
}
use gosplash.Wallet.Tx.Ensures.{
  Ensures, Ensures-bind, Ensures-raise_if, Ensures-new_id, Ensures-pure, Ensures-raise,
  Ensures-within_tx,
}
use gosplash.Wallet.Reserve.{reserve_new, new_reservation, reserve_tx, reserve, reserve_or_replay}
use gosplash.Wallet.Store.{balance_of, find_by_key, reserved_of, find_reservation, find_account}
use gosplash.Prelude.{
  String, ◌≡◌, none, some, true, false, ◌∷◌, arith, eq_iff, refl, Option, Bool-cases, str_eq, inl,
  inr, [],
}
use gosplash.Wallet.Domain.{Money, Reservation, Account}
use gosplash.Wallet.Tx.{Env, Db, World}
use gosplash.Prelude.Int.{ℤ, wrap64, ◌-ℤ◌, leb_ℤ, in_int64, pos, ltb_ℤ}

-- `currentAvailable`: the sum that the service computes for an account.
abbrev pub available_now : ℤ → Db → ℤ
available_now a d = wrap64 (balance_of a d.ledger_entries -ℤ reserved_of a d.reservations)

-- A new reservation with id `i` was inserted.
pub record Created (a : ℤ) (amount : Money) (key : String) (d : Db) (i : String) (r : Reservation)
    (d' : Db) : Type 0 where
  pub new : find_by_key key d.reservations ≡ none
  pub fresh : find_reservation i d.reservations ≡ none
  pub balance_fits : in_int64 (balance_of a d.ledger_entries) ≡ true
  pub reserved_fits : in_int64 (reserved_of a d.reservations) ≡ true
  pub positive : leb_ℤ amount.amount_cents (pos 0) ≡ false
  pub covered : ltb_ℤ (available_now a d) amount.amount_cents ≡ false
  pub row : r ≡ new_reservation i a amount key (available_now a d)
  pub after : d' ≡ record d { reservations = r ∷ d.reservations }

pub data ReserveEffect (a : ℤ) (amount : Money) (key : String) (d : Db) (r : Reservation) (d' : Db)
    : Type 0 where
  replayed : find_by_key key d.reservations ≡ some r → d' ≡ d → ReserveEffect a amount key d r d'
  created :
      (account : Account) (i : String)
      → find_account a d.accounts ≡ some account
      → account.currency ≡ amount.currency
      → Created a amount key d i r d'
      → ReserveEffect a amount key d r d'

module _ (env : Env) (a : ℤ) (amount : Money) (key : String) (d : Db) where
  abbrev Post : Reservation × ℤ → World → Type 0
  Post (r, available) v =
      ReserveEffect a amount key d r v.db × (available ≡ r.available_after_cents)

  module _ (new : find_by_key key d.reservations ≡ none)
      (positive : leb_ℤ amount.amount_cents (pos 0) ≡ false) where
    Ensures-reserve_new : (w : World) → w.db ≡ d → Ensures Post (reserve_new env a amount key w)
    unfolding reserve_new
    Ensures-reserve_new w here =
        Ensures-bind _ _ (Ensures-lock_account env w here a) λ account w₁ (h₁, found).
          Ensures-bind _ _ (Ensures-raise_if _ _ w₁ h₁) λ _ w₂ (h₂, same).
            Ensures-bind _ _ (Ensures-ledger_balance env w₂ h₂ a) λ balance w₃ (h₃, b, b_fits).
              Ensures-bind _ _ (Ensures-active_reserved_sum env w₃ h₃ a)
                λ reserved w₄ (h₄, s, s_fits).
                  Ensures-bind _ _ (Ensures-raise_if _ _ w₄ h₄) λ _ w₅ (h₅, enough).
                    Ensures-bind _ _ (Ensures-new_id env w₅ h₅) λ i w₆ h₆.
                      Ensures-bind _ _ (Ensures-insert_reservation env w₆ h₆ _ new)
                        λ was_new w₇ (is_new, fresh, h₇). rw is_new (
                          Ensures-pure _ w₇ (
                            created account i found
                                (ground (arith, eq_iff account.currency amount.currency))
                                (record {
                                  new = new;
                                  fresh = fresh;
                                  balance_fits = rw b at b_fits;
                                  reserved_fits = rw s at s_fits;
                                  positive = positive;
                                  covered = rw (b, s) at enough;
                                  row = rw (b, s);
                                  after = h₇;
                                }),
                            refl,
                          ))

  Ensures-reserve_tx :
      leb_ℤ amount.amount_cents (pos 0) ≡ false
      → (w : World) → w.db ≡ d
      → Ensures Post (reserve_tx env a amount key w)
  unfolding reserve_tx
  Ensures-reserve_tx positive w here =
      Ensures-bind _ _ (Ensures-find_by_key env w here key)
        λ o w₁ (h₁, found). rw found (known (find_by_key key d.reservations) refl w₁ h₁)
    where
      known :
          (o : Option Reservation)
          → find_by_key key d.reservations ≡ o
          → (v : World) → v.db ≡ d
          → Ensures Post (reserve_or_replay env a amount key o v)
      known none new v h = Ensures-reserve_new new positive v h
      known (some r) old v h = Ensures-pure _ v (replayed old h, refl)

-- A successful `Reserve` found the reservation of its key, or inserted one.
pub reserve-ReserveEffect :
    (env : Env) (a : ℤ) (amount : Money) (key : String) (w : World)
    → Ensures
        (λ (r, available) v.
          ReserveEffect a amount key w.db r v.db × (available ≡ r.available_after_cents))
        (reserve env a amount key w)
unfolding reserve
reserve-ReserveEffect env a amount key w = elim (Bool-cases (str_eq key "")) [
  | inl empty ↦ rw empty (Ensures-raise _ w)
  | inr named ↦ rw named (elim (Bool-cases (leb_ℤ amount.amount_cents (pos 0))) [
    | inl bad ↦ rw bad (Ensures-raise _ w)
    | inr positive ↦ rw positive (
        Ensures-within_tx env _ _ w
          (Ensures-reserve_tx env a amount key w.db positive (record w { locks = [] }) refl))
  ])
]
