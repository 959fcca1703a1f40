-- ===== src/Wallet/Locks/Order.antt =====
-- `lockAccountsSorted` returns the two accounts in the order of its arguments, whatever the order
-- of its statements and locks, which is the same for both orders of the arguments.
use gosplash.Wallet.Domain.{Account}
use gosplash.Wallet.Store.Specs.{Ensures-lock_account}
use gosplash.Wallet.Store.{find_account, lock_account}
use gosplash.Wallet.Tx.Ensures.{Ensures, Ensures-bind, Ensures-pure}
use gosplash.Prelude.{
  ◌≡◌, some, Bool-cases, inl, inr, true, sym, false, ap, arith, ◌∙◌, subst, refl,
}
use gosplash.Prelude.Int.{ℤ, ltb_ℤ, ◌==ℤ◌, ==ℤ_iff, int_laws, le_of_ltb_ℤ}
use gosplash.Wallet.Locks.{lock_pair, lock_accounts_sorted, swap_pair}
use gosplash.Wallet.Tx.{Env, Db, World, Result, and_then, pure, ok, err}

-- Whatever the order of locking, the accounts come back as they were asked for.
module _ (env : Env) {d : Db} where
  Ensures-lock_pair :
      (a b : ℤ) (w : World)
      → w.db ≡ d
      → Ensures
          (λ (x, y) v.
            (v.db ≡ d)
            × (find_account a d.accounts ≡ some x)
            × (find_account b d.accounts ≡ some y))
          (lock_pair env a b w)
  unfolding lock_pair
  Ensures-lock_pair a b w here =
      Ensures-bind _ _ (Ensures-lock_account env w here a) λ x w₁ (h₁, fx).
        elim (Bool-cases (a ==ℤ b)) [
          | inl same ↦ rw same (Ensures-pure _ w₁ (h₁, fx, rw (← (==ℤ_iff a b).0 same) fx))
          | inr apart ↦ rw apart (
              Ensures-bind _ _ (Ensures-lock_account env w₁ h₁ b)
                λ y w₂ (h₂, fy). Ensures-pure _ w₂ (h₂, fx, fy))
        ]

  pub Ensures-lock_accounts_sorted :
      (a b : ℤ) (w : World)
      → w.db ≡ d
      → Ensures
          (λ (x, y) v.
            (v.db ≡ d)
            × (find_account a d.accounts ≡ some x)
            × (find_account b d.accounts ≡ some y))
          (lock_accounts_sorted env a b w)
  unfolding lock_accounts_sorted
  Ensures-lock_accounts_sorted a b w here = elim (Bool-cases (ltb_ℤ b a)) [
    | inl down ↦ rw down (
        Ensures-bind _ _ (Ensures-lock_pair b a w here)
          λ (y, x) w₁ (h₁, fy, fx). Ensures-pure _ w₁ (h₁, fx, fy))
    | inr up ↦ rw up (Ensures-lock_pair a b w here)
  ]

-- The two accounts of an answer in the other order.
abbrev swapped : Result (Account × Account) × World → Result (Account × Account) × World
swapped (ok (x, y), v) = (ok (y, x), v)
swapped (err e, v) = (err e, v)

swapped_bind :
    (p : Result (Account × Account) × World)
    → and_then p (λ locked. pure (swap_pair locked)) ≡ swapped p
unfolding and_then
swapped_bind (ok (x, y), v) = refl
swapped_bind (err e, v) = refl

swapped-swapped : (p : Result (Account × Account) × World) → swapped (swapped p) ≡ p
swapped-swapped (ok (x, y), v) = refl
swapped-swapped (err e, v) = refl

module _ (env : Env) (a b : ℤ) (w : World) where
  sorted_down :
      ltb_ℤ b a ≡ true → lock_accounts_sorted env a b w ≡ swapped (lock_accounts_sorted env b a w)
  unfolding lock_accounts_sorted
  sorted_down h =
      let up : ltb_ℤ a b ≡ false = ground arith in rw (h, up) (swapped_bind (lock_pair env b a w))

twice :
    (p : Result Account × World)
    → and_then p (λ x. pure (x, x)) ≡ swapped (and_then p (λ x. pure (x, x)))
unfolding and_then
twice (ok x, v) = refl
twice (err e, v) = refl

sorted_same :
    (env : Env) (a : ℤ) (w : World)
    → lock_accounts_sorted env a a w ≡ swapped (lock_accounts_sorted env a a w)
unfolding lock_accounts_sorted lock_pair
sorted_same env a w =
    let level : ltb_ℤ a a ≡ false = ground arith in
    let one : (a ==ℤ a) ≡ true = (==ℤ_iff a a).1 refl in
    rw (level, one) (twice (lock_account env a w))

-- Two transactions that lock the same two accounts, in whatever order they name them, send the
-- same statements and take the same locks in the same order, so that neither waits for the other
-- with one account each; and they get the accounts in the order in which they asked.
lock_accounts_sorted_sym :
    (env : Env) (a b : ℤ) (w : World)
    → lock_accounts_sorted env b a w ≡ swapped (lock_accounts_sorted env a b w)
lock_accounts_sorted_sym env a b w = elim (Bool-cases (ltb_ℤ a b)) [
  | inl up ↦ sorted_down env b a w up
  | inr not_up ↦ elim (Bool-cases (ltb_ℤ b a)) [
    | inl down ↦
        sym (
          ap swapped (sorted_down env a b w down)
          ∙ swapped-swapped (lock_accounts_sorted env b a w))
    | inr not_down ↦
        let same : a ≡ b = omega (int_laws, le_of_ltb_ℤ a b not_up, le_of_ltb_ℤ b a not_down) in
        subst (λ z. lock_accounts_sorted env z a w ≡ swapped (lock_accounts_sorted env a z w)) same
          (sorted_same env a w)
  ]
]
