-- ===== src/Wallet/Tx/Ensures.antt =====
-- Postconditions of transactions: what holds if a body returns a value. Nothing is claimed after
-- an error, since `within_tx` rolls the tables back.
use mathlib.Core.Path.{subst₂}
use gosplash.Prelude.{
  ◌≡◌, refl, Bool, false, true, Option, none, some, arith, ◌+◌, [], Bool-cases, inl, inr,
  if◌then◌else◌,
}
use gosplash.Wallet.Domain.{Error, storage}
use gosplash.Wallet.Tx.{
  Db, World, Env, Result, ok, err, Tx, and_then, or_raise, raise_if, statement, within_tx, settle,
  ◌>>◌, pure, new_id, raise,
}

pub record Ensures {A : Type 0} (Q : A → World → Type 0) (r : Result A × World) : Type 0 where
  pub at : (a : A) (w : World) → r ≡ (ok a, w) → Q a w

pub Ensures-pure :
    {A : Type 0} {Q : A → World → Type 0} (a : A) (w : World) → Q a w → Ensures Q (ok a, w)
Ensures-pure {Q} a w h = record {
  at = λ b v e. let p : a ≡ b = cc in let q : w ≡ v = cc in subst₂ Q p q h;
}

pub Ensures-raise :
    {A : Type 0} {Q : A → World → Type 0} (e : Error) (w : World) → Ensures Q (err e, w)
Ensures-raise e w = record { at = λ b v p. cc }

pub Ensures-bind :
    {A B : Type 0} {P : A → World → Type 0} {Q : B → World → Type 0} (r : Result A × World)
    (f : A → Tx B)
    → Ensures P r
    → ((a : A) (w : World) → P a w → Ensures Q (f a w))
    → Ensures Q (and_then r f)
unfolding and_then
Ensures-bind (ok a, w) f h k = k a w (h.at a w refl)
Ensures-bind (err e, w) f h k = Ensures-raise e w

pub Ensures-weaken :
    {A : Type 0} {P Q : A → World → Type 0} {r : Result A × World}
    → Ensures P r
    → ((a : A) (w : World) → P a w → Q a w)
    → Ensures Q r
Ensures-weaken h k = record { at = λ a w e. k a w (h.at a w e) }

pub Ensures-raise_if :
    {d : Db} (c : Bool) (e : Error) (w : World)
    → w.db ≡ d
    → Ensures (λ _ v. (v.db ≡ d) × (c ≡ false)) (raise_if c e w)
Ensures-raise_if true e w h = Ensures-raise e w
Ensures-raise_if false e w h = Ensures-pure tt w (h, refl)

pub Ensures-or_raise :
    {A : Type 0} {d : Db} (o : Option A) (e : Error) (w : World)
    → w.db ≡ d
    → Ensures (λ a v. (v.db ≡ d) × (o ≡ some a)) (or_raise o e w)
Ensures-or_raise none e w h = Ensures-raise e w
Ensures-or_raise (some a) e w h = Ensures-pure a w (h, refl)

module _ (env : Env) where
  -- A statement changes no table.
  pub Ensures-statement :
      {d : Db} (w : World) → w.db ≡ d → Ensures (λ _ v. v.db ≡ d) (statement env w)
  unfolding statement
  Ensures-statement w h = record { at = λ a v e. ground arith }

  -- So does a fresh id.
  pub Ensures-new_id : {d : Db} (w : World) → w.db ≡ d → Ensures (λ _ v. v.db ≡ d) (new_id env w)
  unfolding new_id
  Ensures-new_id w h = record { at = λ a v e. ground arith }

module _ (env : Env) {A : Type 0} where
  -- What the body ensures of the tables is there after the COMMIT.
  pub Ensures-within_tx :
      (R : A → Db → Type 0) (body : Tx A) (w : World)
      → Ensures (λ a v. R a v.db) (body (record w { locks = [] }))
      → Ensures (λ a v. R a v.db) (within_tx env body w)
  unfolding within_tx statement
  Ensures-within_tx R body w h = commit_step (body (record w { locks = [] })) h
    where
      commit_step :
          (r : Result A × World)
          → Ensures (λ a v. R a v.db) r
          → Ensures (λ a v. R a v.db) (settle w.db (and_then r (λ a. statement env >> pure a)))
      commit_step (err e, v) h = Ensures-raise e (record v { db = w.db })
      commit_step (ok a, v) h = elim (Bool-cases (env.fails v.calls)) [
        | inl p ↦ rw p (Ensures-raise storage (record v { db = w.db; calls = v.calls + 1 }))
        | inr p ↦ rw p (Ensures-pure a (record v { calls = v.calls + 1 }) (h.at a v refl))
      ]

  -- A transaction that ends with an error has changed no table.
  pub within_tx_error :
      (body : Tx A) (w : World) (e : Error) (v : World)
      → within_tx env body w ≡ (err e, v)
      → v.db ≡ w.db
  unfolding within_tx statement
  within_tx_error body w e v h = rolled_back (body (record w { locks = [] })) h
    where
      rolled_back :
          (r : Result A × World)
          → settle w.db (and_then r (λ a. statement env >> pure a)) ≡ (err e, v)
          → v.db ≡ w.db
      rolled_back (err x, u) p = cc
      rolled_back (ok a, u) p = ground arith

-- An action whose errors leave the tables as they were.
pub record RollsBack {A : Type 0} (m : Tx A) : Type 0 where
  pub at : (w : World) (e : Error) (v : World) → m w ≡ (err e, v) → v.db ≡ w.db

pub raise-RollsBack : {A : Type 0} (e : Error) → RollsBack {A = A} (raise e)
raise-RollsBack e = record { at = λ w x v p. cc }

pub if-RollsBack :
    {A : Type 0} (c : Bool) {m n : Tx A}
    → RollsBack m
    → RollsBack n
    → RollsBack (if c then m else n)
if-RollsBack true hm hn = hm
if-RollsBack false hm hn = hn

pub within_tx-RollsBack : (env : Env) {A : Type 0} (body : Tx A) → RollsBack (within_tx env body)
within_tx-RollsBack env body = record { at = within_tx_error env body }

-- Such an action makes what it ensures true of the tables, or changes none.
pub step_of {ℓ} :
    {A : Type 0} {Q : A → World → Type 0} (S : Db → Type ℓ) {m : Tx A} (w : World)
    → RollsBack m
    → Ensures Q (m w)
    → ((d : Db) → d ≡ w.db → S d)
    → ((a : A) (v : World) → Q a v → S v.db)
    → S (m w).1.db
step_of {A} S {m} w rolls posts unchanged changed = by_result (m w) refl
  where
    by_result : (r : Result A × World) → m w ≡ r → S r.1.db
    by_result (ok a, v) e = changed a v (posts.at a v e)
    by_result (err x, v) e = unchanged v.db (rolls.at w x v e)
