-- ===== src/Redisx/Lock/Owner.antt =====
-- Who owns a lock of pkg/redisx/lock.go: the value of its key between `Acquire` and `Unlock`.
use gosplash.Redisx.Idempotency.{answered, unanswered, not_reached}
use gosplash.Prelude.{
  ℕ, ◌+◌, String, str_eq, Option, none, some, Bool, true, false, ◌≡◌, refl, inl, inr, arith,
  Bool-cases, ◌≤◌, eq_iff,
}
use gosplash.Redisx.Lock.{
  is_owned, Slot, Lock, World, is_over, live_value, value_of, is_value, put, stop_watchdog,
  count_command, unlock_script, extend_script, deliver, after_extend, after_unlock, after_claim,
  Reply,
}

is_over-later : (now t : ℕ) (d : Option ℕ) → is_over now d ≡ true → is_over (now + t) d ≡ true
unfolding is_over
is_over-later now t none h = h
is_over-later now t (some d) h = ground arith

pub is_value-later :
    (v : String) (now t : ℕ) (s : Option Slot)
    → is_value v (live_value now s) ≡ false
    → is_value v (live_value (now + t) s) ≡ false
unfolding is_value live_value
is_value-later v now t none h = h
is_value-later v now t (some s) h = elim (Bool-cases (is_over now s.deadline)) [
  | inl over ↦ rw (is_over-later now t s.deadline over) refl
  | inr live ↦ elim (Bool-cases (is_over (now + t) s.deadline)) [
    | inl over ↦ rw over refl
    | inr still ↦ rw still (rw live at h)
  ]
]

pub is_value-slot :
    (v : String) (now : ℕ) (s : Slot)
    → str_eq s.value v ≡ false
    → is_value v (live_value now (some s)) ≡ false
unfolding is_value live_value
is_value-slot v now s h = elim (Bool-cases (is_over now s.deadline)) [
  | inl over ↦ rw over refl
  | inr live ↦ rw live h
]

module _ (l : Lock) where
  pub lost-put-none :
      (k : String) (w : World) → is_owned l w ≡ false → is_owned l (put k none w) ≡ false
  unfolding is_owned value_of put live_value is_value
  lost-put-none k w h = elim (Bool-cases (str_eq l.key k)) [
    | inl same ↦ rw same refl
    | inr other ↦ rw other h
  ]

  -- A value other than the token does not give the lock back.
  pub lost-put-some :
      (k : String) (s : Slot) (w : World)
      → (str_eq l.key k ≡ true → str_eq s.value l.token ≡ false)
      → is_owned l w ≡ false
      → is_owned l (put k (some s) w) ≡ false
  unfolding is_owned value_of put
  lost-put-some k s w differs h = elim (Bool-cases (str_eq l.key k)) [
    | inl same ↦ rw same (is_value-slot l.token w.now s (differs same))
    | inr other ↦ rw other h
  ]

  -- Commands are counted up; and of a lock whose token was drawn before the n-th command: once its
  -- key has another value or none, it never has the token again.
  abbrev pub Follows : ℕ → World → World → Type 0
  Follows n w w' =
      (w.commands ≤ w'.commands) × (n ≤ w.commands → is_owned l w ≡ false → is_owned l w' ≡ false)

  pub Follows-trans : (n : ℕ) (u v w : World) → Follows n u v → Follows n v w → Follows n u w
  Follows-trans n u v w (a, f) (b, g) = (omega arith, λ h lost. g (omega arith) (f h lost))

  pub stop-Follows : (n : ℕ) (l' : Lock) (w : World) → Follows n w (stop_watchdog l' w)
  unfolding stop_watchdog is_owned value_of
  stop-Follows n l' w = (omega arith, λ h lost. lost)

  pub count-Follows : (n : ℕ) (w : World) → Follows n w (count_command w)
  unfolding count_command is_owned value_of
  count-Follows n w = (omega arith, λ h lost. lost)

  pub unlock_script-Follows : (n : ℕ) (l' : Lock) (w : World) → Follows n w (unlock_script l' w).1
  unfolding unlock_script put
  unlock_script-Follows n l' w = elim (Bool-cases (is_owned l' w)) [
    | inl mine ↦ rw mine (omega arith, λ h. lost-put-none l'.key w)
    | inr other ↦ rw other (omega arith, λ h lost. lost)
  ]

  -- An extension writes a token where it is already.
  own_token :
      (l' : Lock) (w : World)
      → is_owned l' w ≡ true
      → is_owned l w ≡ false
      → str_eq l.key l'.key ≡ true
      → str_eq l'.token l.token ≡ false
  unfolding is_owned
  own_token l' w mine lost same = elim (Bool-cases (str_eq l'.token l.token)) [
    | inr other ↦ other
    | inl token ↦
        let k = (eq_iff l.key l'.key).0 same in
        let t = (eq_iff l'.token l.token).0 token in absurd (cc)
  ]

  pub extend_script-Follows : (n : ℕ) (l' : Lock) (w : World) → Follows n w (extend_script l' w).1
  unfolding extend_script put
  extend_script-Follows n l' w = elim (Bool-cases (is_owned l' w)) [
    | inl mine ↦
        rw mine (omega arith, λ h lost. lost-put-some l'.key _ w (own_token l' w mine lost) lost)
    | inr other ↦ rw other (omega arith, λ h lost. lost)
  ]

  pub deliver-Follows :
      (n : ℕ) (r : Reply) (u w : World) (p : Bool × World)
      → Follows n u w
      → Follows n u p.1
      → Follows n u (deliver r w p).1
  unfolding deliver
  deliver-Follows n answered u w p f g = g
  deliver-Follows n unanswered u w p f g = g
  deliver-Follows n not_reached u w p f g = f

  pub after_extend-Follows :
      (n : ℕ) (l' : Lock) (u : World) (p : Option Bool × World)
      → Follows n u p.1
      → Follows n u (after_extend l' p)
  unfolding after_extend
  after_extend-Follows n l' u (none, w) f = Follows-trans n u w _ f (stop-Follows n l' w)
  after_extend-Follows n l' u (some b, w) f = f

  pub after_unlock-Follows :
      (n : ℕ) (u : World) (p : Option Bool × World)
      → Follows n u p.1
      → Follows n u (after_unlock p).1
  unfolding after_unlock
  after_unlock-Follows n u (none, w) f = f
  after_unlock-Follows n u (some true, w) f = f
  after_unlock-Follows n u (some false, w) f = f

  pub after_claim-Follows :
      (n : ℕ) (l' : Lock) (u : World) (p : Option Bool × World)
      → Follows n u p.1
      → Follows n u (after_claim l' p).1
  unfolding after_claim is_owned value_of
  after_claim-Follows n l' u (none, w) f = f
  after_claim-Follows n l' u (some false, w) f = f
  after_claim-Follows n l' u (some true, w) f = f
