-- ===== src/Kafka/Backoff/Bounds.antt =====
-- The bounds of the delays of pkg/kafkax/backoff.go.
use native.Mathlib.Nat.{pow-le-pow_right}
use gosplash.Prelude.{ℕ, ◌*◌, ◌^◌, ◌≤◌, ◌≡◌, arith, ◌+◌}
use gosplash.Prelude.Int.{ℤ, pos, ◌≤ℤ◌, ◌+ℤ◌, wrap64, wrap64-eq, int_laws, negsuc}
use gosplash.Kafka.Backoff.{shift_of, ceiling, backoff, max_shift, backoff_base, backoff_cap}

shift_le : (a : ℤ) → shift_of a ≤ max_shift
unfolding shift_of
shift_le a = ground arith

shift_mono : (a b : ℤ) → a ≤ℤ b → shift_of a ≤ shift_of b
unfolding shift_of
shift_mono a b h = ground arith

-- The exponential, and its range: nothing overflows.
power_range : (s : ℕ) → s ≤ max_shift → (1 ≤ 2 ^ s) × (2 ^ s ≤ 1048576)
power_range s h = (
  pow-le-pow_right {n = 2} (omega arith) {i = 0} {j = s} (omega arith),
  pow-le-pow_right {n = 2} (omega arith) {i = s} {j = 20} h,
)

exponential_eq :
    (a : ℤ) → wrap64 (pos (backoff_base * 2 ^ shift_of a)) ≡ pos (backoff_base * 2 ^ shift_of a)
exponential_eq a =
    let r = power_range (shift_of a) (shift_le a) in
    wrap64-eq (pos (backoff_base * 2 ^ shift_of a)) (omega (arith, r.1), omega arith)

ceiling_range : (a : ℤ) → (pos 200000000 ≤ℤ ceiling a) × (ceiling a ≤ℤ backoff_cap)
unfolding ceiling
ceiling_range a =
    let r = power_range (shift_of a) (shift_le a) in rw (exponential_eq a) (ground (arith, r))

ceiling_mono : (a b : ℤ) → a ≤ℤ b → ceiling a ≤ℤ ceiling b
unfolding ceiling
ceiling_mono a b h =
    let p : 2 ^ shift_of a ≤ 2 ^ shift_of b =
      pow-le-pow_right {n = 2} (omega arith) (shift_mono a b h) in
    rw (exponential_eq a, exponential_eq b) (ground (arith, p))

pub next_pos : (n : ℕ) → pos n +ℤ pos 1 ≡ pos (n + 1)
unfolding ◌+ℤ◌
next_pos n = ground arith

-- One more than the largest delay is still a positive 64-bit number.
after_one :
    (c : ℤ)
    → pos 200000000 ≤ℤ c
    → c ≤ℤ backoff_cap
    → (wrap64 (c +ℤ pos 1) ≡ c +ℤ pos 1) × (pos 1 ≤ℤ c +ℤ pos 1)
after_one (pos n) lo hi = (
  rw (next_pos n) (wrap64-eq (pos (n + 1)) (omega (arith, hi), omega arith)),
  rw (next_pos n) (omega arith),
)
after_one (negsuc n) lo hi = ground arith

less_one : (d c : ℤ) → d +ℤ pos 1 ≤ℤ c +ℤ pos 1 → d ≤ℤ c
less_one d c h = omega (int_laws, h)

-- The largest delay grows with the attempt, from 200 ms to at most 30 s, also for an attempt below
-- one or far beyond the range of a shift; and a draw that stays below its bound gives a delay from
-- 0 to that largest delay.
backoff_bounds :
    (int64_n : ℤ → ℤ)
    → ((n : ℤ) → pos 1 ≤ℤ n → (pos 0 ≤ℤ int64_n n) × (int64_n n +ℤ pos 1 ≤ℤ n))
    → (a b : ℤ) → a ≤ℤ b
    → (pos 200000000 ≤ℤ ceiling a)
      × (ceiling a ≤ℤ ceiling b)
      × (ceiling b ≤ℤ backoff_cap)
      × (pos 0 ≤ℤ backoff int64_n a)
      × (backoff int64_n a ≤ℤ ceiling a)
unfolding backoff
backoff_bounds int64_n draws a b h =
    let r = ceiling_range a in
    let s = after_one (ceiling a) r.0 r.1 in
    let d = draws (ceiling a +ℤ pos 1) s.1 in
    (
      r.0,
      ceiling_mono a b h,
      (ceiling_range b).1,
      rw s.0 d.0,
      rw s.0 (less_one (int64_n (ceiling a +ℤ pos 1)) (ceiling a) d.1),
    )
