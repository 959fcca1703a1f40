-- ===== src/Prelude/Int.antt =====
-- Go's int64 as integers over the native numbers: exact sums, and the wrap to 64 bits.
use gosplash.Prelude.{
  ℕ, suc, ◌+◌, ◌-◌, ◌%◌, ◌^◌, ◌≤◌, ◌<◌, ◌≡◌, ◌↔◌, Bool, true, false, ◌&&◌, arith, ltb, leb, ◌==◌,
  if◌then◌else◌,
}

-- `negsuc n` is -(n + 1).
pub data ℤ : Type 0 where
  pos : ℕ → ℤ
  negsuc : ℕ → ℤ

abbrev pub pos_part : ℤ → ℕ
pos_part (pos n) = n
pos_part (negsuc n) = 0

abbrev pub neg_part : ℤ → ℕ
neg_part (pos n) = 0
neg_part (negsuc n) = suc n

-- a - b, as an integer.
abbrev pub sub_ℕ : ℕ → ℕ → ℤ
sub_ℕ a b = if leb b a then pos (a - b) else negsuc (b - a - 1)

infixl 65 ◌+ℤ◌ ◌-ℤ◌
infix 50 ◌≤ℤ◌ ◌==ℤ◌
unfoldable pub ◌+ℤ◌ : ℤ → ℤ → ℤ
a +ℤ b = sub_ℕ (pos_part a + pos_part b) (neg_part a + neg_part b)

unfoldable pub ◌-ℤ◌ : ℤ → ℤ → ℤ
a -ℤ b = sub_ℕ (pos_part a + neg_part b) (neg_part a + pos_part b)

abbrev pub ◌≤ℤ◌ : ℤ → ℤ → Type 0
a ≤ℤ b = pos_part a + neg_part b ≤ pos_part b + neg_part a

abbrev pub ltb_ℤ : ℤ → ℤ → Bool
ltb_ℤ a b = ltb (pos_part a + neg_part b) (pos_part b + neg_part a)

abbrev pub leb_ℤ : ℤ → ℤ → Bool
leb_ℤ a b = leb (pos_part a + neg_part b) (pos_part b + neg_part a)

-- Equality of ids; shut, so that a proof reads it through `==ℤ_iff`.
unfoldable pub ◌==ℤ◌ : ℤ → ℤ → Bool
pos a ==ℤ pos b = a == b
negsuc a ==ℤ negsuc b = a == b
pos a ==ℤ negsuc b = false
negsuc a ==ℤ pos b = false

pub ==ℤ_iff : (a b : ℤ) → ((a ==ℤ b) ≡ true) ↔ (a ≡ b)
unfolding ◌==ℤ◌
==ℤ_iff (pos a) (pos b) = (λ h. ground arith, λ h. ground arith)
==ℤ_iff (negsuc a) (negsuc b) = (λ h. ground arith, λ h. ground arith)
==ℤ_iff (pos a) (negsuc b) = (λ h. cc, λ h. cc)
==ℤ_iff (negsuc a) (pos b) = (λ h. cc, λ h. cc)

pub +ℤ_parts :
    (a b : ℤ)
    → pos_part (a +ℤ b) + neg_part a + neg_part b ≡ neg_part (a +ℤ b) + pos_part a + pos_part b
unfolding ◌+ℤ◌
+ℤ_parts a b = ground arith

pub -ℤ_parts :
    (a b : ℤ)
    → pos_part (a -ℤ b) + neg_part a + pos_part b ≡ neg_part (a -ℤ b) + pos_part a + neg_part b
unfolding ◌-ℤ◌
-ℤ_parts a b = ground arith

pub eq_of_parts : (a b : ℤ) → pos_part a + neg_part b ≡ pos_part b + neg_part a → a ≡ b
eq_of_parts a b h = ground arith

-- One lemma for each operation lets the tactics work with the operations shut.
pub ruleset int_laws = (arith, +ℤ_parts, -ℤ_parts, eq_of_parts)

-- The range of int64: -2^63 up to 2^63 - 1.
abbrev pub InInt64 : ℤ → Type 0
InInt64 n = (pos_part n < 9223372036854775808) × (neg_part n ≤ 9223372036854775808)

abbrev pub in_int64 : ℤ → Bool
in_int64 n = ltb (pos_part n) 9223372036854775808 && leb (neg_part n) 9223372036854775808

pub in_int64-InInt64 : (n : ℤ) → in_int64 n ≡ true → InInt64 n
in_int64-InInt64 (pos n) h = ground arith
in_int64-InInt64 (negsuc n) h = ground arith

-- Nothing overflows when a smaller sum is taken from a larger one.
pub difference-InInt64 : (a b : ℤ) → pos 0 ≤ℤ b → b ≤ℤ a → in_int64 a ≡ true → InInt64 (a -ℤ b)
unfolding ◌-ℤ◌
difference-InInt64 a b h k r = ground arith

pub le_of_ltb_ℤ : (a b : ℤ) → ltb_ℤ a b ≡ false → b ≤ℤ a
le_of_ltb_ℤ a b h = ground arith

-- The 64-bit pattern of an integer, and the integer that a pattern stands for.
to_bits : ℤ → ℕ
to_bits (pos n) = n % 18446744073709551616
to_bits (negsuc n) = 18446744073709551615 - n % 18446744073709551616

of_bits : ℕ → ℤ
of_bits b = if ltb b 9223372036854775808 then pos b else negsuc (18446744073709551615 - b)

-- What an int64 operation leaves of its exact result.
unfoldable pub wrap64 : ℤ → ℤ
unfolding to_bits of_bits
wrap64 n = of_bits (to_bits n)

-- An exact result in range is not changed.
pub wrap64-eq : (n : ℤ) → InInt64 n → wrap64 n ≡ n
unfolding wrap64
wrap64-eq (pos n) h = ground arith
wrap64-eq (negsuc n) h = ground arith

pub InInt64-in_int64 : (n : ℤ) → InInt64 n → in_int64 n ≡ true
InInt64-in_int64 (pos n) h = ground arith
InInt64-in_int64 (negsuc n) h = ground arith
