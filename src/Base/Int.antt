-- ===== src/Base/Int.antt =====
-- Signed integers over the native numbers, and Go's int64: sums that wrap at 2 ^ 63.
use Prim.Native.Nat.{ℕ, suc, ◌+◌, ◌-◌, ◌≤◌, ◌<◌}
use mathlib.Core.Path.{◌≡◌}
use mathlib.Core.Logic.{◌↔◌}
use mathlib.Core.Bool.{Bool, true, false}
use native.Mathlib.Omega.{arith}
use sofa.Base.Tests.{ltb, leb, eqb, if◌then◌else◌}
use sofa.Base.Eq.{Equality}

-- `negsuc n` is -(n + 1).
pub data ℤ : Type 0 where
  pos : ℕ → ℤ
  negsuc : ℕ → ℤ

abbrev pub pos_part : ℤ → ℕ
pos_part (pos n) = n
pos_part (negsuc n) = 0

abbrev pub neg_part : ℤ → ℕ
neg_part (pos n) = 0
neg_part (negsuc n) = suc n

-- a - b, as an integer.
abbrev pub sub_ℕ : ℕ → ℕ → ℤ
sub_ℕ a b = if leb b a then pos (a - b) else negsuc (b - a - 1)

infix 50 ◌≤ℤ◌ ◌<ℤ◌
abbrev pub ◌≤ℤ◌ : ℤ → ℤ → Type 0
a ≤ℤ b = pos_part a + neg_part b ≤ pos_part b + neg_part a

abbrev pub ◌<ℤ◌ : ℤ → ℤ → Type 0
a <ℤ b = pos_part a + neg_part b < pos_part b + neg_part a

abbrev pub ltb_ℤ : ℤ → ℤ → Bool
ltb_ℤ a b = ltb (pos_part a + neg_part b) (pos_part b + neg_part a)

abbrev pub leb_ℤ : ℤ → ℤ → Bool
leb_ℤ a b = leb (pos_part a + neg_part b) (pos_part b + neg_part a)

abbrev pub int_test : ℤ → ℤ → Bool
int_test (pos a) (pos b) = eqb a b
int_test (pos a) (negsuc b) = false
int_test (negsuc a) (pos b) = false
int_test (negsuc a) (negsuc b) = eqb a b

pub int_test_iff : (a b : ℤ) → (int_test a b ≡ true) ↔ (a ≡ b)
int_test_iff a b = ground arith

instance abbrev pub int_eq : Equality ℤ
int_eq = record { test = int_test; test_iff = int_test_iff }

infixl 65 ◌+ℤ◌
unfoldable pub ◌+ℤ◌ : ℤ → ℤ → ℤ
a +ℤ b = sub_ℕ (pos_part a + pos_part b) (neg_part a + neg_part b)

pub +ℤ_parts :
    (a b : ℤ)
    → pos_part (a +ℤ b) + neg_part a + neg_part b ≡ neg_part (a +ℤ b) + pos_part a + pos_part b
unfolding ◌+ℤ◌
+ℤ_parts a b = ground arith

pub eq_of_parts : (a b : ℤ) → pos_part a + neg_part b ≡ pos_part b + neg_part a → a ≡ b
eq_of_parts a b h = ground arith

pub ruleset int_laws = (arith, +ℤ_parts, eq_of_parts)

-- 2 ^ 63
abbrev pub int64_bound : ℕ
int64_bound = 9223372036854775808

abbrev pub max_int64 : ℤ
max_int64 = pos 9223372036854775807

-- The value fits Go's int64.
abbrev pub IsInt64 : ℤ → Type 0
IsInt64 a = (pos_part a < int64_bound) × (neg_part a ≤ int64_bound)

-- The int64 with the bits of a sum of two int64.
unfoldable pub wrap_int64 : ℤ → ℤ
wrap_int64 (pos n) = if ltb n int64_bound then pos n else sub_ℕ n (int64_bound + int64_bound)
wrap_int64 (negsuc n) =
    if ltb n int64_bound then negsuc n else sub_ℕ (int64_bound + int64_bound) (suc n)

-- `a + b` on int64.
unfoldable pub add_int64 : ℤ → ℤ → ℤ
unfolding wrap_int64 ◌+ℤ◌
add_int64 a b = wrap_int64 (a +ℤ b)

-- `n++` on int64.
abbrev pub next_int64 : ℤ → ℤ
next_int64 a = add_int64 a (pos 1)

-- A sum of two nonnegative int64 is their sum, or comes out negative.
pub add_int64-pos :
    (a b : ℕ)
    → a < int64_bound
    → b < int64_bound
    → (add_int64 (pos a) (pos b)) ≡ (
        if ltb (a + b) int64_bound
        then pos (a + b)
        else negsuc (int64_bound + int64_bound - (a + b) - 1))
unfolding add_int64
add_int64-pos a b ha hb = ground arith
