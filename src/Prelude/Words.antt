-- ===== src/Prelude/Words.antt =====
-- The C++ integer types: unsigned words are numbers with the wrap written out, `int` is ℤ.
use Prim.Native.Nat.{ℕ, ◌+◌, ◌-◌, ◌%◌, ◌^◌, ◌<◌}
use mathlib.Core.Path.{◌≡◌}
use mathlib.Core.Logic.{◌↔◌}
use mathlib.Core.Bool.{Bool, true, false}
use native.Mathlib.Omega.{arith}
use raft_drive.Prelude.Tests.{ltb, ◌==◌, if◌then◌else◌}

-- `negsuc n` is -(n + 1).
pub data ℤ : Type 0 where
  pos : ℕ → ℤ
  negsuc : ℕ → ℤ

abbrev pub minus_one : ℤ
minus_one = negsuc 0

abbrev pub int_eq : ℤ → ℤ → Bool
int_eq (pos a) (pos b) = a == b
int_eq (pos a) (negsuc b) = false
int_eq (negsuc a) (pos b) = false
int_eq (negsuc a) (negsuc b) = a == b

-- `a <= b`.
abbrev pub int_le : ℤ → ℤ → Bool
int_le (pos a) (pos b) = if ltb b a then false else true
int_le (pos a) (negsuc b) = false
int_le (negsuc a) (pos b) = true
int_le (negsuc a) (negsuc b) = if ltb a b then false else true

pub int_eq_iff : (a b : ℤ) → (int_eq a b ≡ true) ↔ (a ≡ b)
int_eq_iff (pos a) (pos b) = ground arith
int_eq_iff (pos a) (negsuc b) = ground arith
int_eq_iff (negsuc a) (pos b) = ground arith
int_eq_iff (negsuc a) (negsuc b) = ground arith

pub int_le_refl : (a : ℤ) → int_le a a ≡ true
int_le_refl (pos a) = ground arith
int_le_refl (negsuc a) = ground arith

-- The order is total, so what is not above the one and below the other is below.
pub int_le-through : (a b c : ℤ) → int_le a b ≡ true → int_le c b ≡ false → int_le a c ≡ true
int_le-through (pos a) (pos b) (pos c) = ground arith
int_le-through (pos a) (pos b) (negsuc c) = ground arith
int_le-through (pos a) (negsuc b) (pos c) = ground arith
int_le-through (pos a) (negsuc b) (negsuc c) = ground arith
int_le-through (negsuc a) (pos b) (pos c) = ground arith
int_le-through (negsuc a) (pos b) (negsuc c) = ground arith
int_le-through (negsuc a) (negsuc b) (pos c) = ground arith
int_le-through (negsuc a) (negsuc b) (negsuc c) = ground arith

abbrev pub u32 : ℕ → ℕ
u32 n = n % 2 ^ 32

abbrev pub u64 : ℕ → ℕ
u64 n = n % 2 ^ 64

-- `a - b` on `uint64_t`; `-` on ℕ is truncated, so the modulus is added first.
abbrev pub sub64 : ℕ → ℕ → ℕ
sub64 a b = (a + 2 ^ 64 - b) % 2 ^ 64

-- The conversions `static_cast<int>` of a word, and of an `int` to `uint64_t`.
abbrev pub to_int : ℕ → ℤ
to_int n = let m = n % 2 ^ 32 in if ltb m (2 ^ 31) then pos m else negsuc (2 ^ 32 - 1 - m)

abbrev pub int_to_u64 : ℤ → ℕ
int_to_u64 (pos n) = n % 2 ^ 64
int_to_u64 (negsuc n) = (2 ^ 64 - 1 - n) % 2 ^ 64

-- The range of an `int`.
abbrev pub IsInt : ℤ → Type 0
IsInt (pos n) = n < 2 ^ 31
IsInt (negsuc n) = n < 2 ^ 31

pub to_int-int_to_u64 : (z : ℤ) → IsInt z → to_int (int_to_u64 z) ≡ z
to_int-int_to_u64 (pos n) h = ground arith
to_int-int_to_u64 (negsuc n) h = ground arith
