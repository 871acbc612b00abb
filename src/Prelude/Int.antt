-- ===== src/Prelude/Int.antt =====
-- Signed integers over the native numbers, and the conversions between the C++ integer types.
use Prim.Native.Nat.{suc, ℕ, ◌-◌, ◌%◌, ◌^◌, ◌<◌}
use mathlib.Core.Path.{◌≡◌, ap}
use mathlib.Core.Logic.{◌↔◌}
use mathlib.Core.Bool.{Bool, true, false}
use native.Mathlib.Omega.{arith}
use mathlib.Core.List.{List, ◌∷◌}
use management_sensors.Prelude.Strings.{show_nat}
use management_sensors.Prelude.Tests.{ltb, ◌==◌, if◌then◌else◌}

-- `negsuc n` is -(n + 1).
pub data ℤ : Type 0 where
  pos : ℕ → ℤ
  negsuc : ℕ → ℤ

-- a == b
unfoldable pub int_eq : ℤ → ℤ → Bool
int_eq (pos m) (pos n) = m == n
int_eq (negsuc m) (negsuc n) = m == n
int_eq _ _ = false

int_eq_sound : (a b : ℤ) → int_eq a b ≡ true → a ≡ b
unfolding int_eq
int_eq_sound (pos m) (pos n) h = ap pos (ground arith)
int_eq_sound (negsuc m) (negsuc n) h = ap negsuc (ground arith)
int_eq_sound (pos m) (negsuc n) h = absurd (cc)
int_eq_sound (negsuc m) (pos n) h = absurd (cc)

pub int_eq_refl : (a : ℤ) → int_eq a a ≡ true
unfolding int_eq
int_eq_refl (pos n) = ground arith
int_eq_refl (negsuc n) = ground arith

pub int_eq_iff : (a b : ℤ) → (int_eq a b ≡ true) ↔ (a ≡ b)
int_eq_iff a b = (int_eq_sound a b, λ e. rw e (int_eq_refl b))

-- static_cast<uint64_t> of an int64_t.
unfoldable pub to_uint64 : ℤ → ℕ
to_uint64 (pos n) = n % 2 ^ 64
to_uint64 (negsuc n) = 2 ^ 64 - 1 - n % 2 ^ 64

-- The low 32 bits of a number, read as a two's complement int.
unfoldable pub int_of_bits : ℕ → ℤ
int_of_bits b = if ltb b (2 ^ 31) then pos b else negsuc (2 ^ 32 - 1 - b)

-- static_cast<int> of an int64_t.
unfoldable pub to_int : ℤ → ℤ
unfolding int_of_bits
to_int (pos n) = int_of_bits (n % 2 ^ 32)
to_int (negsuc n) = int_of_bits (2 ^ 32 - 1 - n % 2 ^ 32)

-- static_cast<int64_t> of a uint64_t.
unfoldable pub to_int64 : ℕ → ℤ
to_int64 n = if ltb n (2 ^ 63) then pos n else negsuc (2 ^ 64 - 1 - n)

pub to_int_of_lt : (n : ℕ) → n < 2 ^ 31 → to_int (pos n) ≡ pos n
unfolding to_int
to_int_of_lt n h = ground arith

pub to_uint64_of_lt : (n : ℕ) → n < 2 ^ 63 → to_uint64 (pos n) ≡ n
unfolding to_uint64
to_uint64_of_lt n h = omega arith

pub to_int64_of_lt : (n : ℕ) → n < 2 ^ 63 → to_int64 n ≡ pos n
unfolding to_int64
to_int64_of_lt n h = ground arith

-- std::to_string of an int.
unfoldable pub show_int : ℤ → List ℕ
show_int (pos n) = show_nat n
show_int (negsuc n) = b'-' ∷ show_nat (suc n)
