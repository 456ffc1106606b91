-- ===== src/Prelude/Word.antt =====
-- Machine words: `size_t` as a number below 2^64, `int` as an integer of the 32-bit range.
use Prim.Native.Nat.{ℕ, suc, ◌+◌, ◌-◌, ◌*◌, ◌%◌, ◌^◌, ◌≤◌, ◌<◌}
use mathlib.Core.Path.{◌≡◌}
use mathlib.Core.Bool.{Bool, true, false}
use native.Mathlib.Omega.{arith}
use druta_db.Prelude.Tests.{ltb, leb, if◌then◌else◌}

-- `negsuc n` is -(n + 1).
pub data ℤ : Type 0 where
  pos : ℕ → ℤ
  negsuc : ℕ → ℤ

abbrev pub pos_part : ℤ → ℕ
pos_part (pos n) = n
pos_part (negsuc n) = 0

abbrev pub neg_part : ℤ → ℕ
neg_part (pos n) = 0
neg_part (negsuc n) = suc n

-- a - b, as an integer.
abbrev pub sub_ℕ : ℕ → ℕ → ℤ
sub_ℕ a b = if leb b a then pos (a - b) else negsuc (b - a - 1)

infixl 65 ◌+ℤ◌
unfoldable pub ◌+ℤ◌ : ℤ → ℤ → ℤ
a +ℤ b = sub_ℕ (pos_part a + pos_part b) (neg_part a + neg_part b)

abbrev pub ltb_ℤ : ℤ → ℤ → Bool
ltb_ℤ a b = ltb (pos_part a + neg_part b) (pos_part b + neg_part a)

abbrev pub eqb_ℤ : ℤ → ℤ → Bool
eqb_ℤ a b = if ltb_ℤ a b then false else if ltb_ℤ b a then false else true

-- The conversion of a `size_t` to `int`: the low 32 bits, read as two's complement.
unfoldable pub int_of_size : ℕ → ℤ
int_of_size n = let m = n % 2 ^ 32 in if ltb m (2 ^ 31) then pos m else negsuc (2 ^ 32 - 1 - m)

pub int_of_size-pos : (n : ℕ) → n < 2 ^ 31 → int_of_size n ≡ pos n
unfolding int_of_size
int_of_size-pos n h = ground arith

-- `a + b` and `a - b` of `size_t`.
unfoldable pub add_size : ℕ → ℕ → ℕ
add_size a b = (a + b) % 2 ^ 64

unfoldable pub sub_size : ℕ → ℕ → ℕ
sub_size a b = (a + (2 ^ 64 - b % 2 ^ 64)) % 2 ^ 64

pub add_size-eq : (a b : ℕ) → a + b < 2 ^ 64 → add_size a b ≡ a + b
unfolding add_size
add_size-eq a b h = omega arith

pub sub_size-eq : (a b : ℕ) → a < 2 ^ 64 → b ≤ a → sub_size a b ≡ a - b
unfolding sub_size
sub_size-eq a b h k = omega arith

-- The conversion of an `int` to `size_t`.
unfoldable pub size_of_int : ℤ → ℕ
size_of_int (pos n) = n
size_of_int (negsuc n) = 2 ^ 64 - 1 - n

-- `std::max(a, b)` and `std::min(a, b)`
abbrev pub max_ℤ : ℤ → ℤ → ℤ
max_ℤ a b = if ltb_ℤ a b then b else a

abbrev pub min_ℤ : ℤ → ℤ → ℤ
min_ℤ a b = if ltb_ℤ b a then b else a

-- A `long long` result; `false` where it overflows.
unfoldable pub fits_long_long : ℤ → Bool
fits_long_long (pos n) = ltb n (2 ^ 63)
fits_long_long (negsuc n) = ltb n (2 ^ 63)

-- An `int` result; `false` where it overflows.
unfoldable pub fits_int : ℤ → Bool
fits_int (pos n) = ltb n (2 ^ 31)
fits_int (negsuc n) = ltb n (2 ^ 31)

-- `a * 1000`
abbrev pub times_1000 : ℤ → ℤ
times_1000 (pos n) = pos (n * 1000)
times_1000 (negsuc n) = negsuc (n * 1000 + 999)
