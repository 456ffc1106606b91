-- ===== src/Text/Decimal.antt =====
-- Decimal numerals as `std::to_string` writes them: their bytes are digits.
use druta_db.Prelude.{
  ℕ, zero, suc, ◌+◌, ◌-◌, ◌*◌, ◌/◌, ◌%◌, ◌≤◌, ◌<◌, ◌≡◌, ◌∙◌, inl, inr, true, [], ◌∷◌, arith, ltb,
  ltb→lt, not-ltb→le, snoc, All, Bool-cases, Bytes,
}
use druta_db.Text.{decimal, to_string, is_digit, read_digits}

-- A byte from '0' to '9'.
abbrev pub IsDigit : ℕ → Type 0
IsDigit c = (b'0' ≤ c) × (c ≤ b'9')

All-snoc : (xs : Bytes) (x : ℕ) → All IsDigit xs → IsDigit x → All IsDigit (snoc xs x)
All-snoc [] x h d = (d, tt)
All-snoc (y ∷ xs) x h d = (h.0, All-snoc xs x h.1 d)

decimal-IsDigit : (fuel n : ℕ) → All IsDigit (decimal fuel n)
unfolding decimal
decimal-IsDigit zero n = tt
decimal-IsDigit (suc fuel) n = elim (Bool-cases (ltb n 10)) [
  | inl small ↦ rw small (omega (arith, ltb→lt n 10), tt)
  | inr large ↦
      rw large (All-snoc (decimal fuel (n / 10)) _ (decimal-IsDigit fuel (n / 10)) (omega arith))
]

-- Every byte of a numeral is a digit.
pub to_string-IsDigit : (n : ℕ) → All IsDigit (to_string n)
unfolding to_string
to_string-IsDigit n = decimal-IsDigit (suc n) n

digit-is_digit : (c : ℕ) → IsDigit c → is_digit c ≡ true
unfolding is_digit
digit-is_digit c h = ground arith

-- Reading digits one after the other is reading them in two parts.
read_digits-snoc :
    (acc : ℕ) (xs : Bytes) (d : ℕ)
    → All IsDigit xs
    → d < 10
    → read_digits acc (snoc xs (b'0' + d)) ≡ read_digits acc xs * 10 + d
unfolding read_digits is_digit
read_digits-snoc acc [] d h small = ground arith
read_digits-snoc acc (x ∷ xs) d h small =
    rw (digit-is_digit x h.0) (read_digits-snoc (acc * 10 + (x - b'0')) xs d h.1 small)

read_digits-decimal : (fuel n : ℕ) → n < fuel → read_digits 0 (decimal fuel n) ≡ n
unfolding decimal
read_digits-decimal zero n h = absurd (omega arith)
read_digits-decimal (suc fuel) n h = elim (Bool-cases (ltb n 10)) [
  | inl small ↦ rw small (unfold read_digits is_digit in ground (arith, ltb→lt n 10))
  | inr large ↦ rw large (
      read_digits-snoc 0 (decimal fuel (n / 10)) (n % 10) (decimal-IsDigit fuel (n / 10))
        (omega arith)
      ∙ omega (arith, read_digits-decimal fuel (n / 10) (omega (arith, not-ltb→le n 10))))
]

-- Reading back a numeral gives the number.
pub read_digits-to_string : (n : ℕ) → read_digits 0 (to_string n) ≡ n
unfolding to_string
read_digits-to_string n = read_digits-decimal (suc n) n (omega arith)

cons-decimal : (fuel n : ℕ) → 0 < fuel → (c : ℕ) × (cs : Bytes) × (decimal fuel n ≡ c ∷ cs)
unfolding decimal
cons-decimal zero n h = absurd (omega arith)
cons-decimal (suc zero) n h = elim (Bool-cases (ltb n 10)) [
  | inl small ↦ (b'0' + n, [], rw small)
  | inr large ↦ (b'0' + n % 10, [], rw large)
]
cons-decimal (suc (suc fuel)) n h = elim (Bool-cases (ltb n 10)) [
  | inl small ↦ (b'0' + n, [], rw small)
  | inr large ↦
      let (c, cs, e) = cons-decimal (suc fuel) (n / 10) (omega arith) in
      (c, snoc cs (b'0' + n % 10), rw (large, e))
]

-- A numeral has at least one digit.
pub cons-to_string : (n : ℕ) → (c : ℕ) × (cs : Bytes) × (to_string n ≡ c ∷ cs)
unfolding to_string
cons-to_string n = cons-decimal (suc n) n (omega arith)
