-- ===== src/Text/Numbers.antt =====
-- `std::stoi` and `std::stoll` against `std::to_string`.
use druta_db.Prelude.{ℕ, ◌^◌, ◌<◌, ◌≡◌, subst, some, ◌∷◌, arith, lt→ltb, All, Bytes, pos}
use druta_db.Text.{
  to_string, is_digit, is_space, skip_space, read_digits, in_range, read_magnitude, read_signed,
  stoi, stoll,
}
use druta_db.Text.Decimal.{IsDigit, to_string-IsDigit, read_digits-to_string, cons-to_string}

-- A text that begins with a digit is read as an unsigned number.
read_signed-digit :
    (limit c : ℕ) (cs : Bytes)
    → IsDigit c
    → read_digits 0 (c ∷ cs) < limit
    → read_signed limit (skip_space (c ∷ cs)) ≡ some (pos (read_digits 0 (c ∷ cs)))
unfolding read_signed skip_space is_space read_magnitude is_digit in_range
read_signed-digit limit c cs h small =
    let n = read_digits 0 (c ∷ cs) in ground (arith, lt→ltb n limit)

read_signed-to_string :
    (limit n : ℕ) → n < limit → read_signed limit (skip_space (to_string n)) ≡ some (pos n)
read_signed-to_string limit n h =
    let (c, cs, e) = cons-to_string n in
    let digits : All IsDigit (c ∷ cs) = subst (All IsDigit) e (to_string-IsDigit n) in
    let value : read_digits 0 (c ∷ cs) ≡ n = rw (← e) (read_digits-to_string n) in
    rw e (
      subst (λ k. read_signed limit (skip_space (c ∷ cs)) ≡ some (pos k)) value
        (read_signed-digit limit c cs digits.0 (rw value h)))

-- `std::stoi` reads back what `std::to_string` writes, for every `int` that is not negative.
pub stoi-to_string : (n : ℕ) → n < 2 ^ 31 → stoi (to_string n) ≡ some (pos n)
unfolding stoi
stoi-to_string n h = read_signed-to_string (2 ^ 31) n h

-- `std::stoll` reads back what `std::to_string` writes, for every `long long` from 0.
pub stoll-to_string : (n : ℕ) → n < 2 ^ 63 → stoll (to_string n) ≡ some (pos n)
unfolding stoll
stoll-to_string n h = read_signed-to_string (2 ^ 63) n h
