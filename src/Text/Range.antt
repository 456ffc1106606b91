-- ===== src/Text/Range.antt =====
-- The numbers that `std::stoll` returns are those of a `long long`.
use druta_db.Prelude.{
  pos, negsuc, ℤ, refl, ℕ, zero, suc, ◌^◌, ◌≡◌, inl, inr, Bool, true, false, Bool-cases, Option,
  none, some, [], ◌∷◌, ltb, ◌==◌, Bytes, ℤ, fits_long_long,
}
use druta_db.Text.{is_digit, skip_space, in_range, read_magnitude, read_signed, stoll, stoi}

-- A number, if there is one, is that of a `long long`.
abbrev pub Fits : Option ℤ → Type 0
Fits none = Unit
Fits (some n) = fits_long_long n ≡ true

-- A number, if there is one, lies within a limit, as the bounds of a signed type have it.
abbrev pub IsWithin : ℕ → Option ℤ → Type 0
IsWithin limit none = Unit
IsWithin limit (some (pos n)) = ltb n limit ≡ true
IsWithin limit (some (negsuc n)) = ltb n limit ≡ true

module _ (limit : ℕ) (some_room : ltb 0 limit ≡ true) where
  in_range-IsWithin : (negative : Bool) (n : ℕ) → IsWithin limit (in_range negative limit n)
  unfolding in_range
  in_range-IsWithin true zero = some_room
  in_range-IsWithin true (suc n) = elim (Bool-cases (ltb n limit)) [
    | inl e ↦ rw e e
    | inr e ↦ rw e tt
  ]
  in_range-IsWithin false n = elim (Bool-cases (ltb n limit)) [ inl e ↦ rw e e | inr e ↦ rw e tt ]

  read_magnitude-IsWithin :
      (negative : Bool) (s : Bytes) → IsWithin limit (read_magnitude limit negative s)
  unfolding read_magnitude
  read_magnitude-IsWithin negative [] = tt
  read_magnitude-IsWithin negative (c ∷ cs) = elim (Bool-cases (is_digit c)) [
    | inl e ↦ rw e (in_range-IsWithin negative _)
    | inr e ↦ rw e tt
  ]

  read_signed-IsWithin : (s : Bytes) → IsWithin limit (read_signed limit s)
  unfolding read_signed
  read_signed-IsWithin [] = tt
  read_signed-IsWithin (c ∷ cs) = elim (Bool-cases (c == b'-')) [
    | inl e ↦ rw e (read_magnitude-IsWithin true cs)
    | inr e ↦ elim (Bool-cases (c == b'+')) [
      | inl f ↦ rw (e, f) (read_magnitude-IsWithin false cs)
      | inr f ↦ rw (e, f) (read_magnitude-IsWithin false (c ∷ cs))
    ]
  ]

within_long_long : (o : Option ℤ) → IsWithin (2 ^ 63) o → Fits o
unfolding fits_long_long
within_long_long none h = tt
within_long_long (some (pos n)) h = h
within_long_long (some (negsuc n)) h = h

pub stoll-Fits : (s : Bytes) → Fits (stoll s)
unfolding stoll
stoll-Fits s = within_long_long (stoll s) (read_signed-IsWithin (2 ^ 63) refl (skip_space s))

-- Those of `std::stoi` are those of an `int`.
pub stoi-IsWithin : (s : Bytes) → IsWithin (2 ^ 31) (stoi s)
unfolding stoi
stoi-IsWithin s = read_signed-IsWithin (2 ^ 31) refl (skip_space s)
