-- ===== src/Commands/Strings/Expiry.antt =====
-- The options of SET: the expiry time that they give.
use druta_db.Prelude.{
  ◌≡◌, inl, inr, true, Bool-cases, Option, none, some, List, [], ◌∷◌, if◌then◌else◌, Bytes,
  bytes_key, ℤ, ◌+ℤ◌, times_1000, fits_long_long, Result, ok, fault, overflow, Leaves, bind-Leaves,
  ◌>>=◌ as bind_result,
}
use druta_db.Text.{stoll, to_upper}
use druta_db.Text.Range.{Fits, stoll-Fits}
use druta_db.Commands.Strings.{
  ExpiryOption, ex, px, pxat, expiry_option, expire_at_option, read_expiry,
}

-- The expiry times that the options of SET give are those of a `long long`.
abbrev FitsResult : Result ℤ → Type 0
FitsResult r = Leaves (λ n. fits_long_long n ≡ true) r

checked-Fits : (n : ℤ) → FitsResult (if fits_long_long n then ok n else fault overflow)
checked-Fits n = elim (Bool-cases (fits_long_long n)) [ inl e ↦ rw e e | inr e ↦ rw e tt ]

then_checked :
    (r : Result ℤ) (f : ℤ → Result ℤ) → ((n : ℤ) → FitsResult (f n)) → FitsResult (bind_result r f)
then_checked (ok n) f h = h n
then_checked (fault e) f h = tt

expire_at_option-Fits :
    (now : ℤ) (o : ExpiryOption) (n : ℤ)
    → fits_long_long n ≡ true
    → FitsResult (expire_at_option now o n)
unfolding expire_at_option
expire_at_option-Fits now ex n f =
    then_checked (if fits_long_long (times_1000 n) then ok (times_1000 n) else fault overflow)
      (λ ms. if fits_long_long (now +ℤ ms) then ok (now +ℤ ms) else fault overflow)
      (λ ms. checked-Fits (now +ℤ ms))
expire_at_option-Fits now px n f = checked-Fits (now +ℤ n)
expire_at_option-Fits now pxat n f = f

module _ (now : ℤ) (rest : List Bytes)
    (next : (at : ℤ) → fits_long_long at ≡ true → Leaves Fits (read_expiry now rest at)) where
  number-Fits :
      (o : ExpiryOption) (n : Option ℤ)
      → Fits n
      → Leaves Fits (elim n as (λ n. Result (Option ℤ)) [
        | none ↦ ok none
        | some n ↦ bind_result (expire_at_option now o n) (λ at. read_expiry now rest at)
      ])
  number-Fits o none f = tt
  number-Fits o (some n) f =
      bind-Leaves (λ n. fits_long_long n ≡ true) Fits (expire_at_option now o n)
        (λ at. read_expiry now rest at) (expire_at_option-Fits now o n f) next

  option-Fits :
      (value : Bytes) (r : Result (Option ℤ)) (o : Option ExpiryOption)
      → Leaves Fits r
      → Leaves Fits (elim o as (λ o. Result (Option ℤ)) [
        | none ↦ r
        | some o ↦ elim (stoll value) as (λ n. Result (Option ℤ)) [
          | none ↦ ok none
          | some n ↦ bind_result (expire_at_option now o n) (λ at. read_expiry now rest at)
        ]
      ])
  option-Fits value r none f = f
  option-Fits value r (some o) f = number-Fits o (stoll value) (stoll-Fits value)

pub read_expiry-Fits :
    (now : ℤ) (opts : List Bytes) (at : ℤ)
    → fits_long_long at ≡ true
    → Leaves Fits (read_expiry now opts at)
unfolding read_expiry
read_expiry-Fits now [] at f = f
read_expiry-Fits now (opt ∷ []) at f = f
read_expiry-Fits now (opt ∷ (value ∷ rest)) at f =
    option-Fits now rest (read_expiry-Fits now rest) value (read_expiry now (value ∷ rest) at)
      (expiry_option (to_upper opt)) (read_expiry-Fits now (value ∷ rest) at f)
