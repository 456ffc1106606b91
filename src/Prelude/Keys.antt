-- ===== src/Prelude/Keys.antt =====
-- Ordered keys: the interface that `std::map` and `std::set` ask of `<`, and its instances for
-- `int` keys and for byte strings, which compare byte by byte.
use Prim.Native.Nat.{ℕ, ◌+◌, compare, Ordering}
use Prim.Native.Nat.Ordering.{lt, eq, gt}
use mathlib.Core.Path.{◌≡◌, refl}
use mathlib.Core.Bool.{Bool, true, false}
use mathlib.Core.Logic.{◌↔◌}
use mathlib.Core.List.{List, [], ◌∷◌}
use native.Mathlib.Omega.{arith}
use druta_db.Prelude.Word.{ℤ, pos_part, neg_part}

pub record Key {ℓ} (K : Type ℓ) : Type ℓ where
  pub cmp : K → K → Ordering
  pub lt_trans : (x y z : K) → cmp x y ≡ lt → cmp y z ≡ lt → cmp x z ≡ lt
  pub gt_of_lt : (x y : K) → cmp x y ≡ lt → cmp y x ≡ gt
  pub eq_of_cmp : (x y : K) → cmp x y ≡ eq → x ≡ y
  pub lt_of_gt : (x y : K) → cmp x y ≡ gt → cmp y x ≡ lt
  pub cmp_refl : (x : K) → cmp x x ≡ eq

pub compare_refl : (a : ℕ) → compare a a ≡ eq
compare_refl a = ground arith

pub eq_of_compare : (a b : ℕ) → compare a b ≡ eq → a ≡ b
eq_of_compare a b h = ground arith

pub lt_of_gt-compare : (a b : ℕ) → compare a b ≡ gt → compare b a ≡ lt
lt_of_gt-compare a b h = ground arith

pub gt_of_lt-compare : (a b : ℕ) → compare a b ≡ lt → compare b a ≡ gt
gt_of_lt-compare a b h = ground arith

pub lt_trans_compare : (a b c : ℕ) → compare a b ≡ lt → compare b c ≡ lt → compare a c ≡ lt
lt_trans_compare a b c h k = ground arith

instance abbrev pub nat_key : Key ℕ
nat_key = record {
  cmp = compare;
  cmp_refl = compare_refl;
  eq_of_cmp = eq_of_compare;
  lt_of_gt = lt_of_gt-compare;
  gt_of_lt = gt_of_lt-compare;
  lt_trans = lt_trans_compare;
}

-- A string is the list of its bytes.
abbrev pub Bytes : Type 0
Bytes = List ℕ

cmp_head : Ordering → Ordering → Ordering
cmp_head eq rest = rest
cmp_head first _ = first

unfoldable pub cmp_bytes : Bytes → Bytes → Ordering
unfolding cmp_head
cmp_bytes [] [] = eq
cmp_bytes [] (y ∷ ys) = lt
cmp_bytes (x ∷ xs) [] = gt
cmp_bytes (x ∷ xs) (y ∷ ys) = cmp_head (compare x y) (cmp_bytes xs ys)

pub cmp_bytes_refl : (a : Bytes) → cmp_bytes a a ≡ eq
unfolding cmp_bytes
cmp_bytes_refl [] = refl
cmp_bytes_refl (x ∷ a) = ground (arith, cmp_bytes_refl a)

pub eq_of_cmp_bytes : (a b : Bytes) → cmp_bytes a b ≡ eq → a ≡ b
unfolding cmp_bytes
eq_of_cmp_bytes [] [] h = refl
eq_of_cmp_bytes [] (y ∷ ys) h = cc
eq_of_cmp_bytes (x ∷ xs) [] h = cc
eq_of_cmp_bytes (x ∷ xs) (y ∷ ys) h = ground (arith, eq_of_cmp_bytes xs ys)

pub lt_of_gt_bytes : (a b : Bytes) → cmp_bytes a b ≡ gt → cmp_bytes b a ≡ lt
unfolding cmp_bytes
lt_of_gt_bytes [] [] h = cc
lt_of_gt_bytes [] (y ∷ ys) h = cc
lt_of_gt_bytes (x ∷ xs) [] h = refl
lt_of_gt_bytes (x ∷ xs) (y ∷ ys) h = ground (arith, lt_of_gt_bytes xs ys)

pub gt_of_lt_bytes : (a b : Bytes) → cmp_bytes a b ≡ lt → cmp_bytes b a ≡ gt
unfolding cmp_bytes
gt_of_lt_bytes [] [] h = cc
gt_of_lt_bytes [] (y ∷ ys) h = refl
gt_of_lt_bytes (x ∷ xs) [] h = cc
gt_of_lt_bytes (x ∷ xs) (y ∷ ys) h = ground (arith, gt_of_lt_bytes xs ys)

pub lt_trans_bytes : (a b c : Bytes) → cmp_bytes a b ≡ lt → cmp_bytes b c ≡ lt → cmp_bytes a c ≡ lt
unfolding cmp_bytes
lt_trans_bytes [] [] c h k = cc
lt_trans_bytes [] (y ∷ ys) [] h k = cc
lt_trans_bytes [] (y ∷ ys) (z ∷ zs) h k = refl
lt_trans_bytes (x ∷ xs) [] c h k = cc
lt_trans_bytes (x ∷ xs) (y ∷ ys) [] h k = cc
lt_trans_bytes (x ∷ xs) (y ∷ ys) (z ∷ zs) h k = ground (arith, lt_trans_bytes xs ys zs)

instance abbrev pub bytes_key : Key Bytes
bytes_key = record {
  cmp = cmp_bytes;
  cmp_refl = cmp_bytes_refl;
  eq_of_cmp = eq_of_cmp_bytes;
  lt_of_gt = lt_of_gt_bytes;
  gt_of_lt = gt_of_lt_bytes;
  lt_trans = lt_trans_bytes;
}

module _ {ℓ} {K : Type ℓ} ⦃key : Key K⦄ where
  -- `a == b`
  unfoldable pub same : K → K → Bool
  same a b = elim (key.cmp a b) [ eq ↦ true | _ ↦ false ]

  -- `a < b`
  unfoldable pub before : K → K → Bool
  before a b = elim (key.cmp a b) [ lt ↦ true | _ ↦ false ]

  pub same_iff : (a b : K) → (same a b ≡ true) ↔ (a ≡ b)
  unfolding same
  same_iff a b = (λ h. ground (arith, key.eq_of_cmp a b), λ e. rw (e, same, key.cmp_refl b))

  pub same_refl : (a : K) → same a a ≡ true
  unfolding same
  same_refl a = rw (same, key.cmp_refl a)

  pub before_trans : (a b c : K) → before a b ≡ true → before b c ≡ true → before a c ≡ true
  unfolding before
  before_trans a b c h k = ground (arith, key.lt_trans a b c)

  pub before_irrefl : (a : K) → before a a ≡ false
  unfolding before
  before_irrefl a = rw (before, key.cmp_refl a)

  -- The order is total.
  pub before_of_not : (a b : K) → same a b ≡ false → before b a ≡ false → before a b ≡ true
  unfolding before same
  before_of_not a b h k = ground (arith, key.lt_of_gt a b)

  pub same_of_before : (a b : K) → before a b ≡ true → same b a ≡ false
  unfolding before same
  same_of_before a b h = ground (arith, key.gt_of_lt a b)

-- `int` keys of either sign.
unfoldable pub cmp_int : ℤ → ℤ → Ordering
cmp_int a b = compare (pos_part a + neg_part b) (pos_part b + neg_part a)

pub cmp_int_refl : (a : ℤ) → cmp_int a a ≡ eq
unfolding cmp_int
cmp_int_refl a = ground arith

pub eq_of_cmp_int : (a b : ℤ) → cmp_int a b ≡ eq → a ≡ b
unfolding cmp_int
eq_of_cmp_int a b h = ground arith

pub lt_of_gt_int : (a b : ℤ) → cmp_int a b ≡ gt → cmp_int b a ≡ lt
unfolding cmp_int
lt_of_gt_int a b h = ground arith

pub gt_of_lt_int : (a b : ℤ) → cmp_int a b ≡ lt → cmp_int b a ≡ gt
unfolding cmp_int
gt_of_lt_int a b h = ground arith

pub lt_trans_int : (a b c : ℤ) → cmp_int a b ≡ lt → cmp_int b c ≡ lt → cmp_int a c ≡ lt
unfolding cmp_int
lt_trans_int a b c h k = ground arith

instance abbrev pub int_key : Key ℤ
int_key = record {
  cmp = cmp_int;
  cmp_refl = cmp_int_refl;
  eq_of_cmp = eq_of_cmp_int;
  lt_of_gt = lt_of_gt_int;
  gt_of_lt = gt_of_lt_int;
  lt_trans = lt_trans_int;
}
