-- ===== src/Ordered/Map.antt =====
-- `std::map`: pairs in the ascending order of their keys, each key once.
use druta_db.Prelude.{
  ℕ, ◌+◌, ◌≡◌, refl, inl, inr, true, Option, none, some, List, [], ◌∷◌, arith, if◌then◌else◌,
  length, All, Bool-cases, Key, same, before, same_iff, before_trans, before_of_not, same_of_before,
}

abbrev pub found {ℓ} : {V : Type ℓ} → Option V → ℕ
found none = 0
found (some v) = 1

module _ {ℓ} {K V : Type ℓ} ⦃key : Key K⦄ where
  -- `find`, and the value it finds
  unfoldable pub find : List (K × V) → K → Option V
  find [] a = none
  find ((x, v) ∷ m) a = if same x a then some v else find m a

  -- `m[a] = v`
  unfoldable pub set : List (K × V) → K → V → List (K × V)
  set [] a v = (a, v) ∷ []
  set ((x, w) ∷ m) a v =
      let rest = set m a v in
      if same x a then (x, v) ∷ m else if before a x then (a, v) ∷ (x, w) ∷ m else (x, w) ∷ rest

  unfoldable pub erase : List (K × V) → K → List (K × V)
  erase [] a = []
  erase ((x, w) ∷ m) a = let rest = erase m a in if same x a then m else (x, w) ∷ rest

  abbrev pub Above : K → List (K × V) → Type 0
  Above x m = All (λ e. before x e.0 ≡ true) m

  abbrev pub IsSorted : List (K × V) → Type 0
  IsSorted [] = Unit
  IsSorted ((x, v) ∷ m) = Above x m × IsSorted m

module _ {ℓ} {K V : Type ℓ} ⦃key : Key K⦄ where
  pub find-set :
      (m : List (K × V)) (a b : K) (v : V)
      → find (set m a v) b ≡ (if same a b then some v else find m b)
  unfolding find set
  find-set [] a b v = refl
  find-set ((x, w) ∷ m) a b v =
      ground (arith, find-set m a b v, same_iff x a, same_iff x b, same_iff a b)

  pub find-nil : (a : K) → find {V = V} [] a ≡ none
  unfolding find
  find-nil a = refl

  Above-trans : (x y : K) (m : List (K × V)) → before x y ≡ true → Above y m → Above x m
  Above-trans x y [] h a = tt
  Above-trans x y ((z, v) ∷ m) h a = (before_trans x y z h a.0, Above-trans x y m h a.1)

  Above-set :
      (x a : K) (v : V) (m : List (K × V)) → before x a ≡ true → Above x m → Above x (set m a v)
  unfolding set
  Above-set x a v [] h b = (h, tt)
  Above-set x a v ((y, w) ∷ m) h b = elim (Bool-cases (same y a)) [
    | inl e ↦ rw e b
    | inr n ↦ elim (Bool-cases (before a y)) [
      | inl l ↦ rw (n, l) (h, b)
      | inr g ↦ rw (n, g) (b.0, Above-set x a v m h b.1)
    ]
  ]

  pub set-IsSorted : (m : List (K × V)) (a : K) (v : V) → IsSorted m → IsSorted (set m a v)
  unfolding set
  set-IsSorted [] a v h = (tt, tt)
  set-IsSorted ((x, w) ∷ m) a v h = elim (Bool-cases (same x a)) [
    | inl e ↦ rw e h
    | inr n ↦ elim (Bool-cases (before a x)) [
      | inl l ↦ rw (n, l) ((l, Above-trans a x m l h.0), h)
      | inr g ↦ rw (n, g) (Above-set x a v m (before_of_not x a n g) h.0, set-IsSorted m a v h.1)
    ]
  ]

  pub find_of_Above : (x : K) (m : List (K × V)) → Above x m → find m x ≡ none
  unfolding find
  find_of_Above x [] h = refl
  find_of_Above x ((y, v) ∷ m) h = rw (same_of_before x y h.0, find_of_Above x m h.1)

  pub find-erase :
      (m : List (K × V)) (a b : K)
      → IsSorted m
      → find (erase m a) b ≡ (if same a b then none else find m b)
  unfolding find erase
  find-erase [] a b h = ground arith
  find-erase ((x, w) ∷ m) a b h =
      ground (arith, find-erase m a b, find_of_Above x m, same_iff x a, same_iff x b, same_iff a b)

  Above-erase : (x a : K) (m : List (K × V)) → Above x m → Above x (erase m a)
  unfolding erase
  Above-erase x a [] h = tt
  Above-erase x a ((y, w) ∷ m) h = elim (Bool-cases (same y a)) [
    | inl e ↦ rw e h.1
    | inr n ↦ rw n (h.0, Above-erase x a m h.1)
  ]

  pub erase-IsSorted : (m : List (K × V)) (a : K) → IsSorted m → IsSorted (erase m a)
  unfolding erase
  erase-IsSorted [] a h = tt
  erase-IsSorted ((x, w) ∷ m) a h = elim (Bool-cases (same x a)) [
    | inl e ↦ rw e h.1
    | inr n ↦ rw n (Above-erase x a m h.0, erase-IsSorted m a h.1)
  ]

  -- A write adds an entry for a key that was not there.
  pub length-set :
      (m : List (K × V)) (a : K) (v : V)
      → IsSorted m
      → length (set m a v) + found (find m a) ≡ length m + 1
  unfolding find set
  length-set [] a v h = omega arith
  length-set ((x, w) ∷ m) a v h = elim (Bool-cases (same x a)) [
    | inl e ↦ rw e (omega arith)
    | inr n ↦ elim (Bool-cases (before a x)) [
      | inl l ↦ rw (n, l, find_of_Above a m (Above-trans a x m l h.0)) (omega arith)
      | inr g ↦ rw (n, g) (omega (arith, length-set m a v h.1))
    ]
  ]

  pub length-erase : (m : List (K × V)) (a : K) → length (erase m a) + found (find m a) ≡ length m
  unfolding find erase
  length-erase [] a = omega arith
  length-erase ((x, w) ∷ m) a = ground (arith, length-erase m a)
