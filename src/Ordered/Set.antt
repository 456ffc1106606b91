-- ===== src/Ordered/Set.antt =====
-- `std::set`: its members in ascending order, each once. `size()` is the list's length, and an
-- iteration runs over the list.
use druta_db.Prelude.{
  ◌+◌, ◌≡◌, refl, inl, inr, Bool, true, false, ◌||◌, List, [], ◌∷◌, arith, if◌then◌else◌, length,
  All, Bool-cases, Key, same, before, same_iff, before_trans, before_of_not, same_of_before,
}

module _ {ℓ} {K : Type ℓ} ⦃key : Key K⦄ where
  -- `contains`, `count` and `find`
  unfoldable pub contains : List K → K → Bool
  contains [] a = false
  contains (x ∷ s) a = same x a || contains s a

  unfoldable pub insert : List K → K → List K
  insert [] a = a ∷ []
  insert (x ∷ s) a =
      let rest = insert s a in
      if same x a then x ∷ s else if before a x then a ∷ x ∷ s else x ∷ rest

  unfoldable pub erase : List K → K → List K
  erase [] a = []
  erase (x ∷ s) a = let rest = erase s a in if same x a then s else x ∷ rest

  abbrev pub Above : K → List K → Type 0
  Above x s = All (λ y. before x y ≡ true) s

  -- Ascending, so without repetition.
  abbrev pub IsSorted : List K → Type 0
  IsSorted [] = Unit
  IsSorted (x ∷ s) = Above x s × IsSorted s

module _ {ℓ} {K : Type ℓ} ⦃key : Key K⦄ where
  Above-trans : (x y : K) (s : List K) → before x y ≡ true → Above y s → Above x s
  Above-trans x y [] h a = tt
  Above-trans x y (z ∷ s) h a = (before_trans x y z h a.0, Above-trans x y s h a.1)

  Above-insert : (x a : K) (s : List K) → before x a ≡ true → Above x s → Above x (insert s a)
  unfolding insert
  Above-insert x a [] h b = (h, tt)
  Above-insert x a (y ∷ s) h b = elim (Bool-cases (same y a)) [
    | inl e ↦ rw e b
    | inr n ↦ elim (Bool-cases (before a y)) [
      | inl l ↦ rw (n, l) (h, b)
      | inr g ↦ rw (n, g) (b.0, Above-insert x a s h b.1)
    ]
  ]

  pub insert-IsSorted : (s : List K) (a : K) → IsSorted s → IsSorted (insert s a)
  unfolding insert
  insert-IsSorted [] a h = (tt, tt)
  insert-IsSorted (x ∷ s) a h = elim (Bool-cases (same x a)) [
    | inl e ↦ rw e h
    | inr n ↦ elim (Bool-cases (before a x)) [
      | inl l ↦ rw (n, l) ((l, Above-trans a x s l h.0), h)
      | inr g ↦ rw (n, g) (Above-insert x a s (before_of_not x a n g) h.0, insert-IsSorted s a h.1)
    ]
  ]

  pub contains-insert :
      (s : List K) (a b : K) → contains (insert s a) b ≡ (same a b || contains s b)
  unfolding contains insert
  contains-insert [] a b = refl
  contains-insert (x ∷ s) a b =
      ground (arith, contains-insert s a b, same_iff x a, same_iff x b, same_iff a b)

  pub not-contains_of_Above : (x : K) (s : List K) → Above x s → contains s x ≡ false
  unfolding contains
  not-contains_of_Above x [] h = refl
  not-contains_of_Above x (y ∷ s) h = rw (same_of_before x y h.0, not-contains_of_Above x s h.1)

  pub contains-erase :
      (s : List K) (a b : K)
      → IsSorted s
      → contains (erase s a) b ≡ (if same a b then false else contains s b)
  unfolding contains erase
  contains-erase [] a b h = ground arith
  contains-erase (x ∷ s) a b h = ground (
    arith,
    contains-erase s a b,
    not-contains_of_Above x s,
    same_iff x a,
    same_iff x b,
    same_iff a b,
  )

  Above-erase : (x a : K) (s : List K) → Above x s → Above x (erase s a)
  unfolding erase
  Above-erase x a [] h = tt
  Above-erase x a (y ∷ s) h = elim (Bool-cases (same y a)) [
    | inl e ↦ rw e h.1
    | inr n ↦ rw n (h.0, Above-erase x a s h.1)
  ]

  pub erase-IsSorted : (s : List K) (a : K) → IsSorted s → IsSorted (erase s a)
  unfolding erase
  erase-IsSorted [] a h = tt
  erase-IsSorted (x ∷ s) a h = elim (Bool-cases (same x a)) [
    | inl e ↦ rw e h.1
    | inr n ↦ rw n (Above-erase x a s h.0, erase-IsSorted s a h.1)
  ]

  -- `insert` counts a member that was not there.
  pub length-insert :
      (s : List K) (a : K)
      → IsSorted s
      → length (insert s a) ≡ length s + (if contains s a then 0 else 1)
  unfolding contains insert
  length-insert [] a h = omega arith
  length-insert (x ∷ s) a h = elim (Bool-cases (same x a)) [
    | inl e ↦ rw e (omega arith)
    | inr n ↦ elim (Bool-cases (before a x)) [
      | inl l ↦ rw (n, l, not-contains_of_Above a s (Above-trans a x s l h.0)) (omega arith)
      | inr g ↦ rw (n, g) (omega (arith, length-insert s a h.1))
    ]
  ]

  pub length-erase :
      (s : List K) (a : K) → length (erase s a) + (if contains s a then 1 else 0) ≡ length s
  unfolding contains erase
  length-erase [] a = omega arith
  length-erase (x ∷ s) a = ground (arith, length-erase s a)
