-- ===== src/Hash/Contents.antt =====
-- What a hash holds, whichever its representation, and the vector's and the conversion's part in it.
use druta_db.Prelude.{
  ℕ, ◌+◌, ◌≤◌, ◌≡◌, refl, Option, none, some, [], ◌∷◌, arith, if◌then◌else◌, length, snoc, Bytes,
  bytes_key, same, same_iff,
}
use mathlib.Core.Option
use druta_db.Text.Storage.{StdString, empty_string, move_assign}
use druta_db.Ordered.Map
use druta_db.Ordered.Map.{found}
use druta_db.Hash.{
  VectorData, MapData, HashData, map, vector, DrutaHash, find_vector, get_hash, move_entries,
  assign_vector, druta_max_key,
}

abbrev pub chars_of : Option StdString → Option Bytes
chars_of none = none
chars_of (some s) = some s.chars

-- The field's value, if the hash has the field.
unfoldable pub contents : DrutaHash → Bytes → Option Bytes
contents h field = chars_of (get_hash h field)

-- No name occurs twice.
abbrev pub IsDistinct : VectorData → Type 0
IsDistinct [] = Unit
IsDistinct ((name, value) ∷ vec) = (find_vector vec name.chars ≡ none) × IsDistinct vec

abbrev pub IsValidData : HashData → Type 0
IsValidData (vector vec) = IsDistinct vec × (length vec ≤ druta_max_key)
IsValidData (map m) = Map.IsSorted m

-- The vector is short and has each name once; the map is in order.
abbrev pub IsValid : DrutaHash → Type 0
IsValid h = IsValidData h.data_

-- The vector after a loop that may have found nothing.
abbrev pub result : VectorData → Option (VectorData × ℕ) → VectorData
result vec none = vec
result vec (some r) = r.0

module _ (field value : Bytes) (mem : ℕ) where
  pub find_vector-assign :
      (vec : VectorData) (g : Bytes)
      → chars_of (find_vector (result vec (assign_vector vec field value mem)) g) ≡ (
          if same field g
          then (elim (find_vector vec field) [ none ↦ none | some s ↦ some value ])
          else chars_of (find_vector vec g))
  unfolding find_vector assign_vector
  find_vector-assign [] g = ground arith
  find_vector-assign ((name, old) ∷ vec) g = ground (
    arith,
    find_vector-assign vec g,
    same_iff name.chars field,
    same_iff name.chars g,
    same_iff field g,
  )

  -- The loop finds a pair exactly if the field is there.
  pub assign-found :
      (vec : VectorData) → found (assign_vector vec field value mem) ≡ found (find_vector vec field)
  unfolding find_vector assign_vector
  assign-found [] = refl
  assign-found ((name, old) ∷ vec) = ground (arith, assign-found vec)

  pub length-assign :
      (vec : VectorData) → length (result vec (assign_vector vec field value mem)) ≡ length vec
  unfolding assign_vector
  length-assign [] = refl
  length-assign ((name, old) ∷ vec) = ground (arith, length-assign vec)

  absent-assign :
      (vec : VectorData) (g : Bytes)
      → find_vector vec g ≡ none
      → find_vector (result vec (assign_vector vec field value mem)) g ≡ none
  absent-assign vec g h = ground (arith, find_vector-assign vec g, same_iff field g)

  pub assign-IsDistinct :
      (vec : VectorData)
      → IsDistinct vec
      → IsDistinct (result vec (assign_vector vec field value mem))
  unfolding assign_vector
  assign-IsDistinct [] d = tt
  assign-IsDistinct ((name, old) ∷ vec) d =
      ground (arith, absent-assign vec name.chars, assign-IsDistinct vec)

pub find_vector-snoc :
    (vec : VectorData) (name value : StdString) (g : Bytes)
    → find_vector (snoc vec (name, value)) g ≡ (elim (find_vector vec g) [
      | some s ↦ some s
      | none ↦ if same name.chars g then some value else none
    ])
unfolding find_vector
find_vector-snoc [] name value g = refl
find_vector-snoc ((n, v) ∷ vec) name value g = ground (arith, find_vector-snoc vec name value g)

pub snoc-IsDistinct :
    (vec : VectorData) (name value : StdString)
    → IsDistinct vec
    → find_vector vec name.chars ≡ none
    → IsDistinct (snoc vec (name, value))
unfolding find_vector
snoc-IsDistinct [] name value d h = (refl, tt)
snoc-IsDistinct ((n, v) ∷ vec) name value d h = ground (
  arith,
  find_vector-snoc vec name value n.chars,
  snoc-IsDistinct vec name value d.1,
  same_iff n.chars name.chars,
  same_iff name.chars n.chars,
)

pub chars-move : (dst src : StdString) → (move_assign dst src).0.chars ≡ src.chars
unfolding move_assign
chars-move dst src = ground arith

-- The conversion keeps every field, and the order of a map.
pub find-move_entries :
    (vec : VectorData) (m : MapData) (g : Bytes)
    → IsDistinct vec
    → chars_of (Map.find (move_entries m vec) g)
      ≡ (elim (find_vector vec g) [ some s ↦ some s.chars | none ↦ chars_of (Map.find m g) ])
unfolding move_entries find_vector
find-move_entries [] m g d = refl
find-move_entries ((name, value) ∷ vec) m g d =
    let target = Option.get_or (Map.find m name.chars) empty_string in
    let moved = (move_assign target value).0 in
    ground (
      arith,
      find-move_entries vec (Map.set m name.chars moved) g,
      Map.find-set m name.chars g moved,
      chars-move target value,
      same_iff name.chars g,
    )

pub move_entries-IsSorted :
    (vec : VectorData) (m : MapData) → Map.IsSorted m → Map.IsSorted (move_entries m vec)
unfolding move_entries
move_entries-IsSorted [] m h = h
move_entries-IsSorted ((name, value) ∷ vec) m h =
    let target = Option.get_or (Map.find m name.chars) empty_string in
    let moved = (move_assign target value).0 in
    move_entries-IsSorted vec (Map.set m name.chars moved) (Map.set-IsSorted m name.chars moved h)

-- No name of the vector is in the map.
abbrev IsApart : MapData → VectorData → Type 0
IsApart m [] = Unit
IsApart m ((name, value) ∷ vec) = (Map.find m name.chars ≡ none) × IsApart m vec

IsApart-set :
    (m : MapData) (a : Bytes) (v : StdString) (vec : VectorData)
    → IsApart m vec
    → find_vector vec a ≡ none
    → IsApart (Map.set m a v) vec
unfolding find_vector
IsApart-set m a v [] h e = tt
IsApart-set m a v ((name, value) ∷ vec) h e = ground (
  arith,
  IsApart-set m a v vec,
  Map.find-set m a name.chars v,
  same_iff a name.chars,
  same_iff name.chars a,
)

pub length-move_entries :
    (vec : VectorData) (m : MapData)
    → IsDistinct vec
    → IsApart m vec
    → Map.IsSorted m
    → length (move_entries m vec) ≡ length m + length vec
unfolding move_entries
length-move_entries [] m d h s = omega arith
length-move_entries ((name, value) ∷ vec) m d h s =
    let target = Option.get_or (Map.find m name.chars) empty_string in
    let moved = (move_assign target value).0 in
    let fresh : found (Map.find m name.chars) ≡ 0 = rw h.0 in
    omega (
      arith,
      length-move_entries vec (Map.set m name.chars moved) d.1
          (IsApart-set m name.chars moved vec h.1 d.0) (Map.set-IsSorted m name.chars moved s),
      Map.length-set m name.chars moved s,
      fresh,
    )

pub IsApart-nil : (vec : VectorData) → IsApart [] vec
IsApart-nil [] = tt
IsApart-nil (p ∷ vec) = (Map.find-nil p.0.chars, IsApart-nil vec)
