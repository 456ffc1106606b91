-- ===== src/Hash/Memory.antt =====
-- The memory accounting of a hash against the storage of its strings.
use druta_db.Prelude.{
  subst, sym, ℕ, ◌+◌, ◌-◌, ◌^◌, ◌≤◌, ◌<◌, ◌≡◌, refl, true, false, Option, none, some, [], ◌∷◌,
  arith, leb, length, length-append, snoc, Bytes, bytes_key, same, same_refl, add_size, sub_size,
  le→not-ltb,
}
use druta_db.Text.Storage.{
  StdString, copy, copy_capacity, empty_string, assign, assign_capacity, move_assign,
}
use druta_db.Ordered.Map
use druta_db.Hash.{
  VectorData, MapData, HashData, map, vector, DrutaHash, vector_usage, find_vector, convert_to_map,
  assign_vector, set_vector, set_hash, close_gap, del_hash, druta_max_key,
  hash_entry_overhead_vector,
}
use druta_db.Hash.Contents.{result}

-- A vector's account is the storage of its pairs.
abbrev pub IsExact : VectorData → ℕ → Type 0
IsExact vec mem = (mem ≡ vector_usage vec) × (vector_usage vec < 2 ^ 64)

vector_usage-snoc :
    (vec : VectorData) (name value : StdString)
    → vector_usage (snoc vec (name, value))
      ≡ vector_usage vec + (name.capacity + value.capacity + hash_entry_overhead_vector)
unfolding vector_usage
vector_usage-snoc [] name value = omega arith
vector_usage-snoc ((n, v) ∷ vec) name value = omega (arith, vector_usage-snoc vec name value)

-- In map mode a new field is charged by the storage of the argument, while the map keeps a value of
-- 16 to 29 bytes in a storage of 30; the removal takes that off. So writing and deleting such a
-- field loses the difference from the account, modulo 2^64.
pub memory_usage-del-set :
    (h : DrutaHash) (m : MapData) (field value : Bytes)
    → h.data_ ≡ map m
    → Map.find m field ≡ none
    → 15 < length value
    → length value < 30
    → h.memory_usage < 2 ^ 64
    → copy_capacity field < 2 ^ 62
    → (del_hash (set_hash h field value).0 field).0.memory_usage
      ≡ sub_size h.memory_usage (30 - length value)
unfolding set_hash del_hash add_size sub_size assign_capacity copy_capacity
memory_usage-del-set h m field value is absent lo hi small fits =
    rw (is, absent, Map.find-set m field field (assign empty_string value), same_refl field)
      (ground arith)

abbrev old_capacity : Option StdString → ℕ
old_capacity none = 0
old_capacity (some old) = old.capacity

abbrev new_capacity : Option StdString → Bytes → ℕ
new_capacity none value = 0
new_capacity (some old) value = assign_capacity old.capacity (length value)

abbrev result_mem : ℕ → Option (VectorData × ℕ) → ℕ
result_mem mem none = mem
result_mem mem (some r) = r.1

abbrev assigned_mem : ℕ → Option StdString → Bytes → ℕ
assigned_mem mem none value = mem
assigned_mem mem (some old) value =
    add_size (sub_size mem old.capacity) (assign_capacity old.capacity (length value))

module _ (field value : Bytes) (mem : ℕ) where
  vector_usage-assign :
      (vec : VectorData)
      → vector_usage (result vec (assign_vector vec field value mem))
          + old_capacity (find_vector vec field)
        ≡ vector_usage vec + new_capacity (find_vector vec field) value
  unfolding assign_vector vector_usage find_vector
  vector_usage-assign [] = omega arith
  vector_usage-assign ((name, old) ∷ vec) = ground (arith, vector_usage-assign vec)

  mem-assign :
      (vec : VectorData)
      → result_mem mem (assign_vector vec field value mem)
        ≡ assigned_mem mem (find_vector vec field) value
  unfolding assign_vector find_vector
  mem-assign [] = refl
  mem-assign ((name, old) ∷ vec) = ground (arith, mem-assign vec)

  find_vector-none :
      (vec : VectorData) → assign_vector vec field value mem ≡ none → find_vector vec field ≡ none
  unfolding assign_vector find_vector
  find_vector-none [] e = refl
  find_vector-none ((name, old) ∷ vec) e = ground (arith, find_vector-none vec, e)

  old_capacity-le : (vec : VectorData) → old_capacity (find_vector vec field) ≤ vector_usage vec
  unfolding vector_usage find_vector
  old_capacity-le [] = omega arith
  old_capacity-le ((name, old) ∷ vec) = ground (arith, old_capacity-le vec)

-- The data after `set_hash`, if it is still a vector.
abbrev pub vector_of : HashData → VectorData
vector_of (vector vec) = vec
vector_of (map m) = []

-- A field that the vector has is overwritten; another one needs a place below the conversion.
abbrev pub HasPlace : VectorData → Option StdString → Type 0
HasPlace vec none = length vec < druta_max_key
HasPlace vec (some old) = Unit

-- The hash is a vector, and its account is exact.
abbrev pub IsExactVector : DrutaHash → Type 0
IsExactVector h =
    (h.data_ ≡ vector (vector_of h.data_)) × IsExact (vector_of h.data_) h.memory_usage

assigned_exact :
    (mem : ℕ) (o : Option StdString) (value : Bytes) (u u' : ℕ)
    → mem ≡ u
    → old_capacity o ≤ u
    → u' + old_capacity o ≡ u + new_capacity o value
    → u < 2 ^ 64
    → u' < 2 ^ 64
    → assigned_mem mem o value ≡ u'
unfolding add_size sub_size
assigned_exact mem none value u u' e le sum small fits = omega arith
assigned_exact mem (some old) value u u' e le sum small fits =
    let new = assign_capacity old.capacity (length value) in omega arith

set_vector-IsExact :
    (h : DrutaHash) (vec : VectorData) (field value : Bytes) (o : Option (VectorData × ℕ))
    → o ≡ assign_vector vec field value h.memory_usage
    → IsExact vec h.memory_usage
    → HasPlace vec (find_vector vec field)
    → vector_usage (vector_of (set_vector h vec field value o).0.data_) < 2 ^ 64
    → IsExactVector (set_vector h vec field value o).0
unfolding convert_to_map
set_vector-IsExact h vec field value none e x place fits =
    let longer = length-append vec ((copy field, copy value) ∷ []) in
    rw
      (le→not-ltb druta_max_key (length (snoc vec (copy field, copy value)))
        (omega (arith, longer, short)))
      (
        refl,
        (unfold add_size in
            (omega (arith, fits', vector_usage-snoc vec (copy field) (copy value)), fits')),
      )
  where
    short : length vec < druta_max_key
    short = subst (HasPlace vec) (find_vector-none field value h.memory_usage vec (sym e)) place

    fits' : vector_usage (snoc vec (copy field, copy value)) < 2 ^ 64
    fits' =
        let longer = length-append vec ((copy field, copy value) ∷ []) in
        rw
          (le→not-ltb druta_max_key (length (snoc vec (copy field, copy value)))
            (omega (arith, longer, short)))
          at fits
set_vector-IsExact h vec field value (some r) e x place fits =
    let mem = h.memory_usage in
    (
      refl,
      (
        ground (
          arith,
          mem-assign field value mem vec,
          assigned_exact mem (find_vector vec field) value (vector_usage vec) (vector_usage r.0),
          vector_usage-assign field value mem vec,
          old_capacity-le field value mem vec,
        ),
        fits,
      ),
    )

-- In vector mode, where the field is there or the vector has fewer than 64 pairs, `set_hash` leaves
-- a vector, and its account is exact again: it is the storage of all pairs with their overhead, as
-- long as that sum is a `size_t`.
pub set_hash-IsExact :
    (h : DrutaHash) (vec : VectorData) (field value : Bytes)
    → h.data_ ≡ vector vec
    → IsExact vec h.memory_usage
    → HasPlace vec (find_vector vec field)
    → vector_usage (vector_of (set_hash h field value).0.data_) < 2 ^ 64
    → IsExactVector (set_hash h field value).0
unfolding set_hash
set_hash-IsExact h vec field value is x place = rw is (
    set_vector-IsExact h vec field value (assign_vector vec field value h.memory_usage) refl x
      place)

-- In vector mode a removal moves the later pairs down by move assignment, which leaves a short
-- value in the larger storage of the value before it. Deleting both of two such fields takes that
-- storage off twice, so the account of the empty hash wraps below zero.
pub memory_usage-del-del :
    (h : DrutaHash) (name name' value value' : StdString)
    → h.data_ ≡ vector ((name, value) ∷ (name', value') ∷ [])
    → IsExact ((name, value) ∷ (name', value') ∷ []) h.memory_usage
    → same name.chars name'.chars ≡ false
    → name.capacity ≡ 15
    → name'.capacity ≡ 15
    → value'.capacity ≡ 15
    → 15 < value.capacity
    → (del_hash (del_hash h name.chars).0 name'.chars).0.memory_usage
      ≡ 2 ^ 64 - (value.capacity - 15)
unfolding del_hash vector_usage sub_size close_gap move_assign
memory_usage-del-del h name name' value value' is x ne e e' f f' =
    let local : leb name'.capacity 15 ≡ true = ground arith in
    let local' : leb value'.capacity 15 ≡ true = ground arith in
    rw (is, same_refl name.chars, local, local', same_refl name'.chars) (omega arith)
