-- ===== src/Hash.antt =====
-- src/drutahash.hpp and src/drutahash.cpp: a hash that is a vector of pairs while it is small and
-- a map later. The tag `type` and the active member of the variant are one data type here, since
-- every function sets both together.
pub mod Contents
pub mod Updates
pub mod Memory
mod Tests
use druta_db.Prelude.{
  ℕ, ◌+◌, ◌*◌, Bool, true, false, Option, none, some, List, [], ◌∷◌, map as map_list, ltb,
  if◌then◌else◌, length, snoc, Bytes, ℤ, pos, add_size, sub_size, same, bytes_key,
}
use mathlib.Core.Option
use druta_db.Text.Storage.{
  sizeof_string, sizeof_pointer, StdString, copy_capacity, copy, empty_string, assign, move_assign,
}
use druta_db.Ordered.Map

abbrev pub map_node_overhead : ℕ
map_node_overhead = 8 * sizeof_pointer

abbrev pub string_obj_overhead : ℕ
string_obj_overhead = sizeof_string

abbrev pub hash_entry_overhead_map : ℕ
hash_entry_overhead_map = string_obj_overhead * 2 + map_node_overhead

abbrev pub hash_entry_overhead_vector : ℕ
hash_entry_overhead_vector = string_obj_overhead * 2

abbrev pub druta_max_key : ℕ
druta_max_key = 64

abbrev pub VectorData : Type 0
VectorData = List (StdString × StdString)

-- The keys of a map are never assigned to: their storage is that of a copy.
abbrev pub MapData : Type 0
MapData = List (Bytes × StdString)

pub data HashData : Type 0 where
  map : MapData → HashData
  vector : VectorData → HashData

pub record DrutaHash : Type 0 where
  pub data_ : HashData
  pub expiry_time : ℤ
  pub memory_usage : ℕ

-- The sums of the two constructors.
unfoldable pub map_usage : MapData → ℕ
map_usage [] = 0
map_usage ((field, value) ∷ m) =
    (copy_capacity field + value.capacity + hash_entry_overhead_map) + map_usage m

unfoldable pub vector_usage : VectorData → ℕ
vector_usage [] = 0
vector_usage ((field, value) ∷ vec) =
    (field.capacity + value.capacity + hash_entry_overhead_vector) + vector_usage vec

-- The two constructors.
abbrev pub of_map : MapData → ℤ → DrutaHash
of_map m expiry = record {
  data_ = map m;
  expiry_time = expiry;
  memory_usage = add_size 0 (map_usage m);
}

abbrev pub of_vector : VectorData → ℤ → DrutaHash
of_vector vec expiry = record {
  data_ = vector vec;
  expiry_time = expiry;
  memory_usage = add_size 0 (vector_usage vec);
}

-- The loop of `get_hash` over the vector.
unfoldable pub find_vector : VectorData → Bytes → Option StdString
find_vector [] field = none
find_vector ((name, value) ∷ vec) field =
    if same name.chars field then some value else find_vector vec field

unfoldable pub get_data : HashData → Bytes → Option StdString
unfolding find_vector
get_data (vector vec) field = find_vector vec field
get_data (map m) field = Map.find m field

-- The string that the returned pointer leads to; `none` is the null pointer.
unfoldable pub get_hash : DrutaHash → Bytes → Option StdString
unfolding get_data
get_hash h field = get_data h.data_ field

-- The loop of `convert_to_map`.
unfoldable pub move_entries : MapData → VectorData → MapData
move_entries m [] = m
move_entries m ((name, value) ∷ vec) =
    let target = Option.get_or (Map.find m name.chars) empty_string in
    move_entries (Map.set m name.chars (move_assign target value).0) vec

abbrev convert_data : DrutaHash → HashData → DrutaHash
convert_data h (map m) = h
convert_data h (vector vec) =
    let m = move_entries [] vec in
    record h {
      data_ = map m;
      memory_usage = add_size h.memory_usage (length m * map_node_overhead);
    }

unfoldable pub convert_to_map : DrutaHash → DrutaHash
unfolding move_entries
convert_to_map h = convert_data h h.data_

-- The loop of `set_hash` over the vector: the assignment at the first pair with this name, and the
-- memory usage after it; `none` if there is no such pair.
unfoldable pub assign_vector : VectorData → Bytes → Bytes → ℕ → Option (VectorData × ℕ)
assign_vector [] field value mem = none
assign_vector ((name, old) ∷ vec) field value mem =
    let rest = assign_vector vec field value mem in
    let new = assign old value in
    if same name.chars field
    then some ((name, new) ∷ vec, add_size (sub_size mem old.capacity) new.capacity)
    else Option.map (λ r. ((name, old) ∷ r.0, r.1)) rest

abbrev set_vector :
    DrutaHash → VectorData → Bytes → Bytes → Option (VectorData × ℕ) → DrutaHash × Bool
set_vector h vec field value (some (vec', mem)) =
    (record h { data_ = vector vec'; memory_usage = mem }, false)
set_vector h vec field value none =
    let vec' = snoc vec (copy field, copy value) in
    let h' = record h {
      data_ = vector vec';
      memory_usage =
          add_size h.memory_usage
            (copy_capacity field + copy_capacity value + hash_entry_overhead_vector);
    } in
    (if ltb druta_max_key (length vec') then convert_to_map h' else h', true)

abbrev set_map : DrutaHash → MapData → Bytes → Bytes → Option StdString → DrutaHash × Bool
set_map h m field value (some old) =
    let new = assign old value in
    (
      record h {
        data_ = map (Map.set m field new);
        memory_usage = add_size (sub_size h.memory_usage old.capacity) new.capacity;
      },
      false,
    )
set_map h m field value none = (
  record h {
    data_ = map (Map.set m field (assign empty_string value));
    memory_usage =
        add_size h.memory_usage
          (copy_capacity field + copy_capacity value + hash_entry_overhead_map);
  },
  true,
)

abbrev set_data : DrutaHash → HashData → Bytes → Bytes → DrutaHash × Bool
set_data h (vector vec) field value =
    set_vector h vec field value (assign_vector vec field value h.memory_usage)
set_data h (map m) field value = set_map h m field value (Map.find m field)

-- `field` and `value` are copies that the parser made.
unfoldable pub set_hash : DrutaHash → Bytes → Bytes → DrutaHash × Bool
unfolding convert_to_map assign_vector
set_hash h field value = set_data h h.data_ field value

-- `vec.erase(it)`: the pairs behind `it` move down by one place, from the pair `hole` on.
unfoldable pub close_gap : StdString × StdString → VectorData → VectorData
close_gap hole [] = []
close_gap hole ((name, value) ∷ vec) =
    let first = move_assign hole.0 name in
    let second = move_assign hole.1 value in (first.0, second.0) ∷ close_gap (first.1, second.1) vec

-- The loop of `del_hash` over the vector.
unfoldable pub del_vector : VectorData → Bytes → ℕ → Option (VectorData × ℕ)
unfolding close_gap
del_vector [] field mem = none
del_vector ((name, value) ∷ vec) field mem =
    let rest = del_vector vec field mem in
    if same name.chars field
    then some (
      close_gap (name, value) vec,
      sub_size mem (name.capacity + value.capacity + hash_entry_overhead_vector),
    )
    else Option.map (λ r. ((name, value) ∷ r.0, r.1)) rest

abbrev del_from_vector : DrutaHash → Option (VectorData × ℕ) → DrutaHash × Bool
del_from_vector h none = (h, false)
del_from_vector h (some (vec, mem)) = (record h { data_ = vector vec; memory_usage = mem }, true)

abbrev del_from_map : DrutaHash → MapData → Bytes → Option StdString → DrutaHash × Bool
del_from_map h m field none = (h, false)
del_from_map h m field (some value) = (
  record h {
    data_ = map (Map.erase m field);
    memory_usage =
        sub_size h.memory_usage (copy_capacity field + value.capacity + hash_entry_overhead_map);
  },
  true,
)

abbrev del_data : DrutaHash → HashData → Bytes → DrutaHash × Bool
del_data h (vector vec) field = del_from_vector h (del_vector vec field h.memory_usage)
del_data h (map m) field = del_from_map h m field (Map.find m field)

unfoldable pub del_hash : DrutaHash → Bytes → DrutaHash × Bool
unfolding del_vector
del_hash h field = del_data h h.data_ field

abbrev size_data : HashData → ℕ
size_data (vector vec) = length vec
size_data (map m) = length m

unfoldable pub size : DrutaHash → ℕ
size h = size_data h.data_
