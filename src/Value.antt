-- ===== src/Value.antt =====
-- `DrutaValue` of src/store.hpp. The tag `type` and the active member of the variant are one data
-- type here, since the constructors set both together and nothing else sets them.
pub mod Sound
use druta_db.Prelude.{ℕ, ◌+◌, ◌*◌, List, [], ◌∷◌, Bytes, ℤ, pos, add_size}
use druta_db.Text.Storage.{sizeof_string, sizeof_pointer, copy_capacity}
use druta_db.Hash.{DrutaHash, of_vector}

pub data ValueType : Type 0 where
  string_type list_type hash_type set_type : ValueType

-- A list is held front first, a set in ascending order. Strings are held by their bytes: each is a
-- copy that nothing assigns to, so its storage is `copy_capacity`.
pub data ValueData : Type 0 where
  string : Bytes → ValueData
  list : List Bytes → ValueData
  hash : DrutaHash → ValueData
  set : List Bytes → ValueData

pub record DrutaValue : Type 0 where
  pub data_ : ValueData
  pub expiry_time : ℤ
  pub memory_usage : ℕ

abbrev pub value_type : ValueData → ValueType
value_type (string s) = string_type
value_type (list l) = list_type
value_type (hash h) = hash_type
value_type (set s) = set_type

unfoldable pub calc_string_usage : Bytes → ℕ
calc_string_usage s = copy_capacity s

-- What one element of a list and of a set is charged.
abbrev pub list_element_usage : Bytes → ℕ
list_element_usage s = calc_string_usage s + sizeof_string + sizeof_pointer

abbrev pub set_element_usage : Bytes → ℕ
set_element_usage s = copy_capacity s + sizeof_string + 8 * sizeof_pointer

-- Constructor for STRING
unfoldable pub of_string : Bytes → ℤ → DrutaValue
of_string d expiry = record {
  data_ = string d;
  expiry_time = expiry;
  memory_usage = add_size sizeof_string (calc_string_usage d);
}

unfoldable pub sum_list_usage : List Bytes → ℕ
sum_list_usage [] = 0
sum_list_usage (s ∷ l) = list_element_usage s + sum_list_usage l

unfoldable pub sum_set_usage : List Bytes → ℕ
sum_set_usage [] = 0
sum_set_usage (s ∷ l) = set_element_usage s + sum_set_usage l

-- Constructor for LIST
unfoldable pub of_list : List Bytes → ℤ → DrutaValue
of_list l expiry = record {
  data_ = list l;
  expiry_time = expiry;
  memory_usage = add_size 0 (sum_list_usage l);
}

-- Constructor for HASH
unfoldable pub of_hash : DrutaHash → ℤ → DrutaValue
of_hash h expiry = record { data_ = hash h; expiry_time = expiry; memory_usage = h.memory_usage }

-- Constructor for SET
unfoldable pub of_set : List Bytes → ℤ → DrutaValue
of_set s expiry = record {
  data_ = set s;
  expiry_time = expiry;
  memory_usage = add_size 0 (sum_set_usage s);
}

abbrev empty_data : ValueType → ValueData
empty_data string_type = string []
empty_data list_type = list []
empty_data hash_type = hash (of_vector [] (pos 0))
empty_data set_type = set []

-- The constructor for an empty value of a type.
unfoldable pub of_type : ValueType → DrutaValue
of_type t = record { data_ = empty_data t; expiry_time = pos 0; memory_usage = 0 }
