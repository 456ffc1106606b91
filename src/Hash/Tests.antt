-- ===== src/Hash/Tests.antt =====
-- Runs of the hash: a vector with one pair, a map with one pair, and strings too long for their
-- objects.
use druta_db.Prelude.{
  ◌^◌, ◌-◌, ◌<◌, ◌≡◌, refl, none, some, [], ◌∷◌, arith, if◌then◌else◌, length, Bytes, same,
  bytes_key, cmp_bytes, pos, sub_size,
}
use druta_db.Text.{codes}
use druta_db.Text.Storage.{StdString, copy, copy_capacity}
use druta_db.Ordered.Map
use druta_db.Hash.{
  map, vector, DrutaHash, VectorData, find_vector, set_hash, del_hash, vector_usage,
}
use druta_db.Hash.Contents.{contents, IsValid}
use druta_db.Hash.Updates.{contents-set_hash, contents-del_hash}
use druta_db.Hash.Memory.{
  HasPlace, IsExactVector, IsExact, vector_of, memory_usage-del-set, set_hash-IsExact,
  memory_usage-del-del,
}

abbrev field : Bytes
field = codes "f"

abbrev other : Bytes
other = codes "g"

-- Twenty bytes: too long for a string object, shorter than its first allocation when assigned.
abbrev twenty : Bytes
twenty = codes "aaaaaaaaaaaaaaaaaaaa"

abbrev one_pair : VectorData
one_pair = (copy field, copy (codes "1")) ∷ []

abbrev small_hash : DrutaHash
small_hash = record { data_ = vector one_pair; expiry_time = pos 0; memory_usage = 94 }

one_pair-IsValid : IsValid small_hash
unfolding find_vector
one_pair-IsValid = ((refl, tt), omega arith)

contents-set_hash_example :
    contents (set_hash small_hash other twenty).0 other
    ≡ (if same other other then some twenty else contents small_hash other)
contents-set_hash_example = contents-set_hash small_hash other twenty one_pair-IsValid other

contents-del_hash_example :
    contents (del_hash small_hash field).0 field
    ≡ (if same field field then none else contents small_hash field)
contents-del_hash_example = contents-del_hash small_hash field one_pair-IsValid field

-- An empty map, as `HDEL` leaves one.
abbrev empty_map_hash : DrutaHash
empty_map_hash = record { data_ = map []; expiry_time = pos 0; memory_usage = 0 }

field-capacity : copy_capacity field < 2 ^ 62
unfolding copy_capacity
field-capacity = omega arith

memory_usage-del-set_example :
    (del_hash (set_hash empty_map_hash field twenty).0 field).0.memory_usage
    ≡ sub_size 0 (30 - length twenty)
memory_usage-del-set_example =
    memory_usage-del-set empty_map_hash [] field twenty refl (Map.find-nil field) (omega arith)
      (omega arith) (omega arith) field-capacity

one_pair-IsExact : IsExact one_pair 94
unfolding vector_usage copy_capacity
one_pair-IsExact = (refl, omega arith)

longer-fits : vector_usage (vector_of (set_hash small_hash other twenty).0.data_) < 2 ^ 64
unfolding set_hash vector_usage copy_capacity same cmp_bytes
longer-fits = omega arith

other-HasPlace : HasPlace one_pair (find_vector one_pair other)
unfolding find_vector same cmp_bytes
other-HasPlace = omega arith

set_hash-IsExact_example : IsExactVector (set_hash small_hash other twenty).0
set_hash-IsExact_example =
    set_hash-IsExact small_hash one_pair other twenty refl one_pair-IsExact other-HasPlace
      longer-fits

abbrev short : Bytes → StdString
short s = record { chars = s; capacity = 15 }

abbrev two_pairs : VectorData
two_pairs =
    (short field, record { chars = twenty; capacity = 20 }) ∷ (short other, short (codes "2")) ∷ []

abbrev wide_hash : DrutaHash
wide_hash = record { data_ = vector two_pairs; expiry_time = pos 0; memory_usage = 193 }

two_pairs-IsExact : IsExact two_pairs 193
unfolding vector_usage
two_pairs-IsExact = (refl, omega arith)

memory_usage-del-del_example :
    (del_hash (del_hash wide_hash field).0 other).0.memory_usage ≡ 2 ^ 64 - (20 - 15)
unfolding same cmp_bytes
memory_usage-del-del_example =
    memory_usage-del-del wide_hash (short field) (short other)
      (record { chars = twenty; capacity = 20 }) (short (codes "2")) refl two_pairs-IsExact refl
      refl refl refl (omega arith)
