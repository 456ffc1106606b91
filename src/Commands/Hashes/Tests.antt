-- ===== src/Commands/Hashes/Tests.antt =====
-- HSET, HDEL and HGETALL on databases with two entries.
use druta_db.Prelude.{
  uncaught, ◌-◌, ◌+◌, ◌^◌, ◌≤◌, ◌<◌, ◌≡◌, refl, none, ℕ, if◌then◌else◌, sub_size, List, [], ◌∷◌,
  ◌++◌, arith, ltb, Bytes, bytes_key, same, cmp_bytes, snoc, pos, int_of_size, add_size, fault,
  Returns,
}
use druta_db.Text.{codes}
use druta_db.Text.Storage.{copy_capacity, copy}
use druta_db.Hash.{
  size, DrutaHash, of_vector, del_hash, find_vector, convert_to_map, set_hash, assign_vector,
  vector_usage,
}
use druta_db.Hash.Contents.{IsValid, contents}
use druta_db.Commands.Hashes.Refill.{last_value, value_or, contents-set_fields}
use druta_db.Commands.Hashes.Uncaught.{command_hgetall-uncaught}
use druta_db.Commands.Hashes.Writes.{hash_value, command_hset-there}
use druta_db.Value.{hash}
use druta_db.Lru.{lru_max_memory}
use druta_db.Lru.Chain.{Item}
use druta_db.Lru.Holds.{Holds, total}
use druta_db.Lru.Change.{with_value, kept}
use druta_db.Lru.Tests.{placed, with_placed, placed-Holds, second}
use druta_db.Commands.Replies.{integer_reply}
use druta_db.Commands.Hashes.{set_fields, command_hset, command_hgetall, del_fields, command_hdel}
use druta_db.Commands.Hashes.Removals.{is_named, command_hdel-there}

abbrev a : Bytes
a = codes "a"

abbrev x : Bytes
x = codes "x"

abbrev c : Bytes
c = codes "c"

abbrev pairs : List Bytes
pairs = a ∷ x ∷ []

-- A hash with one field, and HSET of another one.
abbrev one_field : DrutaHash
one_field = of_vector ((copy c, copy x) ∷ []) (pos 0)

one_field-IsValid : IsValid one_field
unfolding find_vector
one_field-IsValid = ((refl, tt), omega arith)

contents-set_fields_example :
    contents (set_fields one_field 0 pairs).0 c
    ≡ value_or (last_value pairs c) (contents one_field c)
contents-set_fields_example = contents-set_fields one_field 0 pairs c one_field-IsValid

one_field-account : 94 ≡ one_field.memory_usage
unfolding vector_usage copy_capacity add_size
one_field-account = refl

abbrev wider : Item
wider =
    with_value (placed (hash one_field) 94)
      (hash_value (set_fields one_field 0 pairs).0 (placed (hash one_field) 94).value)

wider-fits : total (wider ∷ second ∷ []) < 2 ^ 64
unfolding set_fields set_hash assign_vector vector_usage copy_capacity add_size same cmp_bytes
    convert_to_map
wider-fits = omega arith

wider-small : total (wider ∷ second ∷ []) ≤ lru_max_memory
unfolding set_fields set_hash assign_vector vector_usage copy_capacity add_size same cmp_bytes
    convert_to_map
wider-small = omega arith

command_hset-there_example :
    Returns (command_hset (codes "HSET" ∷ a ∷ pairs) (with_placed (hash one_field) 94)) (λ r.
      (r.0 ≡ (
        integer_reply (int_of_size (set_fields one_field 0 pairs).1),
        ltb 0 (set_fields one_field 0 pairs).1,
      ))
      × (size (set_fields one_field 0 pairs).0 ≡ size one_field + (set_fields one_field 0 pairs).1)
      × ((g : Bytes)
          → contents (set_fields one_field 0 pairs).0 g
            ≡ value_or (last_value pairs g) (contents one_field g))
      × Holds r.1 (snoc (kept [] (wider ∷ second ∷ []) ++ (second ∷ [])) wider))
command_hset-there_example =
    command_hset-there (codes "HSET") pairs one_field (with_placed (hash one_field) 94) []
      (placed (hash one_field) 94) (second ∷ []) (placed-Holds (hash one_field) 94 (omega arith))
      refl one_field-account refl wider-fits wider-small one_field-IsValid

-- HDEL a c x, of the hash with the field c.
abbrev absent_field : List Bytes
absent_field = x ∷ []

abbrev emptied : DrutaHash × ℕ
emptied = del_fields one_field 0 (c ∷ absent_field)

emptied-less : emptied.0.memory_usage < one_field.memory_usage
unfolding del_fields del_hash vector_usage copy_capacity add_size sub_size same cmp_bytes
emptied-less = omega arith

abbrev lighter : Item
lighter =
    with_value (placed (hash one_field) 94)
      (hash_value emptied.0 (placed (hash one_field) 94).value)

lighter-room : total (lighter ∷ second ∷ []) ≤ lru_max_memory
unfolding del_fields del_hash vector_usage copy_capacity add_size sub_size same cmp_bytes
lighter-room = omega arith

command_hdel-there_example :
    Returns
      (command_hdel (codes "HDEL" ∷ a ∷ c ∷ absent_field) (with_placed (hash one_field) 94))
      (λ r.
        (r.0 ≡ (integer_reply (int_of_size emptied.1), ltb 0 emptied.1))
        × ((g : Bytes)
            → contents emptied.0 g
              ≡ (if is_named (c ∷ absent_field) g then none else contents one_field g))
        × Holds r.1 (snoc (kept [] (lighter ∷ second ∷ []) ++ (second ∷ [])) lighter))
command_hdel-there_example =
    command_hdel-there (codes "HDEL") c absent_field one_field (with_placed (hash one_field) 94) []
      (placed (hash one_field) 94) (second ∷ []) (placed-Holds (hash one_field) 94 (omega arith))
      refl one_field-account emptied-less one_field-IsValid lighter-room

-- The hash after its account has wrapped.
abbrev wrapped : DrutaHash
wrapped = record one_field { memory_usage = 2 ^ 64 - 2000 }

command_hgetall-uncaught_example :
    command_hgetall (codes "HGETALL" ∷ a ∷ []) (with_placed (hash wrapped) 94) ≡ fault uncaught
command_hgetall-uncaught_example =
    command_hgetall-uncaught (codes "HGETALL") wrapped (with_placed (hash wrapped) 94) []
      (placed (hash wrapped) 94) (second ∷ []) (placed-Holds (hash wrapped) 94 (omega arith)).shape
      refl (omega arith)
