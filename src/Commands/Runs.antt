-- ===== src/Commands/Runs.antt =====
-- Writes to databases with two entries, with and without room for them.
use druta_db.Prelude.{
  ◌^◌, ◌≤◌, ◌<◌, ◌≡◌, refl, true, false, none, some, List, [], ◌∷◌, ◌++◌, arith, length, ltb, Bytes,
  bytes_key, same, cmp_bytes, before, snoc, pos, int_of_size, add_size, ok, fault, dangling,
  Returns,
}
use druta_db.Text.{codes}
use druta_db.Text.Storage.{copy_capacity}
use druta_db.Ordered.Set
use druta_db.Commands.Sets.Members.{Added}
use druta_db.Commands.Sets.{add_members, command_sadd}
use druta_db.Commands.Sets.Writes.{added_usage, added_value, command_sadd-there}
use druta_db.Value.{set, DrutaValue, of_string, of_type, calc_string_usage}
use druta_db.Lru.{lru_max_memory}
use druta_db.Lru.Chain.{Item}
use druta_db.Lru.Holds.{Holds, total}
use druta_db.Lru.Evict.{survivors}
use druta_db.Lru.Insert.{new_item}
use druta_db.Lru.Change.{with_value, kept}
use druta_db.Lru.Tests.{
  placed, with_placed, placed-Holds, first, second, two_entries, two_entries-Holds, listed,
  with_list, with_list-Holds, heavy, crowded, crowded-Holds,
}
use druta_db.Commands.Replies.{ok_reply, integer_reply}
use druta_db.Commands.Strings.{command_set, read_expiry}
use druta_db.Commands.Strings.Overwrite.{command_set-over, command_set-lost}
use druta_db.Commands.Lists.{generic_push}
use druta_db.Commands.Lists.Pushes.{
  pushed, push_usage, pushed_value, generic_push-there, generic_push-lost,
}
use druta_db.Commands.Lists.Fresh.{new_list, generic_push-new}

abbrev a : Bytes
a = codes "a"

abbrev c : Bytes
c = codes "c"

abbrev x : Bytes
x = codes "x"

abbrev entries : List Item
entries = first ∷ second ∷ []

-- SET a x
abbrev set_a : List Bytes
set_a = codes "SET" ∷ a ∷ x ∷ []

abbrev value_x : DrutaValue
value_x = of_string x (pos 0)

no_options : read_expiry (pos 5) [] (pos 0) ≡ ok (some (pos 0))
unfolding read_expiry
no_options = refl

set-fits : total (with_value first value_x ∷ second ∷ []) < 2 ^ 64
unfolding copy_capacity of_string calc_string_usage add_size
set-fits = omega arith

set-small : total (with_value first value_x ∷ second ∷ []) ≤ lru_max_memory
unfolding copy_capacity of_string calc_string_usage add_size
set-small = omega arith

command_set-over_example : Returns (command_set (pos 5) set_a two_entries) (λ r.
    (r.0 ≡ (ok_reply, true))
    × Holds r.1 (
        snoc
          (kept [] (with_value first value_x ∷ second ∷ []) ++ (second ∷ []))
          (with_value first value_x)))
command_set-over_example =
    command_set-over (pos 5) (codes "SET") x [] (pos 0) two_entries [] first (second ∷ [])
      two_entries-Holds no_options set-fits set-small

crowded_set-fits : total (with_value listed value_x ∷ heavy ∷ []) < 2 ^ 64
unfolding copy_capacity of_string calc_string_usage add_size
crowded_set-fits = omega arith

crowded_set-large : lru_max_memory < total (with_value listed value_x ∷ heavy ∷ [])
unfolding copy_capacity of_string calc_string_usage add_size
crowded_set-large = omega arith

command_set-lost_example : command_set (pos 5) set_a crowded ≡ fault dangling
command_set-lost_example =
    command_set-lost (pos 5) (codes "SET") x [] (pos 0) crowded [] listed (heavy ∷ []) crowded-Holds
      no_options crowded_set-fits crowded_set-large

-- RPUSH a x
abbrev push_a : List Bytes
push_a = codes "RPUSH" ∷ a ∷ x ∷ []

abbrev longer : Item
longer = with_value listed (pushed_value false (x ∷ []) (x ∷ []) listed.value)

longer-fits : total (longer ∷ second ∷ []) < 2 ^ 64
unfolding copy_capacity push_usage calc_string_usage
longer-fits = omega arith

longer-small : total (longer ∷ second ∷ []) ≤ lru_max_memory
unfolding copy_capacity push_usage calc_string_usage
longer-small = omega arith

generic_push-there_example : Returns (generic_push false push_a with_list) (λ r.
    (r.0 ≡ (integer_reply (int_of_size (length (pushed false (x ∷ []) (x ∷ [])))), true))
    × Holds r.1 (snoc (kept [] (longer ∷ second ∷ []) ++ (second ∷ [])) longer))
generic_push-there_example =
    generic_push-there false (codes "RPUSH") (x ∷ []) (x ∷ []) with_list [] listed (second ∷ [])
      with_list-Holds refl longer-fits longer-small

crowded-fits : total (longer ∷ heavy ∷ []) < 2 ^ 64
unfolding copy_capacity push_usage calc_string_usage
crowded-fits = omega arith

crowded-large : lru_max_memory < total (longer ∷ heavy ∷ [])
unfolding copy_capacity push_usage calc_string_usage
crowded-large = omega arith

generic_push-lost_example : generic_push false push_a crowded ≡ fault dangling
generic_push-lost_example =
    generic_push-lost false (codes "RPUSH") (x ∷ []) (x ∷ []) crowded [] listed (heavy ∷ [])
      crowded-Holds refl crowded-fits crowded-large

c-absent : two_entries.kv_store c ≡ none
unfolding same cmp_bytes
c-absent = refl

new_list-fits : total (snoc entries (new_item two_entries c (new_list true (x ∷ [])))) < 2 ^ 64
unfolding copy_capacity push_usage calc_string_usage of_type
new_list-fits = omega arith

generic_push-new_example :
    Returns (generic_push true (codes "LPUSH" ∷ c ∷ x ∷ []) two_entries) (λ r.
      (r.0 ≡ (integer_reply (int_of_size (length (pushed true [] (x ∷ [])))), true))
      × Holds r.1 (survivors (snoc entries (new_item two_entries c (new_list true (x ∷ []))))))
generic_push-new_example =
    generic_push-new true (codes "LPUSH") c (x ∷ []) two_entries entries two_entries-Holds c-absent
      new_list-fits

abbrev pairs : List Bytes
pairs = a ∷ x ∷ []

-- A set with one member, and SADD of it and another one.
abbrev one_member : List Bytes
one_member = a ∷ []

added-small : added_usage one_member pairs < 2 ^ 31
unfolding added_usage Set.contains Set.insert same before cmp_bytes copy_capacity
added-small = omega arith

abbrev larger : Item
larger =
    with_value (placed (set one_member) 111)
      (added_value one_member pairs (placed (set one_member) 111).value)

larger-fits : total (larger ∷ second ∷ []) < 2 ^ 64
unfolding added_usage Set.contains Set.insert same before cmp_bytes copy_capacity
larger-fits = omega arith

larger-small : total (larger ∷ second ∷ []) ≤ lru_max_memory
unfolding added_usage Set.contains Set.insert same before cmp_bytes copy_capacity
larger-small = omega arith

command_sadd-there_example :
    Returns (command_sadd (codes "SADD" ∷ a ∷ pairs) (with_placed (set one_member) 111)) (λ r.
      (r.0 ≡ (
        integer_reply (int_of_size (add_members one_member (pos 0) 0 pairs).2),
        ltb 0 (add_members one_member (pos 0) 0 pairs).2,
      ))
      × Added one_member 0 pairs (add_members one_member (pos 0) 0 pairs)
      × Holds r.1 (snoc (kept [] (larger ∷ second ∷ []) ++ (second ∷ [])) larger))
command_sadd-there_example =
    command_sadd-there (codes "SADD") pairs one_member (with_placed (set one_member) 111) []
      (placed (set one_member) 111) (second ∷ []) (placed-Holds (set one_member) 111 (omega arith))
      refl added-small larger-fits larger-small (tt, tt)

-- RPOP a 5, of a list with two elements.
abbrev two_elements : List Bytes
two_elements = a ∷ x ∷ []

abbrev pop_all : List Bytes
pop_all = codes "5" ∷ []
