-- ===== src/Commands/Tests.antt =====
-- Runs of handlers on databases with two entries.
use druta_db.Prelude.{
  ◌^◌, ◌≤◌, ◌<◌, ◌≡◌, refl, true, none, some, List, [], ◌∷◌, arith, ltb, Bytes, bytes_key, same,
  cmp_bytes, snoc, pos, negsuc, int_of_size, add_size, ok, fault, out_of_range, Returns,
}
use druta_db.Text.{
  codes, stoi, read_signed, skip_space, is_space, read_magnitude, is_digit, read_digits, in_range,
}
use druta_db.Text.Storage.{copy_capacity}
use druta_db.Value.{of_string, calc_string_usage}
use druta_db.Lru.{lru_max_memory}
use druta_db.Lru.Chain.{Item}
use druta_db.Lru.Holds.{Holds, total}
use druta_db.Lru.Evict.{survivors}
use druta_db.Lru.Insert.{new_item}
use druta_db.Lru.Tests.{
  first, second, two_entries, two_entries-Holds, listed, with_list, with_list-Holds,
}
use druta_db.Commands.Replies.{ok_reply, integer_reply}
use druta_db.Commands.Strings.{command_get, command_del, command_set, read_expiry}
use druta_db.Commands.Strings.Entries.{get_of_entries, command_get-Holds}
use druta_db.Commands.Strings.Writes.{del_of_entries, command_del-Holds, command_set-new}
use druta_db.Commands.Lists.{generic_pop}
use druta_db.Commands.Lists.Pops.{generic_pop-negative}

abbrev a : Bytes
a = codes "a"

abbrev entries : List Item
entries = first ∷ second ∷ []

command_get-Holds_example : Returns (command_get (pos 5) (codes "GET" ∷ a ∷ []) two_entries) (λ r.
    (r.0 ≡ (get_of_entries (pos 5) a entries).0) × Holds r.1 (get_of_entries (pos 5) a entries).1)
command_get-Holds_example =
    command_get-Holds (pos 5) (codes "GET") a two_entries entries two_entries-Holds

command_del-Holds_example : Returns (command_del (codes "DEL" ∷ a ∷ []) two_entries) (λ r.
    (r.0 ≡ (
      integer_reply (int_of_size (del_of_entries 0 (a ∷ []) entries).0),
      ltb 0 (del_of_entries 0 (a ∷ []) entries).0,
    ))
    × Holds r.1 (del_of_entries 0 (a ∷ []) entries).1)
command_del-Holds_example =
    command_del-Holds (codes "DEL") (a ∷ []) two_entries entries two_entries-Holds

no_options : read_expiry (pos 5) [] (pos 0) ≡ ok (some (pos 0))
unfolding read_expiry
no_options = refl

c-absent : two_entries.kv_store (codes "c") ≡ none
unfolding same cmp_bytes
c-absent = refl

c-fits :
    total (snoc entries (new_item two_entries (codes "c") (of_string (codes "x") (pos 0)))) < 2 ^ 64
unfolding copy_capacity of_string calc_string_usage add_size
c-fits = omega arith

command_set-new_example :
    Returns (command_set (pos 5) (codes "SET" ∷ codes "c" ∷ codes "x" ∷ []) two_entries) (λ r.
      (r.0 ≡ (ok_reply, true))
      × Holds r.1 (
          survivors
            (snoc entries (new_item two_entries (codes "c") (of_string (codes "x") (pos 0)))))
      × (r.1.current_memory_usage ≤ lru_max_memory))
command_set-new_example =
    command_set-new (pos 5) (codes "SET") (codes "c") (codes "x") [] (pos 0) two_entries entries
      two_entries-Holds c-absent no_options c-fits

stoi-minus_one : stoi (codes "-1") ≡ some (negsuc 0)
unfolding stoi read_signed skip_space is_space read_magnitude is_digit read_digits in_range
stoi-minus_one = refl

generic_pop-negative_example :
    generic_pop true (codes "LPOP" ∷ a ∷ codes "-1" ∷ []) with_list ≡ fault out_of_range
generic_pop-negative_example =
    generic_pop-negative true (codes "LPOP") (codes "-1") 0 (codes "x" ∷ []) with_list [] listed
      (second ∷ []) with_list-Holds refl (omega arith) stoi-minus_one
