-- ===== src/Commands/Lists.antt =====
-- RPUSH, LPUSH, LRANGE, LPOP, RPOP and LLEN of src/commands.cpp.
pub mod Pops
pub mod Removals
pub mod Pushes
pub mod Fresh
pub mod Keeps
use druta_db.Prelude.{
  ℕ, zero, suc, ◌+◌, ◌-◌, Bool, true, false, ◌||◌, not, Option, none, some, List, [], ◌∷◌, ltb_ℤ,
  if◌then◌else◌, length, take, drop, snoc, Bytes, ℤ, pos, negsuc, ◌+ℤ◌, max_ℤ, min_ℤ, pos_part,
  int_of_size, add_size, sub_size, Result, ok, fault, out_of_range, overflow, fits_int,
  ◌>>=◌ as bind_result,
}
use mathlib.Core.List.{reverse}
use druta_db.Text.{int_to_string, stoi}
use druta_db.Text.Storage.{sizeof_string}
use druta_db.Resp.{resp_bulk_string, array_header}
use druta_db.Value.{ValueData, list, list_type, of_type, calc_string_usage}
use druta_db.Store.{
  Ptr, DrutaNode, Cmd, pure, ◌>>=◌, ◌>>◌, lift, arg, load, modify, find_key, new_node,
}
use druta_db.Lru.{add_lru, touch_lru, notify_memory_change}
use druta_db.Commands.Replies.{
  integer_reply, empty_array_reply, wrong_type, not_numeric, invalid_arguments, array_reply,
}

-- One turn of the loop of `generic_push`, and the loop: the list and `delta`.
abbrev push_one : Bool → List Bytes → Bytes → List Bytes
push_one at_front l x = if at_front then x ∷ l else snoc l x

unfoldable pub push_all : Bool → List Bytes → ℕ → List Bytes → List Bytes × ℕ
push_all at_front l delta [] = (l, delta)
push_all at_front l delta (x ∷ xs) =
    push_all at_front (push_one at_front l x)
      (add_size delta (calc_string_usage x + sizeof_string + 8)) xs

abbrev set_list : List Bytes → (ℕ → ℕ) → DrutaNode → DrutaNode
set_list l usage n = record n {
  value = record n.value { data_ = list l; memory_usage = usage n.value.memory_usage };
}

-- `list.size()` of the node, which is read after the eviction.
unfoldable pub list_size : ValueData → ℕ
list_size (list l) = length l
list_size other = 0

unfoldable pub push_data : Bool → Ptr → List Bytes → ValueData → Cmd (Bytes × Bool)
unfolding list_size
push_data at_front node items (list l) = do
  let r = push_all at_front l 0 items
  modify node (set_list r.0 (λ usage. add_size usage r.1))
  notify_memory_change 0 r.1
  touch_lru node
  n ← load node
  pure (integer_reply (int_of_size (list_size n.value.data_)), true)
push_data at_front node items other = pure (wrong_type, false)

unfoldable pub push_found : Bool → Bytes → List Bytes → Option Ptr → Cmd (Bytes × Bool)
push_found at_front key items (some node) = do
  n ← load node
  push_data at_front node items n.value.data_
push_found at_front key items none = do
  let empty = of_type list_type
  let r = push_all at_front [] 0 items
  let value = record empty { data_ = list r.0; memory_usage = add_size empty.memory_usage r.1 }
  node ← new_node key value
  add_lru node
  pure (integer_reply (int_of_size (length r.0)), true)

unfoldable pub generic_push : Bool → List Bytes → Cmd (Bytes × Bool)
unfolding push_found
generic_push at_front args = do
  key ← arg args 1
  found ← find_key key
  push_found at_front key (drop 2 args) found

abbrev pub command_rpush : List Bytes → Cmd (Bytes × Bool)
command_rpush = generic_push false

abbrev pub command_lpush : List Bytes → Cmd (Bytes × Bool)
command_lpush = generic_push true

-- A sum of two `int`s: one that overflows is undefined behaviour.
unfoldable pub add_int : ℤ → ℤ → Result ℤ
add_int a b = if fits_int (a +ℤ b) then ok (a +ℤ b) else fault overflow

-- An index from the end.
unfoldable pub from_end : ℤ → ℤ → Result ℤ
from_end size i = if ltb_ℤ i (pos 0) then add_int i size else ok i

-- The elements from `li` to `ri`, which lie in the list unless nothing is to be sent.
abbrev pub range_items : List Bytes → ℤ → ℤ → ℤ → Bytes
range_items l size li ri =
    if not (ltb_ℤ li size) || ltb_ℤ ri li
    then empty_array_reply
    else array_reply (take (pos_part ri - pos_part li + 1) (drop (pos_part li) l))

unfoldable pub range_reply : List Bytes → ℤ → ℤ → Result Bytes
unfolding from_end add_int
range_reply l li ri =
    let size = int_of_size (length l) in
    bind_result (from_end size li) (λ li. bind_result (from_end size ri) (λ ri.
      bind_result (add_int size (negsuc 0))
        (λ last. ok (range_items l size (max_ℤ li (pos 0)) (min_ℤ ri last)))))

unfoldable pub range_numbers : List Bytes → Option ℤ → Option ℤ → Result Bytes
unfolding range_reply
range_numbers l (some li) (some ri) = range_reply l li ri
range_numbers l _ _ = ok not_numeric

unfoldable pub lrange_data : Ptr → Bytes → Bytes → ValueData → Cmd Bytes
unfolding range_numbers
lrange_data node first last (list l) = do
  touch_lru node
  lift (range_numbers l (stoi first) (stoi last))
lrange_data node first last other = pure wrong_type

unfoldable pub lrange_found : Bytes → Bytes → Option Ptr → Cmd Bytes
unfolding lrange_data
lrange_found first last none = pure empty_array_reply
lrange_found first last (some node) = do n ← load node; lrange_data node first last n.value.data_

unfoldable pub command_lrange : List Bytes → Cmd Bytes
unfolding lrange_found
command_lrange args = do
  key ← arg args 1
  first ← arg args 2
  last ← arg args 3
  found ← find_key key
  lrange_found first last found

-- `while (actual_pop)` from the end that is popped: the rest, the reply and `delta`. The count is
-- an `int` that is only compared with zero; `front()` of an empty list is undefined behaviour.
unfoldable pub pop_loop : List Bytes → ℤ → Bytes → ℕ → Result (List Bytes × Bytes × ℕ)
pop_loop l (pos zero) res delta = ok (l, res, delta)
pop_loop [] n res delta = fault out_of_range
pop_loop (x ∷ l) (pos (suc n)) res delta =
    pop_loop l (pos n) (resp_bulk_string res x)
      (add_size delta (calc_string_usage x + sizeof_string + 8))
pop_loop (x ∷ l) (negsuc n) res delta =
    pop_loop l (negsuc (suc n)) (resp_bulk_string res x)
      (add_size delta (calc_string_usage x + sizeof_string + 8))

-- The list seen from the end that is popped.
abbrev pub oriented : Bool → List Bytes → List Bytes
oriented from_front l = if from_front then l else reverse l

unfoldable pub pop_data : Bool → Ptr → ℤ → ValueData → Cmd (Bytes × Bool)
pop_data from_front node count (list l) = do
  touch_lru node
  let count = min_ℤ count (int_of_size (length l))
  (rest, res, delta) ←
      lift (pop_loop (oriented from_front l) count (array_header (int_to_string count)) 0)
  modify node (set_list (oriented from_front rest) (λ usage. sub_size usage delta))
  notify_memory_change delta 0
  pure (res, true)
pop_data from_front node count other = pure (wrong_type, false)

unfoldable pub pop_found : Bool → ℤ → Option Ptr → Cmd (Bytes × Bool)
pop_found from_front count none = pure (empty_array_reply, false)
pop_found from_front count (some node) = do
  n ← load node
  pop_data from_front node count n.value.data_

abbrev or_one : Option ℤ → ℤ
or_one none = pos 1
or_one (some n) = n

-- `count_pop`: a third argument that is no number counts as 1; `none` if there are too many.
unfoldable pub pop_count : List Bytes → Option ℤ
pop_count (cmd ∷ (key ∷ (count ∷ []))) = some (or_one (stoi count))
pop_count (cmd ∷ (key ∷ (count ∷ (more ∷ rest)))) = none
pop_count args = some (pos 1)

unfoldable pub generic_pop : Bool → List Bytes → Cmd (Bytes × Bool)
unfolding pop_count pop_found
generic_pop from_front args = elim (pop_count args) [
  | none ↦ pure (invalid_arguments, false)
  | some count ↦ do key ← arg args 1; found ← find_key key; pop_found from_front count found
]

abbrev pub command_lpop : List Bytes → Cmd (Bytes × Bool)
command_lpop = generic_pop true

abbrev pub command_rpop : List Bytes → Cmd (Bytes × Bool)
command_rpop = generic_pop false

unfoldable pub llen_data : Ptr → ValueData → Cmd Bytes
llen_data node (list l) = do touch_lru node; pure (integer_reply (int_of_size (length l)))
llen_data node other = pure wrong_type

unfoldable pub llen_found : Option Ptr → Cmd Bytes
unfolding llen_data
llen_found none = pure (integer_reply (pos 0))
llen_found (some node) = do n ← load node; llen_data node n.value.data_

unfoldable pub command_llen : List Bytes → Cmd Bytes
unfolding llen_found
command_llen args = do key ← arg args 1; found ← find_key key; llen_found found
