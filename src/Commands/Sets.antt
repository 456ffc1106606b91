-- ===== src/Commands/Sets.antt =====
-- SADD, SISMEMBER, SMISMEMBER, SCARD, SMEMBERS, SDIFF, SINTER, SUNION and SDEL of
-- src/commands.cpp.
pub mod Members
pub mod Operands
pub mod Intersection
pub mod Fresh
pub mod Keeps
pub mod Reads
pub mod Writes
pub mod Removals
mod Tests
use druta_db.Prelude.{
  ℕ, ◌+◌, ◌-◌, Bool, true, false, not, Option, none, some, List, [], ◌∷◌, ◌++◌, ltb, ◌==◌,
  if◌then◌else◌, length, drop, Bytes, bytes_key, ℤ, pos, int_of_size, size_of_int, add_size,
  sub_size,
}
use druta_db.Text.{codes, to_string}
use druta_db.Resp.{array_header}
use druta_db.Ordered.Set
use druta_db.Value.{ValueData, set, set_type, of_type, set_element_usage}
use druta_db.Store.{
  Ptr, DrutaNode, Cmd, pure, ◌>>=◌, ◌>>◌, arg, reserve, load, modify, find_key, new_node,
}
use druta_db.Lru.{add_lru, touch_lru, notify_memory_change}
use druta_db.Commands.Replies.{
  integer_reply, empty_array_reply, wrong_type, wrong_number, no_such_key, array_reply,
}

abbrev put_set : List Bytes → (ℕ → ℕ) → DrutaNode → DrutaNode
put_set s usage n = record n {
  value = record n.value { data_ = set s; memory_usage = usage n.value.memory_usage };
}

-- The loop of SADD on a set that is there: `delta` is an `int` to which a `size_t` is added.
unfoldable pub add_members : List Bytes → ℤ → ℕ → List Bytes → List Bytes × ℤ × ℕ
add_members s delta created [] = (s, delta, created)
add_members s delta created (x ∷ xs) =
    let fresh = not (Set.contains s x) in
    add_members (Set.insert s x)
      (if fresh then int_of_size (size_of_int delta + set_element_usage x) else delta)
      (if fresh then created + 1 else created) xs

-- The loop of SADD on a new set, with the value's `memory_usage`.
unfoldable pub fill_members : List Bytes → ℕ → ℕ → List Bytes → List Bytes × ℕ × ℕ
fill_members s usage created [] = (s, usage, created)
fill_members s usage created (x ∷ xs) =
    let fresh = not (Set.contains s x) in
    fill_members (Set.insert s x) (if fresh then add_size usage (set_element_usage x) else usage)
      (if fresh then created + 1 else created) xs

unfoldable pub sadd_data : Ptr → List Bytes → ValueData → Cmd (Bytes × Bool)
unfolding add_members
sadd_data node items (set s) = do
  let r = add_members s (pos 0) 0 items
  modify node (put_set r.0 (λ usage. add_size usage (size_of_int r.1)))
  notify_memory_change 0 (size_of_int r.1)
  touch_lru node
  pure (integer_reply (int_of_size r.2), ltb 0 r.2)
sadd_data node items other = pure (wrong_type, false)

unfoldable pub sadd_found : Bytes → List Bytes → Option Ptr → Cmd (Bytes × Bool)
unfolding sadd_data fill_members
sadd_found key items (some node) = do n ← load node; sadd_data node items n.value.data_
sadd_found key items none = do
  let empty = of_type set_type
  let r = fill_members [] empty.memory_usage 0 items
  node ← new_node key (record empty { data_ = set r.0; memory_usage = r.1 })
  add_lru node
  pure (integer_reply (int_of_size r.2), ltb 0 r.2)

unfoldable pub command_sadd : List Bytes → Cmd (Bytes × Bool)
unfolding sadd_found
command_sadd args = do key ← arg args 1; found ← find_key key; sadd_found key (drop 2 args) found

-- A handler that only reads the set at a key.
unfoldable pub read_set : (List Bytes → Bytes) → ValueData → Bytes
read_set reply (set s) = reply s
read_set reply other = wrong_type

unfoldable pub read_found : (List Bytes → Bytes) → Bytes → Option Ptr → Cmd Bytes
unfolding read_set
read_found reply missing none = pure missing
read_found reply missing (some node) = do n ← load node; pure (read_set reply n.value.data_)

-- `set.count(member)`
unfoldable pub count_reply : Bytes → List Bytes → Bytes
count_reply member s = integer_reply (if Set.contains s member then pos 1 else pos 0)

unfoldable pub command_sismember : List Bytes → Cmd Bytes
unfolding read_found count_reply
command_sismember args =
    if not (length args == 3) then pure (wrong_number (codes "sismember")) else do
      key ← arg args 1
      member ← arg args 2
      found ← find_key key
      read_found (count_reply member) (integer_reply (pos 0)) found

unfoldable pub count_all : List Bytes → List Bytes → Bytes
unfolding count_reply
count_all s [] = []
count_all s (member ∷ members) = count_reply member s ++ count_all s members

unfoldable pub command_smismember : List Bytes → Cmd Bytes
unfolding read_found count_all
command_smismember args =
    if ltb (length args) 3 then pure (wrong_number (codes "sismember")) else do
      key ← arg args 1
      found ← find_key key
      read_found (λ s. array_header (to_string (length args - 2)) ++ count_all s (drop 2 args))
          (integer_reply (pos 0)) found

unfoldable pub command_scard : List Bytes → Cmd Bytes
unfolding read_found
command_scard args = if not (length args == 2) then pure (wrong_number (codes "scard")) else do
  key ← arg args 1
  found ← find_key key
  read_found (λ s. integer_reply (int_of_size (length s))) (integer_reply (pos 0)) found

unfoldable pub smembers_data : DrutaNode → ValueData → Cmd Bytes
smembers_data n (set s) = do reserve (add_size 1024 n.value.memory_usage); pure (array_reply s)
smembers_data n other = pure wrong_type

unfoldable pub smembers_found : Option Ptr → Cmd Bytes
unfolding smembers_data
smembers_found none = pure empty_array_reply
smembers_found (some node) = do n ← load node; smembers_data n n.value.data_

unfoldable pub command_smembers : List Bytes → Cmd Bytes
unfolding smembers_found
command_smembers args =
    if not (length args == 2)
    then pure (wrong_number (codes "smembers"))
    else do key ← arg args 1; found ← find_key key; smembers_found found

-- What a key holds, for the operations on several sets.
pub data Operand : Type 0 where
  missing wrong : Operand
  members : List Bytes → Operand

unfoldable pub operand_of : ValueData → Operand
operand_of (set s) = members s
operand_of other = wrong

unfoldable pub operand_found : Option Ptr → Cmd Operand
unfolding operand_of
operand_found none = pure missing
operand_found (some node) = do n ← load node; pure (operand_of n.value.data_)

abbrev operand : Bytes → Cmd Operand
operand key = do found ← find_key key; operand_found found

-- The members of `s` leave `diff_set`.
unfoldable pub remove_members : List Bytes → List Bytes → List Bytes
remove_members diff_set [] = diff_set
remove_members diff_set (x ∷ s) =
    remove_members (if Set.contains diff_set x then Set.erase diff_set x else diff_set) s

unfoldable pub diff_operand : List Bytes → Operand → List Bytes
unfolding remove_members
diff_operand diff_set (members s) = remove_members diff_set s
diff_operand diff_set other = diff_set

unfoldable pub diff_loop : List Bytes → List Bytes → Cmd (List Bytes)
unfolding diff_operand operand_found
diff_loop diff_set [] = pure diff_set
diff_loop diff_set (key ∷ keys) = do o ← operand key; diff_loop (diff_operand diff_set o) keys

abbrev pub diff_from : List Bytes → Operand → Cmd Bytes
diff_from keys wrong = pure wrong_type
diff_from keys missing = do s ← diff_loop [] keys; pure (array_reply s)
diff_from keys (members s) = do s' ← diff_loop s keys; pure (array_reply s')

unfoldable pub command_sdiff : List Bytes → Cmd Bytes
unfolding diff_loop
command_sdiff args =
    if ltb (length args) 2
    then pure (wrong_number (codes "sismember"))
    else do key ← arg args 1; o ← operand key; diff_from (drop 2 args) o

-- The members of `inter_set` that are in the other set.
unfoldable pub common_members : List Bytes → List Bytes → List Bytes → List Bytes
common_members next_inter [] s = next_inter
common_members next_inter (x ∷ inter_set) s =
    common_members (if Set.contains s x then Set.insert next_inter x else next_inter) inter_set s

-- One round of the loop of SINTER: `none` is the error, `false` leaves the loop.
unfoldable pub inter_operand : List Bytes → Operand → Option (List Bytes × Bool)
unfolding common_members
inter_operand inter_set missing = some ([], false)
inter_operand inter_set wrong = none
inter_operand inter_set (members s) =
    let next = common_members [] inter_set s in some (next, not (length next == 0))

unfoldable pub inter_loop : List Bytes → List Bytes → Cmd (Option (List Bytes))
unfolding inter_operand operand_found
inter_loop inter_set [] = pure (some inter_set)
inter_loop inter_set (key ∷ keys) = do
  o ← operand key
  elim (inter_operand inter_set o) [
    | none ↦ pure none
    | some (next, go_on) ↦ elim go_on [ true ↦ inter_loop next keys | false ↦ pure (some next) ]
  ]

abbrev pub inter_reply : Option (List Bytes) → Bytes
inter_reply none = wrong_type
inter_reply (some s) = array_reply s

abbrev pub inter_from : List Bytes → Operand → Cmd Bytes
inter_from keys wrong = pure wrong_type
inter_from keys missing = do r ← inter_loop [] keys; pure (inter_reply r)
inter_from keys (members s) = do r ← inter_loop s keys; pure (inter_reply r)

unfoldable pub command_sinter : List Bytes → Cmd Bytes
unfolding inter_loop
command_sinter args =
    if ltb (length args) 2
    then pure (wrong_number (codes "sismember"))
    else do key ← arg args 1; o ← operand key; inter_from (drop 2 args) o

unfoldable pub insert_members : List Bytes → List Bytes → List Bytes
insert_members union_set [] = union_set
insert_members union_set (x ∷ s) = insert_members (Set.insert union_set x) s

unfoldable pub union_operand : List Bytes → Operand → List Bytes
unfolding insert_members
union_operand union_set (members s) = insert_members union_set s
union_operand union_set other = union_set

unfoldable pub union_loop : List Bytes → List Bytes → Cmd (List Bytes)
unfolding union_operand operand_found
union_loop union_set [] = pure union_set
union_loop union_set (key ∷ keys) = do o ← operand key; union_loop (union_operand union_set o) keys

unfoldable pub command_sunion : List Bytes → Cmd Bytes
unfolding union_loop
command_sunion args =
    if ltb (length args) 2
    then pure (wrong_number (codes "sismember"))
    else do s ← union_loop [] (drop 1 args); pure (array_reply s)

-- The loop of SDEL; `delta` is an `int` as in SADD.
unfoldable pub del_members : List Bytes → ℤ → ℕ → List Bytes → List Bytes × ℤ × ℕ
del_members s delta deleted [] = (s, delta, deleted)
del_members s delta deleted (x ∷ xs) =
    let there = Set.contains s x in
    del_members (Set.erase s x)
      (if there then int_of_size (size_of_int delta + set_element_usage x) else delta)
      (if there then deleted + 1 else deleted) xs

unfoldable pub sdel_data : Ptr → List Bytes → ValueData → Cmd (Bytes × Bool)
unfolding del_members
sdel_data node items (set s) = do
  let r = del_members s (pos 0) 0 items
  modify node (put_set r.0 (λ usage. sub_size usage (size_of_int r.1)))
  notify_memory_change (size_of_int r.1) 0
  touch_lru node
  pure (integer_reply (int_of_size r.2), ltb 0 r.2)
sdel_data node items other = pure (wrong_type, false)

unfoldable pub sdel_found : List Bytes → Option Ptr → Cmd (Bytes × Bool)
unfolding sdel_data
sdel_found items none = pure (no_such_key, false)
sdel_found items (some node) = do n ← load node; sdel_data node items n.value.data_

unfoldable pub command_sdel : List Bytes → Cmd (Bytes × Bool)
unfolding sdel_found
command_sdel args = do key ← arg args 1; found ← find_key key; sdel_found (drop 2 args) found
