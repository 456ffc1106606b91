-- ===== src/Commands/Hashes.antt =====
-- HSET, HGET, HGETALL, HDEL and HLEN of src/commands.cpp.
pub mod Fresh
pub mod Keeps
pub mod Refill
pub mod Writes
pub mod Removals
pub mod Uncaught
mod Tests
use druta_db.Prelude.{
  ℕ, ◌+◌, ◌-◌, ◌%◌, Bool, false, ◌||◌, not, Option, none, some, List, [], ◌∷◌, ltb, ◌==◌,
  if◌then◌else◌, length, drop, Bytes, pos, int_of_size, add_size, sub_size,
}
use druta_db.Text.{codes}
use druta_db.Text.Storage.{StdString}
use druta_db.Hash.{
  VectorData, MapData, HashData, DrutaHash, map, vector, get_hash, set_hash, del_hash, size,
}
use druta_db.Value.{ValueData, hash, hash_type, of_type}
use druta_db.Store.{
  Ptr, DrutaNode, Cmd, pure, ◌>>=◌, ◌>>◌, arg, reserve, load, modify, find_key, new_node,
}
use druta_db.Lru.{add_lru, touch_lru, notify_memory_change}
use druta_db.Commands.Replies.{
  integer_reply, nil_reply, empty_array_reply, wrong_type, wrong_number, bulk_reply, array_reply,
}

-- The loop of HSET: the hash and how many fields are new.
unfoldable pub set_fields : DrutaHash → ℕ → List Bytes → DrutaHash × ℕ
set_fields h created [] = (h, created)
set_fields h created (field ∷ []) = (h, created)
set_fields h created (field ∷ (value ∷ rest)) =
    let r = set_hash h field value in set_fields r.0 (if r.1 then created + 1 else created) rest

-- The value's account after its hash went from `old_mem` to `new_mem`.
unfoldable pub adjusted : ℕ → ℕ → ℕ → ℕ
adjusted old_mem new_mem usage =
    if ltb old_mem new_mem
    then add_size usage (new_mem - old_mem)
    else if ltb new_mem old_mem
    then sub_size usage (old_mem - new_mem)
    else usage

abbrev put_hash : DrutaHash → (ℕ → ℕ) → DrutaNode → DrutaNode
put_hash h usage n = record n {
  value = record n.value { data_ = hash h; memory_usage = usage n.value.memory_usage };
}

-- HSET from the point where `node` and `hash_ptr` are set.
unfoldable pub hset_data : Ptr → List Bytes → ValueData → Cmd (Bytes × Bool)
unfolding set_fields adjusted
hset_data node pairs (hash h) = do
  let r = set_fields h 0 pairs
  modify node (put_hash r.0 (adjusted h.memory_usage r.0.memory_usage))
  notify_memory_change h.memory_usage r.0.memory_usage
  touch_lru node
  pure (integer_reply (int_of_size r.1), ltb 0 r.1)
hset_data node pairs other = pure (wrong_type, false)

unfoldable pub hset_found : Bytes → List Bytes → Option Ptr → Cmd (Bytes × Bool)
unfolding hset_data
hset_found key pairs (some node) = do n ← load node; hset_data node pairs n.value.data_
hset_found key pairs none = do
  node ← new_node key (of_type hash_type)
  add_lru node
  n ← load node
  hset_data node pairs n.value.data_

unfoldable pub command_hset : List Bytes → Cmd (Bytes × Bool)
unfolding hset_found
command_hset args =
    if ltb (length args) 4 || not (length args % 2 == 0)
    then pure (wrong_number (codes "hset"), false)
    else do key ← arg args 1; found ← find_key key; hset_found key (drop 2 args) found

unfoldable pub field_reply : Ptr → Option StdString → Cmd Bytes
field_reply node none = pure nil_reply
field_reply node (some val) = do touch_lru node; pure (bulk_reply val.chars)

unfoldable pub hget_data : Ptr → Bytes → ValueData → Cmd Bytes
unfolding field_reply
hget_data node field (hash h) = field_reply node (get_hash h field)
hget_data node field other = pure wrong_type

unfoldable pub hget_found : Bytes → Option Ptr → Cmd Bytes
unfolding hget_data
hget_found field none = pure nil_reply
hget_found field (some node) = do n ← load node; hget_data node field n.value.data_

unfoldable pub command_hget : List Bytes → Cmd Bytes
unfolding hget_found
command_hget args =
    if not (length args == 3)
    then pure (wrong_number (codes "hget"))
    else do key ← arg args 1; field ← arg args 2; found ← find_key key; hget_found field found

-- `all_data`, each pair as two strings.
unfoldable pub vector_strings : VectorData → List Bytes
vector_strings [] = []
vector_strings ((name, value) ∷ vec) = name.chars ∷ (value.chars ∷ vector_strings vec)

unfoldable pub map_strings : MapData → List Bytes
map_strings [] = []
map_strings ((name, value) ∷ m) = name ∷ (value.chars ∷ map_strings m)

unfoldable pub hash_strings : HashData → List Bytes
unfolding vector_strings map_strings
hash_strings (vector vec) = vector_strings vec
hash_strings (map m) = map_strings m

unfoldable pub hgetall_data : Ptr → ValueData → Cmd Bytes
unfolding hash_strings
hgetall_data node (hash h) = do
  touch_lru node
  reserve (add_size 1024 h.memory_usage)
  pure (array_reply (hash_strings h.data_))
hgetall_data node other = pure wrong_type

unfoldable pub hgetall_found : Option Ptr → Cmd Bytes
unfolding hgetall_data
hgetall_found none = pure empty_array_reply
hgetall_found (some node) = do n ← load node; hgetall_data node n.value.data_

unfoldable pub command_hgetall : List Bytes → Cmd Bytes
unfolding hgetall_found
command_hgetall args =
    if not (length args == 2)
    then pure (wrong_number (codes "hgetall"))
    else do key ← arg args 1; found ← find_key key; hgetall_found found

-- The loop of HDEL.
unfoldable pub del_fields : DrutaHash → ℕ → List Bytes → DrutaHash × ℕ
del_fields h deleted [] = (h, deleted)
del_fields h deleted (field ∷ rest) =
    let r = del_hash h field in del_fields r.0 (if r.1 then deleted + 1 else deleted) rest

unfoldable pub hdel_data : Ptr → List Bytes → ValueData → Cmd (Bytes × Bool)
unfolding del_fields
hdel_data node fields (hash h) = do
  let r = del_fields h 0 fields
  let old_mem = h.memory_usage
  let new_mem = r.0.memory_usage
  (if ltb new_mem old_mem
      then (do
        modify node (put_hash r.0 (λ usage. sub_size usage (old_mem - new_mem)))
        notify_memory_change old_mem new_mem)
      else modify node (put_hash r.0 (λ usage. usage)))
  touch_lru node
  pure (integer_reply (int_of_size r.1), ltb 0 r.1)
hdel_data node fields other = pure (wrong_type, false)

unfoldable pub hdel_found : List Bytes → Option Ptr → Cmd (Bytes × Bool)
unfolding hdel_data
hdel_found fields none = pure (integer_reply (pos 0), false)
hdel_found fields (some node) = do n ← load node; hdel_data node fields n.value.data_

unfoldable pub command_hdel : List Bytes → Cmd (Bytes × Bool)
unfolding hdel_found
command_hdel args =
    if ltb (length args) 3
    then pure (wrong_number (codes "hdel"), false)
    else do key ← arg args 1; found ← find_key key; hdel_found (drop 2 args) found

unfoldable pub hlen_data : ValueData → Bytes
hlen_data (hash h) = integer_reply (int_of_size (size h))
hlen_data other = wrong_type

unfoldable pub hlen_found : Option Ptr → Cmd Bytes
unfolding hlen_data
hlen_found none = pure (integer_reply (pos 0))
hlen_found (some node) = do n ← load node; pure (hlen_data n.value.data_)

unfoldable pub command_hlen : List Bytes → Cmd Bytes
unfolding hlen_found
command_hlen args =
    if not (length args == 2)
    then pure (wrong_number (codes "hlen"))
    else do key ← arg args 1; found ← find_key key; hlen_found found
