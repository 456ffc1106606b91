-- ===== src/Commands/Strings.antt =====
-- PING, ECHO, SET, GET and DEL of src/commands.cpp. `now` is what `get_current_time_ms` returns
-- during the command.
pub mod Entries
pub mod Writes
pub mod Overwrite
pub mod Expiry
pub mod Keeps
use druta_db.Prelude.{
  ℕ, ◌+◌, Bool, true, false, ◌&&◌, Option, none, some, List, [], ◌∷◌, ◌++◌, ltb, ltb_ℤ, eqb_ℤ,
  if◌then◌else◌, drop, Bytes, bytes_key, same, ℤ, pos, ◌+ℤ◌, times_1000, fits_long_long,
  int_of_size, Result, ok, fault, overflow, ◌>>=◌ as bind_result,
}
use druta_db.Text.{codes, crlf, to_upper, stoll}
use druta_db.Value.{DrutaValue, ValueData, string, of_string}
use druta_db.Store.{Ptr, Cmd, pure, ◌>>=◌, ◌>>◌, lift, arg, load, find_key, erase_key, new_node}
use druta_db.Lru.{add_lru, update_lru, touch_lru, remove_from_lru}
use druta_db.Commands.Replies.{
  integer_reply, nil_reply, ok_reply, wrong_type, not_an_integer, bulk_reply,
}

unfoldable pub command_ping : Bytes
command_ping = codes "+PONG" ++ crlf

unfoldable pub command_echo : List Bytes → Cmd Bytes
command_echo args = do message ← arg args 1; pure (bulk_reply message)

-- The three options with a number behind them.
pub data ExpiryOption : Type 0 where
  ex px pxat : ExpiryOption

unfoldable pub expiry_option : Bytes → Option ExpiryOption
expiry_option opt =
    if same opt (codes "EX")
    then some ex
    else if same opt (codes "PX")
    then some px
    else if same opt (codes "PXAT")
    then some pxat
    else none

-- A `long long` that overflows is undefined behaviour.
abbrev checked : ℤ → Result ℤ
checked n = if fits_long_long n then ok n else fault overflow

unfoldable pub expire_at_option : ℤ → ExpiryOption → ℤ → Result ℤ
expire_at_option now ex n = bind_result (checked (times_1000 n)) (λ ms. checked (now +ℤ ms))
expire_at_option now px n = checked (now +ℤ n)
expire_at_option now pxat n = ok n

-- The loop over the options, `expire_at` so far; `none` is an exception of `std::stoll`.
unfoldable pub read_expiry : ℤ → List Bytes → ℤ → Result (Option ℤ)
unfolding expiry_option expire_at_option
read_expiry now [] expire_at = ok (some expire_at)
read_expiry now (opt ∷ []) expire_at = ok (some expire_at)
read_expiry now (opt ∷ (value ∷ rest)) expire_at = elim (expiry_option (to_upper opt)) [
  | none ↦ read_expiry now (value ∷ rest) expire_at
  | some o ↦ elim (stoll value) [
    | none ↦ ok none
    | some n ↦ bind_result (expire_at_option now o n) (λ at. read_expiry now rest at)
  ]
]

-- `kv_store.find(key)` succeeds or a node is made.
unfoldable pub set_value : Bytes → DrutaValue → Option Ptr → Cmd (Unit {0})
set_value key value (some node) = update_lru node value
set_value key value none = do node ← new_node key value; add_lru node

unfoldable pub command_set : ℤ → List Bytes → Cmd (Bytes × Bool)
command_set now args = do
  key ← arg args 1
  val ← arg args 2
  expire_at ← lift (read_expiry now (drop 3 args) (pos 0))
  elim expire_at [
    | none ↦ pure (not_an_integer, false)
    | some at ↦ do
      found ← find_key key
      set_value key (of_string val at) found
      pure (ok_reply, true)
  ]

-- `expiry_time != 0 && now > expiry_time`
unfoldable pub is_expired : ℤ → ℤ → Bool
is_expired now expiry_time =
    (if eqb_ℤ expiry_time (pos 0) then false else true) && ltb_ℤ expiry_time now

unfoldable pub get_data : ℤ → Bytes → Ptr → ℤ → ValueData → Cmd Bytes
get_data now key node expiry (string val) =
    if is_expired now expiry
    then (do remove_from_lru node; erase_key key; pure nil_reply)
    else (do touch_lru node; pure (bulk_reply val))
get_data now key node expiry other = pure wrong_type

unfoldable pub get_found : ℤ → Bytes → Option Ptr → Cmd Bytes
unfolding get_data
get_found now key none = pure nil_reply
get_found now key (some node) = do
  n ← load node
  get_data now key node n.value.expiry_time n.value.data_

unfoldable pub command_get : ℤ → List Bytes → Cmd Bytes
unfolding get_found
command_get now args = do key ← arg args 1; found ← find_key key; get_found now key found

unfoldable pub del_found : Bytes → Option Ptr → Cmd ℕ
del_found key none = pure 0
del_found key (some node) = do remove_from_lru node; erase_key key; pure 1

-- The loop of DEL over the keys.
unfoldable pub del_keys : ℕ → List Bytes → Cmd ℕ
del_keys del_count [] = pure del_count
del_keys del_count (key ∷ keys) = do
  found ← find_key key
  n ← del_found key found
  del_keys (del_count + n) keys

unfoldable pub command_del : List Bytes → Cmd (Bytes × Bool)
command_del args = do
  del_count ← del_keys 0 (drop 1 args)
  pure (integer_reply (int_of_size del_count), ltb 0 del_count)
