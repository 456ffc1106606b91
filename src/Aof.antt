-- ===== src/Aof.antt =====
-- src/aof.cpp: the append-only file. `text` is what has been written to it, buffered or not. The
-- file system and the timers are parameters: that the file is open, that it is time to look at its
-- size, and what that size is.
pub mod Rewrite
use druta_db.Prelude.{
  ℕ, zero, suc, ◌*◌, Bool, true, false, ◌&&◌, Option, none, some, List, [], ◌∷◌, ◌++◌, ltb, ltb_ℤ,
  ◌==◌, if◌then◌else◌, length, Bytes, bytes_key, ℤ, pos, Result, ok, fault, out_of_fuel,
}
use druta_db.Text.{codes, to_upper, int_to_string}
use druta_db.Resp.{format_resp_command}
use druta_db.Ordered.Set
use druta_db.Commands.Hashes.{hash_strings}
use druta_db.Value.{ValueData, string, list, hash, set}
use druta_db.Store.{Ptr, null, DrutaNode, Store, Cmd, pure, load}

pub record Aof : Type 0 where
  pub is_open : Bool
  pub text : Bytes
  pub last_rewrite_size : ℕ

abbrev pub rewrite_threshold : ℕ
rewrite_threshold = 10 * 1024

-- The names of the commands that are logged, as `is_valid` lists them.
abbrev pub logged_commands : List Bytes
logged_commands =
    codes "DEL"
    ∷ codes "HDEL"
    ∷ codes "HSET"
    ∷ codes "LPOP"
    ∷ codes "LPUSH"
    ∷ codes "RPOP"
    ∷ codes "RPUSH"
    ∷ codes "SADD"
    ∷ codes "SDEL"
    ∷ codes "SET"
    ∷ []

-- `std::binary_search` over the sorted names finds a name exactly if it is among them.
unfoldable pub is_valid : Bytes → Bool
is_valid cmd = Set.contains logged_commands cmd

unfoldable pub append_to_aof : List Bytes → Aof → Aof
unfolding is_valid
append_to_aof [] aof = aof
append_to_aof (cmd ∷ args) aof =
    if is_valid (to_upper cmd) && aof.is_open
    then record aof { text = aof.text ++ format_resp_command (cmd ∷ args) }
    else aof

-- `flush_clear_aof`, where the file can be opened.
unfoldable pub flush_clear_aof : Aof → Aof
flush_clear_aof aof = record aof { text = []; is_open = true }

-- The command that makes a value again; `none` for an empty one.
unfoldable pub string_command : Bytes → Bytes → ℤ → List Bytes
string_command key s expiry =
    codes "SET"
    ∷ (key
        ∷ (s ∷ (if ltb_ℤ (pos 0) expiry then codes "PXAT" ∷ (int_to_string expiry ∷ []) else [])))

unfoldable pub unless_empty : Bytes → Bytes → List Bytes → Option (List Bytes)
unless_empty name key [] = none
unless_empty name key (x ∷ xs) = some (name ∷ (key ∷ (x ∷ xs)))

unfoldable pub value_command : Bytes → ValueData → ℤ → Option (List Bytes)
unfolding string_command unless_empty
value_command key (string s) expiry = some (string_command key s expiry)
value_command key (list l) expiry = unless_empty (codes "RPUSH") key l
value_command key (hash h) expiry = unless_empty (codes "HSET") key (hash_strings h.data_)
value_command key (set s) expiry = unless_empty (codes "SADD") key s

unfoldable pub format_option : Option (List Bytes) → Bytes
format_option none = []
format_option (some cmd) = format_resp_command cmd

-- What one node adds to the new file.
unfoldable pub node_text : ℤ → DrutaNode → Bytes
node_text now n =
    if ltb_ℤ (pos 0) n.value.expiry_time && ltb_ℤ n.value.expiry_time now
    then []
    else format_option (value_command n.key n.value.data_ n.value.expiry_time)

-- The walk from `TAIL` to `HEAD`, with fuel for each node and the end.
unfoldable pub rewrite_walk : ℕ → ℤ → Ptr → Bytes → Cmd Bytes
rewrite_walk zero now cur temp_aof = λ s. fault out_of_fuel
rewrite_walk (suc fuel) now cur temp_aof = elim (cur == null) [
  | true ↦ pure temp_aof
  | false ↦ λ s. elim (load cur s) [
    | fault e ↦ fault e
    | ok (n, s') ↦ rewrite_walk fuel now n.next (temp_aof ++ node_text now n) s'
  ]
]

-- `rewrite_aof`, where the temporary file can be opened and renamed.
unfoldable pub rewrite_aof : ℤ → Store → Aof → Result Aof
rewrite_aof now s aof = elim (rewrite_walk (suc s.lru_size) now s.tail [] s) [
  | fault e ↦ fault e
  | ok (text, s') ↦ ok (record { is_open = true; text = text; last_rewrite_size = length text })
]

-- What the clock and the file system say during a command.
pub record Env : Type 0 where
  pub now : ℤ
  pub check_due : Bool
  pub file_exists : Bool
  pub file_size : ℕ

unfoldable pub check_and_rewrite_aof : Env → Store → Aof → Result Aof
unfolding rewrite_aof
check_and_rewrite_aof env s aof =
    if env.check_due
      && env.file_exists
      && (ltb rewrite_threshold env.file_size && ltb (aof.last_rewrite_size * 2) env.file_size)
    then rewrite_aof env.now s aof
    else ok aof
