-- ===== src/Server/Replay.antt =====
-- The commands of a replay of src/aof.cpp, one at a time.
use druta_db.Prelude.{
  ◌≡◌, refl, ap, ◌∙◌, Bool, true, false, none, some, List, ◌∷◌, arith, leb, length, Bytes,
  bytes_key, same, cmp_bytes, int_key, same_refl, ℤ, Result, ok,
}
use druta_db.Text.{codes, to_upper, to_upper_char}
use druta_db.Store.{Store, Cmd}
use druta_db.PubSub.{Net, client, put_client}
use druta_db.Commands.Strings.{command_set}
use druta_db.Commands.Lists.{command_rpush}
use druta_db.Commands.Hashes.{command_hset}
use druta_db.Commands.Sets.{command_sadd}
use druta_db.Aof.{Env}
use druta_db.Server.{
  World, replay_fd, data_command, send_reply, is_refused, run_data, other_command, run_command,
  log_command, handle_command,
}

-- The client that a replay makes is not in subscriber mode.
abbrev pub IsQuiet : Net → Type 0
IsQuiet net = (client net replay_fd).is_subscriber ≡ false

-- What a replayed command leaves: no reply is sent, and nothing is appended to the file.
abbrev pub replayed : World → Store → World
replayed w db = record w { db = db; net = put_client replay_fd (client w.net replay_fd) w.net }

pub replayed-IsQuiet : (w : World) (db : Store) → IsQuiet w.net → IsQuiet (replayed w db).net
replayed-IsQuiet w db q = rw (same_refl replay_fd) q

run_command-data :
    (now fd : ℤ) (cmd : Bytes) (args : List Bytes) (w : World) (c : Cmd (Bytes × Bool))
    (r : (Bytes × Bool) × Store)
    → data_command now cmd args ≡ some c
    → c w.db ≡ ok r
    → run_command now fd cmd args w
      ≡ ok (record w { db = r.1; net = send_reply fd r.0.0 w.net }, r.0.1)
unfolding run_command run_data
run_command-data now fd cmd args w c r d e =
    ap
      (λ o. elim o as (λ o. Result (World × Bool)) [
        | some c ↦ run_data fd c w
        | none ↦ other_command fd cmd args w
      ])
      d
    ∙ rw (run_data, e) refl

pub handle_command-replayed :
    (env : Env) (name : Bytes) (rest : List Bytes) (w : World) (c : Cmd (Bytes × Bool))
    (r : (Bytes × Bool) × Store)
    → IsQuiet w.net
    → data_command env.now (to_upper name) (name ∷ rest) ≡ some c
    → c w.db ≡ ok r
    → handle_command env replay_fd (name ∷ rest) w ≡ ok (replayed w r.1)
unfolding handle_command log_command is_refused send_reply same
handle_command-replayed env name rest w c r q d e =
    let w' = replayed w w.db in
    rw (
      q,
      run_command-data env.now replay_fd (to_upper name) (name ∷ rest) w' c r d e,
      same_refl replay_fd,
    )

three : (a b c : Bytes) (l : List Bytes) → leb 3 (length (a ∷ (b ∷ (c ∷ l)))) ≡ true
three a b c l = ground arith

four : (a b c d : Bytes) (l : List Bytes) → leb 4 (length (a ∷ (b ∷ (c ∷ (d ∷ l))))) ≡ true
four a b c d l = ground arith

pub data_command-set :
    (now : ℤ) (key val : Bytes) (opts : List Bytes)
    → data_command now (to_upper (codes "SET")) (codes "SET" ∷ (key ∷ (val ∷ opts)))
      ≡ some (command_set now (codes "SET" ∷ (key ∷ (val ∷ opts))))
unfolding data_command same cmp_bytes to_upper to_upper_char
data_command-set now key val opts = rw (three (codes "SET") key val opts)

pub data_command-rpush :
    (now : ℤ) (key x : Bytes) (xs : List Bytes)
    → data_command now (to_upper (codes "RPUSH")) (codes "RPUSH" ∷ (key ∷ (x ∷ xs)))
      ≡ some (command_rpush (codes "RPUSH" ∷ (key ∷ (x ∷ xs))))
unfolding data_command same cmp_bytes to_upper to_upper_char
data_command-rpush now key x xs = rw (three (codes "RPUSH") key x xs)

pub data_command-sadd :
    (now : ℤ) (key x : Bytes) (xs : List Bytes)
    → data_command now (to_upper (codes "SADD")) (codes "SADD" ∷ (key ∷ (x ∷ xs)))
      ≡ some (command_sadd (codes "SADD" ∷ (key ∷ (x ∷ xs))))
unfolding data_command same cmp_bytes to_upper to_upper_char
data_command-sadd now key x xs = rw (three (codes "SADD") key x xs)

pub data_command-hset :
    (now : ℤ) (key x y : Bytes) (xs : List Bytes)
    → data_command now (to_upper (codes "HSET")) (codes "HSET" ∷ (key ∷ (x ∷ (y ∷ xs))))
      ≡ some (command_hset (codes "HSET" ∷ (key ∷ (x ∷ (y ∷ xs)))))
unfolding data_command same cmp_bytes to_upper to_upper_char
data_command-hset now key x y xs = rw (four (codes "HSET") key x y xs)
