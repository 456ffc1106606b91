-- ===== src/Server.antt =====
-- `handle_command` and the remaining handlers of src/commands.cpp, `replay_aof` of src/aof.cpp and
-- the events of the loop in src/main.cpp.
pub mod Replay
pub mod Restore
pub mod Subscriptions
pub mod Subscribers
pub mod Handlers
pub mod Data
pub mod Answers
pub mod Loop
mod Tests
pub mod Persistence
use druta_db.Prelude.{
  Bool, true, false, ◌&&◌, not, Option, none, some, List, [], ◌∷◌, ◌++◌, ltb, leb, ◌==◌,
  if◌then◌else◌, length, Bytes, bytes_key, int_key, same, ℤ, negsuc, int_of_size, Result, ok, fault,
  out_of_range, ◌>>=◌ as bind_result,
}
use druta_db.Text.{codes, crlf, to_upper, to_string}
use druta_db.Parser
use druta_db.Parser.{RespParser, reset}
use druta_db.Store.{Store, Cmd, pure, ◌>>=◌, ◌>>◌, get_store, put_store}
use druta_db.Lru.{lru_max_memory, clear_lru}
use druta_db.Commands.Replies.{integer_reply, empty_array_reply}
use druta_db.Commands.Strings.{command_ping, command_echo, command_set, command_get, command_del}
use druta_db.Commands.Lists.{
  command_rpush, command_lpush, command_lrange, command_lpop, command_rpop, command_llen,
}
use druta_db.Commands.Hashes.{
  command_hset, command_hget, command_hgetall, command_hdel, command_hlen,
}
use druta_db.Commands.Sets.{
  command_sadd, command_scard, command_sismember, command_smembers, command_smismember,
  command_sinter, command_sunion, command_sdiff, command_sdel,
}
use druta_db.PubSub.{
  Net, new_client, client, put_client, send, pubsub_subscribe, pubsub_unsubscribe, pubsub_publish,
  pubsub_cleanup_client,
}
use druta_db.Aof.{
  Aof, Env, append_to_aof, flush_clear_aof, rewrite_aof, check_and_rewrite_aof, rewrite_threshold,
}

pub record World : Type 0 where
  pub db : Store
  pub net : Net
  pub aof : Aof

-- The descriptor that marks a replay.
abbrev pub replay_fd : ℤ
replay_fd = negsuc 0

-- The macro `send` of commands.cpp.
unfoldable pub send_reply : ℤ → Bytes → Net → Net
send_reply fd res net = if same fd replay_fd then net else send fd res net

unfoldable pub command_memstats : Cmd Bytes
command_memstats = do
  s ← get_store
  pure (
      codes "+Memory Usage: "
      ++ (to_string s.current_memory_usage
          ++ (codes " bytes"
              ++ (crlf
                  ++ (codes " +Memory Limit: "
                      ++ (to_string lru_max_memory ++ (codes " bytes" ++ crlf)))))))

-- `clear_lru` and `kv_store.clear()`, which destroys every node.
unfoldable pub clear_store : Cmd (Unit {0})
unfolding clear_lru
clear_store = do
  clear_lru
  s ← get_store
  put_store (record s { kv_store = λ k. none; nodes = λ p. none })

unfoldable pub flush_refused : Bytes
flush_refused = codes "-ERR add --sure flag to flush db" ++ crlf

unfoldable pub flush_done : Bytes
flush_done = codes "+SUCCESS Database flushed" ++ crlf

-- The commands that work on the data alone, with the conditions on the number of arguments in the
-- order of `handle_command`; `none` for any other.
abbrev reply_only : Cmd Bytes → Cmd (Bytes × Bool)
reply_only c = do text ← c; pure (text, false)

unfoldable pub data_command : ℤ → Bytes → List Bytes → Option (Cmd (Bytes × Bool))
data_command now cmd args =
    let n = length args in
    if same cmd (codes "PING")
    then some (pure (command_ping, false))
    else if same cmd (codes "ECHO") && ltb 1 n
    then some (reply_only (command_echo args))
    else if same cmd (codes "SET") && leb 3 n
    then some (command_set now args)
    else if same cmd (codes "GET") && n == 2
    then some (reply_only (command_get now args))
    else if same cmd (codes "RPUSH") && leb 3 n
    then some (command_rpush args)
    else if same cmd (codes "LPUSH") && leb 3 n
    then some (command_lpush args)
    else if same cmd (codes "LRANGE") && n == 4
    then some (reply_only (command_lrange args))
    else if same cmd (codes "LPOP") && leb 2 n
    then some (command_lpop args)
    else if same cmd (codes "RPOP") && leb 2 n
    then some (command_rpop args)
    else if same cmd (codes "DEL") && leb 2 n
    then some (command_del args)
    else if same cmd (codes "LLEN") && n == 2
    then some (reply_only (command_llen args))
    else if same cmd (codes "HSET") && leb 4 n
    then some (command_hset args)
    else if same cmd (codes "HGET") && n == 3
    then some (reply_only (command_hget args))
    else if same cmd (codes "HGETALL") && n == 2
    then some (reply_only (command_hgetall args))
    else if same cmd (codes "HDEL") && leb 3 n
    then some (command_hdel args)
    else if same cmd (codes "HLEN") && n == 2
    then some (reply_only (command_hlen args))
    else if same cmd (codes "SADD") && leb 3 n
    then some (command_sadd args)
    else if same cmd (codes "SCARD") && n == 2
    then some (reply_only (command_scard args))
    else if same cmd (codes "SISMEMBER") && n == 3
    then some (reply_only (command_sismember args))
    else if same cmd (codes "SMEMBERS") && n == 2
    then some (reply_only (command_smembers args))
    else if same cmd (codes "SMISMEMBER") && leb 3 n
    then some (reply_only (command_smismember args))
    else if same cmd (codes "SINTER") && leb 2 n
    then some (reply_only (command_sinter args))
    else if same cmd (codes "SUNION") && leb 2 n
    then some (reply_only (command_sunion args))
    else if same cmd (codes "SDIFF") && leb 2 n
    then some (reply_only (command_sdiff args))
    else if same cmd (codes "SDEL") && leb 3 n
    then some (command_sdel args)
    else if same cmd (codes "MEMSTATS")
    then some (reply_only command_memstats)
    else none

-- What a branch of `handle_command` leaves: the state and `success`.
unfoldable pub run_data : ℤ → Cmd (Bytes × Bool) → World → Result (World × Bool)
unfolding send_reply
run_data fd c w = elim (c w.db) [
  | fault e ↦ fault e
  | ok ((text, success), db) ↦ ok (record w { db = db; net = send_reply fd text w.net }, success)
]

unfoldable pub has_sure : List Bytes → Bool
has_sure (cmd ∷ (flag ∷ rest)) = same flag (codes "--sure")
has_sure args = false

unfoldable pub command_flushdb : ℤ → List Bytes → World → Result (World × Bool)
unfolding has_sure send_reply clear_store
command_flushdb fd args w =
    if has_sure args
    then (elim (clear_store w.db) [
      | fault e ↦ fault e
      | ok (u, db) ↦ ok (
        record { db = db; net = send_reply fd flush_done w.net; aof = flush_clear_aof w.aof },
        true,
      )
    ])
    else ok (record w { net = send_reply fd flush_refused w.net }, false)

unfoldable pub unknown_reply : Bytes → Bytes
unknown_reply cmd =
    codes "-ERR unknown command or incorrect number of arguments for '"
    ++ (cmd ++ (codes "'" ++ crlf))

abbrev publish : ℤ → List Bytes → World → World
publish fd args w =
    let r = pubsub_publish args w.net in
    record w { net = send_reply fd (integer_reply (int_of_size r.1)) r.0 }

-- The branches behind the data commands.
unfoldable pub other_command : ℤ → Bytes → List Bytes → World → Result (World × Bool)
unfolding send_reply command_flushdb
other_command fd cmd args w =
    let n = length args in
    if same cmd (codes "FLUSHDB")
    then command_flushdb fd args w
    else if same cmd (codes "SUBSCRIBE") && leb 2 n
    then ok (record w { net = pubsub_subscribe fd args w.net }, false)
    else if same cmd (codes "UNSUBSCRIBE") && leb 1 n
    then ok (record w { net = pubsub_unsubscribe fd args w.net }, false)
    else if same cmd (codes "PUBLISH") && n == 3
    then ok (publish fd args w, false)
    else if same cmd (codes "COMMAND")
    then ok (record w { net = send_reply fd empty_array_reply w.net }, false)
    else ok (record w { net = send_reply fd (unknown_reply cmd) w.net }, false)

unfoldable pub run_command : ℤ → ℤ → Bytes → List Bytes → World → Result (World × Bool)
run_command now fd cmd args w = elim (data_command now cmd args) [
  | some c ↦ run_data fd c w
  | none ↦ other_command fd cmd args w
]

-- `append_to_aof` and `check_and_rewrite_aof`, unless this is a replay.
unfoldable pub log_command : Env → ℤ → List Bytes → World × Bool → Result World
log_command env fd args (w, success) =
    if not (same fd replay_fd) && success
    then bind_result (check_and_rewrite_aof env w.db (append_to_aof args w.aof))
        (λ aof. ok (record w { aof = aof }))
    else ok w

unfoldable pub subscriber_refused : Bytes
subscriber_refused = codes "-ERR clients in pub/sub mode can only subscribe/unsubscribe/ping"

-- A client in subscriber mode may send three commands.
unfoldable pub is_refused : Bool → Bytes → Bool
is_refused is_subscriber cmd =
    is_subscriber
    && not (same cmd (codes "PING"))
    && not (same cmd (codes "SUBSCRIBE"))
    && not (same cmd (codes "UNSUBSCRIBE"))

-- `clients_map[fd].is_subscriber` makes a client that is not there.
unfoldable pub handle_command : Env → ℤ → List Bytes → World → Result World
handle_command env fd [] w = fault out_of_range
handle_command env fd (name ∷ rest) w =
    let cmd = to_upper name in
    let c = client w.net fd in
    let w' = record w { net = put_client fd c w.net } in
    if is_refused c.is_subscriber cmd
    then ok (record w' { net = send_reply fd subscriber_refused w'.net })
    else bind_result (run_command env.now fd cmd (name ∷ rest) w')
        (log_command env fd (name ∷ rest))

-- `replay_aof`: the file's text is run as a client's, then an oversized file is rewritten.
unfoldable pub replay_aof : Env → Bytes → World → Result World
replay_aof env text w =
    bind_result (Parser.parse_and_execute (handle_command env replay_fd) reset text w) (λ r.
      let w' = r.1 in
      let aof = record w'.aof { last_rewrite_size = length text } in
      if ltb rewrite_threshold (length text)
      then bind_result (rewrite_aof env.now w'.db aof) (λ aof'. ok (record w' { aof = aof' }))
      else ok (record w' { aof = aof }))

-- The server between two events: `Client::parser` of every connection beside the rest.
pub record Server : Type 0 where
  pub world : World
  pub parsers : ℤ → RespParser

pub data Event : Type 0 where
  connected : ℤ → Event
  received : ℤ → Bytes → Event
  disconnected : ℤ → Event

abbrev put_parser : ℤ → RespParser → (ℤ → RespParser) → ℤ → RespParser
put_parser fd p parsers k = if same k fd then p else parsers k

-- The body of the loop for one event.
unfoldable pub on_event : Env → Event → Server → Result Server
on_event env (connected fd) s =
    let w = s.world in
    ok (record {
      world = record w { net = put_client fd new_client w.net };
      parsers = put_parser fd reset s.parsers;
    })
on_event env (received fd buffer) s =
    let w = s.world in
    let w' = record w { net = put_client fd (client w.net fd) w.net } in
    bind_result (Parser.parse_and_execute (handle_command env fd) (s.parsers fd) buffer w')
      (λ r. ok (record { world = r.1; parsers = put_parser fd r.0 s.parsers }))
on_event env (disconnected fd) s =
    let w = s.world in
    let net = pubsub_cleanup_client fd w.net in
    ok (record {
      world = record w {
        net = record net { clients_map = λ k. if same k fd then none else net.clients_map k };
      };
      parsers = put_parser fd reset s.parsers;
    })
