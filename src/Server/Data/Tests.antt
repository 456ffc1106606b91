-- ===== src/Server/Data/Tests.antt =====
-- The state after the replay of a file with one SET command, and what follows it.
use druta_db.Prelude.{
  snoc, ◌≡◌, refl, length, false, none, some, true, List, [], ◌∷◌, arith, Bytes, bytes_key, int_key,
  same, cmp_bytes, if◌then◌else◌, pos, add_size, Returns, ◌>>=◌ as bind_result,
}
use druta_db.Text.{codes, to_upper, to_upper_char}
use druta_db.Parser
use druta_db.Parser.{reset}
use druta_db.Parser.Stream.{format_all}
use druta_db.Value.{DrutaValue, string, of_string, calc_string_usage}
use druta_db.Store.{Store, initial, null, write_node, write_key}
use druta_db.Text.Storage.{copy_capacity}
use druta_db.Lru.Chain.{Item, node_of}
use druta_db.Lru.Holds.{Holds, Shape}
use druta_db.Lru.Consistent.{Consistent}
use druta_db.Lru.Insert.{new_item}
use druta_db.Lru.Consistent.Answers.{Readable}
use druta_db.Aof.{Aof, Env, value_command}
use druta_db.Server.{World, Server, handle_command, replay_fd}
use druta_db.Server.Replay.{replayed}
use druta_db.Server.Restore.{restored, HasRoom}
use druta_db.Server.Persistence.Roundtrip.{HasData, expiry_of, value_command-HasData}
use druta_db.Server.Subscriptions.Runs.{first_world}
use druta_db.Server.Answers.{changes_data, handle_command-Answered}
use druta_db.PubSub.{new_client, put_client}
use druta_db.Server.{connected}
use druta_db.Server.Loop.{flush_aof, Batch, Loop, Past}
use druta_db.Server.Data.Restart.{initial-Holds}

abbrev env : Env
env = record { now = pos 5; check_due = false; file_exists = true; file_size = 0 }

abbrev file : Aof
file = record { is_open = true; text = []; last_rewrite_size = 0 }

abbrev set_a : List Bytes
set_a = codes "SET" ∷ codes "a" ∷ codes "x" ∷ []

abbrev entry : Item
entry = record { at = 1; key = codes "a"; value = of_string (codes "x") (pos 0) }

abbrev stored : Store
stored = record {
  nodes = write_node (λ p. none) 1 (some (node_of entry null null));
  fresh = 2;
  kv_store = write_key (λ k. none) (codes "a") (some 1);
  head = 1;
  tail = 1;
  lru_size = 1;
  current_memory_usage = 222;
}

abbrev text : Bytes
text = format_all (set_a ∷ [])

abbrev world_with : World
world_with = record (replayed (first_world file) stored) {
  aof = record file { last_rewrite_size = length text };
}

abbrev server_with : Server
server_with = record { world = world_with; parsers = λ fd. reset }

stored-Shape : Shape stored (entry ∷ [])
unfolding same
stored-Shape = record {
  links = record {
    seg = (refl, tt);
    tail = refl;
    head = refl;
    distinct = (refl, tt);
    nonnull = refl;
  };
  keys = λ k. ground arith;
  distinct_keys = (refl, tt);
  counted = refl;
  unused = λ p h. ground arith;
  fresh = omega arith;
  no_more = λ p h. ground arith;
}

-- GET, sent in small letters, of the key that is there.
abbrev get_a : List Bytes
get_a = codes "a" ∷ []

stored-Readable : Readable stored
unfolding of_string
stored-Readable = record {
  items = entry ∷ [];
  shape = stored-Shape;
  readable = (((omega arith), tt), tt);
}

handle_command-Answered_example :
    Returns
      (handle_command env (pos 4) (codes "get" ∷ get_a) world_with)
      (λ w'. Readable w'.db × (w'.aof ≡ world_with.aof))
handle_command-Answered_example =
    handle_command-Answered env (pos 4) (codes "get") get_a world_with stored-Readable only_reads
  where
    only_reads : changes_data (to_upper (codes "get")) ≡ false
    only_reads =
        unfold changes_data in
        unfold to_upper in unfold to_upper_char in unfold same in unfold cmp_bytes in refl

-- A string that expires, made again at the start of the program.
abbrev short_lived : DrutaValue
short_lived = restored (string (codes "x")) (pos 9)

short_lived-fits : HasRoom env (first_world file) [] initial-Holds refl (codes "a") refl short_lived
unfolding restored of_string calc_string_usage copy_capacity add_size
short_lived-fits = omega arith

value_command-HasData_example :
    (cmd : List Bytes) × (value_command (codes "a") (string (codes "x")) (pos 9) ≡ some cmd)
    × Returns (handle_command env replay_fd cmd (first_world file)) (λ w'.
      (v : DrutaValue) × Holds w'.db (snoc [] (new_item initial (codes "a") v))
      × HasData (string (codes "x")) v.data_
      × (v.expiry_time ≡ expiry_of (string (codes "x")) (pos 9))
      × (w'.aof ≡ file))
value_command-HasData_example =
    value_command-HasData env (first_world file) [] initial-Holds refl (codes "a") refl
      (string (codes "x")) (pos 9) (omega arith) tt short_lived-fits

-- Two rounds of the loop: one without events 1000 ms after the clock's start, and one with a
-- connection 1500 ms later.
abbrev at_loop : Loop
at_loop = record { server = server_with; flush = record { last_flush = none; flushed = [] } }

abbrev after_first : Loop
after_first = record { server = server_with; flush = flush_aof 1000 world_with.aof at_loop.flush }

abbrev batch : Batch
batch = (env, connected (pos 4)) ∷ []

abbrev met_server : Server
met_server = record {
  world = record world_with { net = put_client (pos 4) new_client world_with.net };
  parsers = λ k. if same k (pos 4) then reset else reset;
}

abbrev after_second : Loop
after_second = record {
  server = met_server;
  flush = flush_aof 2500 world_with.aof after_first.flush;
}

abbrev first_round_end : Past
first_round_end = (1000, world_with.aof.text) ∷ []
