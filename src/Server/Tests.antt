-- ===== src/Server/Tests.antt =====
-- A first connection and its first packets.
use druta_db.Prelude.{
  ◌≡◌, refl, true, false, List, [], ◌∷◌, arith, Bytes, bytes_key, int_key, same, cmp_bytes, cmp_int,
  if◌then◌else◌, pos, ok, Returns,
}
use druta_db.Text.{codes, to_upper, to_upper_char}
use druta_db.Parser.{reset, parse_and_execute}
use druta_db.Parser.Command.{IsSendable}
use druta_db.Parser.Stream.{format_all, run_all, parse-format_all}
use druta_db.Lru.Chain.{Item}
use druta_db.Lru.Tests.{second, listed}
use druta_db.PubSub.{
  Net, new_client, client, put_client, pubsub_subscribe, subscribe_loop, subscribe_one, over_limit,
}
use druta_db.PubSub.Order.{IsOrderly}
use druta_db.Aof.{Aof, Env}
use druta_db.Server.{
  data_command, is_refused, run_command, other_command, log_command, handle_command, World,
  replay_aof, Server, connected, received, on_event,
}
use druta_db.Ordered.Set
use druta_db.Server.Subscribers.{IsUntouched, handle_command-subscriber}
use druta_db.Server.Subscriptions.Runs.{
  no_clients, first_world, IsReachable, started, stepped, reachable-IsOrderly,
}

abbrev entries : List Item
entries = listed ∷ second ∷ []

abbrev env : Env
env = record { now = pos 5; check_due = false; file_exists = true; file_size = 0 }

abbrev empty_file : Aof
empty_file = record { is_open = true; text = []; last_rewrite_size = 0 }

-- The states at the start, after a connection, and after its first packet.
abbrev at_start : Server
at_start = record { world = first_world empty_file; parsers = λ fd. reset }

start-IsReachable : IsReachable at_start
start-IsReachable = started env [] empty_file (first_world empty_file) at_start-run
  where
    at_start-run : replay_aof env [] (first_world empty_file) ≡ ok (first_world empty_file)
    at_start-run = unfold replay_aof in unfold parse_and_execute in refl

abbrev subscribe : List Bytes
subscribe = codes "SUBSCRIBE" ∷ codes "news" ∷ []

subscribe-IsSendable : IsSendable subscribe
subscribe-IsSendable = record { nonempty = omega arith; few = omega arith; short = omega arith }

abbrev met : Net → Net
met net = put_client (pos 4) (client net (pos 4)) net

abbrev net_after : Net
net_after =
    pubsub_subscribe (pos 4) subscribe (met (met (put_client (pos 4) new_client no_clients)))

abbrev world_after : World
world_after = record (first_world empty_file) { net = net_after }

abbrev connected_world : World
connected_world = record (first_world empty_file) { net = put_client (pos 4) new_client no_clients }

abbrev at_connection : Server
at_connection = record {
  world = connected_world;
  parsers = λ k. if same k (pos 4) then reset else reset;
}

abbrev at_packet : Server
at_packet = record {
  world = world_after;
  parsers = λ k. if same k (pos 4) then reset else at_connection.parsers k;
}

connected-run : on_event env (connected (pos 4)) at_start ≡ ok at_connection
unfolding on_event
connected-run = refl

subscribe-run :
    handle_command env (pos 4) subscribe (record connected_world { net = met connected_world.net })
    ≡ ok world_after
unfolding handle_command is_refused run_command data_command other_command log_command to_upper
    to_upper_char same cmp_bytes cmp_int
subscribe-run = refl

received-run :
    on_event env (received (pos 4) (format_all (subscribe ∷ []))) at_connection ≡ ok at_packet
unfolding on_event run_all same cmp_int
received-run = rw (
  parse-format_all (handle_command env (pos 4)) (subscribe ∷ [])
      (record connected_world { net = met connected_world.net }) (subscribe-IsSendable, tt),
  subscribe-run,
)

packet-IsReachable : IsReachable at_packet
packet-IsReachable =
    stepped env (received (pos 4) (format_all (subscribe ∷ []))) at_connection at_packet
      (stepped env (connected (pos 4)) at_start at_connection start-IsReachable refl connected-run)
      tt received-run

reachable-IsOrderly_example : IsOrderly net_after
reachable-IsOrderly_example = reachable-IsOrderly at_packet packet-IsReachable

-- The subscriber tries to write.
abbrev set_command : List Bytes
set_command = codes "a" ∷ codes "x" ∷ []

handle_command-subscriber_example :
    Returns
      (handle_command env (pos 4) (codes "SET" ∷ set_command) world_after)
      (IsUntouched world_after)
handle_command-subscriber_example =
    handle_command-subscriber env (pos 4) (codes "SET") set_command world_after is_subscribed
  where
    is_subscribed : (client net_after (pos 4)).is_subscriber ≡ true
    is_subscribed =
        unfold pubsub_subscribe in
        unfold subscribe_loop in
        unfold subscribe_one in
        unfold over_limit in unfold Set.contains in unfold same in unfold cmp_int in refl
