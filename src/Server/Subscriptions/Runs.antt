-- ===== src/Server/Subscriptions/Runs.antt =====
-- Runs of the server from the start of the program on, as sequences of the events of src/main.cpp.
use druta_db.Prelude.{
  Leaves, bind-Leaves, ◌≡◌, refl, arith, subst, inl, inr, Bool-cases, none, [], ltb, length, Bytes,
  bytes_key, int_key, Result, ok, fault, ◌>>=◌ as bind_result,
}
use druta_db.Ordered.Set
use druta_db.Parser
use druta_db.Parser.{RespParser, reset}
use druta_db.Parser.Preserve.{parse_and_execute-Leaves}
use druta_db.Store.{initial}
use druta_db.PubSub.{Net, client, put_client}
use druta_db.PubSub.Order.{IsOrderly, lookup-IsOrderly, departed-IsOrderly, connected-IsOrderly}
use druta_db.Aof.{Aof, Env, rewrite_aof, rewrite_threshold}
use druta_db.Server.{
  World, replay_fd, handle_command, replay_aof, Server, Event, connected, received, disconnected,
  on_event,
}
use druta_db.Server.Subscriptions.{HasOrder, handle-Leaves}

abbrev pub no_clients : Net
no_clients = record { clients_map = λ k. none; channels_subscribers = λ c. none; sent = [] }

-- The program's state before `replay_aof`.
abbrev pub first_world : Aof → World
first_world aof = record { db = initial; net = no_clients; aof = aof }

-- The operating system gives a new connection a descriptor that is not in use.
abbrev pub IsPossible : Event → Server → Type 0
IsPossible (connected fd) s = s.world.net.clients_map fd ≡ none
IsPossible (received fd buffer) s = Unit
IsPossible (disconnected fd) s = Unit

-- The states of the server that the program comes to: `replay_aof` of any file, then any events.
pub data IsReachable : Server → Type 0 where
  started :
      (env : Env) (text : Bytes) (aof : Aof) (w : World)
      → replay_aof env text (first_world aof) ≡ ok w
      → IsReachable (record { world = w; parsers = λ fd. reset })
  stepped :
      (env : Env) (e : Event) (s t : Server)
      → IsReachable s
      → IsPossible e s
      → on_event env e s ≡ ok t
      → IsReachable t

no_clients-IsOrderly : IsOrderly no_clients
unfolding Set.contains
no_clients-IsOrderly = record {
  agrees = record {
    both = λ fd channel. refl;
    flag = λ fd. refl;
    fds_sorted = λ channel. tt;
    channels_sorted = λ fd. tt;
  };
  within = λ fd. omega arith;
}

abbrev HasOrderIn : RespParser × World → Type 0
HasOrderIn r = HasOrder r.1

abbrev ServerHasOrder : Server → Type 0
ServerHasOrder s = HasOrder s.world

pub returned {ℓ κ} :
    {A : Type ℓ} (P : A → Type κ) (r : Result A) (a : A) → Leaves P r → r ≡ ok a → P a
returned P r a l e = subst (Leaves P) e l

rewritten-Leaves :
    (w : World) (r : Result Aof)
    → IsOrderly w.net
    → Leaves HasOrder (bind_result r (λ aof. ok (record w { aof = aof })))
rewritten-Leaves w (ok aof) h = h
rewritten-Leaves w (fault e) h = tt

replay-Leaves :
    (env : Env) (text : Bytes) (w : World)
    → IsOrderly w.net
    → Leaves HasOrder (replay_aof env text w)
unfolding replay_aof
replay-Leaves env text w h =
    bind-Leaves HasOrderIn HasOrder
      (Parser.parse_and_execute (handle_command env replay_fd) reset text w) _
      (parse_and_execute-Leaves (handle_command env replay_fd) HasOrder
        (handle-Leaves env replay_fd) reset text w h)
      (λ r o. elim (Bool-cases (ltb rewrite_threshold (length text))) [
        | inl e ↦ rw e (
            rewritten-Leaves r.1
              (rewrite_aof env.now r.1.db (record r.1.aof { last_rewrite_size = length text })) o)
        | inr n ↦ rw n o
      ])

event-Leaves :
    (env : Env) (e : Event) (s : Server)
    → IsOrderly s.world.net
    → IsPossible e s
    → Leaves ServerHasOrder (on_event env e s)
unfolding on_event
event-Leaves env (connected fd) s h p = connected-IsOrderly s.world.net h fd p
event-Leaves env (received fd buffer) s h p =
    let w = s.world in
    let w' = record w { net = put_client fd (client w.net fd) w.net } in
    bind-Leaves HasOrderIn ServerHasOrder
      (Parser.parse_and_execute (handle_command env fd) (s.parsers fd) buffer w') _
      (parse_and_execute-Leaves (handle_command env fd) HasOrder (handle-Leaves env fd)
        (s.parsers fd) buffer w' (lookup-IsOrderly w.net h fd))
      (λ r o. o)
event-Leaves env (disconnected fd) s h p = departed-IsOrderly s.world.net h fd

-- In every state that the program comes to, from the start with any file and by any connections
-- with unused descriptors, packets and disconnections, a descriptor is among a channel's
-- subscribers exactly if the channel is among the client's, a client is a subscriber exactly if it
-- has a channel, and no client has more channels than the limit.
pub reachable-IsOrderly : (s : Server) → IsReachable s → IsOrderly s.world.net
reachable-IsOrderly s (started env text aof w e) =
    returned HasOrder (replay_aof env text (first_world aof)) w
      (replay-Leaves env text (first_world aof) no_clients-IsOrderly) e
reachable-IsOrderly s (stepped env e s' t r p q) =
    returned ServerHasOrder (on_event env e s') t
      (event-Leaves env e s' (reachable-IsOrderly s' r) p) q
