-- ===== src/Server/Subscriptions.antt =====
-- What `handle_command` keeps of the clients and the subscriptions, branch by branch.
pub mod Runs
use druta_db.Prelude.{
  Leaves, bind-Leaves, ◌≡◌, refl, sym, ap, subst, ◌∙◌, inl, inr, Bool, true, false, not, ◌&&◌,
  Bool-cases, Option, none, some, List, [], ◌∷◌, length, leb, ltb, ◌==◌, if◌then◌else◌, Bytes,
  bytes_key, int_key, same, ℤ, int_of_size, Result, ok, fault, ◌>>=◌ as bind_result,
}
use druta_db.Text.{codes, to_upper}
use druta_db.Parser
use druta_db.Parser.{RespParser, reset}
use druta_db.Parser.Preserve.{parse_and_execute-Leaves}
use druta_db.Store.{Store, Cmd}
use druta_db.Commands.Replies.{integer_reply, empty_array_reply}
use druta_db.PubSub.{
  Net, client, put_client, send, pubsub_subscribe, pubsub_unsubscribe, pubsub_publish,
}
use druta_db.PubSub.Order.{
  IsOrderly, send-IsOrderly, lookup-IsOrderly, subscribe-IsOrderly, unsubscribe-IsOrderly,
  publish-IsOrderly, departed-IsOrderly, connected-IsOrderly,
}
use druta_db.Aof.{
  Aof, Env, check_and_rewrite_aof, append_to_aof, flush_clear_aof, rewrite_aof, rewrite_threshold,
}
use druta_db.Server.{
  World, replay_fd, data_command, send_reply, has_sure, clear_store, command_flushdb, flush_refused,
  flush_done, run_data, other_command, run_command, log_command, subscriber_refused, unknown_reply,
  is_refused, handle_command, replay_aof, Server, Event, connected, received, disconnected,
  on_event,
}

abbrev pub HasOrder : World → Type 0
HasOrder w = IsOrderly w.net

abbrev HasOrderAt : World × Bool → Type 0
HasOrderAt r = IsOrderly r.0.net

reply-IsOrderly :
    (fd : ℤ) (res : Bytes) (net : Net) → IsOrderly net → IsOrderly (send_reply fd res net)
unfolding send_reply
reply-IsOrderly fd res net h = elim (Bool-cases (same fd replay_fd)) [
  | inl e ↦ rw e h
  | inr n ↦ rw n (send-IsOrderly net h fd res)
]

module _ (fd : ℤ) (w : World) (h : IsOrderly w.net) where
  data-Leaves :
      (r : Result ((Bytes × Bool) × Store))
      → Leaves HasOrderAt (elim r as (λ r. Result (World × Bool)) [
        | fault e ↦ fault e
        | ok ((text, success), db) ↦
            ok (record w { db = db; net = send_reply fd text w.net }, success)
      ])
  data-Leaves (ok ((text, success), db)) = reply-IsOrderly fd text w.net h
  data-Leaves (fault e) = tt

  run_data-Leaves : (c : Cmd (Bytes × Bool)) → Leaves HasOrderAt (run_data fd c w)
  unfolding run_data
  run_data-Leaves c = data-Leaves (c w.db)

  cleared-Leaves :
      (r : Result (Unit {0} × Store)) (aof : Aof)
      → Leaves HasOrderAt (elim r as (λ r. Result (World × Bool)) [
        | fault e ↦ fault e
        | ok (u, db) ↦
            ok (record { db = db; net = send_reply fd flush_done w.net; aof = aof }, true)
      ])
  cleared-Leaves (ok (u, db)) aof = reply-IsOrderly fd flush_done w.net h
  cleared-Leaves (fault e) aof = tt

  flushdb-Leaves : (args : List Bytes) → Leaves HasOrderAt (command_flushdb fd args w)
  unfolding command_flushdb
  flushdb-Leaves args = elim (Bool-cases (has_sure args)) [
    | inl e ↦ rw e (cleared-Leaves (clear_store w.db) (flush_clear_aof w.aof))
    | inr n ↦ rw n (reply-IsOrderly fd flush_refused w.net h)
  ]

  other-Leaves : (cmd : Bytes) (args : List Bytes) → Leaves HasOrderAt (other_command fd cmd args w)
  unfolding other_command
  other-Leaves cmd args = elim (Bool-cases (same cmd (codes "FLUSHDB"))) [
    | inl e ↦ rw e (flushdb-Leaves args)
    | inr a ↦ elim (Bool-cases (same cmd (codes "SUBSCRIBE") && leb 2 (length args))) [
      | inl e ↦ rw (a, e) (subscribe-IsOrderly w.net h fd args)
      | inr b ↦ elim (Bool-cases (same cmd (codes "UNSUBSCRIBE") && leb 1 (length args))) [
        | inl e ↦ rw (a, b, e) (unsubscribe-IsOrderly w.net h fd args)
        | inr c ↦ elim (Bool-cases (same cmd (codes "PUBLISH") && length args == 3)) [
          | inl e ↦
              rw (a, b, c, e)
                (reply-IsOrderly fd _ (pubsub_publish args w.net).0
                  (publish-IsOrderly w.net h fd args))
          | inr d ↦ elim (Bool-cases (same cmd (codes "COMMAND"))) [
            | inl e ↦ rw (a, b, c, d, e) (reply-IsOrderly fd empty_array_reply w.net h)
            | inr e ↦ rw (a, b, c, d, e) (reply-IsOrderly fd (unknown_reply cmd) w.net h)
          ]
        ]
      ]
    ]
  ]

  found-Leaves :
      (cmd : Bytes) (args : List Bytes) (o : Option (Cmd (Bytes × Bool)))
      → Leaves HasOrderAt (elim o as (λ o. Result (World × Bool)) [
        | some c ↦ run_data fd c w
        | none ↦ other_command fd cmd args w
      ])
  found-Leaves cmd args (some c) = run_data-Leaves c
  found-Leaves cmd args none = other-Leaves cmd args

  run_command-Leaves :
      (now : ℤ) (cmd : Bytes) (args : List Bytes)
      → Leaves HasOrderAt (run_command now fd cmd args w)
  unfolding run_command
  run_command-Leaves now cmd args = found-Leaves cmd args (data_command now cmd args)

logged-Leaves :
    (w : World) (r : Result Aof)
    → IsOrderly w.net
    → Leaves HasOrder (bind_result r (λ aof. ok (record w { aof = aof })))
logged-Leaves w (ok aof) h = h
logged-Leaves w (fault e) h = tt

log-Leaves :
    (env : Env) (fd : ℤ) (args : List Bytes) (r : World × Bool)
    → HasOrderAt r
    → Leaves HasOrder (log_command env fd args r)
unfolding log_command
log-Leaves env fd args (w, success) h = elim (Bool-cases (not (same fd replay_fd) && success)) [
  | inl e ↦ rw e (logged-Leaves w (check_and_rewrite_aof env w.db (append_to_aof args w.aof)) h)
  | inr n ↦ rw n h
]

pub handle-Leaves :
    (env : Env) (fd : ℤ) (args : List Bytes) (w : World)
    → IsOrderly w.net
    → Leaves HasOrder (handle_command env fd args w)
unfolding handle_command
handle-Leaves env fd [] w h = tt
handle-Leaves env fd (name ∷ rest) w h =
    let c = client w.net fd in
    let w' = record w { net = put_client fd c w.net } in
    let h' = lookup-IsOrderly w.net h fd in
    elim (Bool-cases (is_refused c.is_subscriber (to_upper name))) [
      | inl e ↦ rw e (reply-IsOrderly fd subscriber_refused w'.net h')
      | inr n ↦ rw n (
          bind-Leaves HasOrderAt HasOrder (run_command env.now fd (to_upper name) (name ∷ rest) w')
            (log_command env fd (name ∷ rest))
            (run_command-Leaves fd w' h' env.now (to_upper name) (name ∷ rest))
            (log-Leaves env fd (name ∷ rest)))
    ]
