-- ===== src/Server/Data.antt =====
-- What `handle_command` keeps of the database, branch by branch.
pub mod Runs
pub mod Restart
mod Tests
use druta_db.Prelude.{
  ◌≡◌, refl, inl, inr, Bool, true, false, not, ◌&&◌, Bool-cases, Option, none, some, List, [], ◌∷◌,
  length, leb, ltb, ◌==◌, if◌then◌else◌, Bytes, bytes_key, int_key, same, ℤ, Result, ok, fault,
  Leaves, bind-Leaves, ◌>>=◌ as bind_result,
}
use druta_db.Text.{codes, to_upper}
use druta_db.Store.{Store, Cmd, pure, ◌>>=◌, null}
use druta_db.Lru.{clear_lru}
use druta_db.Lru.Chain.{IsDistinct}
use druta_db.Lru.Steps.{Links}
use druta_db.Lru.Holds.{Shape}
use druta_db.Lru.Consistent.{Consistent, Stays, Keeps}
use druta_db.Lru.Consistent.Calls.{bind-Keeps}
use druta_db.PubSub.{client, put_client}
use druta_db.Commands.Strings.{command_ping, command_echo, command_set, command_get, command_del}
use druta_db.Commands.Strings.Keeps.{
  command_echo-Keeps, command_set-Keeps, command_get-Keeps, command_del-Keeps,
}
use druta_db.Commands.Lists.Keeps.{
  generic_push-Keeps, command_lrange-Keeps, generic_pop-Keeps, command_llen-Keeps,
}
use druta_db.Commands.Hashes.Keeps.{
  command_hset-Keeps, command_hget-Keeps, command_hgetall-Keeps, command_hdel-Keeps,
  command_hlen-Keeps,
}
use druta_db.Commands.Sets.Keeps.{
  command_sadd-Keeps, command_scard-Keeps, command_sismember-Keeps, command_smembers-Keeps,
  command_smismember-Keeps, command_sinter-Keeps, command_sunion-Keeps, command_sdiff-Keeps,
  command_sdel-Keeps,
}
use druta_db.Aof.{Aof, Env, check_and_rewrite_aof, append_to_aof, flush_clear_aof}
use druta_db.Server.Handlers.{FoundKeeps, handler, data_command-Keeps, clear_store-Keeps}
use druta_db.Server.{
  World, replay_fd, data_command, clear_store, send_reply, flush_done, command_memstats, has_sure,
  command_flushdb, run_data, other_command, run_command, log_command, is_refused, handle_command,
}

abbrev pub HasData : World → Type 0
HasData w = Consistent w.db

abbrev HasDataAt : World × Bool → Type 0
HasDataAt r = Consistent r.0.db

module _ (fd : ℤ) (w : World) (h : Consistent w.db) where
  ran-Leaves :
      (r : Result ((Bytes × Bool) × Store))
      → Stays r
      → Leaves HasDataAt (elim r as (λ r. Result (World × Bool)) [
        | fault e ↦ fault e
        | ok ((text, success), db) ↦
            ok (record w { db = db; net = send_reply fd text w.net }, success)
      ])
  ran-Leaves (ok ((text, success), db)) o = o
  ran-Leaves (fault e) o = tt

  run_data-Leaves : (c : Cmd (Bytes × Bool)) → Keeps c → Leaves HasDataAt (run_data fd c w)
  unfolding run_data
  run_data-Leaves c k = ran-Leaves (c w.db) (k w.db h)

  cleared-Leaves :
      (r : Result (Unit {0} × Store)) (aof : Aof)
      → Stays r
      → Leaves HasDataAt (elim r as (λ r. Result (World × Bool)) [
        | fault e ↦ fault e
        | ok (u, db) ↦
            ok (record { db = db; net = send_reply fd flush_done w.net; aof = aof }, true)
      ])
  cleared-Leaves (ok (u, db)) aof o = o
  cleared-Leaves (fault e) aof o = tt

  flushdb-Leaves : (args : List Bytes) → Leaves HasDataAt (command_flushdb fd args w)
  unfolding command_flushdb
  flushdb-Leaves args = elim (Bool-cases (has_sure args)) [
    | inl e ↦
        rw e (cleared-Leaves (clear_store w.db) (flush_clear_aof w.aof) (clear_store-Keeps w.db h))
    | inr n ↦ rw n h
  ]

  -- One test of the branches behind the data commands.
  otherwise-Leaves :
      (b : Bool) (r rest : Result (World × Bool))
      → Leaves HasDataAt r
      → Leaves HasDataAt rest
      → Leaves HasDataAt (if b then r else rest)
  otherwise-Leaves true r rest o k = o
  otherwise-Leaves false r rest o k = k

  other-Leaves : (cmd : Bytes) (args : List Bytes) → Leaves HasDataAt (other_command fd cmd args w)
  unfolding other_command
  other-Leaves cmd args =
      let n = length args in
      otherwise-Leaves (same cmd (codes "FLUSHDB")) _ _ (flushdb-Leaves args) (
        otherwise-Leaves (same cmd (codes "SUBSCRIBE") && leb 2 n) _ _ h (
          otherwise-Leaves (same cmd (codes "UNSUBSCRIBE") && leb 1 n) _ _ h (
            otherwise-Leaves (same cmd (codes "PUBLISH") && n == 3) _ _ h
              (otherwise-Leaves (same cmd (codes "COMMAND")) _ _ h h))))

  found-Leaves :
      (cmd : Bytes) (args : List Bytes) (o : Option (Cmd (Bytes × Bool)))
      → FoundKeeps o
      → Leaves HasDataAt (elim o as (λ o. Result (World × Bool)) [
        | some c ↦ run_data fd c w
        | none ↦ other_command fd cmd args w
      ])
  found-Leaves cmd args (some c) (handler k) = run_data-Leaves c k
  found-Leaves cmd args none k = other-Leaves cmd args

  run_command-Leaves :
      (now : ℤ) (cmd : Bytes) (args : List Bytes) → Leaves HasDataAt (run_command now fd cmd args w)
  unfolding run_command
  run_command-Leaves now cmd args =
      found-Leaves cmd args (data_command now cmd args) (data_command-Keeps now cmd args)

-- What only the log changes.
pub with_aof-Leaves :
    (w : World) (r : Result Aof)
    → Consistent w.db
    → Leaves HasData (bind_result r (λ aof. ok (record w { aof = aof })))
with_aof-Leaves w (ok aof) h = h
with_aof-Leaves w (fault e) h = tt

log-Leaves :
    (env : Env) (fd : ℤ) (args : List Bytes) (r : World × Bool)
    → HasDataAt r
    → Leaves HasData (log_command env fd args r)
unfolding log_command
log-Leaves env fd args (w, success) h = elim (Bool-cases (not (same fd replay_fd) && success)) [
  | inl e ↦ rw e (with_aof-Leaves w (check_and_rewrite_aof env w.db (append_to_aof args w.aof)) h)
  | inr n ↦ rw n h
]

-- `handle_command`, for any client and any request, leaves a consistent database, unless it faults.
pub handle_command-Leaves :
    (env : Env) (fd : ℤ) (args : List Bytes) (w : World)
    → Consistent w.db
    → Leaves HasData (handle_command env fd args w)
unfolding handle_command
handle_command-Leaves env fd [] w h = tt
handle_command-Leaves env fd (name ∷ rest) w h =
    let c = client w.net fd in
    let w' = record w { net = put_client fd c w.net } in
    elim (Bool-cases (is_refused c.is_subscriber (to_upper name))) [
      | inl e ↦ rw e h
      | inr n ↦ rw n (
          bind-Leaves HasDataAt HasData (run_command env.now fd (to_upper name) (name ∷ rest) w')
            (log_command env fd (name ∷ rest))
            (run_command-Leaves fd w' h env.now (to_upper name) (name ∷ rest))
            (log-Leaves env fd (name ∷ rest)))
    ]
