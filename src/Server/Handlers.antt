-- ===== src/Server/Handlers.antt =====
-- The handlers that `handle_command` chooses from, and FLUSHDB, leave a consistent database.
use druta_db.Prelude.{
  refl, Bool, true, false, ◌&&◌, Option, none, some, List, [], length, leb, ltb, ◌==◌,
  if◌then◌else◌, Bytes, bytes_key, int_key, same, ℤ,
}
use druta_db.Text.{codes}
use druta_db.Store.{Cmd, pure, ◌>>=◌}
use druta_db.Lru.{clear_lru}
use druta_db.Lru.Consistent.{Keeps}
use druta_db.Lru.Consistent.Calls.{bind-Keeps}
use druta_db.Commands.Strings.{command_ping}
use druta_db.Commands.Strings.Keeps.{
  command_echo-Keeps, command_set-Keeps, command_get-Keeps, command_del-Keeps,
}
use druta_db.Commands.Lists.Keeps.{
  generic_push-Keeps, command_lrange-Keeps, generic_pop-Keeps, command_llen-Keeps,
}
use druta_db.Commands.Hashes.Keeps.{
  command_hset-Keeps, command_hget-Keeps, command_hgetall-Keeps, command_hdel-Keeps,
  command_hlen-Keeps,
}
use druta_db.Commands.Sets.Keeps.{
  command_sadd-Keeps, command_scard-Keeps, command_sismember-Keeps, command_smembers-Keeps,
  command_smismember-Keeps, command_sinter-Keeps, command_sunion-Keeps, command_sdiff-Keeps,
  command_sdel-Keeps,
}
use druta_db.Server.{data_command, clear_store, command_memstats}

-- The handler, if there is one, leaves a consistent database.
pub data FoundKeeps : Option (Cmd (Bytes × Bool)) → Type 0 where
  no_handler : FoundKeeps none
  handler : {c : Cmd (Bytes × Bool)} → Keeps c → FoundKeeps (some c)

-- One test of `handle_command`.
tested :
    (b : Bool) (c : Cmd (Bytes × Bool)) (rest : Option (Cmd (Bytes × Bool)))
    → Keeps c
    → FoundKeeps rest
    → FoundKeeps (if b then some c else rest)
tested true c rest h k = handler h
tested false c rest h k = k

reply_only-Keeps :
    (c : Cmd Bytes) → Keeps c → Keeps {A = Bytes × Bool} (c >>= λ text. pure (text, false))
reply_only-Keeps c h = bind-Keeps c _ h (λ text s o. o)

memstats-Keeps : Keeps command_memstats
unfolding command_memstats
memstats-Keeps s c = c

pub data_command-Keeps :
    (now : ℤ) (cmd : Bytes) (args : List Bytes) → FoundKeeps (data_command now cmd args)
unfolding data_command
data_command-Keeps now cmd args =
    let n = length args in
    tested (same cmd (codes "PING")) (pure (command_ping, false)) _ (λ s c. c)
      (tested (same cmd (codes "ECHO") && ltb 1 n) _ _
        (reply_only-Keeps _ (command_echo-Keeps args))
        (tested (same cmd (codes "SET") && leb 3 n) _ _ (command_set-Keeps now args) (
          tested (same cmd (codes "GET") && n == 2) _ _
            (reply_only-Keeps _ (command_get-Keeps now args))
            (tested (same cmd (codes "RPUSH") && leb 3 n) _ _ (generic_push-Keeps false args) (
              tested (same cmd (codes "LPUSH") && leb 3 n) _ _ (generic_push-Keeps true args) (
                tested (same cmd (codes "LRANGE") && n == 4) _ _
                  (reply_only-Keeps _ (command_lrange-Keeps args))
                  (tested (same cmd (codes "LPOP") && leb 2 n) _ _ (generic_pop-Keeps true args) (
                    tested (same cmd (codes "RPOP") && leb 2 n) _ _ (generic_pop-Keeps false args) (
                      tested (same cmd (codes "DEL") && leb 2 n) _ _ (command_del-Keeps args) (
                        tested (same cmd (codes "LLEN") && n == 2) _ _
                          (reply_only-Keeps _ (command_llen-Keeps args))
                          (tested (same cmd (codes "HSET") && leb 4 n) _ _ (command_hset-Keeps args)
                            (tested (same cmd (codes "HGET") && n == 3) _ _
                              (reply_only-Keeps _ (command_hget-Keeps args))
                              (tested (same cmd (codes "HGETALL") && n == 2) _ _
                                (reply_only-Keeps _ (command_hgetall-Keeps args))
                                (tested (same cmd (codes "HDEL") && leb 3 n) _ _
                                  (command_hdel-Keeps args)
                                  (tested (same cmd (codes "HLEN") && n == 2) _ _
                                    (reply_only-Keeps _ (command_hlen-Keeps args))
                                    (tested (same cmd (codes "SADD") && leb 3 n) _ _
                                      (command_sadd-Keeps args)
                                      (tested (same cmd (codes "SCARD") && n == 2) _ _
                                        (reply_only-Keeps _ (command_scard-Keeps args))
                                        (tested (same cmd (codes "SISMEMBER") && n == 3) _ _
                                          (reply_only-Keeps _ (command_sismember-Keeps args))
                                          (tested (same cmd (codes "SMEMBERS") && n == 2) _ _
                                            (reply_only-Keeps _ (command_smembers-Keeps args))
                                            (tested (same cmd (codes "SMISMEMBER") && leb 3 n) _ _
                                              (reply_only-Keeps _ (command_smismember-Keeps args))
                                              (tested (same cmd (codes "SINTER") && leb 2 n) _ _
                                                (reply_only-Keeps _ (command_sinter-Keeps args))
                                                (tested (same cmd (codes "SUNION") && leb 2 n) _ _
                                                  (reply_only-Keeps _ (command_sunion-Keeps args))
                                                  (tested (same cmd (codes "SDIFF") && leb 2 n) _ _
                                                    (reply_only-Keeps _ (command_sdiff-Keeps args))
                                                    (tested (same cmd (codes "SDEL") && leb 3 n) _ _
                                                      (command_sdel-Keeps args)
                                                      (tested (same cmd (codes "MEMSTATS")) _ _
                                                        (reply_only-Keeps _ memstats-Keeps)
                                                        no_handler)))))))))))))))))))))))))

-- FLUSHDB leaves a database without entries, whatever there was.
pub clear_store-Keeps : Keeps clear_store
unfolding clear_store clear_lru
clear_store-Keeps s c = record {
  items = [];
  shape = record {
    links = record { seg = tt; tail = refl; head = refl; distinct = tt; nonnull = refl };
    keys = λ k. refl;
    distinct_keys = tt;
    counted = refl;
    unused = λ p q. refl;
    fresh = c.shape.fresh;
    no_more = λ p q. refl;
  };
  sound = tt;
}
