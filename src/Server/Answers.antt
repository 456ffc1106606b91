-- ===== src/Server/Answers.antt =====
-- Requests that do not change the data get an answer from a readable database.
use druta_db.Prelude.{
  ◌≡◌, refl, inl, inr, arith, Bool, true, false, not, ◌&&◌, ◌||◌, Bool-cases, Option, none, some,
  List, ◌∷◌, length, leb, ltb, ◌==◌, if◌then◌else◌, Bytes, bytes_key, int_key, same, ℤ, Result, ok,
  Returns,
}
use druta_db.Text.{codes, to_upper}
use druta_db.Store.{Store, Cmd, pure, ◌>>=◌}
use druta_db.Lru.Consistent.Answers.{Readable, Answers}
use druta_db.PubSub.{Net, client, put_client}
use druta_db.Commands.Strings.{command_ping, command_echo, command_get}
use druta_db.Commands.Lists.{command_lrange, command_llen}
use druta_db.Commands.Hashes.{command_hget, command_hgetall, command_hlen}
use druta_db.Commands.Sets.{
  command_scard, command_sismember, command_smembers, command_smismember, command_sinter,
  command_sunion, command_sdiff,
}
use druta_db.Commands.Reads.{
  command_echo-Answers, command_get-Answers, command_lrange-Answers, command_llen-Answers,
  command_hget-Answers, command_hgetall-Answers, command_hlen-Answers,
}
use druta_db.Commands.Sets.Reads.{
  command_scard-Answers, command_sismember-Answers, command_smembers-Answers,
  command_smismember-Answers, command_sinter-Answers, command_sunion-Answers, command_sdiff-Answers,
}
use druta_db.Aof.{Env}
use druta_db.Server.{
  World, replay_fd, data_command, command_memstats, send_reply, run_data, other_command,
  run_command, log_command, is_refused, subscriber_refused, handle_command,
}

-- The commands that change the data.
unfoldable pub changes_data : Bytes → Bool
changes_data cmd =
    same cmd (codes "SET")
    || same cmd (codes "DEL")
    || same cmd (codes "RPUSH")
    || same cmd (codes "LPUSH")
    || same cmd (codes "LPOP")
    || same cmd (codes "RPOP")
    || same cmd (codes "HSET")
    || same cmd (codes "HDEL")
    || same cmd (codes "SADD")
    || same cmd (codes "SDEL")
    || same cmd (codes "FLUSHDB")

-- The handler answers, and the command is not logged.
abbrev Quietly : Cmd (Bytes × Bool) → Type 0
Quietly c = (s : Store) → Readable s → Returns (c s) (λ r. Readable r.1 × (r.0.1 ≡ false))

data FoundQuietly : Option (Cmd (Bytes × Bool)) → Type 0 where
  no_handler : FoundQuietly none
  handler : {c : Cmd (Bytes × Bool)} → Quietly c → FoundQuietly (some c)

-- One test of `handle_command`.
tested :
    (b : Bool) (c : Cmd (Bytes × Bool)) (rest : Option (Cmd (Bytes × Bool)))
    → (b ≡ true → Quietly c)
    → FoundQuietly rest
    → FoundQuietly (if b then some c else rest)
tested true c rest h k = handler (h refl)
tested false c rest h k = k

reply-Quietly : (c : Cmd Bytes) → Answers c → Quietly (c >>= λ text. pure (text, false))
reply-Quietly c h s o = let (a, e, d) = h s o in rw e (((a.0, false), a.1), refl, (d, refl))

and_second : (a b : Bool) → (a && b) ≡ true → b ≡ true
and_second a b e = ground arith

and_false : (a : Bool) → (a && false) ≡ false
and_false a = ground arith

memstats-Answers : Answers command_memstats
unfolding command_memstats
memstats-Answers s c = ((_, s), refl, c)

data_command-Quietly :
    (now : ℤ) (cmd : Bytes) (args : List Bytes)
    → changes_data cmd ≡ false
    → FoundQuietly (data_command now cmd args)
unfolding data_command changes_data
data_command-Quietly now cmd args reads =
    let n = length args in
    tested (same cmd (codes "PING")) (pure (command_ping, false)) _
      (λ e s o. (((command_ping, false), s), refl, (o, refl)))
      (tested (same cmd (codes "ECHO") && ltb 1 n) _ _
        (λ e. reply-Quietly (command_echo args) (command_echo-Answers args (and_second _ _ e)))
        (tested (same cmd (codes "SET") && leb 3 n) _ _ (λ e. absurd (ground (arith, reads, e)))
          (tested (same cmd (codes "GET") && n == 2) _ _
            (λ e.
              reply-Quietly (command_get now args)
                (command_get-Answers now args (and_second _ _ e)))
            (tested (same cmd (codes "RPUSH") && leb 3 n) _ _
              (λ e. absurd (ground (arith, reads, e)))
              (tested (same cmd (codes "LPUSH") && leb 3 n) _ _
                (λ e. absurd (ground (arith, reads, e)))
                (tested (same cmd (codes "LRANGE") && n == 4) _ _
                  (λ e.
                    reply-Quietly (command_lrange args)
                      (command_lrange-Answers args (and_second _ _ e)))
                  (tested (same cmd (codes "LPOP") && leb 2 n) _ _
                    (λ e. absurd (ground (arith, reads, e)))
                    (tested (same cmd (codes "RPOP") && leb 2 n) _ _
                      (λ e. absurd (ground (arith, reads, e)))
                      (tested (same cmd (codes "DEL") && leb 2 n) _ _
                        (λ e. absurd (ground (arith, reads, e)))
                        (tested (same cmd (codes "LLEN") && n == 2) _ _
                          (λ e.
                            reply-Quietly (command_llen args)
                              (command_llen-Answers args (and_second _ _ e)))
                          (tested (same cmd (codes "HSET") && leb 4 n) _ _
                            (λ e. absurd (ground (arith, reads, e)))
                            (tested (same cmd (codes "HGET") && n == 3) _ _
                              (λ e.
                                reply-Quietly (command_hget args)
                                  (command_hget-Answers args (and_second _ _ e)))
                              (tested (same cmd (codes "HGETALL") && n == 2) _ _
                                (λ e.
                                  reply-Quietly (command_hgetall args)
                                    (command_hgetall-Answers args (and_second _ _ e)))
                                (tested (same cmd (codes "HDEL") && leb 3 n) _ _
                                  (λ e. absurd (ground (arith, reads, e)))
                                  (tested (same cmd (codes "HLEN") && n == 2) _ _
                                    (λ e.
                                      reply-Quietly (command_hlen args)
                                        (command_hlen-Answers args (and_second _ _ e)))
                                    (tested (same cmd (codes "SADD") && leb 3 n) _ _
                                      (λ e. absurd (ground (arith, reads, e)))
                                      (tested (same cmd (codes "SCARD") && n == 2) _ _
                                        (λ e.
                                          reply-Quietly (command_scard args)
                                            (command_scard-Answers args (and_second _ _ e)))
                                        (tested (same cmd (codes "SISMEMBER") && n == 3) _ _
                                          (λ e.
                                            reply-Quietly (command_sismember args)
                                              (command_sismember-Answers args (and_second _ _ e)))
                                          (tested (same cmd (codes "SMEMBERS") && n == 2) _ _
                                            (λ e.
                                              reply-Quietly (command_smembers args)
                                                (command_smembers-Answers args (and_second _ _ e)))
                                            (tested (same cmd (codes "SMISMEMBER") && leb 3 n) _ _
                                              (λ e. reply-Quietly (command_smismember args) (
                                                command_smismember-Answers args (and_second _ _ e)))
                                              (tested (same cmd (codes "SINTER") && leb 2 n) _ _
                                                (λ e.
                                                  reply-Quietly (command_sinter args) (
                                                    command_sinter-Answers args (and_second _ _ e)))
                                                (tested (same cmd (codes "SUNION") && leb 2 n) _ _
                                                  (λ e. reply-Quietly (command_sunion args) (
                                                    command_sunion-Answers args (and_second _ _ e)))
                                                  (tested (same cmd (codes "SDIFF") && leb 2 n) _ _
                                                    (λ e. reply-Quietly (command_sdiff args) (
                                                      command_sdiff-Answers args
                                                        (and_second _ _ e)))
                                                    (tested (same cmd (codes "SDEL") && leb 3 n) _ _
                                                      (λ e. absurd (ground (arith, reads, e)))
                                                      (tested (same cmd (codes "MEMSTATS")) _ _
                                                        (λ e.
                                                          reply-Quietly command_memstats
                                                            memstats-Answers)
                                                        no_handler)))))))))))))))))))))))))

-- A branch of `handle_command` ends in a readable database and leaves the file as it was.
abbrev Left : World → Result (World × Bool) → Type 0
Left w r = Returns r (λ p. Readable p.0.db × (p.0.aof ≡ w.aof) × (p.1 ≡ false))

branch :
    (w : World) (b : Bool) (r rest : Result (World × Bool))
    → (b ≡ true → Left w r)
    → Left w rest
    → Left w (if b then r else rest)
branch w true r rest h k = h refl
branch w false r rest h k = k

module _ (fd : ℤ) (w : World) (h : Readable w.db) where
  left : (net : Net) → Left w (ok (record w { net = net }, false))
  left net = ((record w { net = net }, false), refl, (h, refl, refl))

  run_data-Left : (c : Cmd (Bytes × Bool)) → Quietly c → Left w (run_data fd c w)
  unfolding run_data
  run_data-Left c q =
      let (r, e, (d, n)) = q w.db h in
      rw (run_data, e)
        ((record w { db = r.1; net = send_reply fd r.0.0 w.net }, r.0.1), refl, (d, refl, n))

  other-Left :
      (cmd : Bytes) (args : List Bytes)
      → changes_data cmd ≡ false
      → Left w (other_command fd cmd args w)
  unfolding other_command changes_data
  other-Left cmd args reads =
      let n = length args in
      branch w (same cmd (codes "FLUSHDB")) _ _ (λ e. absurd (ground (arith, reads, e)))
        (branch w (same cmd (codes "SUBSCRIBE") && leb 2 n) _ _ (λ e. left _)
          (branch w (same cmd (codes "UNSUBSCRIBE") && leb 1 n) _ _ (λ e. left _)
            (branch w (same cmd (codes "PUBLISH") && n == 3) _ _ (λ e. left _)
              (branch w (same cmd (codes "COMMAND")) _ _ (λ e. left _) (left _)))))

  found-Left :
      (cmd : Bytes) (args : List Bytes) (o : Option (Cmd (Bytes × Bool)))
      → FoundQuietly o
      → changes_data cmd ≡ false
      → Left w (elim o as (λ o. Result (World × Bool)) [
        | some c ↦ run_data fd c w
        | none ↦ other_command fd cmd args w
      ])
  found-Left cmd args (some c) (handler q) reads = run_data-Left c q
  found-Left cmd args none no_handler reads = other-Left cmd args reads

  run_command-Left :
      (now : ℤ) (cmd : Bytes) (args : List Bytes)
      → changes_data cmd ≡ false
      → Left w (run_command now fd cmd args w)
  unfolding run_command
  run_command-Left now cmd args reads =
      found-Left cmd args (data_command now cmd args) (data_command-Quietly now cmd args reads)
        reads

-- Every request whose command does not change the data, with any arguments, right or wrong, from
-- any client, is answered without a fault where the nodes, the index and the list of the database
-- agree, its values are sound, its lists are shorter than 2^31, and the account of every hash and of
-- every set's value is at most 1024 less than what a string can hold. That stays so, and the file is
-- as it was.
pub handle_command-Answered :
    (env : Env) (fd : ℤ) (name : Bytes) (rest : List Bytes) (w : World)
    → Readable w.db
    → changes_data (to_upper name) ≡ false
    → Returns (handle_command env fd (name ∷ rest) w) (λ w'. Readable w'.db × (w'.aof ≡ w.aof))
unfolding handle_command log_command
handle_command-Answered env fd name rest w h reads =
    let c = client w.net fd in
    let w' = record w { net = put_client fd c w.net } in
    elim (Bool-cases (is_refused c.is_subscriber (to_upper name))) [
      | inl e ↦ rw e (record w' { net = send_reply fd subscriber_refused w'.net }, refl, (h, refl))
      | inr n ↦
          let (r, run, (d, a, q)) =
            run_command-Left fd w' h env.now (to_upper name) (name ∷ rest) reads in
          rw n (r.0, rw (run, q, and_false (not (same fd replay_fd))), (d, a))
    ]
