-- ===== src/Server/Data/Restart.antt =====
-- A restart of the server, from any state that the program comes to: `rewrite_aof` before it and
-- `replay_aof` at the start of the next run.
use druta_db.Prelude.{refl, [], arith, ◌>>=◌ as bind_result}
use druta_db.Store.{initial}
use druta_db.Lru.Holds.{Holds}
use druta_db.Aof.{Aof}
use druta_db.Server.{Server}
use druta_db.Server.Data.Runs.{initial-Shape}

-- At the start the account is exact, too.
pub initial-Holds : Holds initial []
initial-Holds = record {
  shape = initial-Shape;
  countable = omega arith;
  memory = refl;
  fits = omega arith;
}
