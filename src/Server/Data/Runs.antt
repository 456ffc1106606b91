-- ===== src/Server/Data/Runs.antt =====
-- The database in the states that the program comes to.
use druta_db.Prelude.{refl, arith, [], bytes_key}
use druta_db.Parser
use druta_db.Parser.{RespParser}
use druta_db.Store.{initial}
use druta_db.Lru.Holds.{Shape}
use druta_db.Lru.Consistent.{Consistent}
use druta_db.Server.{World, Server}
use druta_db.Server.Data.{HasData}

pub initial-Shape : Shape initial []
initial-Shape = record {
  links = record { seg = tt; tail = refl; head = refl; distinct = tt; nonnull = refl };
  keys = λ k. refl;
  distinct_keys = tt;
  counted = refl;
  unused = λ p h. refl;
  fresh = omega arith;
  no_more = λ p h. refl;
}

abbrev HasDataIn : RespParser × World → Type 0
HasDataIn r = HasData r.1

abbrev ServerHasData : Server → Type 0
ServerHasData s = HasData s.world
