-- ===== src/Server/Loop.antt =====
-- `flush_aof` of src/aof.cpp and the loop of src/main.cpp around the events.
use druta_db.Prelude.{
  ℕ, ◌-◌, ◌+◌, ◌<◌, ◌≡◌, true, ◌&&◌, Option, none, some, List, [], ◌∷◌, leb, if◌then◌else◌, Bytes,
  Result, ok, ◌>>=◌ as bind_result,
}
use druta_db.Aof.{Aof, Env}
use druta_db.Server.{Server, Event, on_event}
use druta_db.Server.Subscriptions.Runs.{IsReachable, IsPossible}

-- `last_flush`, which the first call of `flush_aof` initializes, in milliseconds of the steady
-- clock, and the file's text at the last flush.
pub record Flush : Type 0 where
  pub last_flush : Option ℕ
  pub flushed : Bytes

abbrev since : ℕ → Option ℕ → ℕ
since now none = now
since now (some t) = t

unfoldable pub flush_aof : ℕ → Aof → Flush → Flush
flush_aof now aof f =
    let last = since now f.last_flush in
    if leb 1000 (now - last) && aof.is_open
    then record { last_flush = some now; flushed = aof.text }
    else record f { last_flush = some last }

-- The events that one call of `epoll_wait` returns, each with what the clock and the file system
-- answer during it.
abbrev pub Batch : Type 0
Batch = List (Env × Event)

unfoldable pub run_events : Batch → Server → Result Server
run_events [] s = ok s
run_events ((env, e) ∷ batch) s = bind_result (on_event env e s) (run_events batch)

-- The server and the flushing, between two rounds of the loop.
pub record Loop : Type 0 where
  pub server : Server
  pub flush : Flush

-- One round; without events only the flush is left.
unfoldable pub loop_round : ℕ → Batch → Loop → Result Loop
loop_round now batch l =
    bind_result (run_events batch l.server)
      (λ s. ok (record { server = s; flush = flush_aof now s.world.aof l.flush }))

-- Every event of a batch is possible when its turn comes.
abbrev pub ArePossible : Batch → Server → Type 0
ArePossible [] s = Unit
ArePossible ((env, e) ∷ batch) s =
    IsPossible e s × ((t : Server) → on_event env e s ≡ ok t → ArePossible batch t)

-- The ends of the rounds that have gone by, the newest first: the time and the file's text.
abbrev pub Past : Type 0
Past = List (ℕ × Bytes)

-- The states between two rounds that `main` comes to.
pub data IsBetweenRounds : Past → Loop → Type 0 where
  entered :
      (s : Server) (text : Bytes)
      → IsReachable s
      → IsBetweenRounds []
          (record { server = s; flush = record { last_flush = none; flushed = text } })
  went_round :
      (now : ℕ) (past : Past) (batch : Batch) (l l' : Loop)
      → IsBetweenRounds past l
      → ArePossible batch l.server
      → loop_round now batch l ≡ ok l'
      → IsBetweenRounds ((now, l'.server.world.aof.text) ∷ past) l'

-- What has been flushed is at least as new as the time: it is the file's text at the end of a round
-- at that time, or the time is that of the first round, before which nothing is due.
pub data IsFlushedAt : Past → ℕ → Bytes → Type 0 where
  first_round : {t : ℕ} {text flushed : Bytes} → IsFlushedAt ((t, text) ∷ []) t flushed
  this_round : {t : ℕ} {text : Bytes} {past : Past} → IsFlushedAt ((t, text) ∷ past) t text
  earlier_round :
      {t : ℕ} {flushed : Bytes} {r : ℕ × Bytes} {past : Past}
      → IsFlushedAt past t flushed
      → IsFlushedAt (r ∷ past) t flushed

-- The time of the last flush, and, where the file is open, how long ago it is.
abbrev IsTimed : ℕ → Aof → Past → Flush → Type 0
IsTimed now aof past f =
    (t : ℕ) × (f.last_flush ≡ some t)
    × IsFlushedAt past t f.flushed
    × (aof.is_open ≡ true → now < t + 1000)

abbrev IsTimedLoop : Past → Loop → Type 0
IsTimedLoop [] l = l.flush.last_flush ≡ none
IsTimedLoop ((now, text) ∷ past) l = IsTimed now l.server.world.aof ((now, text) ∷ past) l.flush

-- What a round leaves.
abbrev Follows : ℕ → Loop → Loop → Type 0
Follows now l l' = IsReachable l'.server × (l'.flush ≡ flush_aof now l'.server.world.aof l.flush)
