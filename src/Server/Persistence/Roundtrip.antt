-- ===== src/Server/Persistence/Roundtrip.antt =====
-- `rewrite_aof` and then `replay_aof` of src/aof.cpp: a restart of the server.
use druta_db.Prelude.{
  none, some, ◌∷◌, snoc, ◌≤◌, ◌<◌, ◌^◌, ◌≡◌, refl, sym, subst, ◌∙◌, inl, inr, List, [], ◌∷◌, map,
  arith, All, Bool-cases, ltb, length, Bytes, bytes_key, ℤ, pos, ok, Returns, ◌>>=◌ as bind_result,
}
use druta_db.Text.{codes}
use druta_db.Parser
use druta_db.Parser.{reset}
use druta_db.Parser.Command.{IsSendable}
use druta_db.Parser.Stream.{format_all, parse-format_all}
use druta_db.Hash.{DrutaHash, HashData, vector, map as map_data, size}
use druta_db.Hash.Contents.{contents}
use druta_db.Hash.Updates.{data_size}
use druta_db.Value.{ValueData, string, list, hash, set, DrutaValue, of_string, of_type}
use druta_db.Store.{Store}
use druta_db.Lru.{lru_max_memory}
use druta_db.Lru.Chain.{Item}
use druta_db.Lru.Holds.{Holds, Shape}
use druta_db.Lru.Insert.{new_item}
use druta_db.Lru.Consistent.{AreSound}
use druta_db.Commands.Lists.Pushes.{pushed}
use druta_db.Commands.Hashes.{hash_strings, vector_strings, map_strings}
use druta_db.Commands.Hashes.Refill.{contents-filled}
use druta_db.Aof.{Aof, Env, rewrite_aof, rewrite_threshold, unless_empty, value_command}
use druta_db.Aof.Rewrite.{entry_commands, rewritten, rewrite_aof-commands}
use druta_db.Server.{World, replay_fd, handle_command, replay_aof}
use druta_db.Server.Replay.{IsQuiet, replayed}
use druta_db.Value.Sound.{IsSound}
use druta_db.Server.Restore.{kept_expiry, restored, HasRoom}
use druta_db.Server.Persistence.{
  Effect, value-Effect, entry_of, total_of, restored_entries, AreApart, restore-run,
}

-- The value has the data of another one: the same string, list or set, or a hash with the same
-- fields and values.
abbrev pub HasData : ValueData → ValueData → Type 0
HasData (hash h) d = (h' : DrutaHash) × (d ≡ hash h') × ((g : Bytes) → contents h' g ≡ contents h g)
HasData d' d = d ≡ d'

-- Only strings have an expiry time.
abbrev pub expiry_of : ValueData → ℤ → ℤ
expiry_of (string s) at = kept_expiry at
expiry_of d at = pos 0

-- The command that a rewritten file has for a value makes one with the same data and, for a string
-- that expires, the same expiry time, whatever the hash's two representations are.
restored-HasData :
    (d : ValueData) (at : ℤ)
    → IsSound d at
    → HasData d (restored d at).data_ × ((restored d at).expiry_time ≡ expiry_of d at)
unfolding restored of_string of_type pushed
restored-HasData (string s) at o = (refl, refl)
restored-HasData (list l) at o = (refl, refl)
restored-HasData (hash h) at o = ((_, refl, λ g. contents-filled h g o), refl)
restored-HasData (set s) at o = (refl, refl)

-- An element, a field or a member; a string is never empty in this sense.
abbrev pub IsNonempty : ValueData → Type 0
IsNonempty (string s) = Unit
IsNonempty (list l) = 0 < length l
IsNonempty (hash h) = 0 < size h
IsNonempty (set s) = 0 < length s

unless_empty-some :
    (name key : Bytes) (l : List Bytes)
    → 0 < length l
    → (cmd : List Bytes) × (unless_empty name key l ≡ some cmd)
unfolding unless_empty
unless_empty-some name key [] h = absurd (omega (arith, h))
unless_empty-some name key (x ∷ xs) h = (_, refl)

hash_strings-nonempty : (d : HashData) → 0 < data_size d → 0 < length (hash_strings d)
unfolding hash_strings vector_strings map_strings
hash_strings-nonempty (vector []) h = h
hash_strings-nonempty (vector ((name, value) ∷ vec)) h = omega arith
hash_strings-nonempty (map_data []) h = h
hash_strings-nonempty (map_data ((name, value) ∷ m)) h = omega arith

value_command-some :
    (key : Bytes) (d : ValueData) (at : ℤ)
    → IsNonempty d
    → (cmd : List Bytes) × (value_command key d at ≡ some cmd)
unfolding value_command size
value_command-some key (string s) at h = (_, refl)
value_command-some key (list l) at h = unless_empty-some (codes "RPUSH") key l h
value_command-some key (hash d) at h =
    unless_empty-some (codes "HSET") key (hash_strings d.data_) (hash_strings-nonempty d.data_ h)
value_command-some key (set s) at h = unless_empty-some (codes "SADD") key s h

-- A rewritten file has a command for every sound value but an empty list, hash or set. The replay of
-- it on a database that does not have the key and has room for the value ends without a fault, and
-- adds an entry with the key and a value with the same data and, for a string that expires, the same
-- expiry time, as the most recently used one. Nothing else changes, and nothing is written to the
-- file.
pub value_command-HasData :
    (env : Env) (w : World) (zs : List Item) (h : Holds w.db zs) (q : IsQuiet w.net) (key : Bytes)
    (absent : w.db.kv_store key ≡ none) (d : ValueData) (at : ℤ)
    → IsSound d at
    → IsNonempty d
    → HasRoom env w zs h q key absent (restored d at)
    → (cmd : List Bytes) × (value_command key d at ≡ some cmd)
      × Returns (handle_command env replay_fd cmd w) (λ w'.
        (v : DrutaValue) × Holds w'.db (snoc zs (new_item w.db key v))
        × HasData d v.data_
        × (v.expiry_time ≡ expiry_of d at)
        × (w'.aof ≡ w.aof))
value_command-HasData env w zs h q key absent d at o nonempty room =
    let (cmd, e) = value_command-some key d at nonempty in
    let v = restored d at in
    let effect : Effect env w zs h q key absent (some cmd) v =
      subst (λ c. Effect env w zs h q key absent c v) e
        (value-Effect env w zs h q key absent d at o) in
    let (db, run, h') = effect room in
    let (same_data, same_expiry) = restored-HasData d at o in
    (cmd, e, (replayed w db, run, (v, h', same_data, same_expiry, refl)))

none_apart : (xs : List Item) → AreApart [] xs
none_apart [] = tt
none_apart (x ∷ xs) = (refl, none_apart xs)

-- The end of `replay_aof`, whether or not the file is rewritten.
finish :
    (env : Env) (text : Bytes) (w w' : World) (ys : List Item)
    → Parser.parse_and_execute (handle_command env replay_fd) reset text w ≡ ok (reset, w')
    → Holds w'.db ys
    → Returns (replay_aof env text w) (λ w''. w''.db ≡ w'.db)
unfolding replay_aof
finish env text w w' ys run h =
    let aof = record w'.aof { last_rewrite_size = length text } in
    elim (Bool-cases (ltb rewrite_threshold (length text))) [
      | inl large ↦ (
        record w' { aof = rewritten (entry_commands env.now ys) },
        rw (run, large, rewrite_aof-commands env.now w'.db ys aof h.shape h.countable),
        refl,
      )
      | inr small ↦ (record w' { aof = aof }, rw (run, small), refl)
    ]

-- The file that `rewrite_aof` writes for a database whose nodes, index and list agree, with fewer
-- than 2^64 entries and sound values, can be replayed on an empty database
-- without a fault, and the replay restores the entries: those whose time was not over and that
-- are not empty, in their order, where they fit within the limit.
pub replay_aof-rewrite_aof :
    (env : Env) (now : ℤ) (s : Store) (xs : List Item) (aof : Aof) (w : World)
    → Shape s xs
    → length xs < 2 ^ 64
    → AreSound xs
    → All IsSendable (entry_commands now xs)
    → total_of (restored_entries now xs) ≤ lru_max_memory
    → Holds w.db []
    → IsQuiet w.net
    → Returns
        (bind_result (rewrite_aof now s aof) (λ a. replay_aof env a.text w))
        (λ w'. (ys : List Item) × Holds w'.db ys × (map entry_of ys ≡ restored_entries now xs))
replay_aof-rewrite_aof env now s xs aof w h few o sendable room empty q =
    let (w', run, (ys, h', e, _)) =
      restore-run env now xs w [] empty q h.distinct_keys (none_apart xs) o (omega arith) in
    let text = format_all (entry_commands now xs) in
    let parsed =
      parse-format_all (handle_command env replay_fd) (entry_commands now xs) w sendable ∙ rw run in
    let (w'', run', f) = finish env text w w' ys parsed h' in
    (
      w'',
      rw (rewrite_aof-commands now s xs aof h few) run',
      (ys, subst (λ d. Holds d ys) (sym f) h', e),
    )
