-- ===== src/Server/Persistence.antt =====
-- A rewritten file, replayed on an empty database: src/aof.cpp against the list of entries.
pub mod Roundtrip
use druta_db.Prelude.{
  ℕ, ◌+◌, ◌≤◌, ◌≡◌, refl, sym, ap, subst, ◌∙◌, Option, none, some, List, [], ◌∷◌, ◌++◌, map, arith,
  length, ◌%◌, inl, inr, Bool-cases, All, append-snoc, append-nil, Bytes, bytes_key, same, same_iff,
  snoc, ℤ, Result, ok, Returns,
}
use druta_db.Text.{codes}
use druta_db.Text.Storage.{copy_capacity}
use druta_db.Parser.Stream.{run_all}
use druta_db.Value.{ValueData, string, list, hash, set, DrutaValue}
use druta_db.Hash.{DrutaHash}
use druta_db.Store.{Store, sizeof_node}
use druta_db.Lru.{lru_max_memory}
use druta_db.Lru.Chain.{Item}
use druta_db.Lru.Consistent.{AreSound}
use druta_db.Lru.Holds.{Holds, total, total-append, ptr_of, ptr_of-append, HasDistinctKeys}
use druta_db.Lru.Insert.{new_item}
use druta_db.Commands.Hashes.{hash_strings}
use druta_db.Commands.Hashes.Refill.{hash_strings-pairs}
use druta_db.Aof.{Env, string_command, unless_empty, value_command}
use druta_db.Aof.Rewrite.{is_over, entry_command, with_command, entry_commands}
use druta_db.Server.{World, replay_fd, handle_command}
use druta_db.Commands.Hashes.Fresh.{new_hash}
use druta_db.Server.Replay.{IsQuiet, replayed, replayed-IsQuiet}
use druta_db.Value.Sound.{IsSound}
use druta_db.Server.Restore.{
  restored, Makes, HasRoom, expiry_options, string-Makes, list-Makes, set-Makes, hash-Makes,
}

-- An entry without its address.
abbrev pub Entry : Type 0
Entry = Bytes × DrutaValue

abbrev pub entry_of : Item → Entry
entry_of i = (i.key, i.value)

abbrev pub total_of : List Entry → ℕ
total_of [] = 0
total_of ((key, value) ∷ es) = (sizeof_node + copy_capacity key + value.memory_usage) + total_of es

abbrev with_entry : Option (List Bytes) → Entry → List Entry → List Entry
with_entry none e es = es
with_entry (some cmd) e es = e ∷ es

-- The entries that a rewritten file makes again.
unfoldable pub restored_entries : ℤ → List Item → List Entry
restored_entries now [] = []
restored_entries now (i ∷ xs) =
    with_entry (entry_command now i) (i.key, restored i.value.data_ i.value.expiry_time)
      (restored_entries now xs)

module _ (env : Env) (w : World) (zs : List Item) (h : Holds w.db zs) (q : IsQuiet w.net)
    (key : Bytes) (absent : w.db.kv_store key ≡ none) where
  -- The command, if there is one, makes the entry, if there is room.
  abbrev pub Effect : Option (List Bytes) → DrutaValue → Type 0
  Effect none v = Unit
  Effect (some cmd) v = HasRoom env w zs h q key absent v → Makes env w zs h q key absent cmd v

  hash-Effect :
      (pairs : List Bytes) (d : DrutaHash) (at : ℤ)
      → hash_strings d.data_ ≡ pairs
      → Effect (unless_empty (codes "HSET") key pairs) (restored (hash d) at)
  unfolding unless_empty restored
  hash-Effect [] d at e = tt
  hash-Effect (x ∷ []) d at e =
      let odd = subst (λ l. length l % 2 ≡ 0) e (hash_strings-pairs d.data_) in
      absurd (omega (arith, odd))
  hash-Effect (x ∷ (y ∷ xs)) d at e =
      let even = subst (λ l. length l % 2 ≡ 0) e (hash_strings-pairs d.data_) in
      subst
        (λ l.
          HasRoom env w zs h q key absent (new_hash l)
          → Makes env w zs h q key absent (codes "HSET" ∷ (key ∷ (x ∷ (y ∷ xs)))) (new_hash l))
        (sym e) (hash-Makes env w zs h q key absent x y xs even)

  pub value-Effect :
      (d : ValueData) (at : ℤ) → IsSound d at → Effect (value_command key d at) (restored d at)
  unfolding value_command unless_empty string_command restored expiry_options
  value-Effect (string s) at o = string-Makes env w zs h q key absent s at o
  value-Effect (list []) at o = tt
  value-Effect (list (x ∷ xs)) at o = list-Makes env w zs h q key absent x xs
  value-Effect (hash d) at o = hash-Effect (hash_strings d.data_) d at refl
  value-Effect (set []) at o = tt
  value-Effect (set (x ∷ xs)) at o = set-Makes env w zs h q key absent x xs at o

  entry-Effect :
      (now : ℤ) (i : Item)
      → key ≡ i.key
      → IsSound i.value.data_ i.value.expiry_time
      → Effect (entry_command now i) (restored i.value.data_ i.value.expiry_time)
  unfolding entry_command
  entry-Effect now i e o = elim (Bool-cases (is_over now i)) [
    | inl over ↦ rw over tt
    | inr not_over ↦ rw (not_over, ← e) (value-Effect i.value.data_ i.value.expiry_time o)
  ]

-- The keys of `xs` are not among those of `zs`.
abbrev pub AreApart : List Item → List Item → Type 0
AreApart zs = All (λ j. ptr_of zs j.key ≡ none)

AreApart-snoc :
    (zs : List Item) (n : Item) (xs : List Item)
    → AreApart zs xs
    → ptr_of xs n.key ≡ none
    → AreApart (snoc zs n) xs
AreApart-snoc zs n [] a e = tt
AreApart-snoc zs n (x ∷ xs) a e = (
  ground (arith, ptr_of-append zs (n ∷ []) x.key, same_iff x.key n.key, same_iff n.key x.key),
  AreApart-snoc zs n xs a.1 (ground arith),
)

module _ (env : Env) where
  -- The commands end without a fault, add these entries behind `zs`, and write nothing to the file.
  abbrev Restores : World → List Item → List (List Bytes) → List Entry → Type 0
  Restores w zs cmds es =
      Returns (run_all (handle_command env replay_fd) cmds w) (λ w'.
        (ys : List Item) × Holds w'.db (zs ++ ys) × (map entry_of ys ≡ es) × (w'.aof ≡ w.aof))

  Restores-cons :
      (w : World) (zs : List Item) (key : Bytes) (v : DrutaValue) (db : Store) (cmd : List Bytes)
      (cmds : List (List Bytes)) (es : List Entry)
      → handle_command env replay_fd cmd w ≡ ok (replayed w db)
      → Restores (replayed w db) (snoc zs (new_item w.db key v)) cmds es
      → Restores w zs (cmd ∷ cmds) ((key, v) ∷ es)
  unfolding run_all
  Restores-cons w zs key v db cmd cmds es e (w', run, (ys, h, q, a)) =
      let n = new_item w.db key v in
      (
        w',
        rw e run,
        (n ∷ ys, subst (Holds w'.db) (sym (append-snoc zs ys n)) h, ap (λ l. (key, v) ∷ l) q, a),
      )

  module _ (now : ℤ) where
    restore-step :
        (i : Item) (cmds : List (List Bytes)) (es : List Entry) (w : World) (zs : List Item)
        (o : Option (List Bytes)) (v : DrutaValue) (h : Holds w.db zs) (q : IsQuiet w.net)
        (absent : w.db.kv_store i.key ≡ none)
        → Effect env w zs h q i.key absent o v
        → total zs + total_of (with_entry o (i.key, v) es) ≤ lru_max_memory
        → (total zs + total_of es ≤ lru_max_memory → Restores w zs cmds es)
        → ((db : Store)
            → Holds db (snoc zs (new_item w.db i.key v))
            → total (snoc zs (new_item w.db i.key v)) + total_of es ≤ lru_max_memory
            → Restores (replayed w db) (snoc zs (new_item w.db i.key v)) cmds es)
        → Restores w zs (with_command o cmds) (with_entry o (i.key, v) es)
    restore-step i cmds es w zs none v h q absent f room skip next = skip room
    restore-step i cmds es w zs (some cmd) v h q absent f room skip next =
        let n = new_item w.db i.key v in
        let sum = total-append zs (n ∷ []) in
        let (db, run, h') = f (omega arith) in
        Restores-cons w zs i.key v db cmd cmds es run (next db h' (omega arith))

    pub restore-run :
        (xs : List Item) (w : World) (zs : List Item)
        → Holds w.db zs
        → IsQuiet w.net
        → HasDistinctKeys xs
        → AreApart zs xs
        → AreSound xs
        → total zs + total_of (restored_entries now xs) ≤ lru_max_memory
        → Restores w zs (entry_commands now xs) (restored_entries now xs)
    unfolding entry_commands restored_entries
    restore-run [] w zs h q d a o room =
        (w, unfold run_all in refl, ([], subst (Holds w.db) (sym (append-nil zs)) h, refl, refl))
    restore-run (i ∷ xs) w zs h q d a o room =
        let absent = h.shape.keys i.key ∙ a.0 in
        let v = restored i.value.data_ i.value.expiry_time in
        let n = new_item w.db i.key v in
        restore-step i (entry_commands now xs) (restored_entries now xs) w zs (entry_command now i)
          v h q absent (entry-Effect env w zs h q i.key absent now i refl o.0) room
          (λ room'. restore-run xs w zs h q d.1 a.1 o.1 room')
          (λ db h' room'.
            restore-run xs (replayed w db) (snoc zs n) h' (replayed-IsQuiet w db q) d.1
              (AreApart-snoc zs n xs a.1 d.0) o.1 room')
