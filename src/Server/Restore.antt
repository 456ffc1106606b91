-- ===== src/Server/Restore.antt =====
-- One command of a rewritten file, run on a database that does not have its key.
use druta_db.Prelude.{
  ℕ, ◌%◌, ◌^◌, ◌≤◌, ◌<◌, ◌≡◌, refl, sym, ap, subst, inl, inr, false, ◌||◌, not, none, some, List,
  [], ◌∷◌, arith, ltb, ltb_ℤ, ◌==◌, if◌then◌else◌, Bool-cases, length, snoc, Bytes, bytes_key, same,
  cmp_bytes, ℤ, pos, negsuc, ok,
}
use druta_db.Text.{codes, to_upper, to_upper_char, int_to_string, to_string}
use druta_db.Text.Numbers.{stoll-to_string}
use druta_db.Ordered.Set
use druta_db.Value.Sound.{IsSound}
use druta_db.Value.{
  ValueData, string, list, hash, set, DrutaValue, of_string, of_type, set_type, sum_set_usage,
}
use druta_db.Store.{Store}
use druta_db.Lru.{lru_max_memory}
use druta_db.Lru.Chain.{Item}
use druta_db.Lru.Holds.{Holds, total, total-append}
use druta_db.Lru.Evict.{survivors}
use druta_db.Lru.Insert.{new_item}
use druta_db.Lru.Change.{survivors-keep}
use druta_db.Commands.Strings.{expiry_option, expire_at_option, read_expiry}
use druta_db.Commands.Strings.Writes.{command_set-new}
use druta_db.Commands.Lists.Fresh.{new_list, generic_push-new}
use druta_db.Commands.Hashes.{hash_strings}
use druta_db.Commands.Hashes.Fresh.{new_hash, command_hset-new}
use druta_db.Commands.Sets.Fresh.{new_set, command_sadd-new, fill_members-sorted}
use druta_db.Aof.{Env}
use druta_db.Server.{World, replay_fd, handle_command}
use druta_db.Server.Replay.{
  IsQuiet, replayed, handle_command-replayed, data_command-set, data_command-rpush,
  data_command-sadd, data_command-hset,
}

-- A string without an expiry time has 0 or less.
abbrev pub kept_expiry : ℤ → ℤ
kept_expiry at = if ltb_ℤ (pos 0) at then at else pos 0

-- The value that the command of an entry makes.
unfoldable pub restored : ValueData → ℤ → DrutaValue
restored (string s) at = of_string s (kept_expiry at)
restored (list l) at = new_list false l
restored (hash h) at = new_hash (hash_strings h.data_)
restored (set s) at = record (of_type set_type) { data_ = set s; memory_usage = sum_set_usage s }

read_expiry-pxat :
    (now : ℤ) (n : ℕ)
    → n < 2 ^ 63
    → read_expiry now (codes "PXAT" ∷ (to_string n ∷ [])) (pos 0) ≡ ok (some (pos n))
unfolding read_expiry expiry_option expire_at_option same cmp_bytes to_upper to_upper_char
read_expiry-pxat now n h = rw (read_expiry, stoll-to_string n h)

unfoldable pub expiry_options : ℤ → List Bytes
expiry_options at = if ltb_ℤ (pos 0) at then codes "PXAT" ∷ (int_to_string at ∷ []) else []

read_expiry-kept :
    (now at : ℤ) (s : Bytes)
    → IsSound (string s) at
    → read_expiry now (expiry_options at) (pos 0) ≡ ok (some (kept_expiry at))
unfolding expiry_options int_to_string
read_expiry-kept now (pos n) s h = elim (Bool-cases (ltb_ℤ (pos 0) (pos n))) [
  | inl e ↦ rw e (read_expiry-pxat now n h)
  | inr e ↦ rw e (unfold read_expiry in refl)
]
read_expiry-kept now (negsuc n) s h =
    let e : ltb_ℤ (pos 0) (negsuc n) ≡ false = ground arith in rw e (unfold read_expiry in refl)

module _ (env : Env) (w : World) (zs : List Item) (h : Holds w.db zs) (q : IsQuiet w.net)
    (key : Bytes) (absent : w.db.kv_store key ≡ none) where
  -- The command ends without a fault, adds this entry as the most recently used one, and changes
  -- nothing else.
  abbrev pub Makes : List Bytes → DrutaValue → Type 0
  Makes cmd v =
      (db : Store) × (handle_command env replay_fd cmd w ≡ ok (replayed w db))
      × Holds db (snoc zs (new_item w.db key v))

  abbrev pub HasRoom : DrutaValue → Type 0
  HasRoom v = total (snoc zs (new_item w.db key v)) ≤ lru_max_memory

  all_kept :
      (v : DrutaValue) (db : Store)
      → HasRoom v
      → Holds db (survivors (snoc zs (new_item w.db key v)))
      → Holds db (snoc zs (new_item w.db key v))
  all_kept v db room = subst (Holds db) (survivors-keep (snoc zs (new_item w.db key v)) room)

  pub string-Makes :
      (s : Bytes) (at : ℤ)
      → IsSound (string s) at
      → HasRoom (of_string s (kept_expiry at))
      → Makes (codes "SET" ∷ (key ∷ (s ∷ expiry_options at))) (of_string s (kept_expiry at))
  string-Makes s at o room =
      let v = of_string s (kept_expiry at) in
      let opts = expiry_options at in
      let (r, run, d) =
        command_set-new env.now (codes "SET") key s opts (kept_expiry at) w.db zs h absent
          (read_expiry-kept env.now at s o) (omega (arith, room)) in
      (
        r.1,
        handle_command-replayed env (codes "SET") (key ∷ (s ∷ opts)) w _ r q
            (data_command-set env.now key s opts) run,
        all_kept v r.1 room d.1,
      )

  pub list-Makes :
      (x : Bytes) (xs : List Bytes)
      → HasRoom (new_list false (x ∷ xs))
      → Makes (codes "RPUSH" ∷ (key ∷ (x ∷ xs))) (new_list false (x ∷ xs))
  list-Makes x xs room =
      let (r, run, d) =
        generic_push-new false (codes "RPUSH") key (x ∷ xs) w.db zs h absent
          (omega (arith, room)) in
      (
        r.1,
        handle_command-replayed env (codes "RPUSH") (key ∷ (x ∷ xs)) w _ r q
            (data_command-rpush env.now key x xs) run,
        all_kept (new_list false (x ∷ xs)) r.1 room d.1,
      )

  pub set-Makes :
      (x : Bytes) (xs : List Bytes) (at : ℤ)
      → Set.IsSorted (x ∷ xs)
      → HasRoom (restored (set (x ∷ xs)) at)
      → Makes (codes "SADD" ∷ (key ∷ (x ∷ xs))) (restored (set (x ∷ xs)) at)
  unfolding restored of_type
  set-Makes x xs at o room =
      let v = restored (set (x ∷ xs)) at in
      let sum = total-append zs (new_item w.db key v ∷ []) in
      let f = fill_members-sorted (x ∷ xs) o (omega arith) in
      let e : new_set (x ∷ xs) ≡ v =
        ap (λ r. record (of_type set_type) { data_ = set r.0; memory_usage = r.1 }) f in
      let room' = subst HasRoom (sym e) room in
      let (r, run, d) =
        command_sadd-new (codes "SADD") key (x ∷ xs) w.db zs h absent (omega (arith, room')) in
      (
        r.1,
        handle_command-replayed env (codes "SADD") (key ∷ (x ∷ xs)) w _ r q
            (data_command-sadd env.now key x xs) run,
        all_kept v r.1 room
            (subst (λ v. Holds r.1 (survivors (snoc zs (new_item w.db key v)))) e d),
      )

  pub hash-Makes :
      (x y : Bytes) (xs : List Bytes)
      → length (x ∷ (y ∷ xs)) % 2 ≡ 0
      → HasRoom (new_hash (x ∷ (y ∷ xs)))
      → Makes (codes "HSET" ∷ (key ∷ (x ∷ (y ∷ xs)))) (new_hash (x ∷ (y ∷ xs)))
  hash-Makes x y xs even room =
      let pairs = x ∷ (y ∷ xs) in
      let (r, run, d) =
        command_hset-new (codes "HSET") key pairs w.db zs h absent
          (complete (codes "HSET") key x y xs even) room in
      (
        r.1,
        handle_command-replayed env (codes "HSET") (key ∷ pairs) w _ r q
            (data_command-hset env.now key x y xs) run,
        d.1,
      )
    where
      complete :
          (a b c d : Bytes) (l : List Bytes)
          → length (c ∷ (d ∷ l)) % 2 ≡ 0
          → (ltb (length (a ∷ (b ∷ (c ∷ (d ∷ l))))) 4
              || not (length (a ∷ (b ∷ (c ∷ (d ∷ l)))) % 2 == 0))
            ≡ false
      complete a b c d l e = ground arith
