-- ===== src/Commands/Hashes/Writes.antt =====
-- HSET to a hash that is there, and what the memory limit does to it.
use druta_db.Prelude.{
  [], ◌+◌, if◌then◌else◌, ℕ, ◌-◌, ◌%◌, ◌^◌, ◌<◌, ◌≤◌, ◌≡◌, refl, sym, subst, ◌∙◌, Bool, false, ◌||◌,
  not, some, List, ◌∷◌, ◌++◌, arith, length, ltb, ◌==◌, Bytes, snoc, int_of_size, add_size-eq,
  sub_size-eq, Result, ok, fault, dangling, Returns,
}
use druta_db.Hash.{DrutaHash, set_hash, size}
use druta_db.Hash.Contents.{contents, IsValid}
use druta_db.Hash.Updates.{set_hash-IsValid, size-set_hash}
use druta_db.Commands.Hashes.Refill.{value_or, last_value, contents-set_fields}
use druta_db.Value.{DrutaValue, hash}
use druta_db.Store.{Ptr, null, DrutaNode, Store, load}
use druta_db.Lru.{lru_max_memory, notify_memory_change, touch_lru}
use druta_db.Lru.Chain.{Item, node_of, first_or, last_or, upd}
use druta_db.Lru.Steps.{load-ok, modify-ok}
use druta_db.Lru.Detach.{Links-Around}
use druta_db.Lru.Holds.{Holds, total, total-remove, ptr_of_item}
use druta_db.Lru.Change.{with_value, kept}
use druta_db.Lru.Change.Outcome.{change-Updated, change-Lost}
use druta_db.Commands.Replies.{integer_reply}
use druta_db.Commands.Hashes.{set_fields, adjusted, put_hash, hset_data, hset_found, command_hset}

-- The loop counts the fields by which the hash grows.
size-set_fields :
    (h : DrutaHash) (created : ℕ) (pairs : List Bytes)
    → IsValid h
    → size (set_fields h created pairs).0 + created ≡ size h + (set_fields h created pairs).1
unfolding set_fields
size-set_fields h created [] v = refl
size-set_fields h created (field ∷ []) v = refl
size-set_fields h created (field ∷ (value ∷ rest)) v =
    let r = set_hash h field value in
    let created' = if r.1 then created + 1 else created in
    ground (
      arith,
      size-set_fields r.0 created' rest (set_hash-IsValid h field value v),
      (size-set_hash h field value v).1,
    )

adjusted-eq : (m n : ℕ) → m < 2 ^ 64 → n < 2 ^ 64 → adjusted m n m ≡ n
unfolding adjusted
adjusted-eq m n h k = ground (arith, add_size-eq m (n - m), sub_size-eq m (m - n))

-- The value with another hash.
abbrev pub hash_value : DrutaHash → DrutaValue → DrutaValue
hash_value h v = record v { data_ = hash h; memory_usage = h.memory_usage }

hset_data-ok :
    (p : Ptr) (pairs : List Bytes) (h : DrutaHash) (s : Store) (n : DrutaNode)
    (a b : Unit {0} × Store)
    → s.nodes p ≡ some n
    → notify_memory_change h.memory_usage (set_fields h 0 pairs).0.memory_usage (record s {
      nodes = upd s.nodes p (
          put_hash
            (set_fields h 0 pairs).0
            (adjusted h.memory_usage (set_fields h 0 pairs).0.memory_usage));
    })
      ≡ ok a
    → touch_lru p a.1 ≡ ok b
    → hset_data p pairs (hash h) s
      ≡ ok (
        (integer_reply (int_of_size (set_fields h 0 pairs).1), ltb 0 (set_fields h 0 pairs).1),
        b.1,
      )
unfolding hset_data
hset_data-ok p pairs h s n a b e run touch = rw (
  modify-ok p
      (put_hash (set_fields h 0 pairs).0
        (adjusted h.memory_usage (set_fields h 0 pairs).0.memory_usage))
      s n e,
  run,
  touch,
)

hset_data-lost :
    (p : Ptr) (pairs : List Bytes) (h : DrutaHash) (s : Store) (n : DrutaNode)
    (a : Unit {0} × Store)
    → s.nodes p ≡ some n
    → notify_memory_change h.memory_usage (set_fields h 0 pairs).0.memory_usage (record s {
      nodes = upd s.nodes p (
          put_hash
            (set_fields h 0 pairs).0
            (adjusted h.memory_usage (set_fields h 0 pairs).0.memory_usage));
    })
      ≡ ok a
    → touch_lru p a.1 ≡ fault dangling
    → hset_data p pairs (hash h) s ≡ fault dangling
unfolding hset_data
hset_data-lost p pairs h s n a e run touch = rw (
  modify-ok p
      (put_hash (set_fields h 0 pairs).0
        (adjusted h.memory_usage (set_fields h 0 pairs).0.memory_usage))
      s n e,
  run,
  touch,
)

hset_there-ok :
    (cmd key : Bytes) (pairs : List Bytes) (s : Store) (p : Ptr) (n : DrutaNode)
    → (ltb (length (cmd ∷ (key ∷ pairs))) 4 || not (length (cmd ∷ (key ∷ pairs)) % 2 == 0)) ≡ false
    → s.kv_store key ≡ some p
    → load p s ≡ ok (n, s)
    → command_hset (cmd ∷ (key ∷ pairs)) s ≡ hset_data p pairs n.value.data_ s
unfolding command_hset hset_found
hset_there-ok cmd key pairs s p n c k e = rw (c, k, e)

module _ (cmd : Bytes) (pairs : List Bytes) (h : DrutaHash) (s : Store) (as_ : List Item) (i : Item)
    (bs : List Item) (holds : Holds s (as_ ++ (i ∷ bs))) (is_hash : i.value.data_ ≡ hash h)
    (account : i.value.memory_usage ≡ h.memory_usage)
    (complete : (ltb (length (cmd ∷ (i.key ∷ pairs))) 4
        || not (length (cmd ∷ (i.key ∷ pairs)) % 2 == 0))
      ≡ false)
    (fits : total (as_ ++ (with_value i (hash_value (set_fields h 0 pairs).0 i.value) ∷ bs))
      < 2 ^ 64) where
  abbrev new : Item
  new = with_value i (hash_value (set_fields h 0 pairs).0 i.value)

  abbrev after : DrutaHash × ℕ
  after = set_fields h 0 pairs

  abbrev set_node : DrutaNode → DrutaNode
  set_node = put_hash after.0 (adjusted h.memory_usage after.0.memory_usage)

  sets : (pv nx : Ptr) → set_node (node_of i pv nx) ≡ node_of new pv nx
  sets pv nx =
      let sum = total-remove as_ new bs in
      let sum' = total-remove as_ i bs in
      let e : adjusted h.memory_usage after.0.memory_usage i.value.memory_usage
          ≡ after.0.memory_usage =
        rw account (
          adjusted-eq h.memory_usage after.0.memory_usage (omega (arith, account, holds.fits))
            (omega arith)) in
      rw e

  there :
      (r : Result ((Bytes × Bool) × Store))
      → hset_data i.at pairs (hash h) s ≡ r
      → command_hset (cmd ∷ (i.key ∷ pairs)) s ≡ r
  there r e =
      let n = node_of i (last_or null as_) (first_or null bs) in
      hset_there-ok cmd i.key pairs s i.at n complete
        (holds.shape.keys i.key ∙ ptr_of_item as_ i bs holds.shape.distinct_keys)
        (load-ok i.at s n (Links-Around s as_ i bs holds.shape.links).node)
      ∙ subst (λ d. hset_data i.at pairs d s ≡ r) (sym is_hash) e

  -- HSET of complete pairs to a hash that is there, whose value is charged what the hash is, ends
  -- without a fault where the entry with the new hash and the entries newer than it are within the
  -- limit, and the hash's fields differ. The new hash has for each field the last value that the
  -- command gives it, or else the old one. The reply is by how many fields the hash has grown, and
  -- the command is logged exactly if that is not 0. The entry becomes the most recently used one,
  -- and its value is charged what the new hash is; of the older ones, least recently used entries go
  -- until the rest is within the limit.
  pub command_hset-there :
      total (new ∷ bs) ≤ lru_max_memory
      → IsValid h
      → Returns (command_hset (cmd ∷ (i.key ∷ pairs)) s) (λ r.
        (r.0 ≡ (integer_reply (int_of_size after.1), ltb 0 after.1))
        × (size after.0 ≡ size h + after.1)
        × ((g : Bytes) → contents after.0 g ≡ value_or (last_value pairs g) (contents h g))
        × Holds r.1 (snoc (kept as_ (new ∷ bs) ++ bs) new))
  command_hset-there small valid =
      let u =
        change-Updated s as_ i bs holds (hash_value after.0 i.value) set_node sets fits
          h.memory_usage after.0.memory_usage (omega (arith, account)) small in
      (
        ((integer_reply (int_of_size after.1), ltb 0 after.1), u.touched.1),
        there _ (
            hset_data-ok i.at pairs h s (node_of i (last_or null as_) (first_or null bs)) u.notified
              u.touched (Links-Around s as_ i bs holds.shape.links).node u.notify_run u.touch_run),
        (
          refl,
          omega (arith, size-set_fields h 0 pairs valid),
          λ g. contents-set_fields h 0 pairs g valid,
          u.holds,
        ),
      )

  -- Where they exceed the limit, the eviction destroys the hash that is being changed, and the
  -- command goes on to access it.
  pub command_hset-lost :
      lru_max_memory < total (new ∷ bs) → command_hset (cmd ∷ (i.key ∷ pairs)) s ≡ fault dangling
  command_hset-lost large =
      let u =
        change-Lost s as_ i bs holds (hash_value after.0 i.value) set_node sets fits h.memory_usage
          after.0.memory_usage (omega (arith, account)) large in
      there (fault dangling) (
        hset_data-lost i.at pairs h s (node_of i (last_or null as_) (first_or null bs)) u.notified
          (Links-Around s as_ i bs holds.shape.links).node u.notify_run u.touch_run)
