-- ===== src/Commands/Hashes/Removals.antt =====
-- HDEL of a hash that is there.
use druta_db.Prelude.{
  ℕ, ◌+◌, ◌-◌, ◌<◌, ◌≤◌, ◌≡◌, refl, sym, subst, ◌∙◌, Bool, false, ◌||◌, some, none, List, [], ◌∷◌,
  ◌++◌, arith, length, ltb, lt→ltb, Bytes, bytes_key, same, snoc, int_of_size, sub_size,
  sub_size-eq, ok, Returns, if◌then◌else◌,
}
use druta_db.Hash.{DrutaHash, del_hash}
use druta_db.Hash.Contents.{IsValid, contents}
use druta_db.Hash.Updates.{contents-del_hash, del_hash-IsValid}
use druta_db.Value.{hash}
use druta_db.Store.{Ptr, null, DrutaNode, Store, load}
use druta_db.Lru.{lru_max_memory, notify_memory_change, touch_lru}
use druta_db.Lru.Chain.{Item, node_of, first_or, last_or, upd}
use druta_db.Lru.Steps.{load-ok, modify-ok}
use druta_db.Lru.Detach.{Links-Around}
use druta_db.Lru.Holds.{Holds, total, total-remove, ptr_of_item}
use druta_db.Lru.Change.{with_value, kept}
use druta_db.Lru.Change.Outcome.{change-Updated}
use druta_db.Commands.Replies.{integer_reply}
use druta_db.Commands.Hashes.{del_fields, put_hash, hdel_data, hdel_found, command_hdel}
use druta_db.Commands.Hashes.Writes.{hash_value}

-- A field is among those that HDEL names.
unfoldable pub is_named : List Bytes → Bytes → Bool
is_named [] g = false
is_named (field ∷ fields) g = same field g || is_named fields g

-- The loop of HDEL on a valid hash, in either representation: the fields that are named are gone,
-- and every other one has what it had.
pub contents-del_fields :
    (h : DrutaHash) (deleted : ℕ) (fields : List Bytes) (g : Bytes)
    → IsValid h
    → contents (del_fields h deleted fields).0 g
      ≡ (if is_named fields g then none else contents h g)
unfolding del_fields is_named
contents-del_fields h deleted [] g v = refl
contents-del_fields h deleted (field ∷ rest) g v =
    let r = del_hash h field in
    contents-del_fields r.0 (if r.1 then deleted + 1 else deleted) rest g
      (del_hash-IsValid h field v)
    ∙ rw (contents-del_hash h field v g) (ground arith)

hdel_data-ok :
    (p : Ptr) (fields : List Bytes) (h : DrutaHash) (s : Store) (n : DrutaNode)
    (a b : Unit {0} × Store)
    → (del_fields h 0 fields).0.memory_usage < h.memory_usage
    → s.nodes p ≡ some n
    → notify_memory_change h.memory_usage (del_fields h 0 fields).0.memory_usage (record s {
      nodes = upd s.nodes p (
          put_hash
            (del_fields h 0 fields).0
            (λ usage. sub_size usage (h.memory_usage - (del_fields h 0 fields).0.memory_usage)));
    })
      ≡ ok a
    → touch_lru p a.1 ≡ ok b
    → hdel_data p fields (hash h) s
      ≡ ok (
        (integer_reply (int_of_size (del_fields h 0 fields).1), ltb 0 (del_fields h 0 fields).1),
        b.1,
      )
unfolding hdel_data
hdel_data-ok p fields h s n a b less e run touch = rw (
  lt→ltb (del_fields h 0 fields).0.memory_usage h.memory_usage less,
  modify-ok p
      (put_hash (del_fields h 0 fields).0
        (λ usage. sub_size usage (h.memory_usage - (del_fields h 0 fields).0.memory_usage)))
      s n e,
  run,
  touch,
)

hdel_there-ok :
    (cmd key field : Bytes) (fields : List Bytes) (s : Store) (p : Ptr) (n : DrutaNode)
    → s.kv_store key ≡ some p
    → load p s ≡ ok (n, s)
    → command_hdel (cmd ∷ (key ∷ (field ∷ fields))) s ≡ hdel_data p (field ∷ fields) n.value.data_ s
unfolding command_hdel hdel_found
hdel_there-ok cmd key field fields s p n k e =
    let enough : ltb (length (cmd ∷ (key ∷ (field ∷ fields)))) 3 ≡ false = ground arith in
    rw (enough, k, e)

module _ (cmd field : Bytes) (fields : List Bytes) (h : DrutaHash) (s : Store) (as_ : List Item)
    (i : Item) (bs : List Item) (holds : Holds s (as_ ++ (i ∷ bs)))
    (is_hash : i.value.data_ ≡ hash h) (account : i.value.memory_usage ≡ h.memory_usage)
    (less : (del_fields h 0 (field ∷ fields)).0.memory_usage < h.memory_usage)
    (valid : IsValid h) where
  abbrev after : DrutaHash × ℕ
  after = del_fields h 0 (field ∷ fields)

  abbrev new : Item
  new = with_value i (hash_value after.0 i.value)

  abbrev set_node : DrutaNode → DrutaNode
  set_node = put_hash after.0 (λ usage. sub_size usage (h.memory_usage - after.0.memory_usage))

  sets : (pv nx : Ptr) → set_node (node_of i pv nx) ≡ node_of new pv nx
  sets pv nx =
      let sum = total-remove as_ i bs in
      let e : sub_size i.value.memory_usage (h.memory_usage - after.0.memory_usage)
          ≡ after.0.memory_usage =
        sub_size-eq i.value.memory_usage (h.memory_usage - after.0.memory_usage)
          (omega (arith, holds.fits)) (omega (arith, account))
        ∙ omega (arith, account, less) in
      rw e

  -- HDEL of fields of a valid hash that is there, whose value is charged what the hash is, ends
  -- without a fault where that becomes less and the entry with the new hash and the entries newer
  -- than it are within the limit. In the new hash the named fields are gone and every other one has
  -- what it had; the command is logged exactly if the reply, which counts, is not 0. The entry
  -- becomes the most recently used one and is charged what the new hash is; of the older ones,
  -- least recently used entries go until the rest is within the limit.
  pub command_hdel-there :
      total (new ∷ bs) ≤ lru_max_memory
      → Returns (command_hdel (cmd ∷ (i.key ∷ (field ∷ fields))) s) (λ r.
        (r.0 ≡ (integer_reply (int_of_size after.1), ltb 0 after.1))
        × ((g : Bytes)
            → contents after.0 g ≡ (if is_named (field ∷ fields) g then none else contents h g))
        × Holds r.1 (snoc (kept as_ (new ∷ bs) ++ bs) new))
  command_hdel-there room =
      let sum = total-remove as_ i bs in
      let sum' = total-remove as_ new bs in
      let u =
        change-Updated s as_ i bs holds (hash_value after.0 i.value) set_node sets
          (omega (arith, holds.fits, account, less)) h.memory_usage after.0.memory_usage
          (omega (arith, account)) room in
      let n = node_of i (last_or null as_) (first_or null bs) in
      let node = (Links-Around s as_ i bs holds.shape.links).node in
      (
        ((integer_reply (int_of_size after.1), ltb 0 after.1), u.touched.1),
        hdel_there-ok cmd i.key field fields s i.at n
              (holds.shape.keys i.key ∙ ptr_of_item as_ i bs holds.shape.distinct_keys)
              (load-ok i.at s n node)
            ∙ subst
                (λ d.
                  hdel_data i.at (field ∷ fields) d s
                  ≡ ok ((integer_reply (int_of_size after.1), ltb 0 after.1), u.touched.1))
                (sym is_hash)
                (hdel_data-ok i.at (field ∷ fields) h s n u.notified u.touched less node
                  u.notify_run u.touch_run),
        (refl, λ g. contents-del_fields h 0 (field ∷ fields) g valid, u.holds),
      )
