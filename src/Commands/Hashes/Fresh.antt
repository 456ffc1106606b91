-- ===== src/Commands/Hashes/Fresh.antt =====
-- HSET to a key that is not there.
use druta_db.Prelude.{
  ℕ, ◌%◌, ◌^◌, ◌<◌, ◌≤◌, ◌≡◌, refl, ap, subst, ◌∙◌, false, ◌||◌, not, none, some, List, [], ◌∷◌,
  ◌++◌, arith, length, append-nil, ltb, ◌==◌, Bytes, pos, snoc, int_of_size, add_size, add_size-eq,
  ok, Returns,
}
use druta_db.Hash.{DrutaHash, of_vector, vector_usage}
use druta_db.Value.{DrutaValue, hash, hash_type, of_type}
use druta_db.Store.{Ptr, null, DrutaNode, Store, load, new_node, ◌>>=◌}
use druta_db.Lru.{lru_max_memory, add_lru, notify_memory_change, touch_lru}
use druta_db.Lru.Chain.{Item, node_of, last_or, upd}
use druta_db.Lru.Steps.{load-ok, modify-ok}
use druta_db.Lru.Detach.{Links-Around}
use druta_db.Lru.Holds.{Holds, total, total-append}
use druta_db.Lru.Insert.{new_item, add_new-Holds}
use druta_db.Lru.Change.{kept, survivors-keep, kept-all}
use druta_db.Lru.Change.Outcome.{change-Updated}
use druta_db.Commands.Replies.{integer_reply}
use druta_db.Commands.Hashes.{set_fields, adjusted, put_hash, hset_data, hset_found, command_hset}

-- The hash that the pairs make, and how many fields it counts.
abbrev pub filled : List Bytes → DrutaHash × ℕ
filled pairs = set_fields (of_vector [] (pos 0)) 0 pairs

abbrev pub new_hash : List Bytes → DrutaValue
new_hash pairs =
    let h = (filled pairs).0 in
    record (of_type hash_type) { data_ = hash h; memory_usage = h.memory_usage }

adjusted_new : (n : ℕ) → n < 2 ^ 64 → adjusted 0 n 0 ≡ n
unfolding adjusted
adjusted_new n h = ground (arith, add_size-eq 0 n)

abbrev written : DrutaHash → Ptr → Store → Store
written h p s = record s { nodes = upd s.nodes p (put_hash h (adjusted 0 h.memory_usage)) }

hset_data-ok :
    (p : Ptr) (pairs : List Bytes) (s : Store) (n : DrutaNode) (a b : Unit {0} × Store)
    → s.nodes p ≡ some n
    → notify_memory_change 0 (filled pairs).0.memory_usage (written (filled pairs).0 p s) ≡ ok a
    → touch_lru p a.1 ≡ ok b
    → hset_data p pairs (hash (of_vector [] (pos 0))) s
      ≡ ok ((integer_reply (int_of_size (filled pairs).1), ltb 0 (filled pairs).1), b.1)
unfolding hset_data add_size vector_usage
hset_data-ok p pairs s n a b e run touch = rw (
  modify-ok p (put_hash (filled pairs).0 (adjusted 0 (filled pairs).0.memory_usage)) s n e,
  run,
  touch,
)

hset_new-ok :
    (cmd key : Bytes) (pairs : List Bytes) (s : Store) (a : Unit {0} × Store) (n : DrutaNode)
    → (ltb (length (cmd ∷ (key ∷ pairs))) 4 || not (length (cmd ∷ (key ∷ pairs)) % 2 == 0)) ≡ false
    → s.kv_store key ≡ none
    → (new_node key (of_type hash_type) >>= add_lru) s ≡ ok a
    → load s.fresh a.1 ≡ ok (n, a.1)
    → command_hset (cmd ∷ (key ∷ pairs)) s ≡ hset_data s.fresh pairs n.value.data_ a.1
unfolding command_hset hset_found new_node
hset_new-ok cmd key pairs s a n c k run l = rw (c, k, run, l)

-- HSET of complete pairs to a key that is not there ends without a fault where there is room. The
-- new hash is the most recently used entry, and the others are unchanged.
pub command_hset-new :
    (cmd key : Bytes) (pairs : List Bytes) (s : Store) (xs : List Item)
    → Holds s xs
    → s.kv_store key ≡ none
    → (ltb (length (cmd ∷ (key ∷ pairs))) 4 || not (length (cmd ∷ (key ∷ pairs)) % 2 == 0)) ≡ false
    → total (snoc xs (new_item s key (new_hash pairs))) ≤ lru_max_memory
    → Returns (command_hset (cmd ∷ (key ∷ pairs)) s) (λ r.
      (r.0 ≡ (integer_reply (int_of_size (filled pairs).1), ltb 0 (filled pairs).1))
      × Holds r.1 (snoc xs (new_item s key (new_hash pairs))))
unfolding of_type
command_hset-new cmd key pairs s xs h k c room =
    let empty = new_item s key (of_type hash_type) in
    let new = new_item s key (new_hash pairs) in
    let f = (filled pairs).0 in
    let sum = total-append xs (new ∷ []) in
    let sum0 = total-append xs (empty ∷ []) in
    let m = adjusted_new f.memory_usage (omega arith) in
    let (a, run, d) = add_new-Holds s xs h key (of_type hash_type) k (omega arith) in
    let small : total (snoc xs empty) ≤ lru_max_memory = omega arith in
    let d' : Holds a.1 (xs ++ (empty ∷ [])) =
      subst (Holds a.1) (survivors-keep (snoc xs empty) small) d.0 in
    let around = Links-Around a.1 xs empty [] d'.shape.links in
    let n = node_of empty (last_or null xs) null in
    let u =
      change-Updated a.1 xs empty [] d' (new_hash pairs) (put_hash f (adjusted 0 f.memory_usage))
        (λ pv nx. rw m) (omega arith) 0 f.memory_usage (omega arith) (omega arith) in
    let all =
      ap (λ l. snoc l new) (append-nil (kept xs (new ∷ [])) ∙ kept-all xs (new ∷ []) room) in
    (
      ((integer_reply (int_of_size (filled pairs).1), ltb 0 (filled pairs).1), u.touched.1),
      hset_new-ok cmd key pairs s a n c k run (load-ok s.fresh a.1 n around.node)
          ∙ hset_data-ok s.fresh pairs a.1 n u.notified u.touched around.node u.notify_run
              u.touch_run,
      (refl, subst (Holds u.touched.1) all u.holds),
    )
