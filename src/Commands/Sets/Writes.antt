-- ===== src/Commands/Sets/Writes.antt =====
-- SADD to a set that is there.
use druta_db.Prelude.{
  ℕ, ◌+◌, ◌^◌, ◌<◌, ◌≤◌, ◌≡◌, refl, sym, ap, subst, ◌∙◌, inl, inr, Bool-cases, some, List, [], ◌∷◌,
  ◌++◌, arith, ltb, Bytes, bytes_key, ℤ, pos, snoc, int_of_size, int_of_size-pos, size_of_int,
  add_size, add_size-eq, ok, Returns, if◌then◌else◌,
}
use druta_db.Ordered.Set
use druta_db.Value.{DrutaValue, set, set_element_usage}
use druta_db.Store.{Ptr, null, DrutaNode, Store, load}
use druta_db.Lru.{lru_max_memory, notify_memory_change, touch_lru}
use druta_db.Lru.Chain.{Item, node_of, first_or, last_or, upd}
use druta_db.Lru.Steps.{load-ok, modify-ok}
use druta_db.Lru.Detach.{Links-Around}
use druta_db.Lru.Holds.{Holds, total, total-remove, ptr_of_item}
use druta_db.Lru.Change.{with_value, kept}
use druta_db.Lru.Change.Outcome.{change-Updated}
use druta_db.Commands.Replies.{integer_reply}
use druta_db.Commands.Sets.Members.{Added, add_members-Added}
use druta_db.Commands.Sets.{add_members, put_set, sadd_data, sadd_found, command_sadd}

-- What the members that are new are charged.
unfoldable pub added_usage : List Bytes → List Bytes → ℕ
added_usage s [] = 0
added_usage s (x ∷ items) =
    let later = added_usage (Set.insert s x) items in
    if Set.contains s x then later else set_element_usage x + later

-- The account of the loop is exact while it fits an `int`.
add_members-usage :
    (s : List Bytes) (delta created : ℕ) (items : List Bytes)
    → delta + added_usage s items < 2 ^ 31
    → (add_members s (pos delta) created items).1 ≡ pos (delta + added_usage s items)
unfolding add_members added_usage size_of_int
add_members-usage s delta created [] h = ap pos (omega arith)
add_members-usage s delta created (x ∷ items) h = elim (Bool-cases (Set.contains s x)) [
  | inl e ↦
      let h' : delta + added_usage (Set.insert s x) items < 2 ^ 31 = ground (arith, h, e) in
      rw (add_members, e) (add_members-usage (Set.insert s x) delta created items h')
  | inr n ↦
      let h' : (delta + set_element_usage x) + added_usage (Set.insert s x) items < 2 ^ 31 =
        ground (arith, h, n) in
      rw (add_members, n, int_of_size-pos (delta + set_element_usage x) (omega arith))
        (add_members-usage (Set.insert s x) (delta + set_element_usage x) (created + 1) items h'
          ∙ ap pos (omega arith))
]

-- The value with the new members.
abbrev pub added_value : List Bytes → List Bytes → DrutaValue → DrutaValue
added_value s items v = record v {
  data_ = set (add_members s (pos 0) 0 items).0;
  memory_usage = v.memory_usage + added_usage s items;
}

sadd_data-ok :
    (p : Ptr) (items l : List Bytes) (s : Store) (n : DrutaNode) (delta : ℕ)
    (a b : Unit {0} × Store)
    → s.nodes p ≡ some n
    → size_of_int (add_members l (pos 0) 0 items).1 ≡ delta
    → notify_memory_change 0 delta (record s {
      nodes =
          upd s.nodes p (put_set (add_members l (pos 0) 0 items).0 (λ usage. add_size usage delta));
    })
      ≡ ok a
    → touch_lru p a.1 ≡ ok b
    → sadd_data p items (set l) s ≡ (
        let m = (add_members l (pos 0) 0 items).2 in
        ok ((integer_reply (int_of_size m), ltb 0 m), b.1))
unfolding sadd_data
sadd_data-ok p items l s n delta a b e d run touch = rw (
  d,
  modify-ok p (put_set (add_members l (pos 0) 0 items).0 (λ usage. add_size usage delta)) s n e,
  run,
  touch,
)

sadd_there-ok :
    (cmd key : Bytes) (items : List Bytes) (s : Store) (p : Ptr) (n : DrutaNode)
    → s.kv_store key ≡ some p
    → load p s ≡ ok (n, s)
    → command_sadd (cmd ∷ (key ∷ items)) s ≡ sadd_data p items n.value.data_ s
unfolding command_sadd sadd_found
sadd_there-ok cmd key items s p n k e = rw (k, e)

module _ (cmd : Bytes) (items l : List Bytes) (s : Store) (as_ : List Item) (i : Item)
    (bs : List Item) (h : Holds s (as_ ++ (i ∷ bs))) (is_set : i.value.data_ ≡ set l)
    (small : added_usage l items < 2 ^ 31)
    (fits : total (as_ ++ (with_value i (added_value l items i.value) ∷ bs)) < 2 ^ 64) where
  abbrev new : Item
  new = with_value i (added_value l items i.value)

  abbrev after : List Bytes × ℤ × ℕ
  after = add_members l (pos 0) 0 items

  abbrev set_node : DrutaNode → DrutaNode
  set_node = put_set after.0 (λ usage. add_size usage (added_usage l items))

  charge : size_of_int after.1 ≡ added_usage l items
  unfolding size_of_int
  charge = ap size_of_int (add_members-usage l 0 0 items (omega arith)) ∙ omega arith

  sets : (pv nx : Ptr) → set_node (node_of i pv nx) ≡ node_of new pv nx
  sets pv nx =
      let sum = total-remove as_ new bs in
      let e = add_size-eq i.value.memory_usage (added_usage l items) (omega arith) in rw e

  -- SADD to a set in order that is there ends without a fault where what the new members are charged
  -- fits an `int`, and the entry with them and the entries newer than it are within the limit. The
  -- new set is in order and has the old members and the items; the reply is by how many the set has
  -- grown, and the command is logged exactly if that is not 0. The entry becomes the most recently
  -- used one; of the older ones, least recently used entries go until the rest is within the limit.
  pub command_sadd-there :
      total (new ∷ bs) ≤ lru_max_memory
      → Set.IsSorted l
      → Returns (command_sadd (cmd ∷ (i.key ∷ items)) s) (λ r.
        (r.0 ≡ (integer_reply (int_of_size after.2), ltb 0 after.2))
        × Added l 0 items after
        × Holds r.1 (snoc (kept as_ (new ∷ bs) ++ bs) new))
  command_sadd-there room sorted =
      let u =
        change-Updated s as_ i bs h (added_value l items i.value) set_node sets fits 0
          (added_usage l items) (omega arith) room in
      let n = node_of i (last_or null as_) (first_or null bs) in
      let node = (Links-Around s as_ i bs h.shape.links).node in
      (
        ((integer_reply (int_of_size after.2), ltb 0 after.2), u.touched.1),
        sadd_there-ok cmd i.key items s i.at n
              (h.shape.keys i.key ∙ ptr_of_item as_ i bs h.shape.distinct_keys)
              (load-ok i.at s n node)
            ∙ subst
                (λ d.
                  sadd_data i.at items d s
                  ≡ ok ((integer_reply (int_of_size after.2), ltb 0 after.2), u.touched.1))
                (sym is_set)
                (sadd_data-ok i.at items l s n (added_usage l items) u.notified u.touched node
                  charge u.notify_run u.touch_run),
        (refl, add_members-Added l (pos 0) 0 items sorted, u.holds),
      )
