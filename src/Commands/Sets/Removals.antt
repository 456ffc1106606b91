-- ===== src/Commands/Sets/Removals.antt =====
-- SDEL of a set that is there.
use druta_db.Prelude.{
  ℕ, ◌+◌, ◌-◌, ◌^◌, ◌<◌, ◌≤◌, ◌≡◌, refl, sym, ap, subst, ◌∙◌, inl, inr, Bool-cases, some, List, [],
  ◌∷◌, ◌++◌, arith, ltb, Bytes, bytes_key, ℤ, pos, snoc, int_of_size, int_of_size-pos, size_of_int,
  sub_size, sub_size-eq, ok, Returns, if◌then◌else◌,
}
use druta_db.Ordered.Set
use druta_db.Value.{DrutaValue, set, set_element_usage}
use druta_db.Store.{Ptr, null, DrutaNode, Store, load}
use druta_db.Lru.{lru_max_memory, notify_memory_change, touch_lru}
use druta_db.Lru.Chain.{Item, node_of, first_or, last_or, upd}
use druta_db.Lru.Steps.{load-ok, modify-ok}
use druta_db.Lru.Detach.{Links-Around}
use druta_db.Lru.Holds.{Holds, total, total-remove, ptr_of_item}
use druta_db.Lru.Change.{with_value, kept}
use druta_db.Lru.Change.Outcome.{change-Updated}
use druta_db.Commands.Replies.{integer_reply}
use druta_db.Commands.Sets.Members.{Deleted, del_members-Deleted}
use druta_db.Commands.Sets.{del_members, put_set, sdel_data, sdel_found, command_sdel}

-- What the members that go were charged.
unfoldable pub removed_usage : List Bytes → List Bytes → ℕ
removed_usage s [] = 0
removed_usage s (x ∷ items) =
    let later = removed_usage (Set.erase s x) items in
    if Set.contains s x then set_element_usage x + later else later

-- The loop counts them exactly while that fits an `int`.
del_members-usage :
    (s : List Bytes) (delta deleted : ℕ) (items : List Bytes)
    → delta + removed_usage s items < 2 ^ 31
    → (del_members s (pos delta) deleted items).1 ≡ pos (delta + removed_usage s items)
unfolding del_members removed_usage size_of_int
del_members-usage s delta deleted [] h = ap pos (omega arith)
del_members-usage s delta deleted (x ∷ items) h = elim (Bool-cases (Set.contains s x)) [
  | inl e ↦
      let h' : (delta + set_element_usage x) + removed_usage (Set.erase s x) items < 2 ^ 31 =
        ground (arith, h, e) in
      rw (del_members, e, int_of_size-pos (delta + set_element_usage x) (omega arith))
        (del_members-usage (Set.erase s x) (delta + set_element_usage x) (deleted + 1) items h'
          ∙ ap pos (omega arith))
  | inr n ↦
      let h' : delta + removed_usage (Set.erase s x) items < 2 ^ 31 = ground (arith, h, n) in
      rw (del_members, n) (del_members-usage (Set.erase s x) delta deleted items h')
]

-- The value without the members.
abbrev pub removed_value : List Bytes → List Bytes → DrutaValue → DrutaValue
removed_value s items v = record v {
  data_ = set (del_members s (pos 0) 0 items).0;
  memory_usage = v.memory_usage - removed_usage s items;
}

sdel_data-ok :
    (p : Ptr) (items l : List Bytes) (s : Store) (n : DrutaNode) (delta : ℕ)
    (a b : Unit {0} × Store)
    → s.nodes p ≡ some n
    → size_of_int (del_members l (pos 0) 0 items).1 ≡ delta
    → notify_memory_change delta 0 (record s {
      nodes =
          upd s.nodes p (put_set (del_members l (pos 0) 0 items).0 (λ usage. sub_size usage delta));
    })
      ≡ ok a
    → touch_lru p a.1 ≡ ok b
    → sdel_data p items (set l) s ≡ (
        let m = (del_members l (pos 0) 0 items).2 in
        ok ((integer_reply (int_of_size m), ltb 0 m), b.1))
unfolding sdel_data
sdel_data-ok p items l s n delta a b e d run touch = rw (
  d,
  modify-ok p (put_set (del_members l (pos 0) 0 items).0 (λ usage. sub_size usage delta)) s n e,
  run,
  touch,
)

sdel_there-ok :
    (cmd key : Bytes) (items : List Bytes) (s : Store) (p : Ptr) (n : DrutaNode)
    → s.kv_store key ≡ some p
    → load p s ≡ ok (n, s)
    → command_sdel (cmd ∷ (key ∷ items)) s ≡ sdel_data p items n.value.data_ s
unfolding command_sdel sdel_found
sdel_there-ok cmd key items s p n k e = rw (k, e)

module _ (cmd : Bytes) (items l : List Bytes) (s : Store) (as_ : List Item) (i : Item)
    (bs : List Item) (h : Holds s (as_ ++ (i ∷ bs))) (is_set : i.value.data_ ≡ set l)
    (small : removed_usage l items < 2 ^ 31)
    (charged : removed_usage l items ≤ i.value.memory_usage) where
  abbrev new : Item
  new = with_value i (removed_value l items i.value)

  abbrev after : List Bytes × ℤ × ℕ
  after = del_members l (pos 0) 0 items

  abbrev set_node : DrutaNode → DrutaNode
  set_node = put_set after.0 (λ usage. sub_size usage (removed_usage l items))

  charge : size_of_int after.1 ≡ removed_usage l items
  unfolding size_of_int
  charge = ap size_of_int (del_members-usage l 0 0 items (omega arith)) ∙ omega arith

  sets : (pv nx : Ptr) → set_node (node_of i pv nx) ≡ node_of new pv nx
  sets pv nx =
      let sum = total-remove as_ i bs in
      rw (sub_size-eq i.value.memory_usage (removed_usage l items) (omega (arith, h.fits)) charged)

  -- SDEL of members of a set in order that is there ends without a fault where what they are charged fits
  -- an `int` and has been charged, and the entry without them and the entries newer than it are
  -- within the limit. The new set is in order and has the old members without those that are named;
  -- the reply counts those that go, and the command is logged exactly if there are any. The entry becomes the most recently used one, even if its set is empty; of the
  -- older ones, least recently used entries go until the rest is within the limit.
  pub command_sdel-there :
      total (new ∷ bs) ≤ lru_max_memory
      → Set.IsSorted l
      → Returns (command_sdel (cmd ∷ (i.key ∷ items)) s) (λ r.
        (r.0 ≡ (integer_reply (int_of_size after.2), ltb 0 after.2))
        × Deleted l 0 items after
        × Holds r.1 (snoc (kept as_ (new ∷ bs) ++ bs) new))
  command_sdel-there room sorted =
      let sum = total-remove as_ i bs in
      let sum' = total-remove as_ new bs in
      let u =
        change-Updated s as_ i bs h (removed_value l items i.value) set_node sets
          (omega (arith, h.fits)) (removed_usage l items) 0 (omega arith) room in
      let n = node_of i (last_or null as_) (first_or null bs) in
      let node = (Links-Around s as_ i bs h.shape.links).node in
      (
        ((integer_reply (int_of_size after.2), ltb 0 after.2), u.touched.1),
        sdel_there-ok cmd i.key items s i.at n
              (h.shape.keys i.key ∙ ptr_of_item as_ i bs h.shape.distinct_keys)
              (load-ok i.at s n node)
            ∙ subst
                (λ d.
                  sdel_data i.at items d s
                  ≡ ok ((integer_reply (int_of_size after.2), ltb 0 after.2), u.touched.1))
                (sym is_set)
                (sdel_data-ok i.at items l s n (removed_usage l items) u.notified u.touched node
                  charge u.notify_run u.touch_run),
        (refl, del_members-Deleted l (pos 0) 0 items sorted, u.holds),
      )
