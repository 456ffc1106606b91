-- ===== src/Commands/Strings/Overwrite.antt =====
-- SET of a key that is there: the new value in the old node, and what the memory limit does to it.
use druta_db.Prelude.{
  ◌^◌, ◌≤◌, ◌<◌, ◌≡◌, refl, ◌∙◌, true, false, some, List, ◌∷◌, ◌++◌, arith, Bytes, ℤ, pos, snoc,
  Result, ok, fault, dangling, Returns, ◌==◌,
}
use druta_db.Value.{DrutaValue, of_string}
use druta_db.Store.{Ptr, null, DrutaNode, get_memory_usage, Store}
use druta_db.Lru.{lru_max_memory, update_lru, notify_memory_change, touch_lru}
use druta_db.Lru.Chain.{Item, node_of, first_or, last_or, upd, ==_refl}
use druta_db.Lru.Steps.{load-ok, modify-ok}
use druta_db.Lru.Detach.{Links-Around}
use druta_db.Lru.Holds.{Holds, usage, total, total-remove, ptr_of_item, get_memory_usage-usage}
use druta_db.Lru.Change.{with_value, kept}
use druta_db.Lru.Change.Outcome.{change-Updated, change-Lost}
use druta_db.Commands.Replies.{ok_reply}
use druta_db.Commands.Strings.{read_expiry, set_value, command_set}

abbrev put_value : DrutaValue → DrutaNode → DrutaNode
put_value v n = record n { value = v }

-- `update_lru` up to the call of `notify_memory_change`.
update-ok :
    (s : Store) (p : Ptr) (v : DrutaValue) (n : DrutaNode) (a : Unit {0} × Store)
    → (p == null) ≡ false
    → s.nodes p ≡ some n
    → notify_memory_change
        (get_memory_usage n)
        (get_memory_usage (put_value v n))
        (record s { nodes = upd s.nodes p (put_value v) })
      ≡ ok a
    → update_lru p v s ≡ touch_lru p a.1
unfolding update_lru
update-ok s p v n a e l run =
    rw
      (
        e,
        load-ok p s n l,
        modify-ok p (put_value v) s n l,
        load-ok p (record s { nodes = upd s.nodes p (put_value v) }) (put_value v n)
            (rw (==_refl p, l)),
      )
      (rw run)

set_over-ok :
    (now : ℤ) (cmd key val : Bytes) (opts : List Bytes) (at : ℤ) (s : Store) (p : Ptr)
    (r : Result (Unit {0} × Store))
    → read_expiry now opts (pos 0) ≡ ok (some at)
    → s.kv_store key ≡ some p
    → update_lru p (of_string val at) s ≡ r
    → command_set now (cmd ∷ (key ∷ (val ∷ opts))) s
      ≡ (elim r [ ok a ↦ ok ((ok_reply, true), a.1) | fault e ↦ fault e ])
unfolding command_set set_value
set_over-ok now cmd key val opts at s p (ok a) e k u = rw (e, k, u)
set_over-ok now cmd key val opts at s p (fault x) e k u = rw (e, k, u)

module _ (now : ℤ) (cmd val : Bytes) (opts : List Bytes) (at : ℤ) (s : Store) (as_ : List Item)
    (i : Item) (bs : List Item) (h : Holds s (as_ ++ (i ∷ bs)))
    (options : read_expiry now opts (pos 0) ≡ ok (some at))
    (fits : total (as_ ++ (with_value i (of_string val at) ∷ bs)) < 2 ^ 64) where
  abbrev new : Item
  new = with_value i (of_string val at)

  abbrev old_node : DrutaNode
  old_node = node_of i (last_or null as_) (first_or null bs)

  found : s.kv_store i.key ≡ some i.at
  found = h.shape.keys i.key ∙ ptr_of_item as_ i bs h.shape.distinct_keys

  old_usage : get_memory_usage old_node ≡ usage i
  old_usage =
      get_memory_usage-usage i (last_or null as_) (first_or null bs)
        (omega (arith, h.fits, total-remove as_ i bs))

  written_usage : get_memory_usage (put_value (of_string val at) old_node) ≡ usage new
  written_usage =
      get_memory_usage-usage new (last_or null as_) (first_or null bs)
        (omega (arith, total-remove as_ new bs))

  update-run :
      (a : Unit {0} × Store)
      → notify_memory_change
          (usage i)
          (usage new)
          (record s { nodes = upd s.nodes i.at (put_value (of_string val at)) })
        ≡ ok a
      → update_lru i.at (of_string val at) s ≡ touch_lru i.at a.1
  update-run a run =
      let r = Links-Around s as_ i bs h.shape.links in
      update-ok s i.at (of_string val at) old_node a r.nonnull r.node
        (rw (old_usage, written_usage) run)

  -- SET of a key that is there, with options that give an expiry time, ends without a fault where
  -- the entry with its new value and the entries newer than it are within the limit. The entry
  -- becomes the most recently used one; of the older ones, least recently used entries go until
  -- the rest is within the limit; the others are unchanged.
  pub command_set-over :
      total (new ∷ bs) ≤ lru_max_memory
      → Returns
          (command_set now (cmd ∷ (i.key ∷ (val ∷ opts))) s)
          (λ r. (r.0 ≡ (ok_reply, true)) × Holds r.1 (snoc (kept as_ (new ∷ bs) ++ bs) new))
  command_set-over small =
      let u =
        change-Updated s as_ i bs h (of_string val at) (put_value (of_string val at))
          (λ pv nx. refl) fits (usage i) (usage new) (omega arith) small in
      (
        ((ok_reply, true), u.touched.1),
        set_over-ok now cmd i.key val opts at s i.at (ok u.touched) options found
            (update-run u.notified u.notify_run ∙ u.touch_run),
        (refl, u.holds),
      )

  -- Where they exceed the limit, the eviction destroys the entry that SET is writing, and
  -- `update_lru` goes on to access it.
  pub command_set-lost :
      lru_max_memory < total (new ∷ bs)
      → command_set now (cmd ∷ (i.key ∷ (val ∷ opts))) s ≡ fault dangling
  command_set-lost large =
      let u =
        change-Lost s as_ i bs h (of_string val at) (put_value (of_string val at)) (λ pv nx. refl)
          fits (usage i) (usage new) (omega arith) large in
      set_over-ok now cmd i.key val opts at s i.at (fault dangling) options found
        (update-run u.notified u.notify_run ∙ u.touch_run)
