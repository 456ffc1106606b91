-- ===== src/Lru/Change/Outcome.antt =====
-- What `notify_memory_change` and `touch_lru` do after a change of an entry's value.
use druta_db.Prelude.{
  ℕ, ◌+◌, ◌^◌, ◌≤◌, ◌<◌, ◌≡◌, sym, subst, false, List, [], ◌∷◌, ◌++◌, arith, ◌==◌, snoc, ok, fault,
  dangling, Returns,
}
use druta_db.Value.{DrutaValue}
use druta_db.Store.{Ptr, null, DrutaNode, Store}
use druta_db.Lru.{lru_max_memory, detach, notify_memory_change, touch_lru, changed_memory}
use druta_db.Lru.Steps.{load-dangling}
use druta_db.Lru.Chain.{Item, node_of, last_or, has, upd, ne_of_not_has, has-last}
use druta_db.Lru.Detach.{Links-Around}
use druta_db.Lru.Touch.{touch_lru-Touched}
use druta_db.Lru.Holds.{Shape, Holds, usage, total, total-remove}
use druta_db.Lru.Insert.{Touched-Holds}
use druta_db.Lru.Evict.{survivors, evict_until_safe-Holds}
use druta_db.Lru.Change.{
  with_value, kept, survivors-kept, survivors-lost, not_has-survivors, changed, changed-Holds,
  changed_memory-eq,
}

pub touch_lru-Holds :
    (s : Store) (as_ : List Item) (i : Item) (bs : List Item)
    → Holds s (as_ ++ (i ∷ bs))
    → Returns (touch_lru i.at s) (λ r. Holds r.1 (snoc (as_ ++ bs) i))
touch_lru-Holds s as_ i bs h =
    let (a, run, t) = touch_lru-Touched s as_ i bs h.shape.links in
    (a, run, Touched-Holds s a.1 as_ i bs h t)

ne-last :
    (p : Ptr) (xs : List Item)
    → has p xs ≡ false
    → (p == null) ≡ false
    → (p == last_or null xs) ≡ false
ne-last p [] q e = e
ne-last p (x ∷ xs) q e = ne_of_not_has p (last_or x.at xs) (x ∷ xs) q (has-last x xs)

-- To touch a node that has been destroyed is an access to a dead object.
pub touch_lru-dangling :
    (s : Store) (xs : List Item) (p : Ptr)
    → Shape s xs
    → has p xs ≡ false
    → (p == null) ≡ false
    → touch_lru p s ≡ fault dangling
unfolding touch_lru detach
touch_lru-dangling s xs p h q e =
    let far : (p == s.head) ≡ false =
      subst (λ k. (p == k) ≡ false) (sym h.links.head) (ne-last p xs q e) in
    rw (e, far, load-dangling p s (h.no_more p q))

-- The account is adjusted and the entry touched, both without a fault.
pub record Updated (s : Store) (p : Ptr) (old_size new_size : ℕ) (xs : List Item) : Type 0 where
  pub notified : Unit {0} × Store
  pub notify_run : notify_memory_change old_size new_size s ≡ ok notified
  pub touched : Unit {0} × Store
  pub touch_run : touch_lru p notified.1 ≡ ok touched
  pub holds : Holds touched.1 xs

-- The account is adjusted, and the entry that is to be touched has been destroyed.
pub record Lost (s : Store) (p : Ptr) (old_size new_size : ℕ) : Type 0 where
  pub notified : Unit {0} × Store
  pub notify_run : notify_memory_change old_size new_size s ≡ ok notified
  pub touch_run : touch_lru p notified.1 ≡ fault dangling

module _ (s : Store) (as_ : List Item) (i : Item) (bs : List Item) (h : Holds s (as_ ++ (i ∷ bs)))
    (v : DrutaValue) (f : DrutaNode → DrutaNode)
    (sets : (pv nx : Ptr) → f (node_of i pv nx) ≡ node_of (with_value i v) pv nx)
    (fits : total (as_ ++ (with_value i v ∷ bs)) < 2 ^ 64) (old_size new_size : ℕ)
    (sizes : usage i + new_size ≡ usage (with_value i v) + old_size) where
  abbrev now : Item
  now = with_value i v

  abbrev written : Store
  written = record s { nodes = upd s.nodes i.at f }

  pub notified :
      Returns
        (notify_memory_change old_size new_size written)
        (λ r. Holds r.1 (survivors (as_ ++ (now ∷ bs))))
  unfolding notify_memory_change
  notified =
      let m = changed_memory old_size new_size s.current_memory_usage in
      let sum = total-remove as_ i bs in
      let sum' = total-remove as_ now bs in
      let e =
        changed_memory-eq old_size new_size s.current_memory_usage (total (as_ ++ (now ∷ bs)))
          (omega (arith, h.memory)) fits in
      let (a, run, d) =
        evict_until_safe-Holds (changed s i.at f m) (as_ ++ (now ∷ bs))
          (changed-Holds s as_ i bs h v f sets fits m e) in
      (a, run, d.0)

  pub change-Updated :
      total (now ∷ bs) ≤ lru_max_memory
      → Updated written i.at old_size new_size (snoc (kept as_ (now ∷ bs) ++ bs) now)
  change-Updated small =
      let (a, run, d) = notified in
      let d' : Holds a.1 (kept as_ (now ∷ bs) ++ (now ∷ bs)) =
        rw (← survivors-kept as_ (now ∷ bs) small) d in
      let (b, run', d'') = touch_lru-Holds a.1 (kept as_ (now ∷ bs)) now bs d' in
      record { notified = a; notify_run = run; touched = b; touch_run = run'; holds = d'' }

  pub change-Lost : lru_max_memory < total (now ∷ bs) → Lost written i.at old_size new_size
  change-Lost large =
      let (a, run, d) = notified in
      let r = Links-Around s as_ i bs h.shape.links in
      let d' : Holds a.1 (survivors bs) = rw (← survivors-lost as_ now bs large) d in
      record {
        notified = a;
        notify_run = run;
        touch_run =
            touch_lru-dangling a.1 (survivors bs) i.at d'.shape
              (not_has-survivors i.at bs r.not_back) r.nonnull;
      }
