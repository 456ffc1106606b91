-- ===== src/Lru/Change.antt =====
-- An entry is given another value, `notify_memory_change` follows, and then `touch_lru`.
pub mod Outcome
use druta_db.Prelude.{
  ℕ, suc, ◌+◌, ◌-◌, ◌%◌, ◌^◌, ◌≤◌, ◌<◌, ◌≡◌, refl, sym, ap, subst, ◌∙◌, inl, inr, Bool, true, false,
  ◌||◌, not, Option, none, some, List, [], ◌∷◌, ◌++◌, arith, ltb, ◌==◌, if◌then◌else◌, Bool-cases,
  length, length-append, Bytes, bytes_key, same, snoc, add_size, sub_size, add_size-eq, Result, ok,
  fault, dangling, Returns, lt→ltb, not-ltb→le, le→not-ltb, ltb→lt,
}
use druta_db.Value.{DrutaValue}
use druta_db.Store.{Ptr, null, DrutaNode, Store, load, modify, ◌>>=◌, ◌>>◌}
use druta_db.Lru.{
  lru_max_memory, detach, changed_memory, notify_memory_change, touch_lru, evict_until_safe,
}
use druta_db.Lru.Chain.{
  Heap, Item, node_of, first_or, last_or, has, has-append, has-last, IsDistinct, Seg, upd, upd_some,
  join, frame-upd, ne_of_not_has, ==_comm, ==_refl, last_or-append, not_has-append, not_has-cons,
}
use druta_db.Lru.Steps.{Links, modify-ok, load-ok}
use druta_db.Lru.Detach.{Links-Around}
use druta_db.Lru.Touch.{touch_lru-Touched}
use druta_db.Lru.Holds.{
  Shape, Holds, usage, total, total-append, ptr_of, HasDistinctKeys, total-remove, length-remove,
}
use druta_db.Lru.Insert.{Touched-Holds}
use druta_db.Lru.Evict.{survivors, survivors_go, survivors_stop, evict_until_safe-Holds}

abbrev pub with_value : Item → DrutaValue → Item
with_value i v = record i { value = v }

-- The addresses and the keys do not depend on the value.
module _ (i : Item) (v : DrutaValue) (bs : List Item) where
  has-with_value :
      (p : Ptr) (as_ : List Item) → has p (as_ ++ (with_value i v ∷ bs)) ≡ has p (as_ ++ (i ∷ bs))
  has-with_value p [] = refl
  has-with_value p (a ∷ as_) = rw (has-with_value p as_)

  ptr_of-with_value :
      (k : Bytes) (as_ : List Item)
      → ptr_of (as_ ++ (with_value i v ∷ bs)) k ≡ ptr_of (as_ ++ (i ∷ bs)) k
  ptr_of-with_value k [] = refl
  ptr_of-with_value k (a ∷ as_) = rw (ptr_of-with_value k as_)

  length-with_value :
      (as_ : List Item) → length (as_ ++ (with_value i v ∷ bs)) ≡ length (as_ ++ (i ∷ bs))
  length-with_value [] = refl
  length-with_value (a ∷ as_) = rw (length-with_value as_)

  last_or-with_value :
      (p : Ptr) (as_ : List Item)
      → last_or p (as_ ++ (with_value i v ∷ bs)) ≡ last_or p (as_ ++ (i ∷ bs))
  last_or-with_value p [] = refl
  last_or-with_value p (a ∷ as_) = last_or-with_value a.at as_

  first_or-with_value :
      (p : Ptr) (as_ : List Item)
      → first_or p (as_ ++ (with_value i v ∷ bs)) ≡ first_or p (as_ ++ (i ∷ bs))
  first_or-with_value p [] = refl
  first_or-with_value p (a ∷ as_) = refl

  IsDistinct-with_value :
      (as_ : List Item) → IsDistinct (as_ ++ (i ∷ bs)) → IsDistinct (as_ ++ (with_value i v ∷ bs))
  IsDistinct-with_value [] d = d
  IsDistinct-with_value (a ∷ as_) d = (has-with_value a.at as_ ∙ d.0, IsDistinct-with_value as_ d.1)

  HasDistinctKeys-with_value :
      (as_ : List Item)
      → HasDistinctKeys (as_ ++ (i ∷ bs))
      → HasDistinctKeys (as_ ++ (with_value i v ∷ bs))
  HasDistinctKeys-with_value [] d = d
  HasDistinctKeys-with_value (a ∷ as_) d =
      (ptr_of-with_value a.key as_ ∙ d.0, HasDistinctKeys-with_value as_ d.1)

-- The state in which the node of an item has been changed and the account stands at `m`.
abbrev pub changed : Store → Ptr → (DrutaNode → DrutaNode) → ℕ → Store
changed s p f m = record s { nodes = upd s.nodes p f; current_memory_usage = m }

module _ (s : Store) (as_ : List Item) (i : Item) (bs : List Item) (h : Shape s (as_ ++ (i ∷ bs)))
    (v : DrutaValue) (f : DrutaNode → DrutaNode)
    (sets : (pv nx : Ptr) → f (node_of i pv nx) ≡ node_of (with_value i v) pv nx) where
  abbrev new : Item
  new = with_value i v

  changed-Seg : Seg (upd s.nodes i.at f) null (as_ ++ (new ∷ bs)) null
  changed-Seg =
      let r = Links-Around s as_ i bs h.links in
      join (upd s.nodes i.at f) null as_ (new ∷ bs) null
        (frame-upd s.nodes i.at f null as_ i.at r.not_front r.front)
        (
          rw (==_refl i.at, r.node) (ap some (sets (last_or null as_) (first_or null bs))),
          frame-upd s.nodes i.at f i.at bs null r.not_back r.back,
        )

  changed-Links : (m : ℕ) → Links (changed s i.at f m) (as_ ++ (new ∷ bs))
  changed-Links m = record {
    seg = changed-Seg;
    tail = h.links.tail ∙ sym (first_or-with_value i v bs null as_);
    head = h.links.head ∙ sym (last_or-with_value i v bs null as_);
    distinct = IsDistinct-with_value i v bs as_ h.links.distinct;
    nonnull = has-with_value i v bs null as_ ∙ h.links.nonnull;
  }

  pub changed-Shape : (m : ℕ) → Shape (changed s i.at f m) (as_ ++ (new ∷ bs))
  changed-Shape m = record {
    links = changed-Links m;
    keys = λ k. h.keys k ∙ sym (ptr_of-with_value i v bs k as_);
    distinct_keys = HasDistinctKeys-with_value i v bs as_ h.distinct_keys;
    counted = h.counted ∙ ap (λ n. n % 2 ^ 64) (sym (length-with_value i v bs as_));
    unused = λ p q. has-with_value i v bs p as_ ∙ h.unused p q;
    fresh = h.fresh;
    no_more = λ p q.
        let o = sym (has-with_value i v bs p as_) ∙ q in
        let far = (not_has-cons p i bs (not_has-append p as_ (i ∷ bs) o).1).0 in
        rw far (h.no_more p o);
  }

pub changed-Holds :
    (s : Store) (as_ : List Item) (i : Item) (bs : List Item) (h : Holds s (as_ ++ (i ∷ bs)))
    (v : DrutaValue) (f : DrutaNode → DrutaNode)
    (sets : (pv nx : Ptr) → f (node_of i pv nx) ≡ node_of (with_value i v) pv nx)
    (fits : total (as_ ++ (with_value i v ∷ bs)) < 2 ^ 64) (m : ℕ)
    → m ≡ total (as_ ++ (with_value i v ∷ bs))
    → Holds (changed s i.at f m) (as_ ++ (with_value i v ∷ bs))
changed-Holds s as_ i bs h v f sets fits m e = record {
  shape = changed-Shape s as_ i bs h.shape v f sets m;
  countable = rw (length-with_value i v bs as_) h.countable;
  memory = e;
  fits = fits;
}

-- The older entries that stay when the ones behind them, `rest`, do.
unfoldable pub kept : List Item → List Item → List Item
kept [] rest = []
kept (a ∷ as_) rest =
    let more = kept as_ rest in
    if ltb lru_max_memory (total ((a ∷ as_) ++ rest)) then more else a ∷ as_

pub survivors-keep : (rest : List Item) → total rest ≤ lru_max_memory → survivors rest ≡ rest
survivors-keep [] h = unfold survivors in refl
survivors-keep (x ∷ rest) h = survivors_stop x rest (le→not-ltb lru_max_memory (total (x ∷ rest)) h)

pub survivors-kept :
    (as_ rest : List Item)
    → total rest ≤ lru_max_memory
    → survivors (as_ ++ rest) ≡ kept as_ rest ++ rest
unfolding kept
survivors-kept [] rest h = survivors-keep rest h
survivors-kept (a ∷ as_) rest h =
    let later = survivors-kept as_ rest h in
    elim (Bool-cases (ltb lru_max_memory (total ((a ∷ as_) ++ rest)))) [
      | inl e ↦ survivors_go a (as_ ++ rest) e ∙ later ∙ rw e
      | inr n ↦ survivors_stop a (as_ ++ rest) n ∙ rw n
    ]

-- Where there is room for all, all are kept.
pub kept-all : (as_ rest : List Item) → total (as_ ++ rest) ≤ lru_max_memory → kept as_ rest ≡ as_
unfolding kept
kept-all [] rest h = refl
kept-all (a ∷ as_) rest h = rw (le→not-ltb lru_max_memory (total ((a ∷ as_) ++ rest)) h)

-- An entry that together with the newer ones exceeds the limit goes, with all older ones.
pub survivors-lost :
    (as_ : List Item) (i : Item) (bs : List Item)
    → lru_max_memory < total (i ∷ bs)
    → survivors (as_ ++ (i ∷ bs)) ≡ survivors bs
survivors-lost [] i bs h = survivors_go i bs (lt→ltb lru_max_memory (total (i ∷ bs)) h)
survivors-lost (a ∷ as_) i bs h =
    survivors_go a (as_ ++ (i ∷ bs)) (
      lt→ltb lru_max_memory (total (a ∷ (as_ ++ (i ∷ bs))))
        (omega (arith, total-append as_ (i ∷ bs))))
    ∙ survivors-lost as_ i bs h

pub not_has-survivors : (p : Ptr) (xs : List Item) → has p xs ≡ false → has p (survivors xs) ≡ false
unfolding survivors
not_has-survivors p [] q = q
not_has-survivors p (x ∷ xs) q =
    let o = not_has-cons p x xs q in
    let later = not_has-survivors p xs o.1 in
    elim (Bool-cases (ltb lru_max_memory (total (x ∷ xs)))) [ inl e ↦ rw e later | inr n ↦ rw n q ]

pub changed_memory-eq :
    (old_size new_size current after : ℕ)
    → current + new_size ≡ after + old_size
    → after < 2 ^ 64
    → changed_memory old_size new_size current ≡ after
unfolding changed_memory add_size
changed_memory-eq old_size new_size current after e h = ground arith
