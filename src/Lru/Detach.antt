-- ===== src/Lru/Detach.antt =====
-- `detach` takes one item out of the list that the nodes form.
use druta_db.Prelude.{
  ◌≡◌, refl, sym, ap, ◌∙◌, inl, inr, true, false, ◌||◌, some, List, [], ◌∷◌, ◌++◌, arith, ◌==◌,
  ==_iff, Bool-cases, Returns,
}
use druta_db.Store.{Ptr, null, DrutaNode, Store}
use druta_db.Lru.{detach}
use druta_db.Lru.Chain.{
  Heap, Item, node_of, first_or, last_or, has, IsDistinct, Seg, upd, upd_some, with_next, with_prev,
  ==_comm, has-append, last_or-append, has-last, split, join, frame-upd, Seg-with_next,
  Seg-with_prev, ne_of_not_has, Apart, IsDistinct-split, IsDistinct-join, not_has-append,
  not_has-cons, ==_refl,
}
use druta_db.Lru.Steps.{Links, IsThere, linked_back, linked_on, detached, detach-ok}

-- The parts of a list around one item.
pub record Around (s : Store) (as_ : List Item) (i : Item) (bs : List Item) : Type 0 where
  pub front : Seg s.nodes null as_ i.at
  pub node : s.nodes i.at ≡ some (node_of i (last_or null as_) (first_or null bs))
  pub back : Seg s.nodes i.at bs null
  pub front_distinct : IsDistinct as_
  pub back_distinct : IsDistinct bs
  pub not_front : has i.at as_ ≡ false
  pub not_back : has i.at bs ≡ false
  pub apart : Apart as_ bs
  pub front_nonnull : has null as_ ≡ false
  pub back_nonnull : has null bs ≡ false
  pub nonnull : (i.at == null) ≡ false

pub Links-Around :
    (s : Store) (as_ : List Item) (i : Item) (bs : List Item)
    → Links s (as_ ++ (i ∷ bs))
    → Around s as_ i bs
Links-Around s as_ i bs l =
    let sp = split s.nodes null as_ (i ∷ bs) null l.seg in
    let d = IsDistinct-split as_ (i ∷ bs) l.distinct in
    let nn : (has null as_ || has null (i ∷ bs)) ≡ false =
      rw (← has-append null as_ (i ∷ bs)) l.nonnull in
    record {
      front = sp.0;
      node = sp.1.0;
      back = sp.1.1;
      front_distinct = d.0;
      back_distinct = d.1.1;
      not_front = elim (Bool-cases (has i.at as_)) [
        | inl m ↦ absurd (ground (arith, d.2 i.at m))
        | inr n ↦ n
      ];
      not_back = d.1.0;
      apart = λ p m. ground (arith, d.2 p m);
      front_nonnull = ground arith;
      back_nonnull = ground arith;
      nonnull = ground arith;
    }

pub last_nonnull :
    (a : Item) (xs : List Item) → has null (a ∷ xs) ≡ false → (last_or a.at xs == null) ≡ false
last_nonnull a xs nn =
    rw (==_comm (last_or a.at xs) null)
      (ne_of_not_has null (last_or a.at xs) (a ∷ xs) nn (has-last a xs))

-- After the first half of `detach` the front leads past the item.
record Bypassed (s t : Store) (as_ : List Item) (i : Item) (bs : List Item) : Type 0 where
  front : Seg t.nodes null as_ (first_or null bs)
  back : Seg t.nodes i.at bs null
  tail : t.tail ≡ (elim as_ [ [] ↦ first_or null bs | a ∷ as' ↦ s.tail ])

linked_back-Bypassed :
    (s : Store) (as_ : List Item) (i : Item) (bs : List Item)
    → Around s as_ i bs
    → Bypassed s (linked_back (node_of i (last_or null as_) (first_or null bs)) s) as_ i bs
linked_back-Bypassed s [] i bs r = record { front = tt; back = r.back; tail = refl }
linked_back-Bypassed s (a ∷ as_) i bs r =
    let last = last_or a.at as_ in
    rw (last_nonnull a as_ r.front_nonnull) (record {
      front = Seg-with_next s.nodes null a as_ i.at (first_or null bs) r.front_distinct r.front;
      back =
          frame-upd s.nodes last (with_next (first_or null bs)) i.at bs null
            (r.apart last (has-last a as_)) r.back;
      tail = refl;
    })

-- After both halves the two runs follow one another.
linked_on-join :
    (t : Store) (as_ : List Item) (i : Item) (bs : List Item)
    → Seg t.nodes null as_ (first_or null bs)
    → Seg t.nodes i.at bs null
    → IsDistinct bs
    → Apart as_ bs
    → has null bs ≡ false
    → Seg
        (linked_on (node_of i (last_or null as_) (first_or null bs)) t).nodes
        null
        (as_ ++ bs)
        null
linked_on-join t as_ i [] f b d apart nn = join t.nodes null as_ [] null f tt
linked_on-join t as_ i (c ∷ bs) f b d apart nn =
    let last = last_or null as_ in
    let out : has c.at as_ ≡ false = (elim (Bool-cases (has c.at as_)) [
      | inl m ↦ absurd (ground (arith, apart c.at m))
      | inr n ↦ n
    ]) in
    let present : (c.at == null) ≡ false = ground arith in
    rw present (
      join (upd t.nodes c.at (with_prev last)) null as_ (c ∷ bs) null
        (frame-upd t.nodes c.at (with_prev last) null as_ c.at out f)
        (Seg-with_prev t.nodes i.at last c bs null d b))

linked_on-tail : (n : DrutaNode) (t : Store) → (linked_on n t).tail ≡ t.tail
linked_on-tail n t = ground arith

linked_back-head : (n : DrutaNode) (s : Store) → (linked_back n s).head ≡ s.head
linked_back-head n s = ground arith

detached-tail :
    (s : Store) (as_ : List Item) (i : Item) (bs : List Item)
    → Links s (as_ ++ (i ∷ bs))
    → (detached i.at (node_of i (last_or null as_) (first_or null bs)) s).tail
      ≡ first_or null (as_ ++ bs)
detached-tail s [] i bs l =
    linked_on-tail (node_of i null (first_or null bs))
      (linked_back (node_of i null (first_or null bs)) s)
detached-tail s (a ∷ as_) i bs l =
    let n = node_of i (last_or a.at as_) (first_or null bs) in
    let r = Links-Around s (a ∷ as_) i bs l in
    linked_on-tail n (linked_back n s) ∙ (linked_back-Bypassed s (a ∷ as_) i bs r).tail ∙ l.tail

detached-head :
    (s : Store) (as_ : List Item) (i : Item) (bs : List Item)
    → Links s (as_ ++ (i ∷ bs))
    → (detached i.at (node_of i (last_or null as_) (first_or null bs)) s).head
      ≡ last_or null (as_ ++ bs)
detached-head s as_ i [] l = sym (last_or-append null as_ [])
detached-head s as_ i (c ∷ bs) l =
    let n = node_of i (last_or null as_) c.at in
    let r = Links-Around s as_ i (c ∷ bs) l in
    let present : (c.at == null) ≡ false = last_nonnull' r in
    rw present (
      linked_back-head n s
      ∙ l.head
      ∙ last_or-append null as_ (i ∷ (c ∷ bs))
      ∙ sym (last_or-append null as_ (c ∷ bs)))
  where
    last_nonnull' : Around s as_ i (c ∷ bs) → (c.at == null) ≡ false
    last_nonnull' r = ground arith

-- An item's node is left alone by the changes to its neighbours.
neighbours_leave :
    (s : Store) (as_ : List Item) (bs : List Item) (i : Item) (q : Ptr)
    → has q as_ ≡ false
    → has q bs ≡ false
    → (linked_on
          (node_of i (last_or null as_) (first_or null bs))
          (linked_back (node_of i (last_or null as_) (first_or null bs)) s)).nodes
        q
      ≡ s.nodes q
neighbours_leave s [] [] i q x y = refl
neighbours_leave s [] (c ∷ bs) i q x y = ground arith
neighbours_leave s (a ∷ as_) [] i q x y =
    let miss = ne_of_not_has q (last_or a.at as_) (a ∷ as_) x (has-last a as_) in ground arith
neighbours_leave s (a ∷ as_) (c ∷ bs) i q x y =
    let miss = ne_of_not_has q (last_or a.at as_) (a ∷ as_) x (has-last a as_) in ground arith

-- What `detach` and `attach_head` do not touch.
pub record SameAccount (s t : Store) : Type 0 where
  pub kv_store : t.kv_store ≡ s.kv_store
  pub fresh : t.fresh ≡ s.fresh
  pub lru_size : t.lru_size ≡ s.lru_size
  pub memory : t.current_memory_usage ≡ s.current_memory_usage

-- The state after `detach` of the item `i` between `as_` and `bs`.
pub record Detached (s t : Store) (as_ : List Item) (i : Item) (bs : List Item) : Type 0 where
  pub links : Links t (as_ ++ bs)
  pub node : t.nodes i.at ≡ some (node_of i null null)
  pub outside : (q : Ptr) → has q (as_ ++ (i ∷ bs)) ≡ false → t.nodes q ≡ s.nodes q
  pub account : SameAccount s t

detached-Seg :
    (s : Store) (as_ : List Item) (i : Item) (bs : List Item)
    → Around s as_ i bs
    → Seg
        (detached i.at (node_of i (last_or null as_) (first_or null bs)) s).nodes
        null
        (as_ ++ bs)
        null
detached-Seg s as_ i bs r =
    let n = node_of i (last_or null as_) (first_or null bs) in
    let b = linked_back-Bypassed s as_ i bs r in
    let t = linked_on n (linked_back n s) in
    let out : has i.at (as_ ++ bs) ≡ false = rw (has-append i.at as_ bs, r.not_front) r.not_back in
    frame-upd (upd t.nodes i.at (with_prev null)) i.at (with_next null) null (as_ ++ bs) null out (
      frame-upd t.nodes i.at (with_prev null) null (as_ ++ bs) null out (
        linked_on-join (linked_back n s) as_ i bs b.front b.back r.back_distinct r.apart
          r.back_nonnull))

detached-outside :
    (s : Store) (as_ : List Item) (i : Item) (bs : List Item) (q : Ptr)
    → has q (as_ ++ (i ∷ bs)) ≡ false
    → (detached i.at (node_of i (last_or null as_) (first_or null bs)) s).nodes q ≡ s.nodes q
detached-outside s as_ i bs q out =
    let o = not_has-append q as_ (i ∷ bs) out in
    let m = not_has-cons q i bs o.1 in rw m.0 (neighbours_leave s as_ bs i q o.0 m.1)

detached-node :
    (s : Store) (as_ : List Item) (i : Item) (bs : List Item)
    → Around s as_ i bs
    → (detached i.at (node_of i (last_or null as_) (first_or null bs)) s).nodes i.at
      ≡ some (node_of i null null)
detached-node s as_ i bs r =
    let n = node_of i (last_or null as_) (first_or null bs) in
    let same_ = neighbours_leave s as_ bs i i.at r.not_front r.not_back ∙ r.node in
    rw (==_refl i.at) (ap (upd_some (with_next null)) (ap (upd_some (with_prev null)) same_))

detached-account : (s : Store) (p : Ptr) (n : DrutaNode) → SameAccount s (detached p n s)
detached-account s p n = record {
  kv_store = elim (Bool-cases (n.prev == null)) [
    | inl e ↦ elim (Bool-cases (n.next == null)) [ inl f ↦ rw (e, f) | inr f ↦ rw (e, f) ]
    | inr e ↦ elim (Bool-cases (n.next == null)) [ inl f ↦ rw (e, f) | inr f ↦ rw (e, f) ]
  ];
  fresh = ground arith;
  lru_size = ground arith;
  memory = ground arith;
}

neighbour-IsThere :
    (h : Heap) (pv : Ptr) (xs : List Item) (nx q : Ptr)
    → Seg h pv xs nx
    → has q xs ≡ true
    → IsThere h q
neighbour-IsThere h pv [] nx q s m = cc
neighbour-IsThere h pv (i ∷ xs) nx q s m = elim (Bool-cases (q == i.at)) [
  | inl e ↦ rw ((==_iff q i.at).0 e) (node_of i pv (first_or nx xs), s.0)
  | inr n ↦ neighbour-IsThere h i.at xs nx q s.1 (ground arith)
]

pub last-IsThere :
    (s : Store) (as_ : List Item) (nx : Ptr)
    → Seg s.nodes null as_ nx
    → (last_or null as_ == null) ≡ false
    → IsThere s.nodes (last_or null as_)
last-IsThere s [] nx g e = cc
last-IsThere s (a ∷ as_) nx g e =
    neighbour-IsThere s.nodes null (a ∷ as_) nx (last_or a.at as_) g (has-last a as_)

first-IsThere :
    (s : Store) (pv : Ptr) (bs : List Item)
    → Seg s.nodes pv bs null
    → (first_or null bs == null) ≡ false
    → IsThere s.nodes (first_or null bs)
first-IsThere s pv [] g e = cc
first-IsThere s pv (b ∷ bs) g e = (node_of b pv (first_or null bs), g.0)

-- `detach` of a node of the list does not fault, and leaves the list of the other nodes, in their
-- order; the node's links are cleared, and no other node and no counter changes.
pub detach-Detached :
    (s : Store) (as_ : List Item) (i : Item) (bs : List Item)
    → Links s (as_ ++ (i ∷ bs))
    → Returns (detach i.at s) (λ r. Detached s r.1 as_ i bs)
detach-Detached s as_ i bs l =
    let n = node_of i (last_or null as_) (first_or null bs) in
    let r = Links-Around s as_ i bs l in
    (
      (tt, detached i.at n s),
      detach-ok s i.at n r.nonnull r.node (last-IsThere s as_ i.at r.front)
          (first-IsThere s i.at bs r.back),
      record {
        links = record {
          seg = detached-Seg s as_ i bs r;
          tail = detached-tail s as_ i bs l;
          head = detached-head s as_ i bs l;
          distinct = IsDistinct-join as_ bs r.front_distinct r.back_distinct r.apart;
          nonnull = rw (has-append null as_ bs, r.front_nonnull) r.back_nonnull;
        };
        node = detached-node s as_ i bs r;
        outside = detached-outside s as_ i bs;
        account = detached-account s i.at n;
      },
    )
