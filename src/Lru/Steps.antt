-- ===== src/Lru/Steps.antt =====
-- Single steps on the nodes: `load`, `modify`, and the states that `detach` goes through.
use druta_db.Prelude.{
  ◌≡◌, sym, ap, ◌∙◌, inl, inr, false, not, none, some, List, ◌==◌, ==_iff, if◌then◌else◌,
  Bool-cases, fun_ext, ok, fault, dangling,
}
use druta_db.Store.{Ptr, null, DrutaNode, Store, load, modify, write_node}
use druta_db.Lru.{detach}
use druta_db.Lru.Chain.{
  Heap, Item, first_or, last_or, has, IsDistinct, Seg, upd, upd_some, with_next, with_prev,
}

-- The list of the nodes `xs`, from `tail` to `head`.
pub record Links (s : Store) (xs : List Item) : Type 0 where
  pub seg : Seg s.nodes null xs null
  pub tail : s.tail ≡ first_or null xs
  pub head : s.head ≡ last_or null xs
  pub distinct : IsDistinct xs
  pub nonnull : has null xs ≡ false

write_node-upd :
    (h : Heap) (p : Ptr) (f : DrutaNode → DrutaNode) (n : DrutaNode)
    → h p ≡ some n
    → write_node h p (some (f n)) ≡ upd h p f
write_node-upd h p f n e = fun_ext λ q. elim (Bool-cases (q == p)) [
  | inl hit ↦ rw hit (sym (ap (upd_some f) (ap h ((==_iff q p).0 hit) ∙ e)))
  | inr miss ↦ rw miss
]

pub load-ok : (p : Ptr) (s : Store) (n : DrutaNode) → s.nodes p ≡ some n → load p s ≡ ok (n, s)
unfolding load
load-ok p s n e = rw (e, load)

pub modify-ok :
    (p : Ptr) (f : DrutaNode → DrutaNode) (s : Store) (n : DrutaNode)
    → s.nodes p ≡ some n
    → modify p f s ≡ ok (tt, record s { nodes = upd s.nodes p f })
unfolding modify
modify-ok p f s n e =
    rw (load-ok p s n e)
      (ap (λ h. ok (tt, record s { nodes = h })) (write_node-upd s.nodes p f n e))

pub load-dangling : (p : Ptr) (s : Store) → s.nodes p ≡ none → load p s ≡ fault dangling
unfolding load
load-dangling p s e = rw (e, load)

pub modify-dangling :
    (p : Ptr) (f : DrutaNode → DrutaNode) (s : Store)
    → s.nodes p ≡ none
    → modify p f s ≡ fault dangling
unfolding modify
modify-dangling p f s e = rw (load-dangling p s e)

-- There is a node.
abbrev pub IsThere : Heap → Ptr → Type 0
IsThere h p = (n : DrutaNode) × (h p ≡ some n)

pub upd-IsThere :
    (h : Heap) (q : Ptr) (f : DrutaNode → DrutaNode) (p : Ptr) → IsThere h p → IsThere (upd h q f) p
upd-IsThere h q f p (n, e) = elim (Bool-cases (p == q)) [
  | inl hit ↦ (f n, rw (hit, e))
  | inr miss ↦ (n, rw (miss, e))
]

-- The states that `detach` goes through.
abbrev pub linked_back : DrutaNode → Store → Store
linked_back n s =
    if not (n.prev == null)
    then record s { nodes = upd s.nodes n.prev (with_next n.next) }
    else record s { tail = n.next }

abbrev pub linked_on : DrutaNode → Store → Store
linked_on n s =
    if not (n.next == null)
    then record s { nodes = upd s.nodes n.next (with_prev n.prev) }
    else record s { head = n.prev }

abbrev pub cleared : Ptr → Store → Store
cleared p s = record s { nodes = upd (upd s.nodes p (with_prev null)) p (with_next null) }

linked_back-ok :
    (n : DrutaNode) (s : Store)
    → ((n.prev == null) ≡ false → IsThere s.nodes n.prev)
    → (if not (n.prev == null)
          then modify n.prev (λ m. record m { next = n.next })
          else (λ t. ok (tt, record t { tail = n.next })))
        s
      ≡ ok (tt, linked_back n s)
linked_back-ok n s there = elim (Bool-cases (n.prev == null)) [
  | inl e ↦ rw e
  | inr e ↦ rw e (modify-ok n.prev (with_next n.next) s (there e).0 (there e).1)
]

linked_on-ok :
    (n : DrutaNode) (s : Store)
    → ((n.next == null) ≡ false → IsThere s.nodes n.next)
    → (if not (n.next == null)
          then modify n.next (λ m. record m { prev = n.prev })
          else (λ t. ok (tt, record t { head = n.prev })))
        s
      ≡ ok (tt, linked_on n s)
linked_on-ok n s there = elim (Bool-cases (n.next == null)) [
  | inl e ↦ rw e
  | inr e ↦ rw e (modify-ok n.next (with_prev n.prev) s (there e).0 (there e).1)
]

linked_back-IsThere :
    (n : DrutaNode) (s : Store) (p : Ptr) → IsThere s.nodes p → IsThere (linked_back n s).nodes p
linked_back-IsThere n s p t = elim (Bool-cases (n.prev == null)) [
  | inl e ↦ rw e t
  | inr e ↦ rw e (upd-IsThere s.nodes n.prev (with_next n.next) p t)
]

linked_on-IsThere :
    (n : DrutaNode) (s : Store) (p : Ptr) → IsThere s.nodes p → IsThere (linked_on n s).nodes p
linked_on-IsThere n s p t = elim (Bool-cases (n.next == null)) [
  | inl e ↦ rw e t
  | inr e ↦ rw e (upd-IsThere s.nodes n.next (with_prev n.prev) p t)
]

abbrev pub detached : Ptr → DrutaNode → Store → Store
detached p n s = cleared p (linked_on n (linked_back n s))

-- `detach` does not fault where the node and its neighbours are there.
pub detach-ok :
    (s : Store) (p : Ptr) (n : DrutaNode)
    → (p == null) ≡ false
    → s.nodes p ≡ some n
    → ((n.prev == null) ≡ false → IsThere s.nodes n.prev)
    → ((n.next == null) ≡ false → IsThere s.nodes n.next)
    → detach p s ≡ ok (tt, detached p n s)
unfolding detach
detach-ok s p n notnull e before_ after =
    let s1 = linked_back n s in
    let s2 = linked_on n s1 in
    let there = linked_on-IsThere n s1 p (linked_back-IsThere n s p (n, e)) in
    let again = upd-IsThere s2.nodes p (with_prev null) p there in
    rw
      (
        notnull,
        load-ok p s n e,
        linked_back-ok n s before_,
        linked_on-ok n s1 (λ x. linked_back-IsThere n s n.next (after x)),
        modify-ok p (with_prev null) s2 there.0 there.1,
      )
      (modify-ok p (with_next null) (record s2 { nodes = upd s2.nodes p (with_prev null) }) again.0
        again.1)
