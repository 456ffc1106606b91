-- ===== src/Lru/Consistent.antt =====
-- What holds of the database between two commands, whatever they were: the nodes, the index and the
-- list agree, and every value is sound. The account may be off, since a hash's account may.
pub mod Calls
pub mod Answers
pub mod Unique
use druta_db.Prelude.{
  ℕ, zero, suc, ◌%◌, ◌^◌, ◌≡◌, refl, sym, ap, subst, ◌∙◌, inl, inr, Bool, true, false, ◌||◌, none,
  some, List, [], ◌∷◌, ◌++◌, arith, ◌==◌, ==_iff, if◌then◌else◌, Bool-cases, All, Bytes, bytes_key,
  snoc, Result, ok, fault, dangling, Leaves,
}
use druta_db.Value.{DrutaValue}
use druta_db.Value.Sound.{IsSound}
use druta_db.Store.{Ptr, null, DrutaNode, Store, Cmd, and_then, load, modify}
use druta_db.Lru.Chain.{Item, node_of, first_or, last_or, has, upd}
use druta_db.Lru.Steps.{load-ok, load-dangling, modify-ok, modify-dangling}
use druta_db.Lru.Detach.{Links-Around}
use druta_db.Lru.Holds.{Shape}
use druta_db.Lru.Evict.{with_memory-Links}
use druta_db.Lru.Change.{with_value, changed-Shape}

abbrev pub IsSoundValue : DrutaValue → Type 0
IsSoundValue v = IsSound v.data_ v.expiry_time

abbrev pub AreSound : List Item → Type 0
AreSound = All (λ i. IsSoundValue i.value)

pub record Consistent (s : Store) : Type 0 where
  pub items : List Item
  pub shape : Shape s items
  pub sound : AreSound items

-- The command leaves a consistent state, if it ends normally.
abbrev pub Stays : {A : Type 0} → Result (A × Store) → Type 0
Stays r = Leaves (λ a. Consistent a.1) r

abbrev pub Keeps : {A : Type 0} → Cmd A → Type 0
Keeps c = (s : Store) → Consistent s → Stays (c s)

pub then-Stays :
    {A B : Type 0} (r : Result (A × Store)) (k : A → Cmd B)
    → Stays r
    → ((a : A) → Keeps (k a))
    → Stays (and_then r k)
then-Stays (ok (a, s)) k h c = c a s h
then-Stays (fault e) k h c = tt

pub AreSound-split :
    (as_ : List Item) (i : Item) (bs : List Item)
    → AreSound (as_ ++ (i ∷ bs))
    → AreSound (as_ ++ bs) × IsSoundValue i.value
AreSound-split [] i bs h = (h.1, h.0)
AreSound-split (a ∷ as_) i bs h = let r = AreSound-split as_ i bs h.1 in ((h.0, r.0), r.1)

pub AreSound-join :
    (as_ : List Item) (i : Item) (bs : List Item)
    → AreSound (as_ ++ bs)
    → IsSoundValue i.value
    → AreSound (as_ ++ (i ∷ bs))
AreSound-join [] i bs h v = (v, h)
AreSound-join (a ∷ as_) i bs h v = (h.0, AreSound-join as_ i bs h.1 v)

pub AreSound-snoc :
    (xs : List Item) (i : Item) → AreSound xs → IsSoundValue i.value → AreSound (snoc xs i)
AreSound-snoc [] i h v = (v, tt)
AreSound-snoc (x ∷ xs) i h v = (h.0, AreSound-snoc xs i h.1 v)

-- Where the entry at an address stands in the list.
pub record Split (xs : List Item) (p : Ptr) : Type 0 where
  pub front : List Item
  pub item : Item
  pub back : List Item
  pub whole : xs ≡ front ++ (item ∷ back)
  pub address : p ≡ item.at

pub has-Split : (p : Ptr) (xs : List Item) → has p xs ≡ true → Split xs p
has-Split p [] e = absurd (ground arith)
has-Split p (x ∷ xs) e = elim (Bool-cases (p == x.at)) [
  | inl hit ↦ record {
    front = [];
    item = x;
    back = xs;
    whole = refl;
    address = (==_iff p x.at).0 hit;
  }
  | inr miss ↦
      let r = has-Split p xs (ground arith) in
      record {
        front = x ∷ r.front;
        item = r.item;
        back = r.back;
        whole = ap (λ l. x ∷ l) r.whole;
        address = r.address;
      }
]

-- An address has no node, or is that of an entry.
pub data Lookup (s : Store) (xs : List Item) (p : Ptr) : Type 0 where
  dead : s.nodes p ≡ none → has p xs ≡ false → Lookup s xs p
  alive : Split xs p → Lookup s xs p

pub Lookup-Shape : (s : Store) (xs : List Item) (p : Ptr) → Shape s xs → Lookup s xs p
Lookup-Shape s xs p h = elim (Bool-cases (has p xs)) [
  | inl e ↦ alive (has-Split p xs e)
  | inr n ↦ dead (h.no_more p n) n
]

-- A statement about any consistent state and any entry of it, at its place.
pub at_entry :
    (P : Store → Ptr → Type 0)
    → ((s : Store) (as_ : List Item) (i : Item) (bs : List Item)
        → Shape s (as_ ++ (i ∷ bs))
        → AreSound (as_ ++ (i ∷ bs))
        → P s i.at)
    → ((s : Store) (xs : List Item) (p : Ptr)
        → Shape s xs
        → s.nodes p ≡ none
        → has p xs ≡ false
        → P s p)
    → (s : Store) (p : Ptr) → Consistent s
    → P s p
at_entry P live gone s p c = elim (Lookup-Shape s c.items p c.shape) [
  | dead e n ↦ gone s c.items p c.shape e n
  | alive r ↦ subst (P s) (sym r.address) (
      live s r.front r.item r.back (subst (Shape s) r.whole c.shape)
        (subst AreSound r.whole c.sound))
]

-- `load` faults, or gives a node with a sound value.
pub load-Keeps :
    {B : Type 0} (p : Ptr) (k : DrutaNode → Cmd B)
    → ((n : DrutaNode) → IsSoundValue n.value → Keeps (k n))
    → Keeps (λ s. and_then (load p s) k)
load-Keeps p k later s c =
    at_entry (λ s p. Consistent s → Stays (and_then (load p s) k))
      (λ s as_ i bs h v c.
        let n = node_of i (last_or null as_) (first_or null bs) in
        rw (load-ok i.at s n (Links-Around s as_ i bs h.links).node)
          (later n (AreSound-split as_ i bs v).1 s c))
      (λ s xs p h e n c. rw (load-dangling p s e) tt) s p c c

-- A write that changes nothing but the value of a node.
pub modify-Keeps :
    (p : Ptr) (f : DrutaNode → DrutaNode) (g : DrutaValue → DrutaValue)
    → ((n : DrutaNode) → f n ≡ record n { value = g n.value })
    → ((v : DrutaValue) → IsSoundValue v → IsSoundValue (g v))
    → Keeps (modify p f)
modify-Keeps p f g sets keeps s c =
    at_entry (λ s p. Stays (modify p f s))
      (λ s as_ i bs h v.
        let n = node_of i (last_or null as_) (first_or null bs) in
        let parts = AreSound-split as_ i bs v in
        rw (modify-ok i.at f s n (Links-Around s as_ i bs h.links).node) (record {
          items = as_ ++ (with_value i (g i.value) ∷ bs);
          shape =
              changed-Shape s as_ i bs h (g i.value) f (λ pv nx. sets (node_of i pv nx))
                s.current_memory_usage;
          sound = AreSound-join as_ (with_value i (g i.value)) bs parts.0 (keeps i.value parts.1);
        }))
      (λ s xs p h e n. rw (modify-dangling p f s e) tt) s p c

-- The account is no part of it.
pub with_memory-Consistent :
    (s : Store) (m : ℕ) → Consistent s → Consistent (record s { current_memory_usage = m })
with_memory-Consistent s m c = record {
  items = c.items;
  shape = record {
    links = with_memory-Links s c.items m c.shape.links;
    keys = c.shape.keys;
    distinct_keys = c.shape.distinct_keys;
    counted = c.shape.counted;
    unused = c.shape.unused;
    fresh = c.shape.fresh;
    no_more = c.shape.no_more;
  };
  sound = c.sound;
}
