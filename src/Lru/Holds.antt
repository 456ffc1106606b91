-- ===== src/Lru/Holds.antt =====
-- What the database holds: the entries from the least to the most recently used one, and the
-- invariant that ties the nodes, `kv_store` and the counters to them.
use druta_db.Prelude.{
  ◌==◌, snoc, ℕ, suc, ◌+◌, ◌%◌, ◌^◌, ◌≤◌, ◌<◌, ◌≡◌, refl, sym, ap, ◌∙◌, inl, inr, false, Option,
  none, some, List, [], ◌∷◌, ◌++◌, arith, if◌then◌else◌, Bool-cases, length, length-append, Bytes,
  bytes_key, same, same_iff, same_refl, sub_size, add_size-eq, sub_size-eq,
}
use druta_db.Text.Storage.{copy_capacity}
use druta_db.Store.{Ptr, null, sizeof_node, get_memory_usage, Store, write_node, write_key}
use druta_db.Lru.Chain.{
  Item, node_of, has, has-append, frame, not_has-append, not_has-cons, ne_of_not_has, ==_comm,
}
use druta_db.Lru.Steps.{Links}
use druta_db.Lru.Detach.{Links-Around}

-- The address of the entry with a key.
abbrev pub ptr_of : List Item → Bytes → Option Ptr
ptr_of [] k = none
ptr_of (i ∷ xs) k = if same k i.key then some i.at else ptr_of xs k

abbrev pub HasDistinctKeys : List Item → Type 0
HasDistinctKeys [] = Unit
HasDistinctKeys (i ∷ xs) = (ptr_of xs i.key ≡ none) × HasDistinctKeys xs

-- What one entry is charged, and all of them.
abbrev pub usage : Item → ℕ
usage i = sizeof_node + copy_capacity i.key + i.value.memory_usage

abbrev pub total : List Item → ℕ
total [] = 0
total (i ∷ xs) = usage i + total xs

-- The nodes, the index and the list agree: they are those of the entries `xs`, the least recently
-- used one first. The counter is a `size_t`.
pub record Shape (s : Store) (xs : List Item) : Type 0 where
  pub links : Links s xs
  pub keys : (k : Bytes) → s.kv_store k ≡ ptr_of xs k
  pub distinct_keys : HasDistinctKeys xs
  pub counted : s.lru_size ≡ length xs % 2 ^ 64
  pub unused : (p : Ptr) → s.fresh ≤ p → has p xs ≡ false
  pub fresh : 1 ≤ s.fresh
  pub no_more : (p : Ptr) → has p xs ≡ false → s.nodes p ≡ none

-- The database is in order and holds exactly the entries `xs`: also the account is exact.
pub record Holds (s : Store) (xs : List Item) : Type 0 where
  pub shape : Shape s xs
  pub countable : length xs < 2 ^ 64
  pub memory : s.current_memory_usage ≡ total xs
  pub fits : total xs < 2 ^ 64

pub Holds-counted : {s : Store} {xs : List Item} → Holds s xs → s.lru_size ≡ length xs
Holds-counted h = omega (arith, h.shape.counted, h.countable)

pub total-append : (xs ys : List Item) → total (xs ++ ys) ≡ total xs + total ys
total-append [] ys = omega arith
total-append (x ∷ xs) ys = omega (arith, total-append xs ys)

pub ptr_of-append :
    (xs ys : List Item) (k : Bytes)
    → ptr_of (xs ++ ys) k ≡ (elim (ptr_of xs k) [ none ↦ ptr_of ys k | some p ↦ some p ])
ptr_of-append [] ys k = refl
ptr_of-append (x ∷ xs) ys k = ground (arith, ptr_of-append xs ys k)

pub HasDistinctKeys-split :
    (as_ : List Item) (i : Item) (bs : List Item)
    → HasDistinctKeys (as_ ++ (i ∷ bs))
    → HasDistinctKeys (as_ ++ bs) × (ptr_of as_ i.key ≡ none) × (ptr_of bs i.key ≡ none)
HasDistinctKeys-split [] i bs d = (d.1, refl, d.0)
HasDistinctKeys-split (a ∷ as_) i bs d =
    let r = HasDistinctKeys-split as_ i bs d.1 in
    let e = ptr_of-append as_ (i ∷ bs) a.key in
    let f = ptr_of-append as_ bs a.key in
    (
      (ground (arith, e, f), r.0),
      ground (arith, e, same_iff a.key i.key, same_iff i.key a.key),
      r.2,
    )

-- The index without one entry.
pub ptr_of-remove :
    (as_ : List Item) (i : Item) (bs : List Item) (k : Bytes)
    → HasDistinctKeys (as_ ++ (i ∷ bs))
    → write_key (ptr_of (as_ ++ (i ∷ bs))) i.key none k ≡ ptr_of (as_ ++ bs) k
ptr_of-remove as_ i bs k d =
    let r = HasDistinctKeys-split as_ i bs d in
    let e = ptr_of-append as_ (i ∷ bs) k in
    let f = ptr_of-append as_ bs k in
    elim (Bool-cases (same k i.key)) [
      | inl hit ↦
          let q = (same_iff k i.key).0 hit in
          let absent_a : ptr_of as_ k ≡ none = rw q r.1 in
          let absent_b : ptr_of bs k ≡ none = rw q r.2 in rw hit (sym (f ∙ rw absent_a absent_b))
      | inr miss ↦ ground (arith, e, f)
    ]

-- The entry with its key.
pub ptr_of_item :
    (as_ : List Item) (i : Item) (bs : List Item)
    → HasDistinctKeys (as_ ++ (i ∷ bs))
    → ptr_of (as_ ++ (i ∷ bs)) i.key ≡ some i.at
ptr_of_item as_ i bs d =
    let r = HasDistinctKeys-split as_ i bs d in
    ptr_of-append as_ (i ∷ bs) i.key ∙ rw (r.1, same_refl i.key)

pub total-remove :
    (as_ : List Item) (i : Item) (bs : List Item)
    → total (as_ ++ (i ∷ bs)) ≡ usage i + total (as_ ++ bs)
total-remove as_ i bs = omega (arith, total-append as_ (i ∷ bs), total-append as_ bs)

pub length-remove :
    (as_ : List Item) (i : Item) (bs : List Item)
    → length (as_ ++ (i ∷ bs)) ≡ suc (length (as_ ++ bs))
length-remove as_ i bs = omega (arith, length-append as_ (i ∷ bs), length-append as_ bs)

-- What a node of the list is charged by the code.
pub get_memory_usage-usage :
    (i : Item) (pv nx : Ptr) → usage i < 2 ^ 64 → get_memory_usage (node_of i pv nx) ≡ usage i
unfolding get_memory_usage
get_memory_usage-usage i pv nx h =
    add_size-eq (sizeof_node + copy_capacity i.key) i.value.memory_usage h

-- The state when the entry `i` has been taken out and its node destroyed.
abbrev pub destroyed : Store → Item → ℕ → ℕ → Store
destroyed t i size memory = record t {
  nodes = write_node t.nodes i.at none;
  kv_store = write_key t.kv_store i.key none;
  lru_size = size;
  current_memory_usage = memory;
}

-- An address that is neither the item's nor among the others is not in the list.
pub has_others :
    (p : Ptr) (as_ : List Item) (i : Item) (bs : List Item)
    → (p == i.at) ≡ false
    → has p (as_ ++ bs) ≡ false
    → has p (as_ ++ (i ∷ bs)) ≡ false
has_others p as_ i bs n q = ground (arith, has-append p as_ bs, has-append p as_ (i ∷ bs))

pub not_has-moved :
    (p : Ptr) (as_ : List Item) (i : Item) (bs : List Item)
    → has p (snoc (as_ ++ bs) i) ≡ false
    → has p (as_ ++ (i ∷ bs)) ≡ false
not_has-moved p as_ i bs q =
    ground
      (arith, has-append p (as_ ++ bs) (i ∷ []), has-append p as_ bs, has-append p as_ (i ∷ bs))

pub not_has-snoc :
    (p : Ptr) (xs : List Item) (i : Item)
    → has p (snoc xs i) ≡ false
    → ((p == i.at) ≡ false) × (has p xs ≡ false)
not_has-snoc p xs i q = ground (arith, has-append p xs (i ∷ []))

pub destroyed-Shape :
    (s t : Store) (as_ : List Item) (i : Item) (bs : List Item) (size memory : ℕ)
    → Shape s (as_ ++ (i ∷ bs))
    → Links t (as_ ++ bs)
    → t.kv_store ≡ s.kv_store
    → t.fresh ≡ s.fresh
    → ((p : Ptr) → has p (as_ ++ (i ∷ bs)) ≡ false → t.nodes p ≡ s.nodes p)
    → size ≡ sub_size s.lru_size 1
    → Shape (destroyed t i size memory) (as_ ++ bs)
unfolding sub_size
destroyed-Shape s t as_ i bs size memory h l kv fr alike sz =
    let r = Links-Around s as_ i bs h.links in
    let out : has i.at (as_ ++ bs) ≡ false = rw (has-append i.at as_ bs, r.not_front) r.not_back in
    let shorter = length-remove as_ i bs in
    record {
      links = record {
        seg =
            frame t.nodes (write_node t.nodes i.at none) null (as_ ++ bs) null
              (λ p m. rw (==_comm p i.at, ne_of_not_has i.at p (as_ ++ bs) out m)) l.seg;
        tail = l.tail;
        head = l.head;
        distinct = l.distinct;
        nonnull = l.nonnull;
      };
      keys = λ k. rw kv (
          ap (λ o. if same k i.key then none else o) (h.keys k)
          ∙ ptr_of-remove as_ i bs k h.distinct_keys);
      distinct_keys = (HasDistinctKeys-split as_ i bs h.distinct_keys).0;
      counted = sz ∙ omega (arith, h.counted);
      unused = λ p q.
          let o = not_has-append p as_ (i ∷ bs) (h.unused p (omega (arith, fr))) in
          rw (has-append p as_ bs, o.0) (not_has-cons p i bs o.1).1;
      fresh = rw fr h.fresh;
      no_more = λ p q. elim (Bool-cases (p == i.at)) [
        | inl e ↦ rw e
        | inr n ↦ rw n (let o = has_others p as_ i bs n q in alike p o ∙ h.no_more p o)
      ];
    }

-- The account of the entries without one.
pub destroyed-Holds :
    (s t : Store) (as_ : List Item) (i : Item) (bs : List Item)
    → Holds s (as_ ++ (i ∷ bs))
    → Shape t (as_ ++ bs)
    → t.current_memory_usage ≡ sub_size s.current_memory_usage (usage i)
    → Holds t (as_ ++ bs)
destroyed-Holds s t as_ i bs h d mem =
    let shorter = length-remove as_ i bs in
    let less = total-remove as_ i bs in
    record {
      shape = d;
      countable = omega (arith, h.countable);
      memory =
          mem
          ∙ sub_size-eq s.current_memory_usage (usage i) (omega (arith, h.memory, h.fits))
              (omega (arith, h.memory))
          ∙ omega (arith, h.memory);
      fits = omega (arith, h.fits);
    }
