-- ===== src/Lru/Insert.antt =====
-- New entries and touched entries: what the database holds after `new_node` with `add_lru`, and
-- after `touch_lru`.
use druta_db.Prelude.{
  suc, ◌%◌, ◌^◌, ◌≤◌, ◌<◌, ◌≡◌, refl, sym, ap, ◌∙◌, inl, inr, false, none, some, List, [], ◌∷◌,
  ◌++◌, arith, ◌==◌, Bool-cases, length, length-append, Bytes, bytes_key, same, same_iff, snoc,
  add_size, add_size-eq, ok, Returns,
}
use druta_db.Value.{DrutaValue}
use druta_db.Store.{null, get_memory_usage, Store, new_node, write_node, write_key, ◌>>=◌}
use druta_db.Lru.{lru_max_memory, add_lru, attach_head, evict_until_safe}
use druta_db.Lru.Chain.{
  Item, node_of, has, has-append, frame, not_has-append, not_has-cons, ne_of_not_has, ==_comm,
  ==_refl,
}
use druta_db.Lru.Steps.{Links, load-ok}
use druta_db.Lru.Attach.{Attached, attach_head-Attached}
use druta_db.Lru.Touch.{Touched}
use druta_db.Lru.Holds.{
  not_has-moved, not_has-snoc, Shape, Holds, usage, total, ptr_of, ptr_of-append, HasDistinctKeys,
  HasDistinctKeys-split, total-append, total-remove, length-remove, get_memory_usage-usage,
}
use druta_db.Lru.Evict.{survivors, evict_until_safe-Holds}

HasDistinctKeys-snoc :
    (xs : List Item) (i : Item)
    → HasDistinctKeys xs
    → ptr_of xs i.key ≡ none
    → HasDistinctKeys (snoc xs i)
HasDistinctKeys-snoc [] i d e = (refl, tt)
HasDistinctKeys-snoc (x ∷ xs) i d e =
    let f = ptr_of-append xs (i ∷ []) x.key in
    (
      ground (arith, f, same_iff x.key i.key, same_iff i.key x.key),
      HasDistinctKeys-snoc xs i d.1 (ground arith),
    )

length_le_total : (xs : List Item) → length xs ≤ total xs
length_le_total [] = omega arith
length_le_total (x ∷ xs) = omega (arith, length_le_total xs)

ptr_of-moved :
    (as_ : List Item) (i : Item) (bs : List Item) (k : Bytes)
    → HasDistinctKeys (as_ ++ (i ∷ bs))
    → ptr_of (as_ ++ (i ∷ bs)) k ≡ ptr_of (snoc (as_ ++ bs) i) k
ptr_of-moved as_ i bs k d =
    let r = HasDistinctKeys-split as_ i bs d in
    let e = ptr_of-append as_ (i ∷ bs) k in
    let f = ptr_of-append (as_ ++ bs) (i ∷ []) k in
    let g = ptr_of-append as_ bs k in
    elim (Bool-cases (same k i.key)) [
      | inl hit ↦
          let q = (same_iff k i.key).0 hit in
          let absent_a : ptr_of as_ k ≡ none = rw q r.1 in
          let absent_b : ptr_of bs k ≡ none = rw q r.2 in
          e ∙ rw (absent_a, hit) (sym (f ∙ rw g (rw (absent_a, absent_b, hit))))
      | inr miss ↦ ground (arith, e, f, g)
    ]

-- A touched entry is the most recent one, and nothing else has changed.
pub Touched-Shape :
    (s t : Store) (as_ : List Item) (i : Item) (bs : List Item)
    → Shape s (as_ ++ (i ∷ bs))
    → Touched s t as_ i bs
    → Shape t (snoc (as_ ++ bs) i)
Touched-Shape s t as_ i bs h d =
    let r = HasDistinctKeys-split as_ i bs h.distinct_keys in
    let len = length-remove as_ i bs in
    let len' = length-append (as_ ++ bs) (i ∷ []) in
    let absent : ptr_of (as_ ++ bs) i.key ≡ none = ptr_of-append as_ bs i.key ∙ rw (r.1, r.2) in
    record {
      links = d.links;
      keys = λ k. rw d.account.kv_store (h.keys k ∙ ptr_of-moved as_ i bs k h.distinct_keys);
      distinct_keys = HasDistinctKeys-snoc (as_ ++ bs) i r.0 absent;
      counted = d.account.lru_size ∙ h.counted ∙ ap (λ n. n % 2 ^ 64) (omega (arith, len, len'));
      unused = λ p q.
          let o = not_has-append p as_ (i ∷ bs) (h.unused p (omega (arith, d.account.fresh))) in
          let m = not_has-cons p i bs o.1 in
          rw (has-append p (as_ ++ bs) (i ∷ []), has-append p as_ bs, o.0, m.1, m.0);
      fresh = rw d.account.fresh h.fresh;
      no_more = λ p q. let o = not_has-moved p as_ i bs q in d.outside p o ∙ h.no_more p o;
    }

pub Touched-Holds :
    (s t : Store) (as_ : List Item) (i : Item) (bs : List Item)
    → Holds s (as_ ++ (i ∷ bs))
    → Touched s t as_ i bs
    → Holds t (snoc (as_ ++ bs) i)
Touched-Holds s t as_ i bs h d =
    let sum = total-remove as_ i bs in
    let sum' = total-append (as_ ++ bs) (i ∷ []) in
    let len = length-remove as_ i bs in
    let len' = length-append (as_ ++ bs) (i ∷ []) in
    record {
      shape = Touched-Shape s t as_ i bs h.shape d;
      countable = omega (arith, h.countable);
      memory = omega (arith, d.account.memory, h.memory);
      fits = omega (arith, h.fits);
    }

-- The entry that `new_node` makes.
abbrev pub new_item : Store → Bytes → DrutaValue → Item
new_item s key value = record { at = s.fresh; key = key; value = value }

-- The states after `new_node` and after the charge of `add_lru`.
abbrev with_node : Store → Bytes → DrutaValue → Store
with_node s key value = record s {
  nodes = write_node s.nodes s.fresh (some (node_of (new_item s key value) null null));
  fresh = suc s.fresh;
  kv_store = write_key s.kv_store key (some s.fresh);
}

abbrev charged : Store → Bytes → DrutaValue → Store
charged s key value = record (with_node s key value) {
  current_memory_usage =
      add_size s.current_memory_usage (get_memory_usage (node_of (new_item s key value) null null));
}

-- `add_lru` of a new node, up to the eviction.
add_new-ok :
    (s : Store) (key : Bytes) (value : DrutaValue) (t : Store)
    → (s.fresh == null) ≡ false
    → attach_head s.fresh (charged s key value) ≡ ok (tt, t)
    → (new_node key value >>= add_lru) s
      ≡ evict_until_safe (record t { lru_size = add_size t.lru_size 1 })
unfolding new_node add_lru
add_new-ok s key value t e a =
    let n = node_of (new_item s key value) null null in
    rw (e, load-ok s.fresh (with_node s key value) n (rw (==_refl s.fresh)), a)

-- The state that `new_node` and `add_lru` reach before the eviction.
pub record Added (s : Store) (xs : List Item) (key : Bytes) (value : DrutaValue) : Type 0 where
  pub reached : Store
  pub run : (new_node key value >>= add_lru) s ≡ evict_until_safe reached
  pub shape : Shape reached (snoc xs (new_item s key value))
  pub memory :
      reached.current_memory_usage
      ≡ add_size s.current_memory_usage
          (get_memory_usage (node_of (new_item s key value) null null))

-- The new entry in its list, from the states before and after `attach_head`.
module _ (s : Store) (xs : List Item) (h : Shape s xs) (key : Bytes) (value : DrutaValue)
    (absent : s.kv_store key ≡ none) where
  abbrev pub entry : Item
  entry = new_item s key value

  pub not_in : has s.fresh xs ≡ false
  not_in = h.unused s.fresh (omega arith)

  fresh_present : (s.fresh == null) ≡ false
  fresh_present = let e = h.fresh in ground arith

  charged-Links : Links (charged s key value) xs
  charged-Links = record {
    seg =
        frame s.nodes (charged s key value).nodes null xs null
          (λ p m. rw (==_comm p s.fresh, ne_of_not_has s.fresh p xs not_in m)) h.links.seg;
    tail = h.links.tail;
    head = h.links.head;
    distinct = h.links.distinct;
    nonnull = h.links.nonnull;
  }

  Attached-Shape :
      (t : Store)
      → Attached (charged s key value) t xs entry
      → Shape (record t { lru_size = add_size t.lru_size 1 }) (snoc xs entry)
  unfolding add_size
  Attached-Shape t a =
      let unkeyed : ptr_of xs key ≡ none = sym (h.keys key) ∙ absent in
      let len = length-append xs (entry ∷ []) in
      record {
        links = record {
          seg = a.links.seg;
          tail = a.links.tail;
          head = a.links.head;
          distinct = a.links.distinct;
          nonnull = a.links.nonnull;
        };
        keys = λ k.
            rw (a.account.kv_store, ptr_of-append xs (entry ∷ []) k, h.keys k)
              (ground (arith, same_iff k key));
        distinct_keys = HasDistinctKeys-snoc xs entry h.distinct_keys unkeyed;
        counted = omega (arith, a.account.lru_size, h.counted);
        unused = λ p q.
            let o = h.unused p (omega (arith, a.account.fresh)) in
            let fr = a.account.fresh in rw (has-append p xs (entry ∷ []), o) (ground arith);
        fresh = rw a.account.fresh (omega arith);
        no_more =
            λ p q. let o = not_has-snoc p xs entry q in a.outside p q ∙ rw o.0 (h.no_more p o.1);
      }

  -- `new_node` and `add_lru` do not fault before the eviction.
  pub add_new-Added : Added s xs key value
  add_new-Added =
      let (a, run, t) =
        attach_head-Attached (charged s key value) xs entry charged-Links (rw (==_refl s.fresh))
          fresh_present not_in in
      record {
        reached = record a.1 { lru_size = add_size a.1.lru_size 1 };
        run = add_new-ok s key value a.1 fresh_present run;
        shape = Attached-Shape a.1 t;
        memory = t.account.memory;
      }

module _ (s : Store) (xs : List Item) (h : Holds s xs) (key : Bytes) (value : DrutaValue)
    (absent : s.kv_store key ≡ none) (fits : total (snoc xs (new_item s key value)) < 2 ^ 64) where
  abbrev new : Item
  new = new_item s key value

  Added-Holds : (a : Added s xs key value) → Holds a.reached (snoc xs new)
  Added-Holds a =
      let sum = total-append xs (new ∷ []) in
      let small = length_le_total (snoc xs new) in
      let charge = get_memory_usage-usage new null null (omega arith) in
      record {
        shape = a.shape;
        countable = omega arith;
        memory =
            a.memory
            ∙ ap (add_size s.current_memory_usage) charge
            ∙ add_size-eq s.current_memory_usage (usage new) (omega (arith, h.memory))
            ∙ omega (arith, h.memory);
        fits = fits;
      }

  -- A new node and `add_lru` do not fault. The entry becomes the most recent one, after which
  -- least recently used entries go until the account is within the limit.
  pub add_new-Holds :
      Returns
        ((new_node key value >>= add_lru) s)
        (λ r. Holds r.1 (survivors (snoc xs new)) × (r.1.current_memory_usage ≤ lru_max_memory))
  add_new-Holds =
      let a = add_new-Added s xs h.shape key value absent in
      let (b, run, d) = evict_until_safe-Holds a.reached (snoc xs new) (Added-Holds a) in
      (b, a.run ∙ run, d)
