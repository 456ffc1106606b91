-- ===== src/Lru/Evict.antt =====
-- Removal and eviction: the memory limit against the entries that are held.
use druta_db.Prelude.{
  ℕ, zero, suc, ◌≤◌, ◌<◌, ◌≡◌, refl, sym, ap, subst, ◌∙◌, inl, inr, true, false, ◌&&◌, not, none,
  some, List, [], ◌∷◌, arith, ltb, ◌==◌, if◌then◌else◌, Bool-cases, length, bytes_key, sub_size, ok,
  Returns, not-ltb→le,
}
use druta_db.Store.{
  Ptr, null, DrutaNode, get_memory_usage, Store, load, erase_key, and_then, pure, write_node,
  write_key,
}
use druta_db.Lru.{lru_max_memory, evict_lru, evict_loop, evict_until_safe, detach}
use druta_db.Lru.Chain.{Item, node_of, first_or}
use druta_db.Lru.Steps.{Links, load-ok}
use druta_db.Lru.Detach.{detach-Detached, Links-Around}
use druta_db.Lru.Holds.{
  Holds, total, ptr_of_item, destroyed, destroyed-Shape, destroyed-Holds, Shape, Holds-counted,
  get_memory_usage-usage,
}

-- The links do not depend on the account.
pub with_memory-Links :
    (s : Store) (xs : List Item) (m : ℕ)
    → Links s xs
    → Links (record s { current_memory_usage = m }) xs
with_memory-Links s xs m l = record {
  seg = l.seg;
  tail = l.tail;
  head = l.head;
  distinct = l.distinct;
  nonnull = l.nonnull;
}

-- `evict_lru` step by step, for a list whose ends are known.
evict_lru-ok :
    (s : Store) (n : DrutaNode) (a : Unit {0} × Store)
    → (s.tail == null) ≡ false
    → load s.tail s ≡ ok (n, s)
    → detach s.tail
        (record s { current_memory_usage = sub_size s.current_memory_usage (get_memory_usage n) })
      ≡ ok a
    → a.1.kv_store n.key ≡ some s.tail
    → evict_lru s
      ≡ ok (
        tt,
        record a.1 {
          nodes = write_node a.1.nodes s.tail none;
          kv_store = write_key a.1.kv_store n.key none;
          lru_size = sub_size a.1.lru_size 1;
        },
      )
unfolding evict_lru erase_key
evict_lru-ok s n a e l d k = rw (e, l, d, k)

evict-run :
    (s : Store) (p : Ptr) (n : DrutaNode) (a : Unit {0} × Store)
    → s.tail ≡ p
    → (p == null) ≡ false
    → load p s ≡ ok (n, s)
    → detach p
        (record s { current_memory_usage = sub_size s.current_memory_usage (get_memory_usage n) })
      ≡ ok a
    → a.1.kv_store n.key ≡ some p
    → evict_lru s
      ≡ ok (
        tt,
        record a.1 {
          nodes = write_node a.1.nodes p none;
          kv_store = write_key a.1.kv_store n.key none;
          lru_size = sub_size a.1.lru_size 1;
        },
      )
evict-run s p n a t =
    subst
      (λ q.
        (q == null) ≡ false
        → load q s ≡ ok (n, s)
        → detach q (record s {
          current_memory_usage = sub_size s.current_memory_usage (get_memory_usage n);
        })
          ≡ ok a
        → a.1.kv_store n.key ≡ some q
        → evict_lru s
          ≡ ok (
            tt,
            record a.1 {
              nodes = write_node a.1.nodes q none;
              kv_store = write_key a.1.kv_store n.key none;
              lru_size = sub_size a.1.lru_size 1;
            },
          ))
      t (evict_lru-ok s n a)

-- What `evict_lru` owes: the entry `i` is gone, and the account is less what its node was charged.
pub record Evicted (s t : Store) (i : Item) (xs : List Item) : Type 0 where
  pub shape : Shape t xs
  pub memory :
      t.current_memory_usage
      ≡ sub_size s.current_memory_usage (get_memory_usage (node_of i null (first_or null xs)))

pub evict_lru-Evicted :
    (s : Store) (i : Item) (xs : List Item)
    → Shape s (i ∷ xs)
    → Returns (evict_lru s) (λ r. Evicted s r.1 i xs)
evict_lru-Evicted s i xs h =
    let r = Links-Around s [] i xs h.links in
    let n = node_of i null (first_or null xs) in
    let mem = sub_size s.current_memory_usage (get_memory_usage n) in
    let s1 = record s { current_memory_usage = mem } in
    let (a, run, d) = detach-Detached s1 [] i xs (with_memory-Links s (i ∷ xs) mem h.links) in
    let found : a.1.kv_store i.key ≡ some i.at =
      rw d.account.kv_store (h.keys i.key ∙ ptr_of_item [] i xs h.distinct_keys) in
    let size = sub_size a.1.lru_size 1 in
    (
      (tt, destroyed a.1 i size a.1.current_memory_usage),
      evict-run s i.at n a h.links.tail r.nonnull (load-ok i.at s n r.node) run found,
      record {
        shape =
            destroyed-Shape s a.1 [] i xs size a.1.current_memory_usage h d.links d.account.kv_store
              d.account.fresh d.outside (rw d.account.lru_size);
        memory = d.account.memory;
      },
    )

-- `evict_lru` does not fault: it takes out the least recently used entry and destroys its node,
-- and leaves a database in order that holds the other entries.
pub evict_lru-Holds :
    (s : Store) (i : Item) (xs : List Item)
    → Holds s (i ∷ xs)
    → Returns (evict_lru s) (λ r. Holds r.1 xs)
evict_lru-Holds s i xs h =
    let (a, run, e) = evict_lru-Evicted s i xs h.shape in
    let charged = get_memory_usage-usage i null (first_or null xs) (omega (arith, h.fits)) in
    (
      a,
      run,
      destroyed-Holds s a.1 [] i xs h e.shape
          (e.memory ∙ ap (sub_size s.current_memory_usage) charged),
    )

-- What is left when least recently used entries go while the limit is exceeded.
unfoldable pub survivors : List Item → List Item
survivors [] = []
survivors (i ∷ xs) =
    let rest = survivors xs in if ltb lru_max_memory (total (i ∷ xs)) then rest else i ∷ xs

survivors-total : (xs : List Item) → total (survivors xs) ≤ lru_max_memory
unfolding survivors
survivors-total [] = omega arith
survivors-total (i ∷ xs) =
    ground (arith, survivors-total xs, not-ltb→le lru_max_memory (total (i ∷ xs)))

pub survivors_go :
    (i : Item) (xs : List Item)
    → ltb lru_max_memory (total (i ∷ xs)) ≡ true
    → survivors (i ∷ xs) ≡ survivors xs
unfolding survivors
survivors_go i xs e = rw e

pub survivors_stop :
    (i : Item) (xs : List Item)
    → ltb lru_max_memory (total (i ∷ xs)) ≡ false
    → survivors (i ∷ xs) ≡ i ∷ xs
unfolding survivors
survivors_stop i xs e = rw e

over_limit :
    (s : Store) (i : Item) (xs : List Item)
    → Holds s (i ∷ xs)
    → (ltb lru_max_memory s.current_memory_usage && not (s.tail == null))
      ≡ ltb lru_max_memory (total (i ∷ xs))
over_limit s i xs h =
    let e : (s.tail == null) ≡ false =
      subst (λ q. (q == null) ≡ false) (sym h.shape.links.tail)
        (Links-Around s [] i xs h.shape.links).nonnull in
    rw (e, h.memory) (ground arith)

loop_stop :
    (fuel : ℕ) (s : Store)
    → (ltb lru_max_memory s.current_memory_usage && not (s.tail == null)) ≡ false
    → evict_loop (suc fuel) s ≡ ok (tt, s)
unfolding evict_loop
loop_stop fuel s e =
    subst
      (λ c.
        (elim c [ true ↦ and_then (evict_lru s) (λ _. evict_loop fuel) | false ↦ pure tt s ])
        ≡ ok (tt, s))
      (sym e) refl

loop_go :
    (fuel : ℕ) (s t : Store)
    → (ltb lru_max_memory s.current_memory_usage && not (s.tail == null)) ≡ true
    → evict_lru s ≡ ok (tt, t)
    → evict_loop (suc fuel) s ≡ evict_loop fuel t
unfolding evict_loop
loop_go fuel s t e r =
    subst
      (λ c.
        (elim c [ true ↦ and_then (evict_lru s) (λ _. evict_loop fuel) | false ↦ pure tt s ])
        ≡ evict_loop fuel t)
      (sym e) (rw r)

evict_loop-Holds :
    (fuel : ℕ) (s : Store) (xs : List Item)
    → Holds s xs
    → length xs < fuel
    → Returns (evict_loop fuel s) (λ r. Holds r.1 (survivors xs))
evict_loop-Holds zero s xs h f = absurd (omega arith)
evict_loop-Holds (suc fuel) s [] h f =
    let e : (s.tail == null) ≡ true =
      subst (λ q. (q == null) ≡ true) (sym h.shape.links.tail) refl in
    ((tt, s), loop_stop fuel s (rw e (ground arith)), unfold survivors in h)
evict_loop-Holds (suc fuel) s (i ∷ xs) h f =
    elim (Bool-cases (ltb lru_max_memory (total (i ∷ xs)))) [
      | inl large ↦
          let (a, run, h') = evict_lru-Holds s i xs h in
          let (b, run', h'') = evict_loop-Holds fuel a.1 xs h' (omega arith) in
          (
            b,
            loop_go fuel s a.1 (over_limit s i xs h ∙ large) run ∙ run',
            rw (survivors_go i xs large) h'',
          )
      | inr small ↦ (
        (tt, s),
        loop_stop fuel s (over_limit s i xs h ∙ small),
        rw (survivors_stop i xs small) h,
      )
    ]

-- The eviction loop of `add_lru` and `notify_memory_change` ends without a fault. It removes
-- entries from the least recently used one on, no more than needed, and then the account, which is
-- exactly what the remaining entries are charged, is within the limit.
pub evict_until_safe-Holds :
    (s : Store) (xs : List Item)
    → Holds s xs
    → Returns
        (evict_until_safe s)
        (λ r. Holds r.1 (survivors xs) × (r.1.current_memory_usage ≤ lru_max_memory))
unfolding evict_until_safe
evict_until_safe-Holds s xs h =
    let (a, run, h') = evict_loop-Holds (suc s.lru_size) s xs h (omega (arith, Holds-counted h)) in
    (a, run, (h', omega (arith, h'.memory, survivors-total xs)))
