-- ===== src/Lru/Remove.antt =====
-- `remove_from_lru` with `kv_store.erase`, as GET and DEL call them.
use druta_db.Prelude.{
  ◌^◌, ◌<◌, ◌≡◌, ap, ◌∙◌, false, some, none, List, ◌∷◌, ◌++◌, arith, ◌==◌, sub_size, ok, Returns,
}
use druta_db.Store.{
  Ptr, null, DrutaNode, get_memory_usage, Store, load, erase_key, write_node, write_key, ◌>>◌,
}
use druta_db.Lru.{remove_from_lru, detach}
use druta_db.Lru.Chain.{Item, node_of, first_or, last_or}
use druta_db.Lru.Steps.{load-ok}
use druta_db.Lru.Detach.{detach-Detached, Links-Around}
use druta_db.Lru.Holds.{
  Holds, usage, ptr_of_item, total-remove, Shape, destroyed, destroyed-Shape, destroyed-Holds,
  get_memory_usage-usage,
}
use druta_db.Lru.Evict.{with_memory-Links}

-- The two calls step by step.
remove-ok :
    (s : Store) (p : Ptr) (n : DrutaNode) (a : Unit {0} × Store)
    → (p == null) ≡ false
    → load p s ≡ ok (n, s)
    → detach p
        (record s { current_memory_usage = sub_size s.current_memory_usage (get_memory_usage n) })
      ≡ ok a
    → a.1.kv_store n.key ≡ some p
    → (remove_from_lru p >> erase_key n.key) s
      ≡ ok (
        tt,
        record a.1 {
          nodes = write_node a.1.nodes p none;
          kv_store = write_key a.1.kv_store n.key none;
          lru_size = sub_size a.1.lru_size 1;
        },
      )
unfolding remove_from_lru erase_key
remove-ok s p n a e l d k = rw (e, l, d, k)

-- What the removal owes: the entry `i` is gone, and the account is less what its node was charged.
pub record Removed (s t : Store) (as_ : List Item) (i : Item) (bs : List Item) : Type 0 where
  pub shape : Shape t (as_ ++ bs)
  pub memory :
      t.current_memory_usage
      ≡ sub_size s.current_memory_usage
          (get_memory_usage (node_of i (last_or null as_) (first_or null bs)))

pub remove_from_lru-Removed :
    (s : Store) (as_ : List Item) (i : Item) (bs : List Item)
    → Shape s (as_ ++ (i ∷ bs))
    → Returns ((remove_from_lru i.at >> erase_key i.key) s) (λ r. Removed s r.1 as_ i bs)
remove_from_lru-Removed s as_ i bs h =
    let r = Links-Around s as_ i bs h.links in
    let n = node_of i (last_or null as_) (first_or null bs) in
    let mem = sub_size s.current_memory_usage (get_memory_usage n) in
    let (a, run, d) =
      detach-Detached (record s { current_memory_usage = mem }) as_ i bs
        (with_memory-Links s (as_ ++ (i ∷ bs)) mem h.links) in
    let found : a.1.kv_store i.key ≡ some i.at =
      rw d.account.kv_store (h.keys i.key ∙ ptr_of_item as_ i bs h.distinct_keys) in
    let size = sub_size a.1.lru_size 1 in
    (
      (tt, destroyed a.1 i size a.1.current_memory_usage),
      remove-ok s i.at n a r.nonnull (load-ok i.at s n r.node) run found,
      record {
        shape =
            destroyed-Shape s a.1 as_ i bs size a.1.current_memory_usage h d.links
              d.account.kv_store d.account.fresh d.outside (rw d.account.lru_size);
        memory = d.account.memory;
      },
    )

-- Removing an entry, wherever it stands in the list, does not fault; its node is destroyed, and
-- the database is in order and holds the other entries.
pub remove_from_lru-Holds :
    (s : Store) (as_ : List Item) (i : Item) (bs : List Item)
    → Holds s (as_ ++ (i ∷ bs))
    → Returns ((remove_from_lru i.at >> erase_key i.key) s) (λ r. Holds r.1 (as_ ++ bs))
remove_from_lru-Holds s as_ i bs h =
    let (a, run, d) = remove_from_lru-Removed s as_ i bs h.shape in
    let small : usage i < 2 ^ 64 = omega (arith, h.fits, total-remove as_ i bs) in
    let charge = get_memory_usage-usage i (last_or null as_) (first_or null bs) small in
    (
      a,
      run,
      destroyed-Holds s a.1 as_ i bs h d.shape
          (d.memory ∙ ap (sub_size s.current_memory_usage) charge),
    )
