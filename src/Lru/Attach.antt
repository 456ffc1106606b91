-- ===== src/Lru/Attach.antt =====
-- `attach_head` puts a node at the recent end of the list, and `touch_lru` moves one there.
use druta_db.Prelude.{
  ◌≡◌, refl, sym, subst, true, false, some, List, [], ◌∷◌, arith, ◌==◌, snoc, ok, Returns,
}
use druta_db.Store.{Ptr, null, Store}
use druta_db.Lru.{attach_head}
use druta_db.Lru.Chain.{
  Item, node_of, last_or, has, Seg, upd, with_next, with_prev, ==_comm, has-append, last_or-append,
  has-last, join, frame-upd, Seg-with_next, ne_of_not_has, IsDistinct-join, not_has-append,
  not_has-cons, ==_refl,
}
use druta_db.Lru.Steps.{Links, IsThere, modify-ok, upd-IsThere}
use druta_db.Lru.Detach.{SameAccount, last-IsThere, last_nonnull}

-- The state after `attach_head` of the item `i` behind `xs`.
pub record Attached (s t : Store) (xs : List Item) (i : Item) : Type 0 where
  pub links : Links t (snoc xs i)
  pub outside : (q : Ptr) → has q (snoc xs i) ≡ false → t.nodes q ≡ s.nodes q
  pub account : SameAccount s t

null-single : (i : Item) → (i.at == null) ≡ false → has null (i ∷ []) ≡ false
null-single i e = rw (==_comm null i.at, e)

module _ (s : Store) (i : Item) (node : s.nodes i.at ≡ some (node_of i null null))
    (present : (i.at == null) ≡ false) where
  -- The list was empty.
  attach-empty : Links s [] → Returns (attach_head i.at s) (λ r. Attached s r.1 [] i)
  unfolding attach_head
  attach-empty l =
      let e : (s.head == null) ≡ true = ground (arith, l.head) in
      (
        (tt, record s { head = i.at; tail = i.at }),
        rw e,
        record {
          links = record {
            seg = (node, tt);
            tail = refl;
            head = refl;
            distinct = (refl, tt);
            nonnull = null-single i present;
          };
          outside = λ q o. refl;
          account = record { kv_store = refl; fresh = refl; lru_size = refl; memory = refl };
        },
      )

  abbrev linked : Store
  linked = record s {
    nodes = upd (upd s.nodes i.at (with_prev s.head)) s.head (with_next i.at);
    head = i.at;
  }

  module _ (a : Item) (xs : List Item) (l : Links s (a ∷ xs))
      (out : has i.at (a ∷ xs) ≡ false) where
    last-IsThere' : IsThere s.nodes (last_or a.at xs)
    last-IsThere' = last-IsThere s (a ∷ xs) null l.seg (last_nonnull a xs l.nonnull)

    attach-run : attach_head i.at s ≡ ok (tt, linked)
    unfolding attach_head
    attach-run =
        let e : (s.head == null) ≡ false = rw l.head (last_nonnull a xs l.nonnull) in
        let there : IsThere s.nodes s.head = rw l.head last-IsThere' in
        let later = upd-IsThere s.nodes i.at (with_prev s.head) s.head there in
        rw (e, modify-ok i.at (with_prev s.head) s (node_of i null null) node)
          (rw (
            modify-ok s.head (with_next i.at)
              (record s { nodes = upd s.nodes i.at (with_prev s.head) }) later.0 later.1))

    attach-Seg : Seg linked.nodes null (snoc (a ∷ xs) i) null
    attach-Seg =
        let last_ = last_or a.at xs in
        let h1 = upd s.nodes i.at (with_prev last_) in
        let front =
          Seg-with_next h1 null a xs null i.at l.distinct
            (frame-upd s.nodes i.at (with_prev last_) null (a ∷ xs) null out l.seg) in
        let miss = ne_of_not_has i.at last_ (a ∷ xs) out (has-last a xs) in
        subst
          (λ q.
            Seg (upd (upd s.nodes i.at (with_prev q)) q (with_next i.at)) null (snoc (a ∷ xs) i)
              null)
          (sym l.head)
          (join (upd h1 last_ (with_next i.at)) null (a ∷ xs) (i ∷ []) null front
            (rw (miss, node, ==_refl i.at), tt))

    attach-more : Returns (attach_head i.at s) (λ r. Attached s r.1 (a ∷ xs) i)
    attach-more = (
      (tt, linked),
      attach-run,
      record {
        links = record {
          seg = attach-Seg;
          tail = l.tail;
          head = sym (last_or-append null (a ∷ xs) (i ∷ []));
          distinct =
              IsDistinct-join (a ∷ xs) (i ∷ []) l.distinct (refl, tt)
                (λ p m. rw (==_comm p i.at, ne_of_not_has i.at p (a ∷ xs) out m));
          nonnull = rw (has-append null (a ∷ xs) (i ∷ []), l.nonnull) (null-single i present);
        };
        outside = λ q o.
            let p = not_has-append q (a ∷ xs) (i ∷ []) o in
            let far = ne_of_not_has q (last_or a.at xs) (a ∷ xs) p.0 (has-last a xs) in
            rw (l.head, far, (not_has-cons q i [] p.1).0);
        account = record { kv_store = refl; fresh = refl; lru_size = refl; memory = refl };
      },
    )

-- `attach_head` of a cleared node outside the list puts it behind the last one.
pub attach_head-Attached :
    (s : Store) (xs : List Item) (i : Item)
    → Links s xs
    → s.nodes i.at ≡ some (node_of i null null)
    → (i.at == null) ≡ false
    → has i.at xs ≡ false
    → Returns (attach_head i.at s) (λ r. Attached s r.1 xs i)
attach_head-Attached s [] i l node present out = attach-empty s i node present l
attach_head-Attached s (a ∷ xs) i l node present out = attach-more s i node present a xs l out
