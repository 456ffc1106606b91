-- ===== src/Lru/Touch.antt =====
-- `touch_lru` moves a node to the recent end of the list.
use druta_db.Prelude.{
  ◌≡◌, refl, ◌∙◌, inl, inr, true, false, List, [], ◌∷◌, ◌++◌, arith, ◌==◌, Bool-cases, snoc,
  append-nil, Returns,
}
use druta_db.Store.{Ptr, null, Store}
use druta_db.Lru.{touch_lru}
use druta_db.Lru.Chain.{
  Item, last_or, has, has-append, last_or-append, has-last, ne_of_not_has, not_has-append,
  not_has-cons,
}
use druta_db.Lru.Steps.{Links}
use druta_db.Lru.Detach.{SameAccount, detach-Detached, Links-Around}
use druta_db.Lru.Attach.{attach_head-Attached}

-- The state after the node of `i` has become the most recent one.
pub record Touched (s t : Store) (as_ : List Item) (i : Item) (bs : List Item) : Type 0 where
  pub links : Links t (snoc (as_ ++ bs) i)
  pub outside : (q : Ptr) → has q (as_ ++ (i ∷ bs)) ≡ false → t.nodes q ≡ s.nodes q
  pub account : SameAccount s t

SameAccount-refl : (s : Store) → SameAccount s s
SameAccount-refl s = record { kv_store = refl; fresh = refl; lru_size = refl; memory = refl }

SameAccount-trans : (s t u : Store) → SameAccount s t → SameAccount t u → SameAccount s u
SameAccount-trans s t u a b = record {
  kv_store = b.kv_store ∙ a.kv_store;
  fresh = b.fresh ∙ a.fresh;
  lru_size = b.lru_size ∙ a.lru_size;
  memory = b.memory ∙ a.memory;
}

-- A node that is already the most recent one has nothing behind it.
already-Touched :
    (s : Store) (as_ : List Item) (i : Item) (bs : List Item)
    → Links s (as_ ++ (i ∷ bs))
    → (i.at == s.head) ≡ true
    → Touched s s as_ i bs
already-Touched s as_ i [] l e = record {
  links = rw (append-nil as_) l;
  outside = λ q o. refl;
  account = SameAccount-refl s;
}
already-Touched s as_ i (c ∷ bs) l e =
    let r = Links-Around s as_ i (c ∷ bs) l in
    let last = l.head ∙ last_or-append null as_ (i ∷ (c ∷ bs)) in
    let miss = ne_of_not_has i.at (last_or c.at bs) (c ∷ bs) r.not_back (has-last c bs) in
    absurd (ground (arith, last, miss))

moved-Touched :
    (s : Store) (as_ : List Item) (i : Item) (bs : List Item)
    → Links s (as_ ++ (i ∷ bs))
    → (i.at == s.head) ≡ false
    → Returns (touch_lru i.at s) (λ r. Touched s r.1 as_ i bs)
unfolding touch_lru
moved-Touched s as_ i bs l e =
    let r = Links-Around s as_ i bs l in
    let (a, run, d) = detach-Detached s as_ i bs l in
    let out : has i.at (as_ ++ bs) ≡ false = rw (has-append i.at as_ bs, r.not_front) r.not_back in
    let (b, run', t) = attach_head-Attached a.1 (as_ ++ bs) i d.links d.node r.nonnull out in
    (
      b,
      rw (r.nonnull, e, run) run',
      record {
        links = t.links;
        outside = λ q o.
            let p = not_has-append q as_ (i ∷ bs) o in
            let m = not_has-cons q i bs p.1 in
            t.outside q (rw (has-append q (as_ ++ bs) (i ∷ []), has-append q as_ bs, p.0, m.1, m.0))
            ∙ d.outside q o;
        account = SameAccount-trans s a.1 b.1 d.account t.account;
      },
    )

-- `touch_lru` of a node of the list does not fault and makes it the most recent one; the others
-- keep their order, and no value and no counter changes.
pub touch_lru-Touched :
    (s : Store) (as_ : List Item) (i : Item) (bs : List Item)
    → Links s (as_ ++ (i ∷ bs))
    → Returns (touch_lru i.at s) (λ r. Touched s r.1 as_ i bs)
touch_lru-Touched s as_ i bs l = elim (Bool-cases (i.at == s.head)) [
  | inl e ↦ (
    (tt, s),
    unfold touch_lru in rw ((Links-Around s as_ i bs l).nonnull, e),
    already-Touched s as_ i bs l e,
  )
  | inr e ↦ moved-Touched s as_ i bs l e
]
