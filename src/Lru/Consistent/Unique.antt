-- ===== src/Lru/Consistent/Unique.antt =====
-- The entries of a database are determined by its nodes.
use druta_db.Prelude.{
  ◌≡◌, refl, sym, ap, subst, ◌∙◌, false, none, some, List, [], ◌∷◌, arith, Option,
}
use druta_db.Store.{Ptr, null, DrutaNode, Store}
use druta_db.Lru.Chain.{Heap, Item, node_of, first_or, has, Seg, not_has-cons}
use druta_db.Lru.Holds.{Shape}

-- What a node says of its entry and of its successor.
abbrev item_of : Ptr → Option DrutaNode → Item → Item
item_of p none i = i
item_of p (some n) i = record { at = p; key = n.key; value = n.value }

abbrev next_of : Option DrutaNode → Ptr
next_of none = null
next_of (some n) = n.next

same_entries :
    (h : Heap) (pv : Ptr) (xs ys : List Item)
    → Seg h pv xs null
    → Seg h pv ys null
    → has null xs ≡ false
    → has null ys ≡ false
    → first_or null xs ≡ first_or null ys
    → xs ≡ ys
same_entries h pv [] [] g k n m e = refl
same_entries h pv [] (y ∷ ys) g k n m e =
    let o = not_has-cons null y ys m in absurd (ground (arith, o.0, e))
same_entries h pv (x ∷ xs) [] g k n m e =
    let o = not_has-cons null x xs n in absurd (ground (arith, o.0, e))
same_entries h pv (x ∷ xs) (y ∷ ys) g k n m e =
    let node : some (node_of x pv (first_or null xs)) ≡ some (node_of y pv (first_or null ys)) =
      sym g.0 ∙ ap h e ∙ k.0 in
    let item : x ≡ y =
      ap (λ o. item_of x.at o x) node ∙ ap (λ p. item_of p (some (node_of y pv null)) y) e in
    let rest =
      same_entries h x.at xs ys g.1 (subst (λ p. Seg h p ys null) (sym e) k.1)
        (not_has-cons null x xs n).1 (not_has-cons null y ys m).1 (ap next_of node) in
    ap (λ z. z ∷ xs) item ∙ ap (λ l. y ∷ l) rest

-- Two lists of entries that agree with the same nodes, index and list are the same.
pub Shape-unique : (s : Store) (xs ys : List Item) → Shape s xs → Shape s ys → xs ≡ ys
Shape-unique s xs ys h k =
    same_entries s.nodes null xs ys h.links.seg k.links.seg h.links.nonnull k.links.nonnull
      (sym h.links.tail ∙ k.links.tail)
