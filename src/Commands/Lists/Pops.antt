-- ===== src/Commands/Lists/Pops.antt =====
-- LPOP and RPOP: the loop over the count.
use druta_db.Prelude.{
  ℕ, suc, ◌^◌, ◌<◌, ◌≡◌, refl, sym, subst, ◌∙◌, Bool, some, List, [], ◌∷◌, ◌++◌, arith, length,
  Bytes, ℤ, negsuc, min_ℤ, int_of_size, int_of_size-pos, ok, fault, out_of_range,
}
use druta_db.Text.{stoi}
use druta_db.Value.{list}
use druta_db.Store.{Ptr, null, DrutaNode, Store, load}
use druta_db.Lru.{touch_lru}
use druta_db.Lru.Chain.{Item, node_of, first_or, last_or}
use druta_db.Lru.Steps.{load-ok}
use druta_db.Lru.Detach.{Links-Around}
use druta_db.Lru.Touch.{touch_lru-Touched}
use druta_db.Lru.Holds.{Holds, ptr_of_item}
use druta_db.Commands.Lists.{pop_loop, pop_data, generic_pop}

pop_loop-negative :
    (l : List Bytes) (n : ℕ) (res : Bytes) (delta : ℕ)
    → pop_loop l (negsuc n) res delta ≡ fault out_of_range
unfolding pop_loop
pop_loop-negative [] n res delta = refl
pop_loop-negative (x ∷ l) n res delta = pop_loop-negative l (suc n) _ _

min-negative :
    (l : List Bytes) (n : ℕ)
    → length l < 2 ^ 31
    → min_ℤ (negsuc n) (int_of_size (length l)) ≡ negsuc n
min-negative l n h = rw (int_of_size-pos (length l) (omega arith)) (ground arith)

pop_data-negative :
    (from_front : Bool) (p : Ptr) (n : ℕ) (l : List Bytes) (s : Store) (a : Unit {0} × Store)
    → length l < 2 ^ 31
    → touch_lru p s ≡ ok a
    → pop_data from_front p (negsuc n) (list l) s ≡ fault out_of_range
unfolding pop_data
pop_data-negative from_front p n l s a h t = rw (t, min-negative l n h, pop_loop-negative)

generic_pop-ok :
    (from_front : Bool) (cmd key count : Bytes) (c : ℤ) (s : Store) (p : Ptr) (n : DrutaNode)
    → stoi count ≡ some c
    → s.kv_store key ≡ some p
    → load p s ≡ ok (n, s)
    → generic_pop from_front (cmd ∷ (key ∷ (count ∷ []))) s
      ≡ pop_data from_front p c n.value.data_ s
unfolding generic_pop
generic_pop-ok from_front cmd key count c s p n e k l = rw (e, k, l)

-- LPOP or RPOP with a negative count reads the front or the back of an empty list, whatever the
-- list of fewer than 2^31 elements at the key.
pub generic_pop-negative :
    (from_front : Bool) (cmd count : Bytes) (n : ℕ) (l : List Bytes) (s : Store) (as_ : List Item)
    (i : Item) (bs : List Item)
    → Holds s (as_ ++ (i ∷ bs))
    → i.value.data_ ≡ list l
    → length l < 2 ^ 31
    → stoi count ≡ some (negsuc n)
    → generic_pop from_front (cmd ∷ (i.key ∷ (count ∷ []))) s ≡ fault out_of_range
generic_pop-negative from_front cmd count n l s as_ i bs h v small e =
    let node_ = node_of i (last_or null as_) (first_or null bs) in
    let node = load-ok i.at s node_ (Links-Around s as_ i bs h.shape.links).node in
    let key = h.shape.keys i.key ∙ ptr_of_item as_ i bs h.shape.distinct_keys in
    let (a, run, t) = touch_lru-Touched s as_ i bs h.shape.links in
    generic_pop-ok from_front cmd i.key count (negsuc n) s i.at node_ e key node
    ∙ subst (λ d. pop_data from_front i.at (negsuc n) d s ≡ fault out_of_range) (sym v)
        (pop_data-negative from_front i.at n l s a small run)
