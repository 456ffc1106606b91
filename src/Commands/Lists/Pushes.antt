-- ===== src/Commands/Lists/Pushes.antt =====
-- RPUSH and LPUSH against the list of entries that the database holds.
use druta_db.Prelude.{
  ℕ, ◌+◌, ◌^◌, ◌≤◌, ◌<◌, ◌≡◌, refl, sym, ap, subst, ◌∙◌, Bool, true, false, some, List, [], ◌∷◌,
  ◌++◌, arith, length, append_assoc, append-nil, append-snoc, Bytes, snoc, int_of_size, add_size,
  add_size-eq, Result, ok, fault, dangling, Returns, if◌then◌else◌,
}
use mathlib.Core.List.{reverse, reverse-cons}
use druta_db.Text.Storage.{sizeof_string}
use druta_db.Value.{DrutaValue, list, calc_string_usage}
use druta_db.Store.{Ptr, null, DrutaNode, Store, load}
use druta_db.Lru.{lru_max_memory, notify_memory_change, touch_lru}
use druta_db.Lru.Chain.{Item, node_of, first_or, last_or, upd}
use druta_db.Lru.Steps.{load-ok, modify-ok}
use druta_db.Lru.Detach.{Links-Around}
use druta_db.Lru.Holds.{Holds, total, total-remove, ptr_of_item}
use druta_db.Lru.Change.{with_value, kept}
use druta_db.Lru.Change.Outcome.{change-Updated, change-Lost}
use druta_db.Commands.Replies.{integer_reply}
use druta_db.Commands.Lists.{push_one, push_all, set_list, push_data, generic_push}

-- The list after a push, and what the pushed strings are charged.
unfoldable pub pushed : Bool → List Bytes → List Bytes → List Bytes
pushed at_front l items = if at_front then reverse items ++ l else l ++ items

unfoldable pub push_usage : List Bytes → ℕ
push_usage [] = 0
push_usage (x ∷ xs) = (calc_string_usage x + sizeof_string + 8) + push_usage xs

pub push_all-usage :
    (at_front : Bool) (l : List Bytes) (delta : ℕ) (items : List Bytes)
    → delta + push_usage items < 2 ^ 64
    → (push_all at_front l delta items).1 ≡ delta + push_usage items
unfolding push_all push_usage
push_all-usage at_front l delta [] h = omega arith
push_all-usage at_front l delta (x ∷ xs) h =
    let cost = calc_string_usage x + sizeof_string + 8 in
    let e = add_size-eq delta cost (omega arith) in
    push_all-usage at_front (push_one at_front l x) (add_size delta cost) xs (omega arith)
    ∙ omega arith

push_all-front :
    (l : List Bytes) (delta : ℕ) (items : List Bytes)
    → (push_all true l delta items).0 ≡ reverse items ++ l
unfolding push_all
push_all-front l delta [] = refl
push_all-front l delta (x ∷ xs) =
    push_all-front (x ∷ l) _ xs
    ∙ sym (ap (λ t. t ++ l) (reverse-cons x xs) ∙ append_assoc (reverse xs) (x ∷ []) l)

push_all-back :
    (l : List Bytes) (delta : ℕ) (items : List Bytes)
    → (push_all false l delta items).0 ≡ l ++ items
unfolding push_all
push_all-back l delta [] = sym (append-nil l)
push_all-back l delta (x ∷ xs) = push_all-back (snoc l x) _ xs ∙ sym (append-snoc l xs x)

pub push_all-pushed :
    (at_front : Bool) (l : List Bytes) (delta : ℕ) (items : List Bytes)
    → (push_all at_front l delta items).0 ≡ pushed at_front l items
unfolding pushed
push_all-pushed true l delta items = push_all-front l delta items
push_all-pushed false l delta items = push_all-back l delta items

-- The value after a push.
abbrev pub pushed_value : Bool → List Bytes → List Bytes → DrutaValue → DrutaValue
pushed_value at_front l items v = record v {
  data_ = list (pushed at_front l items);
  memory_usage = v.memory_usage + push_usage items;
}

push_data-ok :
    (at_front : Bool) (p : Ptr) (items l : List Bytes) (s : Store) (n n' : DrutaNode)
    (a b : Unit {0} × Store) (l' : List Bytes)
    → s.nodes p ≡ some n
    → notify_memory_change 0 (push_all at_front l 0 items).1 (record s {
      nodes = upd s.nodes p (
          set_list
            (push_all at_front l 0 items).0
            (λ usage. add_size usage (push_all at_front l 0 items).1));
    })
      ≡ ok a
    → touch_lru p a.1 ≡ ok b
    → load p b.1 ≡ ok (n', b.1)
    → n'.value.data_ ≡ list l'
    → push_data at_front p items (list l) s
      ≡ ok ((integer_reply (int_of_size (length l')), true), b.1)
unfolding push_data
push_data-ok at_front p items l s n n' a b l' e run touch again d = rw (
  modify-ok p
      (set_list (push_all at_front l 0 items).0
        (λ usage. add_size usage (push_all at_front l 0 items).1))
      s n e,
  run,
  touch,
  again,
  d,
)

push_data-lost :
    (at_front : Bool) (p : Ptr) (items l : List Bytes) (s : Store) (n : DrutaNode)
    (a : Unit {0} × Store)
    → s.nodes p ≡ some n
    → notify_memory_change 0 (push_all at_front l 0 items).1 (record s {
      nodes = upd s.nodes p (
          set_list
            (push_all at_front l 0 items).0
            (λ usage. add_size usage (push_all at_front l 0 items).1));
    })
      ≡ ok a
    → touch_lru p a.1 ≡ fault dangling
    → push_data at_front p items (list l) s ≡ fault dangling
unfolding push_data
push_data-lost at_front p items l s n a e run touch = rw (
  modify-ok p
      (set_list (push_all at_front l 0 items).0
        (λ usage. add_size usage (push_all at_front l 0 items).1))
      s n e,
  run,
  touch,
)

push_there-ok :
    (at_front : Bool) (cmd key : Bytes) (items : List Bytes) (s : Store) (p : Ptr) (n : DrutaNode)
    → s.kv_store key ≡ some p
    → load p s ≡ ok (n, s)
    → generic_push at_front (cmd ∷ (key ∷ items)) s ≡ push_data at_front p items n.value.data_ s
unfolding generic_push
push_there-ok at_front cmd key items s p n k e = rw (k, e)

module _ (at_front : Bool) (cmd : Bytes) (items l : List Bytes) (s : Store) (as_ : List Item)
    (i : Item) (bs : List Item) (h : Holds s (as_ ++ (i ∷ bs))) (is_list : i.value.data_ ≡ list l)
    (fits : total (as_ ++ (with_value i (pushed_value at_front l items i.value) ∷ bs))
      < 2 ^ 64) where
  abbrev new : Item
  new = with_value i (pushed_value at_front l items i.value)

  abbrev after : List Bytes × ℕ
  after = push_all at_front l 0 items

  abbrev set_node : DrutaNode → DrutaNode
  set_node = set_list after.0 (λ usage. add_size usage after.1)

  cost : after.1 ≡ push_usage items
  cost = push_all-usage at_front l 0 items (omega (arith, total-remove as_ new bs)) ∙ omega arith

  sets : (pv nx : Ptr) → set_node (node_of i pv nx) ≡ node_of new pv nx
  sets pv nx =
      let sum = total-remove as_ new bs in
      let e = add_size-eq i.value.memory_usage (push_usage items) (omega arith) in
      rw (cost, push_all-pushed at_front l 0 items, e)

  there :
      (r : Result ((Bytes × Bool) × Store))
      → push_data at_front i.at items (list l) s ≡ r
      → generic_push at_front (cmd ∷ (i.key ∷ items)) s ≡ r
  there r e =
      let n = node_of i (last_or null as_) (first_or null bs) in
      push_there-ok at_front cmd i.key items s i.at n
        (h.shape.keys i.key ∙ ptr_of_item as_ i bs h.shape.distinct_keys)
        (load-ok i.at s n (Links-Around s as_ i bs h.shape.links).node)
      ∙ subst (λ d. push_data at_front i.at items d s ≡ r) (sym is_list) e

  -- RPUSH and LPUSH to a list that is there end without a fault where the entry with the longer
  -- list and the entries newer than it are within the limit. The reply is the new length. The
  -- entry becomes the most recently used one; of the older ones, least recently used entries go
  -- until the rest is within the limit.
  pub generic_push-there :
      total (new ∷ bs) ≤ lru_max_memory
      → Returns (generic_push at_front (cmd ∷ (i.key ∷ items)) s) (λ r.
        (r.0 ≡ (integer_reply (int_of_size (length (pushed at_front l items))), true))
        × Holds r.1 (snoc (kept as_ (new ∷ bs) ++ bs) new))
  generic_push-there small =
      let u =
        change-Updated s as_ i bs h (pushed_value at_front l items i.value) set_node sets fits 0
          after.1 (omega (arith, cost)) small in
      let zs = kept as_ (new ∷ bs) ++ bs in
      let last = (Links-Around u.touched.1 zs new [] u.holds.shape.links).node in
      let n' = node_of new (last_or null zs) null in
      (
        ((integer_reply (int_of_size (length (pushed at_front l items))), true), u.touched.1),
        there _ (
            push_data-ok at_front i.at items l s (node_of i (last_or null as_) (first_or null bs))
              n' u.notified u.touched (pushed at_front l items)
              (Links-Around s as_ i bs h.shape.links).node u.notify_run u.touch_run
              (load-ok i.at u.touched.1 n' last) refl),
        (refl, u.holds),
      )

  -- Where they exceed the limit, the eviction destroys the list that is being extended, and the
  -- command goes on to access it.
  pub generic_push-lost :
      lru_max_memory < total (new ∷ bs)
      → generic_push at_front (cmd ∷ (i.key ∷ items)) s ≡ fault dangling
  generic_push-lost large =
      let u =
        change-Lost s as_ i bs h (pushed_value at_front l items i.value) set_node sets fits 0
          after.1 (omega (arith, cost)) large in
      there (fault dangling) (
        push_data-lost at_front i.at items l s (node_of i (last_or null as_) (first_or null bs))
          u.notified (Links-Around s as_ i bs h.shape.links).node u.notify_run u.touch_run)
