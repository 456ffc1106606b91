-- ===== src/Commands/Lists/Fresh.antt =====
-- RPUSH and LPUSH to a key that is not there.
use druta_db.Prelude.{
  ◌^◌, ◌<◌, ◌≡◌, refl, ap, ◌∙◌, Bool, true, none, List, [], ◌∷◌, arith, length, Bytes, snoc,
  int_of_size, add_size, add_size-eq, ok, Returns,
}
use druta_db.Value.{DrutaValue, list, of_type, list_type}
use druta_db.Store.{Store, new_node, ◌>>=◌}
use druta_db.Lru.{add_lru}
use druta_db.Lru.Chain.{Item}
use druta_db.Lru.Holds.{Holds, total, total-append}
use druta_db.Lru.Evict.{survivors}
use druta_db.Lru.Insert.{new_item, add_new-Holds}
use druta_db.Commands.Replies.{integer_reply}
use druta_db.Commands.Lists.{push_all, generic_push}
use druta_db.Commands.Lists.Pushes.{
  pushed, push_usage, pushed_value, push_all-usage, push_all-pushed,
}

-- The value of a new list.
abbrev pub new_list : Bool → List Bytes → DrutaValue
new_list at_front items = pushed_value at_front [] items (of_type list_type)

push_new-ok :
    (at_front : Bool) (cmd key : Bytes) (items : List Bytes) (s : Store) (v : DrutaValue)
    (a : Unit {0} × Store)
    → s.kv_store key ≡ none
    → record (of_type list_type) {
      data_ = list (push_all at_front [] 0 items).0;
      memory_usage = add_size (of_type list_type).memory_usage (push_all at_front [] 0 items).1;
    }
      ≡ v
    → (new_node key v >>= add_lru) s ≡ ok a
    → generic_push at_front (cmd ∷ (key ∷ items)) s
      ≡ ok ((integer_reply (int_of_size (length (push_all at_front [] 0 items).0)), true), a.1)
unfolding generic_push new_node integer_reply
push_new-ok at_front cmd key items s v a k e run = rw (k, e, run)

-- RPUSH and LPUSH to a key that is not there end without a fault. The new list is the most recently
-- used entry; then least recently used entries go until the account is within the limit.
pub generic_push-new :
    (at_front : Bool) (cmd key : Bytes) (items : List Bytes) (s : Store) (xs : List Item)
    → Holds s xs
    → s.kv_store key ≡ none
    → total (snoc xs (new_item s key (new_list at_front items))) < 2 ^ 64
    → Returns (generic_push at_front (cmd ∷ (key ∷ items)) s) (λ r.
      (r.0 ≡ (integer_reply (int_of_size (length (pushed at_front [] items))), true))
      × Holds r.1 (survivors (snoc xs (new_item s key (new_list at_front items)))))
unfolding of_type
generic_push-new at_front cmd key items s xs h k fits =
    let v = new_list at_front items in
    let sum = total-append xs (new_item s key v ∷ []) in
    let cost : (push_all at_front [] 0 items).1 ≡ push_usage items =
      push_all-usage at_front [] 0 items (omega arith) ∙ omega arith in
    let l = push_all-pushed at_front [] 0 items in
    let (a, run, d) = add_new-Holds s xs h key v k fits in
    (
      ((integer_reply (int_of_size (length (pushed at_front [] items))), true), a.1),
      push_new-ok at_front cmd key items s v a k
            (rw (cost, l)
              (ap (λ m. record v { memory_usage = m })
                (add_size-eq 0 (push_usage items) (omega arith))))
            run
          ∙ rw l,
      (refl, d.0),
    )
