-- ===== src/Commands/Hashes/Uncaught.antt =====
-- HGETALL of a hash whose account is more than a string can hold.
use druta_db.Prelude.{
  ◌%◌, ◌+◌, ◌^◌, ◌<◌, ◌≡◌, ap, ◌∙◌, true, some, List, [], ◌∷◌, ◌++◌, arith, ltb, add_size, Bytes,
  ok, fault, uncaught,
}
use druta_db.Text.Storage.{max_string_size}
use druta_db.Hash.{DrutaHash}
use druta_db.Value.{hash}
use druta_db.Store.{Ptr, null, DrutaNode, Store, reserve, load}
use druta_db.Lru.{touch_lru}
use druta_db.Lru.Chain.{Item, node_of, first_or, last_or}
use druta_db.Lru.Steps.{load-ok}
use druta_db.Lru.Detach.{Links-Around}
use druta_db.Lru.Touch.{touch_lru-Touched}
use druta_db.Lru.Holds.{Shape, ptr_of_item}
use druta_db.Commands.Hashes.{hgetall_data, hgetall_found, command_hgetall}

hgetall_data-uncaught :
    (p : Ptr) (h : DrutaHash) (s : Store) (a : Unit {0} × Store)
    → touch_lru p s ≡ ok a
    → max_string_size < (1024 + h.memory_usage) % 2 ^ 64
    → hgetall_data p (hash h) s ≡ fault uncaught
unfolding hgetall_data reserve add_size
hgetall_data-uncaught p h s a run large =
    let e : ltb max_string_size (add_size 1024 h.memory_usage) ≡ true =
      unfold add_size in ground (arith, large) in
    rw (run, e)

hgetall_there-ok :
    (cmd key : Bytes) (s : Store) (p : Ptr) (n : DrutaNode)
    → s.kv_store key ≡ some p
    → load p s ≡ ok (n, s)
    → command_hgetall (cmd ∷ key ∷ []) s ≡ hgetall_data p n.value.data_ s
unfolding command_hgetall hgetall_found
hgetall_there-ok cmd key s p n k e = rw (k, e)

-- HGETALL of a hash that is there ends the process by an uncaught exception, where 1024 and the
-- hash's account are, as a `size_t`, more than a string can hold: as after the account has wrapped
-- below zero.
pub command_hgetall-uncaught :
    (cmd : Bytes) (h : DrutaHash) (s : Store) (as_ : List Item) (i : Item) (bs : List Item)
    → Shape s (as_ ++ (i ∷ bs))
    → i.value.data_ ≡ hash h
    → max_string_size < (1024 + h.memory_usage) % 2 ^ 64
    → command_hgetall (cmd ∷ i.key ∷ []) s ≡ fault uncaught
command_hgetall-uncaught cmd h s as_ i bs shape is_hash large =
    let n = node_of i (last_or null as_) (first_or null bs) in
    let node = load-ok i.at s n (Links-Around s as_ i bs shape.links).node in
    let key = shape.keys i.key ∙ ptr_of_item as_ i bs shape.distinct_keys in
    let (a, run, t) = touch_lru-Touched s as_ i bs shape.links in
    hgetall_there-ok cmd i.key s i.at n key node
    ∙ ap (λ d. hgetall_data i.at d s) is_hash
    ∙ hgetall_data-uncaught i.at h s a run large
