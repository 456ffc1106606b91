-- ===== src/Commands/Strings/Writes.antt =====
-- DEL and SET of a new key against the list of entries that the database holds.
use druta_db.Prelude.{
  ℕ, ◌+◌, ◌^◌, ◌≤◌, ◌<◌, ◌≡◌, refl, ap, subst, ◌∙◌, true, Option, none, some, List, [], ◌∷◌, ◌++◌,
  ltb, Bytes, snoc, ℤ, pos, int_of_size, ok, Returns,
}
use druta_db.Value.{of_string}
use druta_db.Store.{Store, new_node, erase_key, ◌>>=◌}
use druta_db.Lru.{lru_max_memory, remove_from_lru, add_lru}
use druta_db.Lru.Chain.{Item}
use druta_db.Lru.Holds.{Holds, ptr_of_item, total}
use druta_db.Lru.Evict.{survivors}
use druta_db.Lru.Insert.{new_item, add_new-Holds}
use druta_db.Lru.Remove.{remove_from_lru-Holds}
use druta_db.Commands.Replies.{ok_reply, integer_reply}
use druta_db.Commands.Strings.{
  del_found, del_keys, command_del, read_expiry, set_value, command_set,
}
use druta_db.Commands.Strings.Entries.{Place, find_entry, absent, present, Search-entry, then_pure}

abbrev pub delete_place : List Item → Option Place → ℕ × List Item
delete_place xs none = (0, xs)
delete_place xs (some (as_, i, bs)) = (1, as_ ++ bs)

-- The entries without the keys, and the number of those that were there.
unfoldable pub del_of_entries : ℕ → List Bytes → List Item → ℕ × List Item
unfolding find_entry
del_of_entries n [] xs = (n, xs)
del_of_entries n (k ∷ keys) xs =
    let r = delete_place xs (find_entry k xs) in del_of_entries (n + r.0) keys r.1

found-Holds :
    (s : Store) (as_ : List Item) (i : Item) (bs : List Item)
    → Holds s (as_ ++ (i ∷ bs))
    → Returns (del_found i.key (s.kv_store i.key) s) (λ r. (r.0 ≡ 1) × Holds r.1 (as_ ++ bs))
unfolding del_found
found-Holds s as_ i bs h =
    let (a, run, h') = remove_from_lru-Holds s as_ i bs h in
    let key = h.shape.keys i.key ∙ ptr_of_item as_ i bs h.shape.distinct_keys in
    rw key ((1, a.1), then_pure (remove_from_lru i.at s) (erase_key i.key) 1 a run, (refl, h'))

missing-ok :
    (s : Store) (key : Bytes) → s.kv_store key ≡ none → del_found key (s.kv_store key) s ≡ ok (0, s)
unfolding del_found
missing-ok s key e = rw e

del_found-Holds :
    (s : Store) (xs : List Item) (key : Bytes)
    → Holds s xs
    → Returns (del_found key (s.kv_store key) s) (λ r.
      (r.0 ≡ (delete_place xs (find_entry key xs)).0)
      × Holds r.1 (delete_place xs (find_entry key xs)).1)
del_found-Holds s xs key h = elim (Search-entry key xs) [
  | absent e f ↦ rw e ((0, s), missing-ok s key (h.shape.keys key ∙ f), (refl, h))
  | present as_ i bs e q n ↦ rw (e, n) (found-Holds s as_ i bs (subst (Holds s) q h))
]

del_keys-step :
    (n : ℕ) (key : Bytes) (keys : List Bytes) (s : Store) (a : ℕ × Store)
    → del_found key (s.kv_store key) s ≡ ok a
    → del_keys n (key ∷ keys) s ≡ del_keys (n + a.0) keys a.1
unfolding del_keys
del_keys-step n key keys s a e = rw e

del_keys-nil : (n : ℕ) (s : Store) → del_keys n [] s ≡ ok (n, s)
unfolding del_keys
del_keys-nil n s = refl

del_keys-Holds :
    (n : ℕ) (keys : List Bytes) (s : Store) (xs : List Item)
    → Holds s xs
    → Returns
        (del_keys n keys s)
        (λ r. (r.0 ≡ (del_of_entries n keys xs).0) × Holds r.1 (del_of_entries n keys xs).1)
unfolding del_of_entries
del_keys-Holds n [] s xs h = ((n, s), del_keys-nil n s, (refl, h))
del_keys-Holds n (key ∷ keys) s xs h =
    let (a, run, d) = del_found-Holds s xs key h in
    let (b, run', d') =
      del_keys-Holds (n + a.0) keys a.1 (delete_place xs (find_entry key xs)).1 d.1 in
    (
      b,
      del_keys-step n key keys s a run ∙ run',
      subst
          (λ m.
            (b.0 ≡ (del_of_entries (n + m) keys (delete_place xs (find_entry key xs)).1).0)
            × Holds b.1 (del_of_entries (n + m) keys (delete_place xs (find_entry key xs)).1).1)
          d.0 d',
    )

-- DEL on a database in order ends without a fault. It removes the entries of the keys, wherever
-- they stand, and keeps the others in their order; the reply is the number removed, and the command
-- is logged exactly if that is not 0.
pub command_del-Holds :
    (cmd : Bytes) (keys : List Bytes) (s : Store) (xs : List Item)
    → Holds s xs
    → Returns (command_del (cmd ∷ keys) s) (λ r.
      (r.0 ≡ (
        integer_reply (int_of_size (del_of_entries 0 keys xs).0),
        ltb 0 (del_of_entries 0 keys xs).0,
      ))
      × Holds r.1 (del_of_entries 0 keys xs).1)
unfolding command_del
command_del-Holds cmd keys s xs h =
    let (a, run, d) = del_keys-Holds 0 keys s xs h in
    (
      ((integer_reply (int_of_size a.0), ltb 0 a.0), a.1),
      rw run,
      (ap (λ n. (integer_reply (int_of_size n), ltb 0 n)) d.0, d.1),
    )

set_new-ok :
    (now : ℤ) (cmd key val : Bytes) (opts : List Bytes) (at : ℤ) (s : Store) (a : Unit {0} × Store)
    → read_expiry now opts (pos 0) ≡ ok (some at)
    → s.kv_store key ≡ none
    → (new_node key (of_string val at) >>= add_lru) s ≡ ok a
    → command_set now (cmd ∷ (key ∷ (val ∷ opts))) s ≡ ok ((ok_reply, true), a.1)
unfolding command_set set_value
set_new-ok now cmd key val opts at s a e k r = rw (e, k, r)

-- SET of a key that is not there, with options that give an expiry time, ends without a fault and
-- is logged. The new entry is the most recently used one; then least recently used entries go until
-- the account is within the limit.
pub command_set-new :
    (now : ℤ) (cmd key val : Bytes) (opts : List Bytes) (at : ℤ) (s : Store) (xs : List Item)
    → Holds s xs
    → s.kv_store key ≡ none
    → read_expiry now opts (pos 0) ≡ ok (some at)
    → total (snoc xs (new_item s key (of_string val at))) < 2 ^ 64
    → Returns (command_set now (cmd ∷ (key ∷ (val ∷ opts))) s) (λ r.
      (r.0 ≡ (ok_reply, true))
      × Holds r.1 (survivors (snoc xs (new_item s key (of_string val at))))
      × (r.1.current_memory_usage ≤ lru_max_memory))
command_set-new now cmd key val opts at s xs h k e fits =
    let (a, run, d) = add_new-Holds s xs h key (of_string val at) k fits in
    (((ok_reply, true), a.1), set_new-ok now cmd key val opts at s a e k run, (refl, d.0, d.1))
