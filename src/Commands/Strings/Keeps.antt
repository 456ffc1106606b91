-- ===== src/Commands/Strings/Keeps.antt =====
-- PING, ECHO, SET, GET and DEL leave a consistent database.
use druta_db.Prelude.{
  ℕ, ◌+◌, ◌≡◌, refl, subst, ◌∙◌, inl, inr, Bool, true, false, Bool-cases, Option, none, some, List,
  [], ◌∷◌, ◌++◌, arith, drop, Bytes, bytes_key, ℤ, pos, negsuc, fits_long_long, Result, ok, fault,
  dangling, Leaves, ltb→lt, ◌^◌,
}
use druta_db.Text.Range.{Fits}
use druta_db.Value.{ValueData, string, list, hash, set, of_string}
use druta_db.Value.Sound.{IsSound}
use druta_db.Store.{
  Ptr, DrutaNode, Store, Cmd, pure, and_then, ◌>>=◌, lift, arg, load, find_key, erase_key, new_node,
}
use druta_db.Lru.{update_lru, touch_lru, remove_from_lru}
use druta_db.Lru.Chain.{Item}
use druta_db.Lru.Holds.{Shape, ptr_of_item}
use druta_db.Lru.Remove.{remove_from_lru-Removed}
use druta_db.Lru.Consistent.{
  IsSoundValue, AreSound, Consistent, Stays, Keeps, then-Stays, AreSound-split,
}
use druta_db.Lru.Consistent.Calls.{
  bind-Keeps, arg-Keeps, found-Keeps, touch_lru-Keeps, add_new-Keeps, update_lru-Keeps,
}
use druta_db.Commands.Replies.{nil_reply, bulk_reply, ok_reply, not_an_integer}
use druta_db.Commands.Strings.Expiry.{read_expiry-Fits}
use druta_db.Commands.Strings.{
  command_echo, read_expiry, set_value, command_set, is_expired, get_data, get_found, command_get,
  del_found, del_keys, command_del,
}
use druta_db.Commands.Strings.Entries.{absent, present, Search-entry}

-- Two calls, and the rest behind them.
then_again :
    {B : Type 0} (r : Result (Unit {0} × Store)) (n : Cmd (Unit {0})) (c : Cmd B)
    (a : Unit {0} × Store)
    → and_then r (λ _. n) ≡ ok a
    → and_then r (λ _. (n >>= λ _. c)) ≡ c a.1
then_again (ok (u, t)) n c a e = rw e refl
then_again (fault x) n c a e = cc

at_item :
    (s : Store) (as_ : List Item) (i : Item) (bs : List Item) (p : Ptr)
    → Shape s (as_ ++ (i ∷ bs))
    → s.kv_store i.key ≡ some p
    → p ≡ i.at
at_item s as_ i bs p h e = let f = h.keys i.key ∙ ptr_of_item as_ i bs h.distinct_keys in cc

-- The removal of an entry, then the rest.
module _ {B : Type 0} (c : Cmd B) (later : Keeps c) (s : Store) where
  remove_item :
      (as_ : List Item) (i : Item) (bs : List Item)
      → Shape s (as_ ++ (i ∷ bs))
      → AreSound (as_ ++ (i ∷ bs))
      → Stays ((remove_from_lru i.at >>= λ _. (erase_key i.key >>= λ _. c)) s)
  remove_item as_ i bs h v =
      let (a, run, d) = remove_from_lru-Removed s as_ i bs h in
      rw (then_again (remove_from_lru i.at s) (erase_key i.key) c a run) (
        later a.1
          (record { items = as_ ++ bs; shape = d.shape; sound = (AreSound-split as_ i bs v).0 }))

  remove-Keeps :
      (key : Bytes) (p : Ptr)
      → Consistent s
      → s.kv_store key ≡ some p
      → Stays ((remove_from_lru p >>= λ _. (erase_key key >>= λ _. c)) s)
  remove-Keeps key p o e = elim (Search-entry key o.items) [
    | absent _ f ↦ absurd (ground (arith, o.shape.keys key, f))
    | present as_ i bs _ q n ↦
        let h : Shape s (as_ ++ (i ∷ bs)) = subst (Shape s) q o.shape in
        let at = at_item s as_ i bs p h (subst (λ k. s.kv_store k ≡ some p) n e) in
        rw (n, at) (remove_item as_ i bs h (subst AreSound q o.sound))
  ]

string-IsSound : (val : Bytes) (at : ℤ) → fits_long_long at ≡ true → IsSound (string val) at
unfolding fits_long_long
string-IsSound val (pos n) f = ltb→lt n (2 ^ 63) f
string-IsSound val (negsuc n) f = tt

-- What SET does once its options have been read.
expiring-Keeps :
    (key val : Bytes) (r : Result (Option ℤ))
    → Leaves Fits r
    → Keeps (
        lift r >>= λ expire_at. elim expire_at as (λ o. Cmd (Bytes × Bool)) [
          | none ↦ pure (not_an_integer, false)
          | some at ↦
              (find_key key >>= λ found.
              (set_value key (of_string val at) found >>= λ _. pure (ok_reply, true)))
        ])
unfolding set_value of_string new_node
expiring-Keeps key val (fault e) f = λ s c. tt
expiring-Keeps key val (ok none) f = λ s c. c
expiring-Keeps key val (ok (some at)) f =
    let v = of_string val at in
    let o : IsSoundValue v = string-IsSound val at f in
    found-Keeps key (λ found. set_value key v found >>= λ _. pure (ok_reply, true))
      (λ s c e. add_new-Keeps key v (λ _. pure (ok_reply, true)) o (λ _ s c. c) s c e)
      (λ p s c e.
        bind-Keeps (update_lru p v) (λ _. pure (ok_reply, true)) (update_lru-Keeps p v o)
          (λ _ s c. c) s c)

pub command_echo-Keeps : (args : List Bytes) → Keeps (command_echo args)
unfolding command_echo
command_echo-Keeps args = bind-Keeps (arg args 1) _ (arg-Keeps args 1) (λ m s c. c)

pub command_set-Keeps : (now : ℤ) (args : List Bytes) → Keeps (command_set now args)
unfolding command_set
command_set-Keeps now args = bind-Keeps (arg args 1) _ (arg-Keeps args 1) (λ key.
    bind-Keeps (arg args 2) _ (arg-Keeps args 2) (λ val.
      expiring-Keeps key val (read_expiry now (drop 3 args) (pos 0))
        (read_expiry-Fits now (drop 3 args) (pos 0) (unfold fits_long_long in refl))))

get_data-Stays :
    (now : ℤ) (key : Bytes) (p : Ptr) (at : ℤ) (d : ValueData) (s : Store)
    → Consistent s
    → s.kv_store key ≡ some p
    → Stays (get_data now key p at d s)
unfolding get_data
get_data-Stays now key p at (string val) s c e = elim (Bool-cases (is_expired now at)) [
  | inl late ↦ rw late (remove-Keeps (pure nil_reply) (λ s c. c) s key p c e)
  | inr n ↦
      rw n
        (bind-Keeps (touch_lru p) (λ _. pure (bulk_reply val)) (touch_lru-Keeps p) (λ _ s c. c) s c)
]
get_data-Stays now key p at (list l) s c e = c
get_data-Stays now key p at (hash h) s c e = c
get_data-Stays now key p at (set m) s c e = c

-- `load` leaves the state as it is.
load-same :
    {B : Type 0} (p : Ptr) (k : DrutaNode → Cmd B) (s : Store)
    → ((n : DrutaNode) → Stays (k n s))
    → Stays (and_then (load p s) k)
unfolding load
load-same p k s h =
    (elim (s.nodes p)
      as (λ o. Stays (
        and_then
          (elim o as (λ o. Result (DrutaNode × Store)) [
            | none ↦ fault dangling
            | some n ↦ ok (n, s)
          ])
          k)) [ none ↦ tt | some n ↦ h n ])

pub command_get-Keeps : (now : ℤ) (args : List Bytes) → Keeps (command_get now args)
unfolding command_get
command_get-Keeps now args = bind-Keeps (arg args 1) _ (arg-Keeps args 1) (λ key.
    found-Keeps key (get_found now key) (λ s c e. c)
      (λ p s c e.
        load-same p _ s (λ n. get_data-Stays now key p n.value.expiry_time n.value.data_ s c e)))

del_keys-Keeps : (del_count : ℕ) (keys : List Bytes) → Keeps (del_keys del_count keys)
unfolding del_keys del_found
del_keys-Keeps del_count [] = λ s c. c
del_keys-Keeps del_count (key ∷ keys) =
    found-Keeps key (λ found. del_found key found >>= λ n. del_keys (del_count + n) keys)
      (λ s c e. del_keys-Keeps (del_count + 0) keys s c)
      (λ p s c e.
        then-Stays (del_found key (some p) s) (λ n. del_keys (del_count + n) keys)
          (remove-Keeps (pure 1) (λ s c. c) s key p c e) (λ n. del_keys-Keeps (del_count + n) keys))

pub command_del-Keeps : (args : List Bytes) → Keeps (command_del args)
unfolding command_del
command_del-Keeps args =
    bind-Keeps (del_keys 0 (drop 1 args)) _ (del_keys-Keeps 0 (drop 1 args)) (λ n s c. c)
