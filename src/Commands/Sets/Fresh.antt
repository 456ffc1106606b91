-- ===== src/Commands/Sets/Fresh.antt =====
-- SADD to a key that is not there.
use druta_db.Prelude.{
  ℕ, ◌+◌, ◌^◌, ◌<◌, ◌≡◌, refl, sym, subst, ◌∙◌, true, false, none, List, [], ◌∷◌, ◌++◌, arith,
  length, append-snoc, append-nil, ltb, All, Bytes, bytes_key, snoc, before, same_iff,
  same_of_before, before_trans, before_irrefl, int_of_size, add_size, add_size-eq, ok, Returns,
}
use druta_db.Ordered.Set
use druta_db.Value.{DrutaValue, set, set_type, of_type, set_element_usage, sum_set_usage}
use druta_db.Store.{Store, new_node, ◌>>=◌}
use druta_db.Lru.{add_lru}
use druta_db.Lru.Chain.{Item}
use druta_db.Lru.Holds.{Holds, total}
use druta_db.Lru.Evict.{survivors}
use druta_db.Lru.Insert.{new_item, add_new-Holds}
use druta_db.Commands.Replies.{integer_reply}
use druta_db.Commands.Sets.{fill_members, sadd_found, command_sadd}

-- The value of a new set.
abbrev pub new_set : List Bytes → DrutaValue
new_set items =
    let r = fill_members [] 0 0 items in
    record (of_type set_type) { data_ = set r.0; memory_usage = r.1 }

sadd_new-ok :
    (cmd key : Bytes) (items : List Bytes) (s : Store) (a : Unit {0} × Store)
    → s.kv_store key ≡ none
    → (new_node key (new_set items) >>= add_lru) s ≡ ok a
    → command_sadd (cmd ∷ (key ∷ items)) s ≡ (
        let n = (fill_members [] 0 0 items).2 in ok ((integer_reply (int_of_size n), ltb 0 n), a.1))
unfolding command_sadd sadd_found of_type new_node
sadd_new-ok cmd key items s a k run = rw (k, run)

-- SADD to a key that is not there ends without a fault. The new set is the most recently used
-- entry; then least recently used entries go until the account is within the limit.
pub command_sadd-new :
    (cmd key : Bytes) (items : List Bytes) (s : Store) (xs : List Item)
    → Holds s xs
    → s.kv_store key ≡ none
    → total (snoc xs (new_item s key (new_set items))) < 2 ^ 64
    → Returns
        (command_sadd (cmd ∷ (key ∷ items)) s)
        (λ r. Holds r.1 (survivors (snoc xs (new_item s key (new_set items)))))
command_sadd-new cmd key items s xs h k fits =
    let (a, run, d) = add_new-Holds s xs h key (new_set items) k fits in
    let n = (fill_members [] 0 0 items).2 in
    (((integer_reply (int_of_size n), ltb 0 n), a.1), sadd_new-ok cmd key items s a k run, d.0)

-- Every member is before `x`.
abbrev Below : List Bytes → Bytes → Type 0
Below s x = All (λ y. before y x ≡ true) s

not_before : (x y : Bytes) → before x y ≡ true → before y x ≡ false
not_before x y h = ground (arith, before_trans x y x h, before_irrefl x)

insert-last : (s : List Bytes) (x : Bytes) → Below s x → Set.insert s x ≡ snoc s x
unfolding Set.insert
insert-last [] x b = refl
insert-last (y ∷ s) x b =
    ground (arith, insert-last s x, not_before y x, same_of_before y x, same_iff y x, same_iff x y)

not_contains-last : (s : List Bytes) (x : Bytes) → Below s x → Set.contains s x ≡ false
unfolding Set.contains
not_contains-last [] x b = refl
not_contains-last (y ∷ s) x b =
    ground (arith, not_contains-last s x, same_of_before y x, same_iff y x, same_iff x y)

Below-sorted :
    (s : List Bytes) (x : Bytes) (xs : List Bytes) → Set.IsSorted (s ++ (x ∷ xs)) → Below s x
Below-sorted [] x xs o = tt
Below-sorted (y ∷ s) x xs o = (above s o.0, Below-sorted s x xs o.1)
  where
    above : (s : List Bytes) → Set.Above y (s ++ (x ∷ xs)) → before y x ≡ true
    above [] a = a.0
    above (z ∷ s) a = above s a.1

triple :
    {s s' : List Bytes} {m m' n n' : ℕ}
    → s ≡ s'
    → m ≡ m'
    → n ≡ n'
    → ◌≡◌ {A = List Bytes × ℕ × ℕ} (s, m, n) (s', m', n')
triple e f g = rw (e, f, g) refl

-- The members of a set in order make this set again, each counted once.
fill_members-rest :
    (s : List Bytes) (usage created : ℕ) (items : List Bytes)
    → Set.IsSorted (s ++ items)
    → usage + sum_set_usage items < 2 ^ 64
    → fill_members s usage created items
      ≡ (s ++ items, usage + sum_set_usage items, created + length items)
unfolding fill_members sum_set_usage
fill_members-rest s usage created [] o h = triple (sym (append-nil s)) (omega arith) (omega arith)
fill_members-rest s usage created (x ∷ items) o h =
    let b = Below-sorted s x items o in
    let e = add_size-eq usage (set_element_usage x) (omega arith) in
    rw (not_contains-last s x b, insert-last s x b)
      (fill_members-rest (snoc s x) (add_size usage (set_element_usage x)) (created + 1) items
          (subst Set.IsSorted (append-snoc s items x) o) (omega (arith, e))
        ∙ triple (sym (append-snoc s items x)) (omega (arith, e)) (omega arith))

pub fill_members-sorted :
    (s : List Bytes)
    → Set.IsSorted s
    → sum_set_usage s < 2 ^ 64
    → fill_members [] 0 0 s ≡ (s, sum_set_usage s, length s)
fill_members-sorted s o h =
    fill_members-rest [] 0 0 s o (omega arith) ∙ triple refl (omega arith) (omega arith)
