-- ===== src/Commands/Sets/Operands.antt =====
-- SUNION and SDIFF against the sets that the database holds.
use druta_db.Prelude.{
  ◌≡◌, refl, sym, ap, subst, ◌∙◌, Bool, false, ◌&&◌, ◌||◌, not, none, some, List, [], ◌∷◌, ◌++◌,
  arith, length, ltb, Bytes, bytes_key, Result, ok, Returns, if◌then◌else◌,
}
use druta_db.Ordered.Set
use druta_db.Value.{ValueData, string, list, hash, set}
use druta_db.Store.{null, Store, and_then, pure}
use druta_db.Lru.Chain.{Item, node_of, first_or, last_or}
use druta_db.Lru.Steps.{load-ok}
use druta_db.Lru.Detach.{Links-Around}
use druta_db.Lru.Holds.{Shape, ptr_of_item}
use druta_db.Commands.Replies.{wrong_type, array_reply}
use druta_db.Commands.Strings.Entries.{find_entry, absent, present, Search-entry}
use druta_db.Commands.Sets.{
  Operand, missing, wrong, members, operand_of, operand_found, operand, remove_members,
  diff_operand, diff_loop, diff_from, command_sdiff, insert_members, union_operand, union_loop,
  command_sunion,
}
use druta_db.Commands.Sets.Members.{
  remove_one-IsSorted, contains-remove_members, contains-insert_members,
}

-- What a value is for an operation on sets.
unfoldable pub kind_of : ValueData → Operand
kind_of (string s) = wrong
kind_of (list l) = wrong
kind_of (hash h) = wrong
kind_of (set s) = members s

operand_of-kind_of : (d : ValueData) → operand_of d ≡ kind_of d
unfolding operand_of kind_of
operand_of-kind_of (string s) = refl
operand_of-kind_of (list l) = refl
operand_of-kind_of (hash h) = refl
operand_of-kind_of (set s) = refl

-- What a key is for an operation on sets.
unfoldable pub operand_at : List Item → Bytes → Operand
operand_at xs key = elim (find_entry key xs) [
  | none ↦ missing
  | some (as_, i, bs) ↦ kind_of i.value.data_
]

-- A member of the set at a key; keys that hold no set have none.
abbrev pub has_member : Operand → Bytes → Bool
has_member missing x = false
has_member wrong x = false
has_member (members s) x = Set.contains s x

unfoldable pub in_any : List Item → List Bytes → Bytes → Bool
in_any xs [] x = false
in_any xs (key ∷ keys) x = has_member (operand_at xs key) x || in_any xs keys x

found-ok :
    (s : Store) (as_ : List Item) (i : Item) (bs : List Item)
    → Shape s (as_ ++ (i ∷ bs))
    → operand i.key s ≡ ok (kind_of i.value.data_, s)
unfolding operand_found
found-ok s as_ i bs h =
    let n = node_of i (last_or null as_) (first_or null bs) in
    rw (
      h.keys i.key ∙ ptr_of_item as_ i bs h.distinct_keys,
      load-ok i.at s n (Links-Around s as_ i bs h.links).node,
      operand_of-kind_of i.value.data_,
    )

missing-ok : (s : Store) (key : Bytes) → s.kv_store key ≡ none → operand key s ≡ ok (missing, s)
unfolding operand_found
missing-ok s key e = rw e

pub operand-ok :
    (s : Store) (xs : List Item) (key : Bytes)
    → Shape s xs
    → operand key s ≡ ok (operand_at xs key, s)
unfolding operand_at
operand-ok s xs key h = elim (Search-entry key xs) [
  | absent e f ↦ rw (operand_at, e) (missing-ok s key (h.keys key ∙ f))
  | present as_ i bs e q n ↦ rw (operand_at, e, n) (found-ok s as_ i bs (subst (Shape s) q h))
]

remove_members-IsSorted : (u t : List Bytes) → Set.IsSorted u → Set.IsSorted (remove_members u t)
unfolding remove_members
remove_members-IsSorted u [] v = v
remove_members-IsSorted u (x ∷ t) v =
    remove_members-IsSorted (if Set.contains u x then Set.erase u x else u) t
      (remove_one-IsSorted u x v)

insert_members-IsSorted : (u t : List Bytes) → Set.IsSorted u → Set.IsSorted (insert_members u t)
unfolding insert_members
insert_members-IsSorted u [] v = v
insert_members-IsSorted u (x ∷ t) v =
    insert_members-IsSorted (Set.insert u x) t (Set.insert-IsSorted u x v)

pub two_or_more :
    (cmd key : Bytes) (keys : List Bytes) → ltb (length (cmd ∷ (key ∷ keys))) 2 ≡ false
two_or_more cmd key keys = ground arith

-- A reply with exactly the members of `t` that the test does not reject, each one once and in order.
abbrev pub IsDifference : List Bytes → (Bytes → Bool) → Bytes → Type 0
IsDifference t other reply =
    (u : List Bytes) × (reply ≡ array_reply u)
    × Set.IsSorted u
    × ((x : Bytes) → Set.contains u x ≡ (Set.contains t x && not (other x)))

-- The reply of SDIFF, by what the first key is.
abbrev pub Outcome : Operand → (Bytes → Bool) → Bytes → Type 0
Outcome wrong other reply = reply ≡ wrong_type
Outcome missing other reply = IsDifference [] other reply
Outcome (members t) other reply = IsDifference t other reply

abbrev pub IsSortedOperand : Operand → Type 0
IsSortedOperand missing = Unit
IsSortedOperand wrong = Unit
IsSortedOperand (members t) = Set.IsSorted t

module _ (s : Store) (xs : List Item) (h : Shape s xs) where
  union_step :
      (u : List Bytes) (key : Bytes) (keys : List Bytes)
      → union_loop u (key ∷ keys) s ≡ union_loop (union_operand u (operand_at xs key)) keys s
  unfolding union_loop
  union_step u key keys =
      ap (λ r. and_then r (λ o. union_loop (union_operand u o) keys)) (operand-ok s xs key h)

  contains-union_operand :
      (u : List Bytes) (o : Operand) (x : Bytes)
      → Set.contains (union_operand u o) x ≡ (Set.contains u x || has_member o x)
  unfolding union_operand
  contains-union_operand u missing x = ground arith
  contains-union_operand u wrong x = ground arith
  contains-union_operand u (members t) x = contains-insert_members u t x

  union_operand-IsSorted :
      (u : List Bytes) (o : Operand) → Set.IsSorted u → Set.IsSorted (union_operand u o)
  unfolding union_operand
  union_operand-IsSorted u missing v = v
  union_operand-IsSorted u wrong v = v
  union_operand-IsSorted u (members t) v = insert_members-IsSorted u t v

  union_loop-ok :
      (u : List Bytes) (keys : List Bytes)
      → Set.IsSorted u
      → Returns (union_loop u keys s) (λ r.
        (r.1 ≡ s)
        × Set.IsSorted r.0
        × ((x : Bytes) → Set.contains r.0 x ≡ (Set.contains u x || in_any xs keys x)))
  unfolding in_any
  union_loop-ok u [] v = ((u, s), unfold union_loop in refl, (refl, v, λ x. ground arith))
  union_loop-ok u (key ∷ keys) v =
      let o = operand_at xs key in
      let (r, run, (e, sorted, f)) =
        union_loop-ok (union_operand u o) keys (union_operand-IsSorted u o v) in
      (
        r,
        union_step u key keys ∙ run,
        (e, sorted, λ x. f x ∙ rw (contains-union_operand u (operand_at xs key) x) (ground arith)),
      )

  diff_step :
      (u : List Bytes) (key : Bytes) (keys : List Bytes)
      → diff_loop u (key ∷ keys) s ≡ diff_loop (diff_operand u (operand_at xs key)) keys s
  unfolding diff_loop
  diff_step u key keys =
      ap (λ r. and_then r (λ o. diff_loop (diff_operand u o) keys)) (operand-ok s xs key h)

  contains-diff_operand :
      (u : List Bytes) (o : Operand) (x : Bytes)
      → Set.IsSorted u
      → Set.contains (diff_operand u o) x ≡ (Set.contains u x && not (has_member o x))
  unfolding diff_operand
  contains-diff_operand u missing x v = ground arith
  contains-diff_operand u wrong x v = ground arith
  contains-diff_operand u (members t) x v = contains-remove_members u t x v

  diff_operand-IsSorted :
      (u : List Bytes) (o : Operand) → Set.IsSorted u → Set.IsSorted (diff_operand u o)
  unfolding diff_operand
  diff_operand-IsSorted u missing v = v
  diff_operand-IsSorted u wrong v = v
  diff_operand-IsSorted u (members t) v = remove_members-IsSorted u t v

  diff_loop-ok :
      (u : List Bytes) (keys : List Bytes)
      → Set.IsSorted u
      → Returns (diff_loop u keys s) (λ r.
        (r.1 ≡ s)
        × Set.IsSorted r.0
        × ((x : Bytes) → Set.contains r.0 x ≡ (Set.contains u x && not (in_any xs keys x))))
  unfolding in_any
  diff_loop-ok u [] v = ((u, s), unfold diff_loop in refl, (refl, v, λ x. ground arith))
  diff_loop-ok u (key ∷ keys) v =
      let o = operand_at xs key in
      let (r, run, (e, sorted, f)) =
        diff_loop-ok (diff_operand u o) keys (diff_operand-IsSorted u o v) in
      (
        r,
        diff_step u key keys ∙ run,
        (e, sorted, λ x. f x ∙ rw (contains-diff_operand u o x v) (ground arith)),
      )

  -- SUNION on a database whose nodes, index and list agree ends without a fault and changes
  -- nothing. It replies with exactly the members of the sets at the keys, each one once and in
  -- order; a key that is not there or holds another type adds none.
  pub command_sunion-members :
      (cmd key : Bytes) (keys : List Bytes)
      → Returns (command_sunion (cmd ∷ (key ∷ keys)) s) (λ r.
        (t : List Bytes) × (r ≡ (array_reply t, s))
        × Set.IsSorted t
        × ((x : Bytes) → Set.contains t x ≡ in_any xs (key ∷ keys) x))
  unfolding command_sunion
  command_sunion-members cmd key keys =
      let (r, run, (e, sorted, f)) = union_loop-ok [] (key ∷ keys) tt in
      (
        (array_reply r.0, s),
        rw (two_or_more cmd key keys, run, e),
        (r.0, refl, sorted, λ x. f x ∙ (unfold Set.contains in refl)),
      )

  sdiff-ok :
      (cmd key : Bytes) (keys : List Bytes) (o : Operand) (r : Result (Bytes × Store))
      → operand_at xs key ≡ o
      → diff_from keys o s ≡ r
      → command_sdiff (cmd ∷ (key ∷ keys)) s ≡ r
  unfolding command_sdiff
  sdiff-ok cmd key keys o r e run = rw (two_or_more cmd key keys) (
      ap (λ q. and_then q (diff_from keys)) (operand-ok s xs key h)
      ∙ subst (λ o. diff_from keys o s ≡ r) (sym e) run)

  left_over :
      (t : List Bytes) (keys : List Bytes)
      → Set.IsSorted t
      → Returns
          (and_then (diff_loop t keys s) (λ u. pure (array_reply u)))
          (λ r. (r.1 ≡ s) × IsDifference t (in_any xs keys) r.0)
  left_over t keys v =
      let (r, run, (e, sorted, f)) = diff_loop-ok t keys v in
      ((array_reply r.0, r.1), rw run, (e, (r.0, refl, sorted, f)))

  sdiff-Outcome :
      (cmd key : Bytes) (keys : List Bytes) (o : Operand)
      → operand_at xs key ≡ o
      → IsSortedOperand o
      → Returns
          (command_sdiff (cmd ∷ (key ∷ keys)) s)
          (λ r. (r.1 ≡ s) × Outcome o (in_any xs keys) r.0)
  sdiff-Outcome cmd key keys missing e v =
      let (r, run, d) = left_over [] keys tt in (r, sdiff-ok cmd key keys missing _ e run, d)
  sdiff-Outcome cmd key keys wrong e v =
      ((wrong_type, s), sdiff-ok cmd key keys wrong _ e refl, (refl, refl))
  sdiff-Outcome cmd key keys (members t) e v =
      let (r, run, d) = left_over t keys v in (r, sdiff-ok cmd key keys (members t) _ e run, d)

  -- SDIFF on a database whose nodes, index and list agree ends without a fault and changes
  -- nothing. Where the first key holds another type, the reply is an error. Else it is exactly the
  -- members of the set there, if any, that are in none of the sets at the other keys, each one once
  -- and in order. The set at the first key is in order.
  pub command_sdiff-Outcome :
      (cmd key : Bytes) (keys : List Bytes)
      → IsSortedOperand (operand_at xs key)
      → Returns
          (command_sdiff (cmd ∷ (key ∷ keys)) s)
          (λ r. (r.1 ≡ s) × Outcome (operand_at xs key) (in_any xs keys) r.0)
  command_sdiff-Outcome cmd key keys v = sdiff-Outcome cmd key keys (operand_at xs key) refl v
