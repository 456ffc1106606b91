-- ===== src/Commands/Sets/Members.antt =====
-- The loops of SADD, SDEL, SDIFF, SINTER and SUNION against membership.
use druta_db.Prelude.{
  ℕ, ◌+◌, ◌≡◌, refl, ◌∙◌, inl, inr, ◌&&◌, ◌||◌, not, List, [], ◌∷◌, arith, if◌then◌else◌, length,
  Bool-cases, Bytes, bytes_key, ℤ, int_of_size, size_of_int, same, same_iff, same_refl,
}
use druta_db.Ordered.Set
use druta_db.Value.{set_element_usage}
use druta_db.Commands.Sets.{
  add_members, del_members, remove_members, common_members, insert_members,
}

-- What the loop of SADD owes: the set stays in order, holds the old and the new members, and has
-- grown by what has been counted.
pub record Added (s : List Bytes) (created : ℕ) (items : List Bytes) (r : List Bytes × ℤ × ℕ)
    : Type 0 where
  pub sorted : Set.IsSorted r.0
  pub members : (x : Bytes) → Set.contains r.0 x ≡ (Set.contains s x || Set.contains items x)
  pub counted : length r.0 + created ≡ length s + r.2

Added-step :
    (s : List Bytes) (a : Bytes) (created created' : ℕ) (items : List Bytes)
    (r : List Bytes × ℤ × ℕ)
    → Set.IsSorted s
    → created' ≡ (if not (Set.contains s a) then created + 1 else created)
    → Added (Set.insert s a) created' items r
    → Added s created (a ∷ items) r
unfolding Set.contains
Added-step s a created created' items r o e h = record {
  sorted = h.sorted;
  members = λ x. ground (arith, h.members x, Set.contains-insert s a x);
  counted = ground (arith, h.counted, Set.length-insert s a o);
}

-- The loop of SADD, on a set in order: it stays in order, its members are the old ones and the
-- items, and the count grows by exactly the number of members that are new.
pub add_members-Added :
    (s : List Bytes) (delta : ℤ) (created : ℕ) (items : List Bytes)
    → Set.IsSorted s
    → Added s created items (add_members s delta created items)
unfolding add_members
add_members-Added s delta created [] o = record {
  sorted = o;
  members = λ x. unfold Set.contains in ground arith;
  counted = refl;
}
add_members-Added s delta created (a ∷ items) o =
    let fresh = not (Set.contains s a) in
    let created' = if fresh then created + 1 else created in
    let delta' = if fresh then int_of_size (size_of_int delta + set_element_usage a) else delta in
    Added-step s a created created' items (add_members (Set.insert s a) delta' created' items) o
      refl (add_members-Added (Set.insert s a) delta' created' items (Set.insert-IsSorted s a o))

-- What the loop of SDEL owes.
pub record Deleted (s : List Bytes) (deleted : ℕ) (items : List Bytes) (r : List Bytes × ℤ × ℕ)
    : Type 0 where
  pub sorted : Set.IsSorted r.0
  pub members : (x : Bytes) → Set.contains r.0 x ≡ (Set.contains s x && not (Set.contains items x))
  pub counted : length r.0 + r.2 ≡ length s + deleted

Deleted-step :
    (s : List Bytes) (a : Bytes) (deleted deleted' : ℕ) (items : List Bytes)
    (r : List Bytes × ℤ × ℕ)
    → Set.IsSorted s
    → deleted' ≡ (if Set.contains s a then deleted + 1 else deleted)
    → Deleted (Set.erase s a) deleted' items r
    → Deleted s deleted (a ∷ items) r
unfolding Set.contains
Deleted-step s a deleted deleted' items r o e h = record {
  sorted = h.sorted;
  members = λ x. ground (arith, h.members x, Set.contains-erase s a x o);
  counted = ground (arith, h.counted, Set.length-erase s a);
}

-- The loop of SDEL, on a set in order: it stays in order, its members are the old ones without the
-- items, and the count grows by exactly the number of members that are gone.
pub del_members-Deleted :
    (s : List Bytes) (delta : ℤ) (deleted : ℕ) (items : List Bytes)
    → Set.IsSorted s
    → Deleted s deleted items (del_members s delta deleted items)
unfolding del_members
del_members-Deleted s delta deleted [] o = record {
  sorted = o;
  members = λ x. unfold Set.contains in ground arith;
  counted = refl;
}
del_members-Deleted s delta deleted (a ∷ items) o =
    let there = Set.contains s a in
    let deleted' = if there then deleted + 1 else deleted in
    let delta' = if there then int_of_size (size_of_int delta + set_element_usage a) else delta in
    Deleted-step s a deleted deleted' items (del_members (Set.erase s a) delta' deleted' items) o
      refl (del_members-Deleted (Set.erase s a) delta' deleted' items (Set.erase-IsSorted s a o))

-- A round of SUNION leaves exactly the members of either set.
pub contains-insert_members :
    (union_set s : List Bytes) (x : Bytes)
    → Set.contains (insert_members union_set s) x ≡ (Set.contains union_set x || Set.contains s x)
unfolding insert_members Set.contains
contains-insert_members union_set [] x = ground arith
contains-insert_members union_set (a ∷ s) x =
    ground (
      arith,
      contains-insert_members (Set.insert union_set a) s x,
      Set.contains-insert union_set a x,
    )

contains-cons :
    (a x : Bytes) (s : List Bytes) → Set.contains (a ∷ s) x ≡ (same a x || Set.contains s x)
unfolding Set.contains
contains-cons a x s = refl

one_common :
    (next_inter s : List Bytes) (a x : Bytes)
    → Set.contains (if Set.contains s a then Set.insert next_inter a else next_inter) x
      ≡ (Set.contains next_inter x || (same a x && Set.contains s x))
one_common next_inter s a x = elim (Bool-cases (same a x)) [
  | inl e ↦
      let q = (same_iff a x).0 e in
      rw (q, same_refl x) (ground (arith, Set.contains-insert next_inter x x, same_refl x))
  | inr n ↦ ground (arith, Set.contains-insert next_inter a x)
]

-- A round of SINTER keeps, beside what has been kept, exactly what is in both sets.
pub contains-common_members :
    (next_inter inter_set s : List Bytes) (x : Bytes)
    → Set.contains (common_members next_inter inter_set s) x
      ≡ (Set.contains next_inter x || (Set.contains inter_set x && Set.contains s x))
unfolding common_members
contains-common_members next_inter [] s x = unfold Set.contains in ground arith
contains-common_members next_inter (a ∷ inter_set) s x =
    let next = if Set.contains s a then Set.insert next_inter a else next_inter in
    contains-common_members next inter_set s x
    ∙ rw (one_common next_inter s a x, contains-cons a x inter_set) (ground arith)

-- One member of the other set.
remove_one :
    (d : List Bytes) (a x : Bytes)
    → Set.IsSorted d
    → Set.contains (if Set.contains d a then Set.erase d a else d) x
      ≡ (Set.contains d x && not (same a x))
remove_one d a x o = ground (arith, Set.contains-erase d a x o, same_iff a x)

pub remove_one-IsSorted :
    (d : List Bytes) (a : Bytes)
    → Set.IsSorted d
    → Set.IsSorted (if Set.contains d a then Set.erase d a else d)
remove_one-IsSorted d a o = ground (arith, Set.erase-IsSorted d a o)

-- A round of SDIFF, on a set in order, leaves exactly the members that are not in the other set.
pub contains-remove_members :
    (diff_set s : List Bytes) (x : Bytes)
    → Set.IsSorted diff_set
    → Set.contains (remove_members diff_set s) x
      ≡ (Set.contains diff_set x && not (Set.contains s x))
unfolding remove_members
contains-remove_members diff_set [] x o = unfold Set.contains in ground arith
contains-remove_members diff_set (a ∷ s) x o =
    let d = if Set.contains diff_set a then Set.erase diff_set a else diff_set in
    contains-remove_members d s x (remove_one-IsSorted diff_set a o)
    ∙ rw (remove_one diff_set a x o, contains-cons a x s) (ground arith)
