-- ===== src/Commands/Strings/Entries.antt =====
-- GET against the list of entries that the database holds, from the least
-- to the most recently used one.
use druta_db.Prelude.{
  zero, suc, Bool, false, ltb_ℤ, pos, negsuc, arith, ◌≡◌, refl, ap, subst, ◌∙◌, inl, inr, Option,
  none, some, List, [], ◌∷◌, ◌++◌, if◌then◌else◌, Bool-cases, Bytes, bytes_key, same, same_iff,
  snoc, ℤ, Result, ok, fault, Returns,
}
use mathlib.Core.Option
use druta_db.Value.{ValueData, string, list, hash, set}
use druta_db.Store.{Ptr, null, DrutaNode, Store, Cmd, pure, load, ◌>>◌, and_then, erase_key}
use druta_db.Lru.{remove_from_lru}
use druta_db.Lru.Chain.{Item, node_of, first_or, last_or}
use druta_db.Lru.Steps.{load-ok}
use druta_db.Lru.Detach.{Links-Around}
use druta_db.Lru.Touch.{touch_lru-Touched}
use druta_db.Lru.Holds.{Holds, ptr_of, ptr_of_item}
use druta_db.Lru.Insert.{Touched-Holds}
use druta_db.Lru.Remove.{remove_from_lru-Holds}
use druta_db.Commands.Replies.{nil_reply, wrong_type, bulk_reply}
use druta_db.Commands.Strings.{is_expired, get_data, command_get}

-- The entry with a key, between the older and the newer ones.
abbrev pub Place : Type 0
Place = List Item × Item × List Item

abbrev behind : Item → Place → Place
behind x (as_, i, bs) = (x ∷ as_, i, bs)

unfoldable pub find_entry : Bytes → List Item → Option Place
find_entry k [] = none
find_entry k (x ∷ xs) =
    let rest = find_entry k xs in
    if same k x.key then some ([], x, xs) else Option.map (behind x) rest

-- Where a key is.
pub data Search (k : Bytes) (xs : List Item) : Type 0 where
  absent : find_entry k xs ≡ none → ptr_of xs k ≡ none → Search k xs
  present :
      (as_ : List Item) (i : Item) (bs : List Item)
      → find_entry k xs ≡ some (as_, i, bs)
      → xs ≡ as_ ++ (i ∷ bs)
      → k ≡ i.key
      → Search k xs

pub Search-entry : (k : Bytes) (xs : List Item) → Search k xs
unfolding find_entry
Search-entry k [] = absent refl refl
Search-entry k (x ∷ xs) =
    let later = Search-entry k xs in
    elim (Bool-cases (same k x.key)) [
      | inl hit ↦ present [] x xs (rw hit) refl ((same_iff k x.key).0 hit)
      | inr miss ↦ elim later [
        | absent e f ↦ absent (rw (miss, e)) (rw (miss, f))
        | present as_ i bs e q n ↦ present (x ∷ as_) i bs (rw (miss, e)) (ap (λ l. x ∷ l) q) n
      ]
    ]

-- Two calls, and a result that does not depend on them.
pub then_pure :
    {B : Type 0} (r : Result (Unit {0} × Store)) (n : Cmd (Unit {0})) (b : B) (a : Unit {0} × Store)
    → and_then r (λ _. n) ≡ ok a
    → and_then r (λ _. n >> pure b) ≡ ok (b, a.1)
then_pure (ok (u, t)) n b a e = rw e
then_pure (fault x) n b a e = cc

-- A string with a time has expired after it; 0 stands for no time.
abbrev pub has_expired : ℤ → ℤ → Bool
has_expired now (pos zero) = false
has_expired now time = ltb_ℤ time now

is_expired-eq : (now time : ℤ) → is_expired now time ≡ has_expired now time
unfolding is_expired
is_expired-eq now (pos zero) = ground arith
is_expired-eq now (pos (suc n)) = ground arith
is_expired-eq now (negsuc n) = ground arith

-- What GET answers for an entry and what it leaves.
abbrev pub get_entry : ℤ → List Item → Item → List Item → ValueData → Bytes × List Item
get_entry now as_ i bs (string val) =
    if has_expired now i.value.expiry_time
    then (nil_reply, as_ ++ bs)
    else (bulk_reply val, snoc (as_ ++ bs) i)
get_entry now as_ i bs other = (wrong_type, as_ ++ (i ∷ bs))

abbrev pub get_place : ℤ → List Item → Option Place → Bytes × List Item
get_place now xs none = (nil_reply, xs)
get_place now xs (some (as_, i, bs)) = get_entry now as_ i bs i.value.data_

-- GET as a function of the entries.
unfoldable pub get_of_entries : ℤ → Bytes → List Item → Bytes × List Item
unfolding find_entry
get_of_entries now key xs = get_place now xs (find_entry key xs)

module _ (now : ℤ) (s : Store) (as_ : List Item) (i : Item) (bs : List Item)
    (h : Holds s (as_ ++ (i ∷ bs))) where
  string_data-Holds :
      (val : Bytes)
      → Returns (get_data now i.key i.at i.value.expiry_time (string val) s) (λ r.
        (r.0 ≡ (get_entry now as_ i bs (string val)).0)
        × Holds r.1 (get_entry now as_ i bs (string val)).1)
  unfolding get_data
  string_data-Holds val = elim (Bool-cases (has_expired now i.value.expiry_time)) [
    | inl late ↦
        let (a, run, h') = remove_from_lru-Holds s as_ i bs h in
        rw (is_expired-eq now i.value.expiry_time, late)
          (
            (nil_reply, a.1),
            then_pure (remove_from_lru i.at s) (erase_key i.key) nil_reply a run,
            (refl, h'),
          )
    | inr fresh ↦
        let (a, run, t) = touch_lru-Touched s as_ i bs h.shape.links in
        rw (is_expired-eq now i.value.expiry_time, fresh)
          ((bulk_reply val, a.1), rw run, (refl, Touched-Holds s a.1 as_ i bs h t))
  ]

  data-Holds :
      (d : ValueData)
      → Returns
          (get_data now i.key i.at i.value.expiry_time d s)
          (λ r. (r.0 ≡ (get_entry now as_ i bs d).0) × Holds r.1 (get_entry now as_ i bs d).1)
  data-Holds (string val) = string_data-Holds val
  data-Holds (list l) = unfold get_data in ((wrong_type, s), refl, (refl, h))
  data-Holds (hash m) = unfold get_data in ((wrong_type, s), refl, (refl, h))
  data-Holds (set m) = unfold get_data in ((wrong_type, s), refl, (refl, h))

get_found-ok :
    (now : ℤ) (cmd key : Bytes) (s : Store) (p : Ptr) (n : DrutaNode)
    → s.kv_store key ≡ some p
    → load p s ≡ ok (n, s)
    → command_get now (cmd ∷ key ∷ []) s ≡ get_data now key p n.value.expiry_time n.value.data_ s
unfolding command_get
get_found-ok now cmd key s p n k l = rw (k, l)

get_missing-ok :
    (now : ℤ) (cmd key : Bytes) (s : Store)
    → s.kv_store key ≡ none
    → command_get now (cmd ∷ key ∷ []) s ≡ ok (nil_reply, s)
unfolding command_get
get_missing-ok now cmd key s k = rw k

present-Holds :
    (now : ℤ) (cmd : Bytes) (s : Store) (as_ : List Item) (i : Item) (bs : List Item)
    → Holds s (as_ ++ (i ∷ bs))
    → Returns (command_get now (cmd ∷ i.key ∷ []) s) (λ r.
      (r.0 ≡ (get_entry now as_ i bs i.value.data_).0)
      × Holds r.1 (get_entry now as_ i bs i.value.data_).1)
present-Holds now cmd s as_ i bs h =
    let n = node_of i (last_or null as_) (first_or null bs) in
    let node = load-ok i.at s n (Links-Around s as_ i bs h.shape.links).node in
    let key = h.shape.keys i.key ∙ ptr_of_item as_ i bs h.shape.distinct_keys in
    let (a, run, d) = data-Holds now s as_ i bs h i.value.data_ in
    (a, get_found-ok now cmd i.key s i.at n key node ∙ run, d)

-- GET on a database in order ends without a fault. Its reply and the entries it leaves are those
-- of `get_of_entries`: nil for a missing key; nil and the entry removed for a string that has
-- expired; a string's value, and the entry becomes the most recently used one; an error for
-- another type, and nothing changes.
pub command_get-Holds :
    (now : ℤ) (cmd key : Bytes) (s : Store) (xs : List Item)
    → Holds s xs
    → Returns
        (command_get now (cmd ∷ key ∷ []) s)
        (λ r. (r.0 ≡ (get_of_entries now key xs).0) × Holds r.1 (get_of_entries now key xs).1)
unfolding get_of_entries
command_get-Holds now cmd key s xs h = elim (Search-entry key xs) [
  | absent e f ↦
      rw e ((nil_reply, s), get_missing-ok now cmd key s (h.shape.keys key ∙ f), (refl, h))
  | present as_ i bs e q n ↦ rw (e, n) (present-Holds now cmd s as_ i bs (subst (Holds s) q h))
]
