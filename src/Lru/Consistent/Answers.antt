-- ===== src/Lru/Consistent/Answers.antt =====
-- Calls that a database answers whose values are readable without a fault.
use druta_db.Prelude.{
  false, All, ◌+◌, ◌≤◌, ◌<◌, ◌^◌, ltb, ℕ, zero, suc, ◌≡◌, refl, ap, subst, ◌∙◌, true, none, some,
  Option, List, [], ◌∷◌, ◌++◌, arith, ltb, length, get_elem?, Bytes, bytes_key, snoc, Result, ok,
  Returns,
}
use druta_db.Store.{reserve, Ptr, null, DrutaNode, Store, Cmd, and_then, ◌>>=◌, arg, load, find_key}
use druta_db.Lru.{touch_lru}
use druta_db.Lru.Chain.{Item, node_of, first_or, last_or}
use druta_db.Lru.Steps.{load-ok}
use druta_db.Lru.Detach.{Links-Around}
use druta_db.Lru.Touch.{touch_lru-Touched}
use druta_db.Lru.Holds.{Shape, ptr_of, ptr_of_item}
use druta_db.Lru.Insert.{Touched-Shape}
use druta_db.Text.Storage.{max_string_size}
use druta_db.Value.{DrutaValue, ValueData, string, list, hash, set}
use druta_db.Lru.Consistent.{IsSoundValue}
use druta_db.Commands.Strings.Entries.{absent, present, Search-entry}

-- What a reply needs: a list whose length is an `int`, and an account, of a hash or of a set's
-- value, that a string can reserve.
abbrev pub IsSmall : ValueData → ℕ → Type 0
IsSmall (string s) usage = Unit
IsSmall (list l) usage = length l < 2 ^ 31
IsSmall (hash h) usage = 1024 + h.memory_usage ≤ max_string_size
IsSmall (set s) usage = 1024 + usage ≤ max_string_size

abbrev pub IsReadable : DrutaValue → Type 0
IsReadable v = IsSoundValue v × IsSmall v.data_ v.memory_usage

abbrev pub AreReadable : List Item → Type 0
AreReadable = All (λ i. IsReadable i.value)

-- The nodes, the index and the list agree, every value is sound, and a reply can be made of it.
pub record Readable (s : Store) : Type 0 where
  pub items : List Item
  pub shape : Shape s items
  pub readable : AreReadable items

pub AreReadable-split :
    (as_ : List Item) (i : Item) (bs : List Item)
    → AreReadable (as_ ++ (i ∷ bs))
    → AreReadable (as_ ++ bs) × IsReadable i.value
AreReadable-split [] i bs h = (h.1, h.0)
AreReadable-split (a ∷ as_) i bs h = let r = AreReadable-split as_ i bs h.1 in ((h.0, r.0), r.1)

AreReadable-snoc :
    (xs : List Item) (i : Item) → AreReadable xs → IsReadable i.value → AreReadable (snoc xs i)
AreReadable-snoc [] i h v = (v, tt)
AreReadable-snoc (x ∷ xs) i h v = (h.0, AreReadable-snoc xs i h.1 v)

-- The call ends without a fault, in a readable database.
abbrev pub Ends : {A : Type 0} → Result (A × Store) → Type 0
Ends r = Returns r (λ a. Readable a.1)

abbrev pub Answers : {A : Type 0} → Cmd A → Type 0
Answers c = (s : Store) → Readable s → Ends (c s)

pub pure-Answers : {A : Type 0} (a : A) (s : Store) → Readable s → Ends {A = A} (ok (a, s))
pure-Answers a s c = ((a, s), refl, c)

pub then-Ends :
    {A B : Type 0} (r : Result (A × Store)) (k : A → Cmd B)
    → Ends r
    → ((a : A) → Answers (k a))
    → Ends (and_then r k)
then-Ends r k (a, e, c) h = rw e (h a.0 a.1 c)

pub bind-Answers :
    {A B : Type 0} (m : Cmd A) (k : A → Cmd B)
    → Answers m
    → ((a : A) → Answers (k a))
    → Answers (m >>= k)
bind-Answers m k h n s c = then-Ends (m s) k (h s c) n

get_elem-there :
    {A : Type 0} (l : List A) (i : ℕ) → ltb i (length l) ≡ true → (a : A) × (get_elem? l i ≡ some a)
get_elem-there [] i h = absurd (ground arith)
get_elem-there (x ∷ l) zero h = (x, refl)
get_elem-there (x ∷ l) (suc i) h = get_elem-there l i (ground arith)

-- An argument that is there.
pub arg-Answers : (args : List Bytes) (i : ℕ) → ltb i (length args) ≡ true → Answers (arg args i)
arg-Answers args i h s c = let (a, e) = get_elem-there args i h in rw e ((a, s), refl, c)

-- A handler that looks its key up: what it does for a key that is not there, and for an entry at
-- its place.
pub found-Answers :
    {B : Type 0} (key : Bytes) (k : Option Ptr → Cmd B)
    → Answers (k none)
    → ((s : Store) (as_ : List Item) (i : Item) (bs : List Item)
        → Shape s (as_ ++ (i ∷ bs))
        → AreReadable (as_ ++ (i ∷ bs))
        → s.kv_store key ≡ some i.at
        → key ≡ i.key
        → Ends (k (some i.at) s))
    → Answers (find_key key >>= k)
found-Answers key k n f s c = elim (Search-entry key c.items) [
  | absent _ e ↦ rw (c.shape.keys key ∙ e) (n s c)
  | present as_ i bs _ q e ↦
      let h : Shape s (as_ ++ (i ∷ bs)) = subst (Shape s) q c.shape in
      let there : s.kv_store key ≡ some i.at =
        h.keys key ∙ ap (ptr_of (as_ ++ (i ∷ bs))) e ∙ ptr_of_item as_ i bs h.distinct_keys in
      rw there (f s as_ i bs h (subst AreReadable q c.readable) there e)
]

module _ (s : Store) (as_ : List Item) (i : Item) (bs : List Item) (h : Shape s (as_ ++ (i ∷ bs)))
    (v : AreReadable (as_ ++ (i ∷ bs))) where
  pub as_it_is : Readable s
  as_it_is = record { items = as_ ++ (i ∷ bs); shape = h; readable = v }

  pub load-Ends :
      {B : Type 0} (k : DrutaNode → Cmd B)
      → Ends (k (node_of i (last_or null as_) (first_or null bs)) s)
      → Ends (and_then (load i.at s) k)
  load-Ends k e =
      rw
        (load-ok i.at s (node_of i (last_or null as_) (first_or null bs))
          (Links-Around s as_ i bs h.links).node)
        e

  pub touch-Ends :
      {B : Type 0} (k : Cmd B) → Answers k → Ends (and_then (touch_lru i.at s) (λ _. k))
  touch-Ends k later =
      let (a, run, t) = touch_lru-Touched s as_ i bs h.links in
      let parts = AreReadable-split as_ i bs v in
      rw run (
        later a.1 (record {
          items = snoc (as_ ++ bs) i;
          shape = Touched-Shape s a.1 as_ i bs h t;
          readable = AreReadable-snoc (as_ ++ bs) i parts.0 parts.1;
        }))

pub reserve-Answers : (n : ℕ) → n ≤ max_string_size → Answers (reserve n)
unfolding reserve
reserve-Answers n h s c =
    let e : ltb max_string_size n ≡ false = ground (arith, h) in rw e ((tt, s), refl, c)
