-- ===== src/Lru/Chain.antt =====
-- Runs of nodes that are linked both ways.
use druta_db.Prelude.{
  ℕ, ◌≡◌, refl, ap, ◌∙◌, inl, inr, Bool, true, false, ◌||◌, Option, none, some, List, [], ◌∷◌, ◌++◌,
  arith, ◌==◌, ==_iff, if◌then◌else◌, Bool-cases, Bytes,
}
use druta_db.Value.{DrutaValue}
use druta_db.Store.{Ptr, DrutaNode}

abbrev pub Heap : Type 0
Heap = Ptr → Option DrutaNode

-- A node without its links.
pub record Item : Type 0 where
  pub at : Ptr
  pub key : Bytes
  pub value : DrutaValue

abbrev pub node_of : Item → Ptr → Ptr → DrutaNode
node_of i pv nx = record { key = i.key; next = nx; prev = pv; value = i.value }

-- The first and the last address of a run, or what stands there for an empty one.
abbrev pub first_or : Ptr → List Item → Ptr
first_or nx [] = nx
first_or nx (i ∷ xs) = i.at

abbrev pub last_or : Ptr → List Item → Ptr
last_or pv [] = pv
last_or pv (i ∷ xs) = last_or i.at xs

abbrev pub has : Ptr → List Item → Bool
has p [] = false
has p (i ∷ xs) = (p == i.at) || has p xs

abbrev pub IsDistinct : List Item → Type 0
IsDistinct [] = Unit
IsDistinct (i ∷ xs) = (has i.at xs ≡ false) × IsDistinct xs

-- The nodes of `xs` stand in the heap one after the other: `prev` of the first is `pv`, `next` of
-- the last is `nx`.
abbrev pub Seg : Heap → Ptr → List Item → Ptr → Type 0
Seg h pv [] nx = Unit
Seg h pv (i ∷ xs) nx = (h i.at ≡ some (node_of i pv (first_or nx xs))) × Seg h i.at xs nx

-- A change of the node at `p`, if there is one.
abbrev pub upd_some : (DrutaNode → DrutaNode) → Option DrutaNode → Option DrutaNode
upd_some f none = none
upd_some f (some n) = some (f n)

abbrev pub upd : Heap → Ptr → (DrutaNode → DrutaNode) → Heap
upd h p f q = if q == p then upd_some f (h q) else h q

abbrev pub with_next : Ptr → DrutaNode → DrutaNode
with_next nx n = record n { next = nx }

abbrev pub with_prev : Ptr → DrutaNode → DrutaNode
with_prev pv n = record n { prev = pv }

pub has-append : (p : Ptr) (xs ys : List Item) → has p (xs ++ ys) ≡ (has p xs || has p ys)
has-append p [] ys = refl
has-append p (x ∷ xs) ys = ground (arith, has-append p xs ys)

pub first_or-append :
    (nx : Ptr) (xs ys : List Item) → first_or nx (xs ++ ys) ≡ first_or (first_or nx ys) xs
first_or-append nx [] ys = refl
first_or-append nx (x ∷ xs) ys = refl

pub last_or-append :
    (pv : Ptr) (xs ys : List Item) → last_or pv (xs ++ ys) ≡ last_or (last_or pv xs) ys
last_or-append pv [] ys = refl
last_or-append pv (x ∷ xs) ys = last_or-append x.at xs ys

-- The last of a run that is not empty is one of it.
pub has-last : (i : Item) (xs : List Item) → has (last_or i.at xs) (i ∷ xs) ≡ true
has-last i [] = ground arith
has-last i (j ∷ xs) = ground (arith, has-last j xs)

pub frame :
    (h g : Heap) (pv : Ptr) (xs : List Item) (nx : Ptr)
    → ((p : Ptr) → has p xs ≡ true → g p ≡ h p)
    → Seg h pv xs nx
    → Seg g pv xs nx
frame h g pv [] nx e s = tt
frame h g pv (i ∷ xs) nx e s =
    (e i.at (ground arith) ∙ s.0, frame h g i.at xs nx (λ p m. e p (ground arith)) s.1)

pub split :
    (h : Heap) (pv : Ptr) (xs ys : List Item) (nx : Ptr)
    → Seg h pv (xs ++ ys) nx
    → Seg h pv xs (first_or nx ys) × Seg h (last_or pv xs) ys nx
split h pv [] ys nx s = (tt, s)
split h pv (i ∷ xs) ys nx s =
    let r = split h i.at xs ys nx s.1 in ((rw (← first_or-append nx xs ys) s.0, r.0), r.1)

pub join :
    (h : Heap) (pv : Ptr) (xs ys : List Item) (nx : Ptr)
    → Seg h pv xs (first_or nx ys)
    → Seg h (last_or pv xs) ys nx
    → Seg h pv (xs ++ ys) nx
join h pv [] ys nx s t = t
join h pv (i ∷ xs) ys nx s t = (rw (first_or-append nx xs ys) s.0, join h i.at xs ys nx s.1 t)

pub ==_comm : (p q : ℕ) → (p == q) ≡ (q == p)
==_comm p q = ground arith

-- An address outside a run is not that of a member.
pub ne_of_not_has :
    (p q : Ptr) (xs : List Item) → has p xs ≡ false → has q xs ≡ true → (p == q) ≡ false
ne_of_not_has p q xs out m = elim (Bool-cases (p == q)) [
  | inl e ↦ absurd (ground (arith, ap (λ r. has r xs) ((==_iff p q).0 e)))
  | inr n ↦ n
]

-- A change outside a run leaves it.
pub frame-upd :
    (h : Heap) (q : Ptr) (f : DrutaNode → DrutaNode) (pv : Ptr) (xs : List Item) (nx : Ptr)
    → has q xs ≡ false
    → Seg h pv xs nx
    → Seg (upd h q f) pv xs nx
frame-upd h q f pv xs nx out =
    frame h (upd h q f) pv xs nx λ p m. rw (==_comm p q, ne_of_not_has q p xs out m)

-- The last node is given another successor.
pub Seg-with_next :
    (h : Heap) (pv : Ptr) (i : Item) (xs : List Item) (nx nx' : Ptr)
    → IsDistinct (i ∷ xs)
    → Seg h pv (i ∷ xs) nx
    → Seg (upd h (last_or i.at xs) (with_next nx')) pv (i ∷ xs) nx'
Seg-with_next h pv i [] nx nx' d s = ground arith
Seg-with_next h pv i (j ∷ xs) nx nx' d s = (
  rw (ne_of_not_has i.at (last_or j.at xs) (j ∷ xs) d.0 (has-last j xs)) s.0,
  Seg-with_next h i.at j xs nx nx' d.1 s.1,
)

-- The first node is given another predecessor.
pub Seg-with_prev :
    (h : Heap) (pv pv' : Ptr) (i : Item) (xs : List Item) (nx : Ptr)
    → IsDistinct (i ∷ xs)
    → Seg h pv (i ∷ xs) nx
    → Seg (upd h i.at (with_prev pv')) pv' (i ∷ xs) nx
Seg-with_prev h pv pv' i xs nx d s =
    (ground arith, frame-upd h i.at (with_prev pv') i.at xs nx d.0 s.1)

-- Two runs with no address in common.
abbrev pub Apart : List Item → List Item → Type 0
Apart xs ys = (p : Ptr) → has p xs ≡ true → has p ys ≡ false

pub IsDistinct-split :
    (xs ys : List Item) → IsDistinct (xs ++ ys) → IsDistinct xs × IsDistinct ys × Apart xs ys
IsDistinct-split [] ys d = (tt, d, λ p m. cc)
IsDistinct-split (x ∷ xs) ys d =
    let r = IsDistinct-split xs ys d.1 in
    let out : (has x.at xs || has x.at ys) ≡ false = rw (← has-append x.at xs ys) d.0 in
    (
      (ground arith, r.0),
      r.1,
      λ p m. elim (Bool-cases (p == x.at)) [
        | inl e ↦ rw ((==_iff p x.at).0 e) (ground arith)
        | inr n ↦ r.2 p (ground arith)
      ],
    )

pub IsDistinct-join :
    (xs ys : List Item) → IsDistinct xs → IsDistinct ys → Apart xs ys → IsDistinct (xs ++ ys)
IsDistinct-join [] ys d e a = e
IsDistinct-join (x ∷ xs) ys d e a = (
  rw (has-append x.at xs ys, d.0) (a x.at (ground arith)),
  IsDistinct-join xs ys d.1 e (λ p m. a p (ground arith)),
)

or_false : (a b : Bool) → (a || b) ≡ false → (a ≡ false) × (b ≡ false)
or_false false b h = (refl, h)
or_false true b h = cc

pub not_has-append :
    (q : Ptr) (xs ys : List Item)
    → has q (xs ++ ys) ≡ false
    → (has q xs ≡ false) × (has q ys ≡ false)
not_has-append q xs ys h = or_false (has q xs) (has q ys) (rw (← has-append q xs ys) h)

pub not_has-cons :
    (q : Ptr) (i : Item) (xs : List Item)
    → has q (i ∷ xs) ≡ false
    → ((q == i.at) ≡ false) × (has q xs ≡ false)
not_has-cons q i xs h = or_false (q == i.at) (has q xs) h

pub ==_refl : (p : ℕ) → (p == p) ≡ true
==_refl p = ground arith
