-- ===== src/Lru/Consistent/Calls.antt =====
-- The calls of src/lru.cpp, and the ways that handlers put them together, leave a consistent
-- database.
use druta_db.Prelude.{
  ℕ, zero, suc, ◌≡◌, refl, sym, subst, inl, inr, true, false, ◌&&◌, not, none, some, Option, List,
  [], ◌∷◌, ◌++◌, ltb, ◌==◌, Bool-cases, Bytes, bytes_key, snoc, Result, ok, fault,
}
use druta_db.Value.{DrutaValue}
use druta_db.Text.Storage.{max_string_size}
use druta_db.Store.{
  reserve, Ptr, null, DrutaNode, Store, Cmd, pure, ◌>>=◌, ◌>>◌, lift, arg, modify, find_key,
  new_node, get_memory_usage,
}
use druta_db.Lru.{
  lru_max_memory, evict_lru, evict_loop, evict_until_safe, touch_lru, notify_memory_change,
  update_lru, add_lru, changed_memory,
}
use druta_db.Lru.Chain.{Item}
use druta_db.Lru.Touch.{touch_lru-Touched}
use druta_db.Lru.Holds.{Shape}
use druta_db.Lru.Evict.{evict_lru-Evicted}
use druta_db.Lru.Insert.{Touched-Shape, new_item, add_new-Added}
use druta_db.Lru.Change.Outcome.{touch_lru-dangling}
use druta_db.Lru.Consistent.{
  IsSoundValue, AreSound, Consistent, Stays, Keeps, then-Stays, AreSound-split, AreSound-snoc,
  at_entry, load-Keeps, modify-Keeps, with_memory-Consistent,
}

pub bind-Keeps :
    {A B : Type 0} (m : Cmd A) (k : A → Cmd B) → Keeps m → ((a : A) → Keeps (k a)) → Keeps (m >>= k)
bind-Keeps m k h c s o = then-Stays (m s) k (h s o) c

pub pure-Keeps : {A : Type 0} (a : A) → Keeps (pure a)
pure-Keeps a s c = c

pub lift-Keeps : {A : Type 0} (r : Result A) → Keeps (lift r)
lift-Keeps (ok a) s c = c
lift-Keeps (fault e) s c = tt

pub arg-Keeps : (args : List Bytes) (i : ℕ) → Keeps (arg args i)
arg-Keeps args i = lift-Keeps _

pub reserve-Keeps : (n : ℕ) → Keeps (reserve n)
unfolding reserve
reserve-Keeps n s c = elim (Bool-cases (ltb max_string_size n)) [ inl e ↦ rw e tt | inr e ↦ rw e c ]

-- A handler that looks its key up.
pub found-Keeps :
    {B : Type 0} (key : Bytes) (k : Option Ptr → Cmd B)
    → ((s : Store) → Consistent s → s.kv_store key ≡ none → Stays (k none s))
    → ((p : Ptr) (s : Store) → Consistent s → s.kv_store key ≡ some p → Stays (k (some p) s))
    → Keeps (find_key key >>= k)
found-Keeps key k n f s c =
    (elim (s.kv_store key) as (λ o. s.kv_store key ≡ o → Stays (k o s)) [
      | none ↦ n s c
      | some p ↦ f p s c
    ])
      refl

pub touch_lru-Keeps : (p : Ptr) → Keeps (touch_lru p)
touch_lru-Keeps p s c =
    at_entry (λ s p. Consistent s → Stays (touch_lru p s))
      (λ s as_ i bs h v c.
        let (a, run, t) = touch_lru-Touched s as_ i bs h.links in
        let parts = AreSound-split as_ i bs v in
        rw run (record {
          items = snoc (as_ ++ bs) i;
          shape = Touched-Shape s a.1 as_ i bs h t;
          sound = AreSound-snoc (as_ ++ bs) i parts.0 parts.1;
        }))
      (λ s xs p h e n c. elim (Bool-cases (p == null)) [
        | inl e ↦ unfold touch_lru in rw e c
        | inr e ↦ rw (touch_lru-dangling s xs p h n e) tt
      ])
      s p c c

evict_lru-Stays : (s : Store) (xs : List Item) → Shape s xs → AreSound xs → Stays (evict_lru s)
evict_lru-Stays s [] h v =
    let e : (s.tail == null) ≡ true = subst (λ q. (q == null) ≡ true) (sym h.links.tail) refl in
    unfold evict_lru in rw e (record { items = []; shape = h; sound = v })
evict_lru-Stays s (i ∷ xs) h v =
    let (a, run, e) = evict_lru-Evicted s i xs h in
    rw run (record { items = xs; shape = e.shape; sound = v.1 })

evict_lru-Keeps : Keeps evict_lru
evict_lru-Keeps s c = evict_lru-Stays s c.items c.shape c.sound

evict_loop-Keeps : (fuel : ℕ) → Keeps (evict_loop fuel)
unfolding evict_loop
evict_loop-Keeps zero s c = tt
evict_loop-Keeps (suc fuel) s c =
    (elim (ltb lru_max_memory s.current_memory_usage && not (s.tail == null))
      as (λ b. Stays (elim b as (λ b. Result (Unit {0} × Store)) [
        | true ↦ (evict_lru >> evict_loop fuel) s
        | false ↦ pure tt s
      ])) [
        | true ↦
            bind-Keeps evict_lru (λ _. evict_loop fuel) evict_lru-Keeps (λ _. evict_loop-Keeps fuel)
              s c
        | false ↦ c
      ])

pub evict_until_safe-Keeps : Keeps evict_until_safe
unfolding evict_until_safe
evict_until_safe-Keeps s c = evict_loop-Keeps (suc s.lru_size) s c

pub notify_memory_change-Keeps :
    (old_size new_size : ℕ) → Keeps (notify_memory_change old_size new_size)
unfolding notify_memory_change
notify_memory_change-Keeps old_size new_size s c =
    evict_until_safe-Keeps
      (record s { current_memory_usage = changed_memory old_size new_size s.current_memory_usage })
      (with_memory-Consistent s (changed_memory old_size new_size s.current_memory_usage) c)

-- A key that is not there gets a node with a sound value.
pub add_new-Keeps :
    {B : Type 0} (key : Bytes) (value : DrutaValue) (k : Ptr → Cmd B)
    → IsSoundValue value
    → ((p : Ptr) → Keeps (k p))
    → (s : Store) → Consistent s
    → s.kv_store key ≡ none
    → Stays ((new_node key value >>= λ node. (add_lru node >>= λ _. k node)) s)
unfolding new_node
add_new-Keeps key value k v later s c e =
    let a = add_new-Added s c.items c.shape key value e in
    let made : Consistent a.reached = record {
      items = snoc c.items (new_item s key value);
      shape = a.shape;
      sound = AreSound-snoc c.items (new_item s key value) c.sound v;
    } in
    rw a.run (
      then-Stays (evict_until_safe a.reached) (λ _. k s.fresh)
        (evict_until_safe-Keeps a.reached made) (λ _. later s.fresh))

pub update_lru-Keeps :
    (p : Ptr) (value : DrutaValue) → IsSoundValue value → Keeps (update_lru p value)
unfolding update_lru
update_lru-Keeps p value v s c = elim (Bool-cases (p == null)) [
  | inl e ↦ rw e c
  | inr n ↦ rw n (
      load-Keeps p _
        (λ old _.
          bind-Keeps (modify p (λ m. record m { value = value })) _
            (modify-Keeps p (λ m. record m { value = value }) (λ _. value) (λ n. refl) (λ _ _. v))
            (λ _. load-Keeps p _ (λ new _.
              bind-Keeps (notify_memory_change (get_memory_usage old) (get_memory_usage new)) _
                (notify_memory_change-Keeps (get_memory_usage old) (get_memory_usage new))
                (λ _. touch_lru-Keeps p))))
        s c)
]

-- A write of a value that stays sound, the account's change and the touch, then the rest.
pub change-Keeps :
    {B : Type 0} (p : Ptr) (f : DrutaNode → DrutaNode) (g : DrutaValue → DrutaValue)
    (old_size new_size : ℕ) (k : Cmd B)
    → ((n : DrutaNode) → f n ≡ record n { value = g n.value })
    → ((v : DrutaValue) → IsSoundValue v → IsSoundValue (g v))
    → Keeps k
    → Keeps (
        modify p f >>= λ _.
        (notify_memory_change old_size new_size >>= λ _. (touch_lru p >>= λ _. k)))
change-Keeps p f g old_size new_size k sets keeps later =
    bind-Keeps (modify p f) _ (modify-Keeps p f g sets keeps) (λ _.
      bind-Keeps (notify_memory_change old_size new_size) _
        (notify_memory_change-Keeps old_size new_size)
        (λ _. bind-Keeps (touch_lru p) (λ _. k) (touch_lru-Keeps p) (λ _. later)))

-- An entry is touched, then the rest.
pub then_touch-Keeps : {B : Type 0} (p : Ptr) (k : Cmd B) → Keeps k → Keeps (touch_lru p >>= λ _. k)
then_touch-Keeps p k later = bind-Keeps (touch_lru p) (λ _. k) (touch_lru-Keeps p) (λ _. later)

-- A handler of a key and, if it is there, of its node.
pub keyed-Keeps :
    {B : Type 0} (args : List Bytes) (i : ℕ) (k : Bytes → Option Ptr → Cmd B)
    → ((key : Bytes) (o : Option Ptr) → Keeps (k key o))
    → Keeps (arg args i >>= λ key. (find_key key >>= k key))
keyed-Keeps args i k h =
    bind-Keeps (arg args i) _ (arg-Keeps args i)
      (λ key. found-Keeps key (k key) (λ s c e. h key none s c) (λ p s c e. h key (some p) s c))
