-- ===== src/Commands/Lists/Removals.antt =====
-- LPOP and RPOP of a list that is there, against the list of entries that the database holds.
use druta_db.Prelude.{
  ℕ, ◌-◌, ◌^◌, ◌≤◌, ◌<◌, ◌≡◌, Bool, some, none, List, [], ◌∷◌, ◌++◌, length, take, drop, ltb, Bytes,
  pos, sub_size, if◌then◌else◌, ◌≡◌,
}
use druta_db.Text.{stoi}
use druta_db.Value.{DrutaValue, list}
use druta_db.Store.{DrutaNode, Store}
use druta_db.Lru.Chain.{Item}
use druta_db.Lru.Holds.{Holds}
use druta_db.Lru.Change.{with_value}
use druta_db.Commands.Lists.{set_list, oriented}
use druta_db.Commands.Lists.Pushes.{push_usage}

-- How many elements the arguments after the key ask for: one, if there are none or the only one is
-- no number; else the number.
pub data Asks : List Bytes → ℕ → Type 0 where
  by_default : Asks [] 1
  no_number : {c : Bytes} → stoi c ≡ none → Asks (c ∷ []) 1
  number : {c : Bytes} {n : ℕ} → stoi c ≡ some (pos n) → Asks (c ∷ []) n

-- How many elements go.
unfoldable pub pop_size : ℕ → List Bytes → ℕ
pop_size count l = if ltb (length l) count then length l else count

-- The elements that go, from the end that is popped on, and the list that stays.
unfoldable pub popped : Bool → ℕ → List Bytes → List Bytes
popped from_front count l = take (pop_size count l) (oriented from_front l)

unfoldable pub remaining : Bool → ℕ → List Bytes → List Bytes
remaining from_front count l = oriented from_front (drop (pop_size count l) (oriented from_front l))

-- The value after a pop.
abbrev pub popped_value : Bool → ℕ → List Bytes → DrutaValue → DrutaValue
popped_value from_front count l v = record v {
  data_ = list (remaining from_front count l);
  memory_usage = v.memory_usage - push_usage (popped from_front count l);
}

module _ (from_front : Bool) (cmd : Bytes) (rest : List Bytes) (count : ℕ) (l : List Bytes)
    (s : Store) (as_ : List Item) (i : Item) (bs : List Item) (h : Holds s (as_ ++ (i ∷ bs)))
    (is_list : i.value.data_ ≡ list l) (asked : Asks rest count) (small : length l < 2 ^ 31)
    (charged : push_usage (popped from_front count l) ≤ i.value.memory_usage) where
  abbrev new : Item
  new = with_value i (popped_value from_front count l i.value)

  abbrev cost : ℕ
  cost = push_usage (popped from_front count l)

  abbrev set_node : DrutaNode → DrutaNode
  set_node = set_list (remaining from_front count l) (λ usage. sub_size usage cost)
