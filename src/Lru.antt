-- ===== src/Lru.antt =====
-- src/lru.hpp and src/lru.cpp: the recency list, a doubly linked list through the nodes from `tail`
-- (least recent) by `next` to `head` (most recent), and the memory account.
pub mod Chain
pub mod Steps
pub mod Detach
pub mod Attach
pub mod Touch
pub mod Holds
pub mod Evict
pub mod Insert
pub mod Remove
pub mod Change
pub mod Consistent
pub mod Tests
use druta_db.Prelude.{
  ℕ, zero, suc, ◌+◌, ◌-◌, ◌*◌, Bool, true, false, ◌&&◌, ◌||◌, not, ltb, ◌==◌, if◌then◌else◌,
  add_size, sub_size, fault, out_of_fuel,
}
use druta_db.Value.{DrutaValue}
use druta_db.Store.{
  Ptr, null, DrutaNode, get_memory_usage, Store, Cmd, pure, ◌>>=◌, ◌>>◌, get_store, put_store, load,
  modify, erase_key,
}

abbrev pub lru_max_memory : ℕ
lru_max_memory = 64 * 1024 * 1024

abbrev set_head : Ptr → Cmd (Unit {0})
set_head p = do s ← get_store; put_store (record s { head = p })

abbrev set_tail : Ptr → Cmd (Unit {0})
set_tail p = do s ← get_store; put_store (record s { tail = p })

abbrev set_memory : (ℕ → ℕ) → Cmd (Unit {0})
set_memory f = do
  s ← get_store
  put_store (record s { current_memory_usage = f s.current_memory_usage })

abbrev set_size : (ℕ → ℕ) → Cmd (Unit {0})
set_size f = do s ← get_store; put_store (record s { lru_size = f s.lru_size })

unfoldable pub detach : Ptr → Cmd (Unit {0})
detach node = if node == null then pure tt else do
  n ← load node
  (if not (n.prev == null)
      then modify n.prev (λ m. record m { next = n.next })
      else set_tail n.next)
  (if not (n.next == null)
      then modify n.next (λ m. record m { prev = n.prev })
      else set_head n.prev)
  modify node (λ m. record m { prev = null })
  modify node (λ m. record m { next = null })

unfoldable pub attach_head : Ptr → Cmd (Unit {0})
attach_head node = do
  s ← get_store
  if s.head == null then (set_head node >> set_tail node) else (do
    modify node (λ m. record m { prev = s.head })
    modify s.head (λ m. record m { next = node })
    set_head node)

unfoldable pub evict_lru : Cmd (Unit {0})
evict_lru = do
  s ← get_store
  if s.tail == null then pure tt else do
    n ← load s.tail
    set_memory (λ m. sub_size m (get_memory_usage n))
    detach s.tail
    erase_key n.key
    set_size (λ k. sub_size k 1)

-- The loop of `add_lru` and `notify_memory_change`, with fuel: each round removes a node.
unfoldable pub evict_loop : ℕ → Cmd (Unit {0})
evict_loop zero = λ s. fault out_of_fuel
evict_loop (suc fuel) =
    let rest = evict_loop fuel in
    λ s. elim (ltb lru_max_memory s.current_memory_usage && not (s.tail == null)) [
      | true ↦ (evict_lru >> rest) s
      | false ↦ pure tt s
    ]

-- One round for every node, and one more to leave the loop.
unfoldable pub evict_until_safe : Cmd (Unit {0})
evict_until_safe = do s ← get_store; evict_loop (suc s.lru_size)

unfoldable pub add_lru : Ptr → Cmd (Unit {0})
add_lru node = if node == null then pure tt else do
  n ← load node
  set_memory (λ m. add_size m (get_memory_usage n))
  attach_head node
  set_size (λ k. add_size k 1)
  evict_until_safe

-- `current_memory_usage` after the change of one value's size.
unfoldable pub changed_memory : ℕ → ℕ → ℕ → ℕ
changed_memory old_size new_size current =
    if ltb old_size new_size
    then add_size current (new_size - old_size)
    else if ltb (old_size - new_size) current
    then current - (old_size - new_size)
    else 0

unfoldable pub notify_memory_change : ℕ → ℕ → Cmd (Unit {0})
notify_memory_change old_size new_size = do
  set_memory (changed_memory old_size new_size)
  evict_until_safe

unfoldable pub touch_lru : Ptr → Cmd (Unit {0})
touch_lru node = do
  s ← get_store
  if node == null || node == s.head then pure tt else (do detach node; attach_head node)

unfoldable pub update_lru : Ptr → DrutaValue → Cmd (Unit {0})
update_lru node value = if node == null then pure tt else do
  old ← load node
  modify node (λ m. record m { value = value })
  new ← load node
  notify_memory_change (get_memory_usage old) (get_memory_usage new)
  touch_lru node

unfoldable pub remove_from_lru : Ptr → Cmd (Unit {0})
remove_from_lru node = if node == null then pure tt else do
  n ← load node
  set_memory (λ m. sub_size m (get_memory_usage n))
  detach node
  set_size (λ k. sub_size k 1)

unfoldable pub clear_lru : Cmd (Unit {0})
clear_lru = do
  s ← get_store
  put_store (record s { head = null; tail = null; lru_size = 0; current_memory_usage = 0 })
