-- ===== src/Store.antt =====
-- The database's globals: `DrutaNode` and `kv_store` of src/store.hpp, and the list's ends and
-- counters of src/lru.cpp. Nodes live at addresses, as `next` and `prev` alias what `kv_store`
-- owns; an access to an address that holds no node is a fault.
use druta_db.Prelude.{
  ℕ, suc, ◌+◌, Option, none, some, List, ◌==◌, if◌then◌else◌, get_elem?, Bytes, bytes_key, same,
  add_size, Result, ok, fault, uncaught, ltb, dangling, out_of_range,
}
use druta_db.Text.Storage.{copy_capacity, max_string_size}
use druta_db.Value.{DrutaValue}

abbrev pub Ptr : Type 0
Ptr = ℕ

-- `nullptr`
abbrev pub null : Ptr
null = 0

pub record DrutaNode : Type 0 where
  pub key : Bytes
  pub next : Ptr
  pub prev : Ptr
  pub value : DrutaValue

-- `sizeof(DrutaNode)`
abbrev pub sizeof_node : ℕ
sizeof_node = 160

unfoldable pub get_memory_usage : DrutaNode → ℕ
get_memory_usage n = add_size (sizeof_node + copy_capacity n.key) n.value.memory_usage

-- `kv_store` is never iterated over, so it is a function. `fresh` is the next address that
-- `std::make_unique` hands out; addresses are not used again.
pub record Store : Type 0 where
  pub nodes : Ptr → Option DrutaNode
  pub fresh : Ptr
  pub kv_store : Bytes → Option Ptr
  pub head : Ptr
  pub tail : Ptr
  pub lru_size : ℕ
  pub current_memory_usage : ℕ

-- The state at the start of the program.
abbrev pub initial : Store
initial = record {
  nodes = λ p. none;
  fresh = 1;
  kv_store = λ k. none;
  head = null;
  tail = null;
  lru_size = 0;
  current_memory_usage = 0;
}

-- Code over the globals.
abbrev pub Cmd : Type 0 → Type 0
Cmd A = Store → Result (A × Store)

abbrev pub pure : {A : Type 0} → A → Cmd A
pure a s = ok (a, s)

module _ {A B : Type 0} where
  abbrev pub and_then : Result (A × Store) → (A → Cmd B) → Result (B × Store)
  and_then (ok (a, s)) k = k a s
  and_then (fault e) k = fault e

  infixl 5 ◌>>=◌ ◌>>◌
  abbrev pub ◌>>=◌ : Cmd A → (A → Cmd B) → Cmd B
  m >>= k = λ s. and_then (m s) k

  abbrev pub ◌>>◌ : Cmd A → Cmd B → Cmd B
  m >> n = m >>= λ _. n

abbrev pub lift : {A : Type 0} → Result A → Cmd A
lift (ok a) s = ok (a, s)
lift (fault e) s = fault e

abbrev pub get_store : Cmd Store
get_store s = ok (s, s)

abbrev pub put_store : Store → Cmd (Unit {0})
put_store s _ = ok (tt, s)

abbrev or_fault {ℓ} : {A : Type ℓ} → Option A → Result A
or_fault none = fault out_of_range
or_fault (some a) = ok a

-- `args[i]`
abbrev pub arg : List Bytes → ℕ → Cmd Bytes
arg args i = lift (or_fault (get_elem? args i))

-- `res.reserve(n)` of an empty string; `std::length_error` is not caught.
unfoldable pub reserve : ℕ → Cmd (Unit {0})
reserve n s = if ltb max_string_size n then fault uncaught else ok (tt, s)

abbrev pub write_node : (Ptr → Option DrutaNode) → Ptr → Option DrutaNode → Ptr → Option DrutaNode
write_node nodes p c q = if q == p then c else nodes q

-- `*p`
unfoldable pub load : Ptr → Cmd DrutaNode
load p s = elim (s.nodes p) [ none ↦ fault dangling | some n ↦ ok (n, s) ]

-- A write to members of `*p`.
unfoldable pub modify : Ptr → (DrutaNode → DrutaNode) → Cmd (Unit {0})
unfolding load
modify p f = do
  n ← load p
  s ← get_store
  put_store (record s { nodes = write_node s.nodes p (some (f n)) })

-- `kv_store.find(key)`
abbrev pub find_key : Bytes → Cmd (Option Ptr)
find_key key s = ok (s.kv_store key, s)

abbrev pub write_key : (Bytes → Option Ptr) → Bytes → Option Ptr → Bytes → Option Ptr
write_key kv key c k = if same k key then c else kv k

abbrev erase_found : Bytes → Option Ptr → Store → Store
erase_found key none s = s
erase_found key (some p) s = record s {
  kv_store = write_key s.kv_store key none;
  nodes = write_node s.nodes p none;
}

-- `kv_store.erase(key)`, which destroys the node that the entry owns.
unfoldable pub erase_key : Bytes → Cmd (Unit {0})
erase_key key s = ok (tt, erase_found key (s.kv_store key) s)

-- `kv_store[key] = std::make_unique<DrutaNode>(key, value)` for a key that is not there, and the
-- new node's address.
unfoldable pub new_node : Bytes → DrutaValue → Cmd Ptr
new_node key value s = ok (
  s.fresh,
  record s {
    nodes =
        write_node s.nodes s.fresh
          (some (record { key = key; next = null; prev = null; value = value }));
    fresh = suc s.fresh;
    kv_store = write_key s.kv_store key (some s.fresh);
  },
)
