-- ===== src/Text/Storage.antt =====
-- The storage of a `std::string` object, which the memory accounting of the program reads by
-- `capacity()`: GCC's library on a 64-bit machine, where an object holds up to 15 bytes itself.
use druta_db.Prelude.{ℕ, ◌*◌, ◌-◌, ◌^◌, [], leb, if◌then◌else◌, length, Bytes}
use Prim.Native.Nat.{max}

-- `sizeof(std::string)`, `sizeof(void *)`
abbrev pub sizeof_string : ℕ
sizeof_string = 32

abbrev pub sizeof_pointer : ℕ
sizeof_pointer = 8

-- The capacity of a string that holds its bytes in the object.
abbrev pub local_capacity : ℕ
local_capacity = 15

pub record StdString : Type 0 where
  pub chars : Bytes
  pub capacity : ℕ

-- `max_size()`
abbrev pub max_string_size : ℕ
max_string_size = 2 ^ 62 - 1

-- The capacity of a copy.
unfoldable pub copy_capacity : Bytes → ℕ
copy_capacity s = max local_capacity (length s)

-- The copy constructor.
abbrev pub copy : Bytes → StdString
copy s = record { chars = s; capacity = copy_capacity s }

abbrev pub empty_string : StdString
empty_string = record { chars = []; capacity = local_capacity }

-- `dst = s`, a copy assignment: the storage is kept where it suffices, and at least doubles where
-- it does not.
unfoldable pub assign_capacity : ℕ → ℕ → ℕ
assign_capacity old len = if leb len old then old else max len (2 * old)

abbrev pub assign : StdString → Bytes → StdString
assign dst s = record { chars = s; capacity = assign_capacity dst.capacity (length s) }

-- `dst = std::move(src)`: bytes that `src` holds in the object are copied and `dst` keeps its
-- storage; otherwise the two exchange their storage. Both objects after the assignment.
unfoldable pub move_assign : StdString → StdString → StdString × StdString
move_assign dst src =
    if leb src.capacity local_capacity
    then (record dst { chars = src.chars }, empty_string)
    else (src, record dst { chars = [] })
