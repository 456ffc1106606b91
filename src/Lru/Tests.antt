-- ===== src/Lru/Tests.antt =====
-- Runs of the recency list on databases with a few entries.
use druta_db.Prelude.{
  ◌<◌, ◌^◌, ℕ, ◌≤◌, ◌≡◌, ◌+◌, refl, Option, none, some, [], ◌∷◌, arith, ◌==◌, if◌then◌else◌, same,
  bytes_key, cmp_bytes, pos, Returns,
}
use druta_db.Text.{codes}
use druta_db.Text.Storage.{copy_capacity}
use druta_db.Value.{ValueData, list, string, DrutaValue}
use druta_db.Store.{Ptr, DrutaNode, Store, null}
use druta_db.Lru.{lru_max_memory, touch_lru, evict_lru, evict_until_safe}
use druta_db.Lru.Chain.{Item, node_of}
use druta_db.Lru.Steps.{Links}
use druta_db.Lru.Touch.{Touched, touch_lru-Touched}
use druta_db.Lru.Holds.{Holds, ptr_of}
use druta_db.Lru.Evict.{evict_lru-Holds, survivors, evict_until_safe-Holds}

abbrev text_value : ℕ → DrutaValue
text_value usage_ = record { data_ = string []; expiry_time = pos 0; memory_usage = usage_ }

abbrev pub first : Item
first = record { at = 1; key = codes "a"; value = text_value 47 }

abbrev pub second : Item
second = record { at = 2; key = codes "b"; value = text_value 47 }

-- A value of the size of the limit.
abbrev large : Item
large = record { at = 1; key = codes "a"; value = text_value 67108864 }

-- The nodes of a list of two.
abbrev nodes_of : Item → Item → Ptr → Option DrutaNode
nodes_of i j p =
    if p == 1 then some (node_of i null 2) else if p == 2 then some (node_of j 1 null) else none

abbrev pub database : Item → ℕ → Store
database i memory = record {
  nodes = nodes_of i second;
  fresh = 3;
  kv_store = ptr_of (i ∷ second ∷ []);
  head = 2;
  tail = 1;
  lru_size = 2;
  current_memory_usage = memory;
}

abbrev pub two_entries : Store
two_entries = database first 444

two_entries-Links : Links two_entries (first ∷ second ∷ [])
two_entries-Links = record {
  seg = (refl, (refl, tt));
  tail = refl;
  head = refl;
  distinct = (refl, (refl, tt));
  nonnull = refl;
}

touch_lru-Touched_example :
    Returns (touch_lru 1 two_entries) (λ r. Touched two_entries r.1 [] first (second ∷ []))
touch_lru-Touched_example = touch_lru-Touched two_entries [] first (second ∷ []) two_entries-Links

pub two_entries-Holds : Holds two_entries (first ∷ second ∷ [])
unfolding copy_capacity same cmp_bytes
two_entries-Holds = record {
  shape = record {
    links = two_entries-Links;
    keys = λ k. refl;
    distinct_keys = (refl, (refl, tt));
    counted = refl;
    unused = λ p h. ground arith;
    no_more = λ p h. ground arith;
    fresh = omega arith;
  };
  countable = omega arith;
  memory = refl;
  fits = omega arith;
}

evict_lru-Holds_example : Returns (evict_lru two_entries) (λ r. Holds r.1 (second ∷ []))
evict_lru-Holds_example = evict_lru-Holds two_entries first (second ∷ []) two_entries-Holds

-- The older entry alone reaches the limit.
abbrev full : Store
full = database large 67109261

full-Links : Links full (large ∷ second ∷ [])
full-Links = record {
  seg = (refl, (refl, tt));
  tail = refl;
  head = refl;
  distinct = (refl, (refl, tt));
  nonnull = refl;
}

full-Holds : Holds full (large ∷ second ∷ [])
unfolding copy_capacity same cmp_bytes
full-Holds = record {
  shape = record {
    links = full-Links;
    keys = λ k. refl;
    distinct_keys = (refl, (refl, tt));
    counted = refl;
    unused = λ p h. ground arith;
    no_more = λ p h. ground arith;
    fresh = omega arith;
  };
  countable = omega arith;
  memory = refl;
  fits = omega arith;
}

evict_until_safe-Holds_example :
    Returns (evict_until_safe full) (λ r.
      Holds r.1 (survivors (large ∷ second ∷ [])) × (r.1.current_memory_usage ≤ lru_max_memory))
evict_until_safe-Holds_example = evict_until_safe-Holds full (large ∷ second ∷ []) full-Holds

-- The older entry goes, the other one stays.
survivors_full : survivors (large ∷ second ∷ []) ≡ second ∷ []
unfolding survivors copy_capacity
survivors_full = refl

-- An entry with a list, in the place of the older one.
abbrev pub listed : Item
listed = record {
  at = 1;
  key = codes "a";
  value = record { data_ = list (codes "x" ∷ []); expiry_time = pos 0; memory_usage = 47 };
}

abbrev pub with_list : Store
with_list = database listed 444

with_list-Links : Links with_list (listed ∷ second ∷ [])
with_list-Links = record {
  seg = (refl, (refl, tt));
  tail = refl;
  head = refl;
  distinct = (refl, (refl, tt));
  nonnull = refl;
}

pub with_list-Holds : Holds with_list (listed ∷ second ∷ [])
unfolding copy_capacity same cmp_bytes
with_list-Holds = record {
  shape = record {
    links = with_list-Links;
    keys = λ k. refl;
    distinct_keys = (refl, (refl, tt));
    counted = refl;
    unused = λ p h. ground arith;
    no_more = λ p h. ground arith;
    fresh = omega arith;
  };
  countable = omega arith;
  memory = refl;
  fits = omega arith;
}

-- An entry of the size of the limit that is newer than the list.
abbrev pub heavy : Item
heavy = record { at = 2; key = codes "b"; value = text_value 67108864 }

abbrev pub crowded : Store
crowded = record with_list {
  nodes = nodes_of listed heavy;
  kv_store = ptr_of (listed ∷ heavy ∷ []);
  current_memory_usage = 67109261;
}

crowded-Links : Links crowded (listed ∷ heavy ∷ [])
crowded-Links = record {
  seg = (refl, (refl, tt));
  tail = refl;
  head = refl;
  distinct = (refl, (refl, tt));
  nonnull = refl;
}

pub crowded-Holds : Holds crowded (listed ∷ heavy ∷ [])
unfolding copy_capacity same cmp_bytes
crowded-Holds = record {
  shape = record {
    links = crowded-Links;
    keys = λ k. refl;
    distinct_keys = (refl, (refl, tt));
    counted = refl;
    unused = λ p h. ground arith;
    no_more = λ p h. ground arith;
    fresh = omega arith;
  };
  countable = omega arith;
  memory = refl;
  fits = omega arith;
}

-- Any value in the place of the older entry.
abbrev pub placed : ValueData → ℕ → Item
placed d usage_ = record {
  at = 1;
  key = codes "a";
  value = record { data_ = d; expiry_time = pos 0; memory_usage = usage_ };
}

abbrev pub with_placed : ValueData → ℕ → Store
with_placed d usage_ = database (placed d usage_) (397 + usage_)

placed-Links : (d : ValueData) (m : ℕ) → Links (with_placed d m) (placed d m ∷ second ∷ [])
placed-Links d m = record {
  seg = (refl, (refl, tt));
  tail = refl;
  head = refl;
  distinct = (refl, (refl, tt));
  nonnull = refl;
}

pub placed-Holds :
    (d : ValueData) (m : ℕ) → m < 2 ^ 32 → Holds (with_placed d m) (placed d m ∷ second ∷ [])
unfolding copy_capacity same cmp_bytes
placed-Holds d m h = record {
  shape = record {
    links = placed-Links d m;
    keys = λ k. refl;
    distinct_keys = (refl, (refl, tt));
    counted = refl;
    unused = λ p h. ground arith;
    no_more = λ p h. ground arith;
    fresh = omega arith;
  };
  countable = omega arith;
  memory = omega arith;
  fits = omega arith;
}
