-- ===== src/Hash/Updates.antt =====
-- `set_hash` and `del_hash` are the write and the removal of a map from fields to values, whichever
-- the representation, and across the conversion.
mod Removal
use druta_db.Prelude.{
  ℕ, suc, ◌+◌, ◌≤◌, ◌≡◌, refl, sym, ap, ◌∙◌, inl, inr, Bool, true, false, Option, none, some, List,
  [], ◌∷◌, arith, ltb, if◌then◌else◌, length, length-append, snoc, Bool-cases, Bytes, bytes_key,
  same, same_iff,
}
use druta_db.Text.Storage.{StdString, copy, empty_string, assign}
use druta_db.Ordered.Map
use druta_db.Ordered.Map.{found}
use druta_db.Hash.{
  VectorData, MapData, HashData, map, vector, DrutaHash, find_vector, get_data, get_hash,
  convert_to_map, move_entries, assign_vector, set_vector, set_map, set_data, set_hash,
  druta_max_key, del_vector, del_from_vector, del_from_map, del_data, del_hash, size,
}
use druta_db.Hash.Contents.{
  chars_of, contents, IsDistinct, IsValidData, IsValid, result, find_vector-assign, assign-found,
  length-assign, assign-IsDistinct, find_vector-snoc, snoc-IsDistinct, find-move_entries,
  move_entries-IsSorted, length-move_entries, IsApart-nil,
}
use druta_db.Hash.Updates.Removal.{find_vector-del, del-found, length-del, del-IsDistinct}

abbrev data_contents : HashData → Bytes → Option Bytes
data_contents d g = chars_of (get_data d g)

abbrev pub data_size : HashData → ℕ
data_size (vector vec) = length vec
data_size (map m) = length m

-- What a write owes: the data is valid, reads as the written map, and has grown by what the flag
-- says, which is whether the field was new.
record Written (before_ : HashData) (field value : Bytes) (r : DrutaHash × Bool) : Type 0 where
  valid : IsValidData r.0.data_
  reads :
      (g : Bytes)
      → data_contents r.0.data_ g ≡ (if same field g then some value else data_contents before_ g)
  created : r.1 ≡ (elim (data_contents before_ field) [ none ↦ true | some v ↦ false ])
  grown : data_size r.0.data_ ≡ data_size before_ + (if r.1 then 1 else 0)

-- The vector after `push_back`, as it is or converted.
push-Written :
    (h : DrutaHash) (vec : VectorData) (field value : Bytes)
    → IsValidData (vector vec)
    → find_vector vec field ≡ none
    → Written (vector vec) field value (set_vector h vec field value none)
unfolding get_data convert_to_map find_vector
push-Written h vec field value v absent =
    let vec' = snoc vec (copy field, copy value) in
    let distinct = snoc-IsDistinct vec (copy field) (copy value) v.0 absent in
    let longer : length vec' ≡ length vec + 1 =
      omega (arith, length-append vec ((copy field, copy value) ∷ [])) in
    elim (Bool-cases (ltb druta_max_key (length vec'))) [
      | inl large ↦ rw large (record {
        valid = move_entries-IsSorted vec' [] tt;
        reads = λ g. ground (
          arith,
          find-move_entries vec' [] g distinct,
          find_vector-snoc vec (copy field) (copy value) g,
          same_iff field g,
          Map.find-nil {V = StdString} g,
        );
        created = rw absent;
        grown = length-move_entries vec' [] distinct (IsApart-nil vec') tt ∙ omega (arith, longer);
      })
      | inr small ↦ rw small (record {
        valid = (distinct, ground arith);
        reads =
            λ g. ground (arith, find_vector-snoc vec (copy field) (copy value) g, same_iff field g);
        created = rw absent;
        grown = longer;
      })
    ]

assign-Written :
    (h : DrutaHash) (vec : VectorData) (field value : Bytes) (o : Option (VectorData × ℕ))
    → IsValidData (vector vec)
    → o ≡ assign_vector vec field value h.memory_usage
    → Written (vector vec) field value (set_vector h vec field value o)
unfolding get_data
assign-Written h vec field value none v e =
    push-Written h vec field value v (ground (arith, assign-found field value h.memory_usage vec))
assign-Written h vec field value (some r) v e =
    let mem = h.memory_usage in
    record {
      valid = (rw (← e) at (assign-IsDistinct field value mem vec v.0), omega (arith, length_r));
      reads = λ g. ground (
        arith,
        find_vector-assign field value mem vec g,
        assign-found field value mem vec,
        same_iff field g,
      );
      created = ground (arith, assign-found field value mem vec);
      grown = omega (arith, length_r);
    }
  where
    length_r : length r.0 ≡ length vec
    length_r = ground (arith, length-assign field value h.memory_usage vec)

map-Written :
    (h : DrutaHash) (m : MapData) (field value : Bytes) (o : Option StdString)
    → Map.IsSorted m
    → o ≡ Map.find m field
    → Written (map m) field value (set_map h m field value o)
unfolding get_data
map-Written h m field value none s e =
    let new = assign empty_string value in
    record {
      valid = Map.set-IsSorted m field new s;
      reads = λ g. ground (arith, Map.find-set m field g new);
      created = ground arith;
      grown = ground (arith, Map.length-set m field new s);
    }
map-Written h m field value (some old) s e =
    let new = assign old value in
    record {
      valid = Map.set-IsSorted m field new s;
      reads = λ g. ground (arith, Map.find-set m field g new);
      created = ground arith;
      grown = ground (arith, Map.length-set m field new s);
    }

set_data-Written :
    (h : DrutaHash) (d : HashData) (field value : Bytes)
    → IsValidData d
    → Written d field value (set_data h d field value)
set_data-Written h (vector vec) field value v =
    assign-Written h vec field value (assign_vector vec field value h.memory_usage) v refl
set_data-Written h (map m) field value v = map-Written h m field value (Map.find m field) v refl

module _ (h : DrutaHash) (field value : Bytes) (v : IsValid h) where
  written : Written h.data_ field value (set_hash h field value)
  unfolding set_hash
  written = set_data-Written h h.data_ field value v

  -- `set_hash` keeps a hash valid: a vector of at most `DRUTA_MAX_KEY` distinct names, or a map in
  -- order.
  pub set_hash-IsValid : IsValid (set_hash h field value).0
  set_hash-IsValid = written.valid

  -- After `set_hash` the field has the value and every other field what it had; also when the
  -- vector outgrows its limit and is converted.
  pub contents-set_hash :
      (g : Bytes)
      → contents (set_hash h field value).0 g ≡ (if same field g then some value else contents h g)
  unfolding contents get_hash
  contents-set_hash g = written.reads g

  -- The result says whether the field was new, and the size grows by exactly that.
  pub size-set_hash :
      ((set_hash h field value).1 ≡ (elim (contents h field) [ none ↦ true | some v ↦ false ]))
      × (size (set_hash h field value).0 ≡ size h + (if (set_hash h field value).1 then 1 else 0))
  unfolding contents get_hash size
  size-set_hash = (written.created, ground (arith, written.grown))

-- What a removal owes.
record Removed (before_ : HashData) (field : Bytes) (r : DrutaHash × Bool) : Type 0 where
  valid : IsValidData r.0.data_
  reads :
      (g : Bytes)
      → data_contents r.0.data_ g ≡ (if same field g then none else data_contents before_ g)
  deleted : r.1 ≡ (elim (data_contents before_ field) [ none ↦ false | some v ↦ true ])
  shrunk : data_size r.0.data_ + (if r.1 then 1 else 0) ≡ data_size before_

vector-Removed :
    (h : DrutaHash) (vec : VectorData) (field : Bytes) (o : Option (VectorData × ℕ))
    → h.data_ ≡ vector vec
    → IsValidData (vector vec)
    → o ≡ del_vector vec field h.memory_usage
    → Removed (vector vec) field (del_from_vector h o)
unfolding get_data
vector-Removed h vec field none is v e =
    let mem = h.memory_usage in
    record {
      valid = rw is v;
      reads = λ g. rw is (
          ground (
            arith,
            find_vector-del field mem vec g v.0,
            del-found field mem vec,
            same_iff field g,
          ));
      deleted = ground (arith, del-found field mem vec);
      shrunk = rw is (omega arith);
    }
vector-Removed h vec field (some r) is v e =
    let mem = h.memory_usage in
    record {
      valid = (rw (← e) at (del-IsDistinct field mem vec v.0), omega (arith, shorter));
      reads = λ g. ground (arith, find_vector-del field mem vec g v.0);
      deleted = ground (arith, del-found field mem vec);
      shrunk = ground (arith, shorter, del-found field mem vec);
    }
  where
    shorter : length r.0 + found (find_vector vec field) ≡ length vec
    shorter = ground (arith, length-del field h.memory_usage vec)

map-Removed :
    (h : DrutaHash) (m : MapData) (field : Bytes) (o : Option StdString)
    → h.data_ ≡ map m
    → Map.IsSorted m
    → o ≡ Map.find m field
    → Removed (map m) field (del_from_map h m field o)
unfolding get_data
map-Removed h m field none is s e = record {
  valid = rw is s;
  reads = λ g. rw is (ground (arith, same_iff field g));
  deleted = ground arith;
  shrunk = rw is (omega arith);
}
map-Removed h m field (some old) is s e = record {
  valid = Map.erase-IsSorted m field s;
  reads = λ g. ground (arith, Map.find-erase m field g s);
  deleted = ground arith;
  shrunk = ground (arith, Map.length-erase m field);
}

del_data-Removed :
    (h : DrutaHash) (d : HashData) (field : Bytes)
    → h.data_ ≡ d
    → IsValidData d
    → Removed d field (del_data h d field)
del_data-Removed h (vector vec) field is v =
    vector-Removed h vec field (del_vector vec field h.memory_usage) is v refl
del_data-Removed h (map m) field is v = map-Removed h m field (Map.find m field) is v refl

module _ (h : DrutaHash) (field : Bytes) (v : IsValid h) where
  removed : Removed h.data_ field (del_hash h field)
  unfolding del_hash
  removed = del_data-Removed h h.data_ field refl v

  -- `del_hash` keeps a hash valid.
  pub del_hash-IsValid : IsValid (del_hash h field).0
  del_hash-IsValid = removed.valid

  -- After `del_hash` the field is gone and every other field has what it had, although the
  -- vector's later pairs have moved.
  pub contents-del_hash :
      (g : Bytes) → contents (del_hash h field).0 g ≡ (if same field g then none else contents h g)
  unfolding contents get_hash
  contents-del_hash g = removed.reads g

  -- The result says whether the field was there, and the size shrinks by exactly that.
  pub size-del_hash :
      ((del_hash h field).1 ≡ (elim (contents h field) [ none ↦ false | some v ↦ true ]))
      × (size (del_hash h field).0 + (if (del_hash h field).1 then 1 else 0) ≡ size h)
  unfolding contents get_hash size
  size-del_hash = (removed.deleted, ground (arith, removed.shrunk))
