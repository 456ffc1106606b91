-- ===== src/Commands/Hashes/Refill.antt =====
-- The fields of a hash, set one by one in an empty hash, as a rewritten file makes HSET do.
use druta_db.Prelude.{
  ℕ, ◌+◌, ◌%◌, ◌≡◌, refl, ap, ◌∙◌, Option, none, some, List, [], ◌∷◌, arith, length, if◌then◌else◌,
  Bytes, bytes_key, same, same_iff, pos,
}
use druta_db.Text.Storage.{StdString}
use druta_db.Ordered.Map
use druta_db.Hash.{
  DrutaHash, HashData, VectorData, MapData, vector, map, find_vector, get_data, get_hash, set_hash,
  of_vector,
}
use druta_db.Hash.Contents.{contents, chars_of, IsDistinct, IsValid, IsValidData}
use druta_db.Hash.Updates.{contents-set_hash, set_hash-IsValid}
use druta_db.Commands.Hashes.{set_fields, vector_strings, map_strings, hash_strings}
use druta_db.Commands.Hashes.Fresh.{filled}

-- The value of a field after the pairs that `s` was looked up in, over the earlier one.
abbrev over : Option StdString → Option Bytes → Option Bytes
over none before_ = before_
over (some s) before_ = some s.chars

-- The value that the pairs of an HSET give a field: the last one of it.
unfoldable pub last_value : List Bytes → Bytes → Option Bytes
last_value [] g = none
last_value (field ∷ []) g = none
last_value (field ∷ (value ∷ rest)) g =
    let later = last_value rest g in
    elim later [ some v ↦ some v | none ↦ if same field g then some value else none ]

abbrev pub value_or : Option Bytes → Option Bytes → Option Bytes
value_or none before_ = before_
value_or (some v) before_ = some v

-- The loop of HSET on a valid hash, in either representation and across the conversion: each field
-- of the pairs has the last value that they give it, and every other field what it had.
pub contents-set_fields :
    (h : DrutaHash) (created : ℕ) (pairs : List Bytes) (g : Bytes)
    → IsValid h
    → contents (set_fields h created pairs).0 g ≡ value_or (last_value pairs g) (contents h g)
unfolding set_fields last_value
contents-set_fields h created [] g v = refl
contents-set_fields h created (field ∷ []) g v = refl
contents-set_fields h created (field ∷ (value ∷ rest)) g v =
    let r = set_hash h field value in
    let c = if r.1 then created + 1 else created in
    contents-set_fields r.0 c rest g (set_hash-IsValid h field value v)
    ∙ ap (value_or (last_value rest g)) (contents-set_hash h field value v g)
    ∙ ground arith

set_fields-vector :
    (h : DrutaHash) (created : ℕ) (vec : VectorData) (g : Bytes)
    → IsValid h
    → IsDistinct vec
    → contents (set_fields h created (vector_strings vec)).0 g
      ≡ over (find_vector vec g) (contents h g)
unfolding set_fields vector_strings find_vector
set_fields-vector h created [] g v d = refl
set_fields-vector h created ((name, value) ∷ vec) g v d =
    let r = set_hash h name.chars value.chars in
    let c = if r.1 then created + 1 else created in
    set_fields-vector r.0 c vec g (set_hash-IsValid h name.chars value.chars v) d.1
    ∙ ap (over (find_vector vec g)) (contents-set_hash h name.chars value.chars v g)
    ∙ ground (arith, d.0, same_iff name.chars g)

set_fields-map :
    (h : DrutaHash) (created : ℕ) (m : MapData) (g : Bytes)
    → IsValid h
    → Map.IsSorted m
    → contents (set_fields h created (map_strings m)).0 g ≡ over (Map.find m g) (contents h g)
unfolding set_fields map_strings Map.find
set_fields-map h created [] g v d = refl
set_fields-map h created ((name, value) ∷ m) g v d =
    let r = set_hash h name value.chars in
    let c = if r.1 then created + 1 else created in
    set_fields-map r.0 c m g (set_hash-IsValid h name value.chars v) d.1
    ∙ ap (over (Map.find m g)) (contents-set_hash h name value.chars v g)
    ∙ ground (arith, Map.find_of_Above name m d.0, same_iff name g)

-- HSET with the pairs that HGETALL lists makes a hash with the same fields and values, whichever
-- representation the old and the new one have.
refill :
    (d : HashData) (g : Bytes)
    → IsValidData d
    → contents (filled (hash_strings d)).0 g ≡ chars_of (get_data d g)
unfolding contents hash_strings get_hash get_data find_vector
refill (vector vec) g v =
    set_fields-vector (of_vector [] (pos 0)) 0 vec g (tt, omega arith) v.0 ∙ ground arith
refill (map m) g v = set_fields-map (of_vector [] (pos 0)) 0 m g (tt, omega arith) v ∙ ground arith

pub contents-filled :
    (h : DrutaHash) (g : Bytes)
    → IsValid h
    → contents (filled (hash_strings h.data_)).0 g ≡ contents h g
unfolding contents get_hash
contents-filled h g v = refill h.data_ g v

pub hash_strings-pairs : (d : HashData) → length (hash_strings d) % 2 ≡ 0
unfolding hash_strings vector_strings map_strings
hash_strings-pairs (vector []) = refl
hash_strings-pairs (vector ((name, value) ∷ vec)) =
    let e = hash_strings-pairs (vector vec) in omega (arith, e)
hash_strings-pairs (map []) = refl
hash_strings-pairs (map ((name, value) ∷ m)) =
    let e = hash_strings-pairs (map m) in omega (arith, e)
