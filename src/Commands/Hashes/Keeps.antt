-- ===== src/Commands/Hashes/Keeps.antt =====
-- HSET, HGET, HGETALL, HDEL and HLEN leave a consistent database.
use druta_db.Prelude.{
  add_size, ℕ, ◌+◌, ◌-◌, ◌%◌, refl, inl, inr, arith, ltb, ◌==◌, ◌||◌, not, Bool-cases, Option, none,
  some, List, [], ◌∷◌, length, if◌then◌else◌, drop, Bytes, ℤ, sub_size,
}
use druta_db.Text.Storage.{StdString}
use druta_db.Hash.{DrutaHash, get_hash, set_hash, del_hash}
use druta_db.Hash.Contents.{IsValid}
use druta_db.Hash.Updates.{set_hash-IsValid, del_hash-IsValid}
use druta_db.Value.{ValueData, string, list, hash, set, of_type}
use druta_db.Value.Sound.{IsSound}
use druta_db.Store.{reserve, Ptr, ◌>>=◌, arg, modify}
use druta_db.Lru.{notify_memory_change}
use druta_db.Lru.Consistent.{Keeps, load-Keeps, modify-Keeps}
use druta_db.Lru.Consistent.Calls.{
  bind-Keeps, arg-Keeps, found-Keeps, add_new-Keeps, notify_memory_change-Keeps, change-Keeps,
  then_touch-Keeps, reserve-Keeps, keyed-Keeps,
}
use druta_db.Commands.Hashes.{
  set_fields, adjusted, put_hash, hset_data, hset_found, command_hset, field_reply, hget_data,
  hget_found, command_hget, hgetall_data, hgetall_found, command_hgetall, del_fields, hdel_data,
  hdel_found, command_hdel, hlen_found, command_hlen,
}

pub set_fields-IsValid :
    (h : DrutaHash) (created : ℕ) (pairs : List Bytes)
    → IsValid h
    → IsValid (set_fields h created pairs).0
unfolding set_fields
set_fields-IsValid h created [] v = v
set_fields-IsValid h created (field ∷ []) v = v
set_fields-IsValid h created (field ∷ (value ∷ rest)) v =
    let r = set_hash h field value in
    set_fields-IsValid r.0 (if r.1 then created + 1 else created) rest
      (set_hash-IsValid h field value v)

pub del_fields-IsValid :
    (h : DrutaHash) (deleted : ℕ) (fields : List Bytes)
    → IsValid h
    → IsValid (del_fields h deleted fields).0
unfolding del_fields
del_fields-IsValid h deleted [] v = v
del_fields-IsValid h deleted (field ∷ rest) v =
    let r = del_hash h field in
    del_fields-IsValid r.0 (if r.1 then deleted + 1 else deleted) rest (del_hash-IsValid h field v)

hset_data-Keeps :
    (p : Ptr) (pairs : List Bytes) (d : ValueData) (at : ℤ)
    → IsSound d at
    → Keeps (hset_data p pairs d)
unfolding hset_data
hset_data-Keeps p pairs (hash h) at o =
    let r = set_fields h 0 pairs in
    let usage = adjusted h.memory_usage r.0.memory_usage in
    change-Keeps p (put_hash r.0 usage)
      (λ v. record v { data_ = hash r.0; memory_usage = usage v.memory_usage }) h.memory_usage
      r.0.memory_usage _ (λ n. refl) (λ v _. set_fields-IsValid h 0 pairs o) (λ s c. c)
hset_data-Keeps p pairs (string x) at o = λ s c. c
hset_data-Keeps p pairs (list x) at o = λ s c. c
hset_data-Keeps p pairs (set x) at o = λ s c. c

pub command_hset-Keeps : (args : List Bytes) → Keeps (command_hset args)
unfolding command_hset of_type
command_hset-Keeps args s c =
    elim (Bool-cases (ltb (length args) 4 || not (length args % 2 == 0))) [
      | inl e ↦ rw e c
      | inr n ↦ rw n (
          bind-Keeps (arg args 1) _ (arg-Keeps args 1)
            (λ key.
              found-Keeps key (hset_found key (drop 2 args))
                (λ s c e.
                  add_new-Keeps key _ _ (tt, omega arith)
                    (λ p.
                      load-Keeps p _ (λ n o.
                        hset_data-Keeps p (drop 2 args) n.value.data_ n.value.expiry_time o))
                    s c e)
                (λ p s c e.
                  load-Keeps p _
                    (λ n o. hset_data-Keeps p (drop 2 args) n.value.data_ n.value.expiry_time o) s
                    c))
            s c)
    ]

field_reply-Keeps : (p : Ptr) (o : Option StdString) → Keeps (field_reply p o)
unfolding field_reply
field_reply-Keeps p none = λ s c. c
field_reply-Keeps p (some val) = then_touch-Keeps p _ (λ s c. c)

hget_data-Keeps : (p : Ptr) (field : Bytes) (d : ValueData) → Keeps (hget_data p field d)
unfolding hget_data
hget_data-Keeps p field (hash h) = field_reply-Keeps p (get_hash h field)
hget_data-Keeps p field (string x) = λ s c. c
hget_data-Keeps p field (list x) = λ s c. c
hget_data-Keeps p field (set x) = λ s c. c

hget_found-Keeps : (field : Bytes) (o : Option Ptr) → Keeps (hget_found field o)
unfolding hget_found
hget_found-Keeps field none = λ s c. c
hget_found-Keeps field (some p) = load-Keeps p _ (λ n o. hget_data-Keeps p field n.value.data_)

pub command_hget-Keeps : (args : List Bytes) → Keeps (command_hget args)
unfolding command_hget
command_hget-Keeps args s c = elim (Bool-cases (length args == 3)) [
  | inl n ↦ rw n (
      bind-Keeps (arg args 1) _ (arg-Keeps args 1)
        (λ key. bind-Keeps (arg args 2) _ (arg-Keeps args 2) (λ field.
          found-Keeps key (hget_found field) (λ s c e. hget_found-Keeps field none s c)
            (λ p s c e. hget_found-Keeps field (some p) s c)))
        s c)
  | inr e ↦ rw e c
]

hgetall_data-Keeps : (p : Ptr) (d : ValueData) → Keeps (hgetall_data p d)
unfolding hgetall_data
hgetall_data-Keeps p (hash h) =
    then_touch-Keeps p _
      (bind-Keeps (reserve (add_size 1024 h.memory_usage)) _ (reserve-Keeps _) (λ _ s c. c))
hgetall_data-Keeps p (string x) = λ s c. c
hgetall_data-Keeps p (list x) = λ s c. c
hgetall_data-Keeps p (set x) = λ s c. c

hgetall_found-Keeps : (o : Option Ptr) → Keeps (hgetall_found o)
unfolding hgetall_found
hgetall_found-Keeps none = λ s c. c
hgetall_found-Keeps (some p) = load-Keeps p _ (λ n o. hgetall_data-Keeps p n.value.data_)

pub command_hgetall-Keeps : (args : List Bytes) → Keeps (command_hgetall args)
unfolding command_hgetall
command_hgetall-Keeps args s c = elim (Bool-cases (length args == 2)) [
  | inl n ↦ rw n (keyed-Keeps args 1 (λ key. hgetall_found) (λ key. hgetall_found-Keeps) s c)
  | inr e ↦ rw e c
]

hdel_data-Keeps :
    (p : Ptr) (fields : List Bytes) (d : ValueData) (at : ℤ)
    → IsSound d at
    → Keeps (hdel_data p fields d)
unfolding hdel_data
hdel_data-Keeps p fields (hash h) at o s c =
    let r = del_fields h 0 fields in
    let old_mem = h.memory_usage in
    let new_mem = r.0.memory_usage in
    let put : (usage : ℕ → ℕ) → Keeps (modify p (put_hash r.0 usage)) = λ usage.
      modify-Keeps p (put_hash r.0 usage)
        (λ v. record v { data_ = hash r.0; memory_usage = usage v.memory_usage }) (λ n. refl)
        (λ v _. del_fields-IsValid h 0 fields o) in
    elim (Bool-cases (ltb new_mem old_mem)) [
      | inl e ↦ rw e (
          bind-Keeps
            (modify p (put_hash r.0 (λ usage. sub_size usage (old_mem - new_mem))) >>= λ _.
              notify_memory_change old_mem new_mem)
            _
            (bind-Keeps (modify p (put_hash r.0 (λ usage. sub_size usage (old_mem - new_mem)))) _
              (put (λ usage. sub_size usage (old_mem - new_mem)))
              (λ _. notify_memory_change-Keeps old_mem new_mem))
            (λ _. then_touch-Keeps p _ (λ s c. c)) s c)
      | inr e ↦ rw e (
          bind-Keeps (modify p (put_hash r.0 (λ usage. usage))) _ (put (λ usage. usage))
            (λ _. then_touch-Keeps p _ (λ s c. c)) s c)
    ]
hdel_data-Keeps p fields (string x) at o s c = c
hdel_data-Keeps p fields (list x) at o s c = c
hdel_data-Keeps p fields (set x) at o s c = c

hdel_found-Keeps : (fields : List Bytes) (o : Option Ptr) → Keeps (hdel_found fields o)
unfolding hdel_found
hdel_found-Keeps fields none = λ s c. c
hdel_found-Keeps fields (some p) =
    load-Keeps p _ (λ n o. hdel_data-Keeps p fields n.value.data_ n.value.expiry_time o)

pub command_hdel-Keeps : (args : List Bytes) → Keeps (command_hdel args)
unfolding command_hdel
command_hdel-Keeps args s c = elim (Bool-cases (ltb (length args) 3)) [
  | inl e ↦ rw e c
  | inr n ↦ rw n (
      keyed-Keeps args 1 (λ key. hdel_found (drop 2 args)) (λ key. hdel_found-Keeps (drop 2 args)) s
        c)
]

hlen_found-Keeps : (o : Option Ptr) → Keeps (hlen_found o)
unfolding hlen_found
hlen_found-Keeps none = λ s c. c
hlen_found-Keeps (some p) = load-Keeps p _ (λ n o s c. c)

pub command_hlen-Keeps : (args : List Bytes) → Keeps (command_hlen args)
unfolding command_hlen
command_hlen-Keeps args s c = elim (Bool-cases (length args == 2)) [
  | inl n ↦ rw n (keyed-Keeps args 1 (λ key. hlen_found) (λ key. hlen_found-Keeps) s c)
  | inr e ↦ rw e c
]
