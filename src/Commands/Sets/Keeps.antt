-- ===== src/Commands/Sets/Keeps.antt =====
-- SADD, SISMEMBER, SMISMEMBER, SCARD, SMEMBERS, SDIFF, SINTER, SUNION and SDEL leave a consistent
-- database.
use druta_db.Prelude.{
  ℕ, ◌+◌, ◌-◌, refl, inl, inr, Bool, true, false, ltb, ◌==◌, not, Bool-cases, Option, none, some,
  List, [], ◌∷◌, ◌++◌, length, if◌then◌else◌, drop, Bytes, ℤ, bytes_key, pos, int_of_size,
  size_of_int, add_size, sub_size,
}
use druta_db.Text.{to_string}
use druta_db.Resp.{array_header}
use druta_db.Ordered.Set
use druta_db.Value.{ValueData, string, list, hash, set, of_type, set_element_usage}
use druta_db.Value.Sound.{IsSound}
use druta_db.Store.{reserve, DrutaNode, Ptr, Cmd, pure, arg}
use druta_db.Lru.Consistent.{Keeps, load-Keeps}
use druta_db.Lru.Consistent.Calls.{
  reserve-Keeps, bind-Keeps, arg-Keeps, found-Keeps, add_new-Keeps, change-Keeps, keyed-Keeps,
}
use druta_db.Commands.Replies.{integer_reply}
use druta_db.Commands.Sets.Members.{add_members-Added, del_members-Deleted}
use druta_db.Commands.Sets.{
  put_set, add_members, fill_members, sadd_data, sadd_found, command_sadd, read_found, count_reply,
  count_all, command_sismember, command_smismember, command_scard, command_smembers, smembers_data,
  smembers_found, Operand, missing, wrong, members, operand_found, operand, diff_operand, diff_loop,
  diff_from, command_sdiff, inter_operand, inter_loop, inter_from, command_sinter, union_operand,
  union_loop, command_sunion, del_members, sdel_data, sdel_found, command_sdel,
}

pub fill_members-IsSorted :
    (s : List Bytes) (usage created : ℕ) (items : List Bytes)
    → Set.IsSorted s
    → Set.IsSorted (fill_members s usage created items).0
unfolding fill_members
fill_members-IsSorted s usage created [] o = o
fill_members-IsSorted s usage created (x ∷ xs) o =
    let fresh = not (Set.contains s x) in
    fill_members-IsSorted (Set.insert s x)
      (if fresh then add_size usage (set_element_usage x) else usage)
      (if fresh then created + 1 else created) xs (Set.insert-IsSorted s x o)

sadd_data-Keeps :
    (p : Ptr) (items : List Bytes) (d : ValueData) (at : ℤ)
    → IsSound d at
    → Keeps (sadd_data p items d)
unfolding sadd_data
sadd_data-Keeps p items (set m) at o =
    let r = add_members m (pos 0) 0 items in
    let d = size_of_int r.1 in
    change-Keeps p (put_set r.0 (λ usage. add_size usage d))
      (λ v. record v { data_ = set r.0; memory_usage = add_size v.memory_usage d }) 0 d _
      (λ n. refl) (λ v _. (add_members-Added m (pos 0) 0 items o).sorted) (λ s c. c)
sadd_data-Keeps p items (string x) at o = λ s c. c
sadd_data-Keeps p items (list x) at o = λ s c. c
sadd_data-Keeps p items (hash x) at o = λ s c. c

pub command_sadd-Keeps : (args : List Bytes) → Keeps (command_sadd args)
unfolding command_sadd of_type
command_sadd-Keeps args = bind-Keeps (arg args 1) _ (arg-Keeps args 1) (λ key.
    found-Keeps key (sadd_found key (drop 2 args))
      (λ s c e.
        add_new-Keeps key _ _ (fill_members-IsSorted [] 0 0 (drop 2 args) tt) (λ p s c. c) s c e)
      (λ p s c e.
        load-Keeps p _ (λ n o. sadd_data-Keeps p (drop 2 args) n.value.data_ n.value.expiry_time o)
          s c))

read_found-Keeps :
    (reply : List Bytes → Bytes) (otherwise : Bytes) (o : Option Ptr)
    → Keeps (read_found reply otherwise o)
unfolding read_found
read_found-Keeps reply otherwise none = λ s c. c
read_found-Keeps reply otherwise (some p) = load-Keeps p _ (λ n o s c. c)

pub command_sismember-Keeps : (args : List Bytes) → Keeps (command_sismember args)
unfolding command_sismember
command_sismember-Keeps args s c = elim (Bool-cases (length args == 3)) [
  | inl n ↦ rw n (
      bind-Keeps (arg args 1) _ (arg-Keeps args 1)
        (λ key. bind-Keeps (arg args 2) _ (arg-Keeps args 2) (λ member.
          found-Keeps key (read_found (count_reply member) (integer_reply (pos 0)))
            (λ s c e. read_found-Keeps (count_reply member) (integer_reply (pos 0)) none s c)
            (λ p s c e.
              read_found-Keeps (count_reply member) (integer_reply (pos 0)) (some p) s c)))
        s c)
  | inr e ↦ rw e c
]

pub command_smismember-Keeps : (args : List Bytes) → Keeps (command_smismember args)
unfolding command_smismember
command_smismember-Keeps args s c = elim (Bool-cases (ltb (length args) 3)) [
  | inl e ↦ rw e c
  | inr n ↦ rw n (
      keyed-Keeps args 1 _
        (λ key.
          read_found-Keeps
            (λ s. array_header (to_string (length args - 2)) ++ count_all s (drop 2 args))
            (integer_reply (pos 0)))
        s c)
]

pub command_scard-Keeps : (args : List Bytes) → Keeps (command_scard args)
unfolding command_scard
command_scard-Keeps args s c = elim (Bool-cases (length args == 2)) [
  | inl n ↦ rw n (
      keyed-Keeps args 1 _
        (λ key.
          read_found-Keeps (λ s. integer_reply (int_of_size (length s))) (integer_reply (pos 0)))
        s c)
  | inr e ↦ rw e c
]

smembers_data-Keeps : (n : DrutaNode) (d : ValueData) → Keeps (smembers_data n d)
unfolding smembers_data
smembers_data-Keeps n (set s) =
    bind-Keeps (reserve (add_size 1024 n.value.memory_usage)) _ (reserve-Keeps _) (λ _ s c. c)
smembers_data-Keeps n (string x) = λ s c. c
smembers_data-Keeps n (list x) = λ s c. c
smembers_data-Keeps n (hash x) = λ s c. c

smembers_found-Keeps : (o : Option Ptr) → Keeps (smembers_found o)
unfolding smembers_found
smembers_found-Keeps none = λ s c. c
smembers_found-Keeps (some p) = load-Keeps p _ (λ n o. smembers_data-Keeps n n.value.data_)

pub command_smembers-Keeps : (args : List Bytes) → Keeps (command_smembers args)
unfolding command_smembers
command_smembers-Keeps args s c = elim (Bool-cases (length args == 2)) [
  | inl n ↦ rw n (keyed-Keeps args 1 _ (λ key. smembers_found-Keeps) s c)
  | inr e ↦ rw e c
]

sdel_data-Keeps :
    (p : Ptr) (items : List Bytes) (d : ValueData) (at : ℤ)
    → IsSound d at
    → Keeps (sdel_data p items d)
unfolding sdel_data
sdel_data-Keeps p items (set m) at o =
    let r = del_members m (pos 0) 0 items in
    let d = size_of_int r.1 in
    change-Keeps p (put_set r.0 (λ usage. sub_size usage d))
      (λ v. record v { data_ = set r.0; memory_usage = sub_size v.memory_usage d }) d 0 _
      (λ n. refl) (λ v _. (del_members-Deleted m (pos 0) 0 items o).sorted) (λ s c. c)
sdel_data-Keeps p items (string x) at o = λ s c. c
sdel_data-Keeps p items (list x) at o = λ s c. c
sdel_data-Keeps p items (hash x) at o = λ s c. c

sdel_found-Keeps : (items : List Bytes) (o : Option Ptr) → Keeps (sdel_found items o)
unfolding sdel_found
sdel_found-Keeps items none = λ s c. c
sdel_found-Keeps items (some p) =
    load-Keeps p _ (λ n o. sdel_data-Keeps p items n.value.data_ n.value.expiry_time o)

pub command_sdel-Keeps : (args : List Bytes) → Keeps (command_sdel args)
unfolding command_sdel
command_sdel-Keeps args = keyed-Keeps args 1 _ (λ key. sdel_found-Keeps (drop 2 args))

operand_found-Keeps : (o : Option Ptr) → Keeps (operand_found o)
unfolding operand_found
operand_found-Keeps none = λ s c. c
operand_found-Keeps (some p) = load-Keeps p _ (λ n o s c. c)

operand-Keeps : (key : Bytes) → Keeps (operand key)
operand-Keeps key =
    found-Keeps key operand_found (λ s c e. operand_found-Keeps none s c)
      (λ p s c e. operand_found-Keeps (some p) s c)

diff_loop-Keeps : (s keys : List Bytes) → Keeps (diff_loop s keys)
unfolding diff_loop
diff_loop-Keeps s [] = λ t c. c
diff_loop-Keeps s (key ∷ keys) =
    bind-Keeps (operand key) _ (operand-Keeps key) (λ o. diff_loop-Keeps (diff_operand s o) keys)

diff_from-Keeps : (keys : List Bytes) (o : Operand) → Keeps (diff_from keys o)
diff_from-Keeps keys wrong = λ s c. c
diff_from-Keeps keys missing =
    bind-Keeps (diff_loop [] keys) _ (diff_loop-Keeps [] keys) (λ r s c. c)
diff_from-Keeps keys (members m) =
    bind-Keeps (diff_loop m keys) _ (diff_loop-Keeps m keys) (λ r s c. c)

pub command_sdiff-Keeps : (args : List Bytes) → Keeps (command_sdiff args)
unfolding command_sdiff
command_sdiff-Keeps args s c = elim (Bool-cases (ltb (length args) 2)) [
  | inl e ↦ rw e c
  | inr n ↦ rw n (
      bind-Keeps (arg args 1) _ (arg-Keeps args 1)
        (λ key.
          bind-Keeps (operand key) _ (operand-Keeps key) (λ o. diff_from-Keeps (drop 2 args) o))
        s c)
]

-- One round of the loop of SINTER, and the rest of it.
inter_round-Keeps :
    (keys : List Bytes) (r : Option (List Bytes × Bool))
    → ((next : List Bytes) → Keeps (inter_loop next keys))
    → Keeps (elim r as (λ r. Cmd (Option (List Bytes))) [
      | none ↦ pure none
      | some (next, go_on) ↦ elim go_on as (λ b. Cmd (Option (List Bytes))) [
        | true ↦ inter_loop next keys
        | false ↦ pure (some next)
      ]
    ])
inter_round-Keeps keys none later = λ s c. c
inter_round-Keeps keys (some (next, true)) later = later next
inter_round-Keeps keys (some (next, false)) later = λ s c. c

inter_loop-Keeps : (s keys : List Bytes) → Keeps (inter_loop s keys)
unfolding inter_loop
inter_loop-Keeps s [] = λ t c. c
inter_loop-Keeps s (key ∷ keys) =
    bind-Keeps (operand key) _ (operand-Keeps key)
      (λ o. inter_round-Keeps keys (inter_operand s o) (λ next. inter_loop-Keeps next keys))

inter_from-Keeps : (keys : List Bytes) (o : Operand) → Keeps (inter_from keys o)
inter_from-Keeps keys wrong = λ s c. c
inter_from-Keeps keys missing =
    bind-Keeps (inter_loop [] keys) _ (inter_loop-Keeps [] keys) (λ r s c. c)
inter_from-Keeps keys (members m) =
    bind-Keeps (inter_loop m keys) _ (inter_loop-Keeps m keys) (λ r s c. c)

pub command_sinter-Keeps : (args : List Bytes) → Keeps (command_sinter args)
unfolding command_sinter
command_sinter-Keeps args s c = elim (Bool-cases (ltb (length args) 2)) [
  | inl e ↦ rw e c
  | inr n ↦ rw n (
      bind-Keeps (arg args 1) _ (arg-Keeps args 1)
        (λ key.
          bind-Keeps (operand key) _ (operand-Keeps key) (λ o. inter_from-Keeps (drop 2 args) o))
        s c)
]

union_loop-Keeps : (s keys : List Bytes) → Keeps (union_loop s keys)
unfolding union_loop
union_loop-Keeps s [] = λ t c. c
union_loop-Keeps s (key ∷ keys) =
    bind-Keeps (operand key) _ (operand-Keeps key) (λ o. union_loop-Keeps (union_operand s o) keys)

pub command_sunion-Keeps : (args : List Bytes) → Keeps (command_sunion args)
unfolding command_sunion
command_sunion-Keeps args s c = elim (Bool-cases (ltb (length args) 2)) [
  | inl e ↦ rw e c
  | inr n ↦ rw n (
      bind-Keeps (union_loop [] (drop 1 args)) _ (union_loop-Keeps [] (drop 1 args)) (λ r s c. c) s
        c)
]
