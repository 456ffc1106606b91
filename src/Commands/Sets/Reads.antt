-- ===== src/Commands/Sets/Reads.antt =====
-- SISMEMBER, SMISMEMBER, SCARD, SMEMBERS, SDIFF, SINTER and SUNION answer every request to a
-- readable database.
use druta_db.Prelude.{
  add_size, add_size-eq, arith, ◌-◌, ◌≡◌, refl, Bool, true, false, ltb, leb, ◌==◌, Option, none,
  some, List, [], ◌∷◌, ◌++◌, length, drop, Bytes, bytes_key, pos, int_of_size,
}
use druta_db.Text.{to_string}
use druta_db.Value.{ValueData, string, list, hash, set}
use druta_db.Lru.Chain.{Item, node_of, first_or, last_or}
use druta_db.Lru.Holds.{Shape}
use druta_db.Resp.{array_header}
use druta_db.Store.{null, Store, DrutaNode, reserve, Cmd, pure, ◌>>=◌, arg, find_key}
use druta_db.Lru.Consistent.Answers.{
  Ends, IsSmall, AreReadable, AreReadable-split, reserve-Answers, Answers, pure-Answers,
  bind-Answers, arg-Answers, found-Answers, load-Ends,
}
use druta_db.Commands.Replies.{integer_reply}
use druta_db.Commands.Reads.{here, at_least, has_arg, has_arg_of, keyed-Answers}
use druta_db.Commands.Sets.{
  smembers_data, smembers_found, read_found, count_reply, count_all, command_sismember,
  command_smismember, command_scard, command_smembers, Operand, missing, wrong, members,
  operand_found, operand, diff_operand, diff_loop, diff_from, command_sdiff, inter_operand,
  inter_loop, inter_from, command_sinter, union_operand, union_loop, command_sunion,
}

read_found-Answers :
    (args : List Bytes) (reply : List Bytes → Bytes) (otherwise : Bytes)
    → ltb 1 (length args) ≡ true
    → Answers (arg args 1 >>= λ key. (find_key key >>= read_found reply otherwise))
unfolding read_found
read_found-Answers args reply otherwise n =
    keyed-Answers args (λ key. read_found reply otherwise) n (λ key. pure-Answers _)
      (λ key s as_ i bs h v. load-Ends s as_ i bs h v _ (pure-Answers _ s (here s as_ i bs h v)))

pub command_sismember-Answers :
    (args : List Bytes) → (length args == 3) ≡ true → Answers (command_sismember args)
unfolding command_sismember read_found
command_sismember-Answers args n = rw n (
    bind-Answers (arg args 1) _ (arg-Answers args 1 (has_arg 1 (length args) 3 n refl)) (λ key.
      bind-Answers (arg args 2) _ (arg-Answers args 2 (has_arg 2 (length args) 3 n refl)) (λ member.
        found-Answers key (read_found (count_reply member) (integer_reply (pos 0))) (pure-Answers _)
          (λ s as_ i bs h v _ _.
            load-Ends s as_ i bs h v _ (pure-Answers _ s (here s as_ i bs h v))))))

pub command_smismember-Answers :
    (args : List Bytes) → leb 3 (length args) ≡ true → Answers (command_smismember args)
unfolding command_smismember
command_smismember-Answers args n = rw (at_least 3 (length args) n) (
    read_found-Answers args
      (λ s. array_header (to_string (length args - 2)) ++ count_all s (drop 2 args))
      (integer_reply (pos 0)) (has_arg_of 1 3 (length args) n refl))

pub command_scard-Answers :
    (args : List Bytes) → (length args == 2) ≡ true → Answers (command_scard args)
unfolding command_scard
command_scard-Answers args n = rw n (
    read_found-Answers args (λ s. integer_reply (int_of_size (length s))) (integer_reply (pos 0))
      (has_arg 1 (length args) 2 n refl))

smembers_data-Ends :
    (s : Store) (as_ : List Item) (i : Item) (bs : List Item)
    → Shape s (as_ ++ (i ∷ bs))
    → AreReadable (as_ ++ (i ∷ bs))
    → (n : DrutaNode) (d : ValueData) → IsSmall d n.value.memory_usage
    → Ends (smembers_data n d s)
unfolding smembers_data
smembers_data-Ends s as_ i bs h v n (string x) small = pure-Answers _ s (here s as_ i bs h v)
smembers_data-Ends s as_ i bs h v n (list x) small = pure-Answers _ s (here s as_ i bs h v)
smembers_data-Ends s as_ i bs h v n (hash x) small = pure-Answers _ s (here s as_ i bs h v)
smembers_data-Ends s as_ i bs h v n (set x) small =
    let e = add_size-eq 1024 n.value.memory_usage (omega (arith, small)) in
    bind-Answers (reserve (add_size 1024 n.value.memory_usage)) _
      (reserve-Answers (add_size 1024 n.value.memory_usage) (omega (arith, small, e)))
      (λ u. pure-Answers _) s (here s as_ i bs h v)

pub command_smembers-Answers :
    (args : List Bytes) → (length args == 2) ≡ true → Answers (command_smembers args)
unfolding command_smembers smembers_found
command_smembers-Answers args n = rw n (
    keyed-Answers args (λ key. smembers_found) (has_arg 1 (length args) 2 n refl)
      (λ key. pure-Answers _)
      (λ key s as_ i bs h v. load-Ends s as_ i bs h v _ (
        smembers_data-Ends s as_ i bs h v (node_of i (last_or null as_) (first_or null bs))
          i.value.data_ (AreReadable-split as_ i bs v).1.1)))

operand-Answers : (key : Bytes) → Answers (operand key)
unfolding operand_found
operand-Answers key =
    found-Answers key operand_found (pure-Answers _)
      (λ s as_ i bs h v _ _. load-Ends s as_ i bs h v _ (pure-Answers _ s (here s as_ i bs h v)))

diff_loop-Answers : (s keys : List Bytes) → Answers (diff_loop s keys)
unfolding diff_loop
diff_loop-Answers s [] = pure-Answers _
diff_loop-Answers s (key ∷ keys) =
    bind-Answers (operand key) _ (operand-Answers key)
      (λ o. diff_loop-Answers (diff_operand s o) keys)

diff_from-Answers : (keys : List Bytes) (o : Operand) → Answers (diff_from keys o)
diff_from-Answers keys wrong = pure-Answers _
diff_from-Answers keys missing =
    bind-Answers (diff_loop [] keys) _ (diff_loop-Answers [] keys) (λ r. pure-Answers _)
diff_from-Answers keys (members m) =
    bind-Answers (diff_loop m keys) _ (diff_loop-Answers m keys) (λ r. pure-Answers _)

pub command_sdiff-Answers :
    (args : List Bytes) → leb 2 (length args) ≡ true → Answers (command_sdiff args)
unfolding command_sdiff
command_sdiff-Answers args n = rw (at_least 2 (length args) n) (
    bind-Answers (arg args 1) _ (arg-Answers args 1 (has_arg_of 1 2 (length args) n refl)) (λ key.
      bind-Answers (operand key) _ (operand-Answers key) (λ o. diff_from-Answers (drop 2 args) o)))

-- One round of the loop of SINTER, and the rest of it.
inter_round-Answers :
    (keys : List Bytes) (r : Option (List Bytes × Bool))
    → ((next : List Bytes) → Answers (inter_loop next keys))
    → Answers (elim r as (λ r. Cmd (Option (List Bytes))) [
      | none ↦ pure none
      | some (next, go_on) ↦ elim go_on as (λ b. Cmd (Option (List Bytes))) [
        | true ↦ inter_loop next keys
        | false ↦ pure (some next)
      ]
    ])
inter_round-Answers keys none later = pure-Answers _
inter_round-Answers keys (some (next, true)) later = later next
inter_round-Answers keys (some (next, false)) later = pure-Answers _

inter_loop-Answers : (s keys : List Bytes) → Answers (inter_loop s keys)
unfolding inter_loop
inter_loop-Answers s [] = pure-Answers _
inter_loop-Answers s (key ∷ keys) =
    bind-Answers (operand key) _ (operand-Answers key)
      (λ o. inter_round-Answers keys (inter_operand s o) (λ next. inter_loop-Answers next keys))

inter_from-Answers : (keys : List Bytes) (o : Operand) → Answers (inter_from keys o)
inter_from-Answers keys wrong = pure-Answers _
inter_from-Answers keys missing =
    bind-Answers (inter_loop [] keys) _ (inter_loop-Answers [] keys) (λ r. pure-Answers _)
inter_from-Answers keys (members m) =
    bind-Answers (inter_loop m keys) _ (inter_loop-Answers m keys) (λ r. pure-Answers _)

pub command_sinter-Answers :
    (args : List Bytes) → leb 2 (length args) ≡ true → Answers (command_sinter args)
unfolding command_sinter
command_sinter-Answers args n = rw (at_least 2 (length args) n) (
    bind-Answers (arg args 1) _ (arg-Answers args 1 (has_arg_of 1 2 (length args) n refl)) (λ key.
      bind-Answers (operand key) _ (operand-Answers key) (λ o. inter_from-Answers (drop 2 args) o)))

union_loop-Answers : (s keys : List Bytes) → Answers (union_loop s keys)
unfolding union_loop
union_loop-Answers s [] = pure-Answers _
union_loop-Answers s (key ∷ keys) =
    bind-Answers (operand key) _ (operand-Answers key)
      (λ o. union_loop-Answers (union_operand s o) keys)

pub command_sunion-Answers :
    (args : List Bytes) → leb 2 (length args) ≡ true → Answers (command_sunion args)
unfolding command_sunion
command_sunion-Answers args n = rw (at_least 2 (length args) n) (
    bind-Answers (union_loop [] (drop 1 args)) _ (union_loop-Answers [] (drop 1 args))
      (λ r. pure-Answers _))
