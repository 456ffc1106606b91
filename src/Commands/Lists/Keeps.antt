-- ===== src/Commands/Lists/Keeps.antt =====
-- RPUSH, LPUSH, LRANGE, LPOP, RPOP and LLEN leave a consistent database.
use druta_db.Prelude.{
  refl, Bool, false, Option, none, some, List, length, drop, Bytes, ℤ, min_ℤ, int_of_size, add_size,
  sub_size,
}
use druta_db.Text.{stoi, int_to_string}
use druta_db.Resp.{array_header}
use druta_db.Value.{ValueData, string, list, hash, set, of_type}
use druta_db.Store.{Ptr, Cmd, pure, ◌>>=◌, lift, arg, modify, find_key}
use druta_db.Lru.{notify_memory_change}
use druta_db.Lru.Consistent.{Keeps, load-Keeps, modify-Keeps}
use druta_db.Lru.Consistent.Calls.{
  bind-Keeps, lift-Keeps, arg-Keeps, found-Keeps, add_new-Keeps, notify_memory_change-Keeps,
  change-Keeps, then_touch-Keeps, keyed-Keeps,
}
use druta_db.Commands.Replies.{invalid_arguments}
use druta_db.Commands.Lists.{
  range_numbers, push_all, set_list, push_data, push_found, generic_push, lrange_data, lrange_found,
  command_lrange, oriented, pop_loop, pop_data, pop_found, pop_count, generic_pop, llen_data,
  llen_found, command_llen,
}

push_data-Keeps :
    (at_front : Bool) (p : Ptr) (items : List Bytes) (d : ValueData)
    → Keeps (push_data at_front p items d)
unfolding push_data
push_data-Keeps at_front p items (list l) =
    let r = push_all at_front l 0 items in
    change-Keeps p (set_list r.0 (λ usage. add_size usage r.1))
      (λ v. record v { data_ = list r.0; memory_usage = add_size v.memory_usage r.1 }) 0 r.1 _
      (λ n. refl) (λ v o. tt) (load-Keeps p _ (λ n o s c. c))
push_data-Keeps at_front p items (string x) = λ s c. c
push_data-Keeps at_front p items (hash h) = λ s c. c
push_data-Keeps at_front p items (set x) = λ s c. c

pub generic_push-Keeps : (at_front : Bool) (args : List Bytes) → Keeps (generic_push at_front args)
unfolding generic_push of_type
generic_push-Keeps at_front args = bind-Keeps (arg args 1) _ (arg-Keeps args 1) (λ key.
    found-Keeps key (push_found at_front key (drop 2 args))
      (λ s c e. add_new-Keeps key _ _ tt (λ p s c. c) s c e)
      (λ p s c e.
        load-Keeps p _ (λ n o. push_data-Keeps at_front p (drop 2 args) n.value.data_) s c))

lrange_data-Keeps :
    (p : Ptr) (first last : Bytes) (d : ValueData) → Keeps (lrange_data p first last d)
unfolding lrange_data
lrange_data-Keeps p first last (list l) =
    then_touch-Keeps p _ (lift-Keeps (range_numbers l (stoi first) (stoi last)))
lrange_data-Keeps p first last (string x) = λ s c. c
lrange_data-Keeps p first last (hash h) = λ s c. c
lrange_data-Keeps p first last (set x) = λ s c. c

lrange_found-Keeps : (first last : Bytes) (o : Option Ptr) → Keeps (lrange_found first last o)
unfolding lrange_found
lrange_found-Keeps first last none = λ s c. c
lrange_found-Keeps first last (some p) =
    load-Keeps p _ (λ n o. lrange_data-Keeps p first last n.value.data_)

pub command_lrange-Keeps : (args : List Bytes) → Keeps (command_lrange args)
unfolding command_lrange
command_lrange-Keeps args = bind-Keeps (arg args 1) _ (arg-Keeps args 1) (λ key.
    bind-Keeps (arg args 2) _ (arg-Keeps args 2) (λ first.
      bind-Keeps (arg args 3) _ (arg-Keeps args 3) (λ last.
        found-Keeps key (lrange_found first last) (λ s c e. lrange_found-Keeps first last none s c)
          (λ p s c e. lrange_found-Keeps first last (some p) s c))))

pop_data-Keeps :
    (from_front : Bool) (p : Ptr) (count : ℤ) (d : ValueData)
    → Keeps (pop_data from_front p count d)
unfolding pop_data
pop_data-Keeps from_front p count (list l) =
    let n = min_ℤ count (int_of_size (length l)) in
    then_touch-Keeps p _ (
      bind-Keeps (lift (pop_loop (oriented from_front l) n (array_header (int_to_string n)) 0)) _
        (lift-Keeps (pop_loop (oriented from_front l) n (array_header (int_to_string n)) 0))
        (λ r.
          let f = set_list (oriented from_front r.0) (λ usage. sub_size usage r.2) in
          bind-Keeps (modify p f) _
            (modify-Keeps p f
              (λ v. record v {
                data_ = list (oriented from_front r.0);
                memory_usage = sub_size v.memory_usage r.2;
              })
              (λ n. refl) (λ v o. tt))
            (λ _.
              bind-Keeps (notify_memory_change r.2 0) _ (notify_memory_change-Keeps r.2 0)
                (λ _ s c. c))))
pop_data-Keeps from_front p count (string x) = λ s c. c
pop_data-Keeps from_front p count (hash h) = λ s c. c
pop_data-Keeps from_front p count (set x) = λ s c. c

pop_found-Keeps :
    (from_front : Bool) (count : ℤ) (o : Option Ptr) → Keeps (pop_found from_front count o)
unfolding pop_found
pop_found-Keeps from_front count none = λ s c. c
pop_found-Keeps from_front count (some p) =
    load-Keeps p _ (λ n o. pop_data-Keeps from_front p count n.value.data_)

pub generic_pop-Keeps :
    (from_front : Bool) (args : List Bytes) → Keeps (generic_pop from_front args)
unfolding generic_pop
generic_pop-Keeps from_front args =
    (elim (pop_count args)
      as (λ o. Keeps (elim o as (λ o. Cmd (Bytes × Bool)) [
        | none ↦ pure (invalid_arguments, false)
        | some count ↦ (arg args 1 >>= λ key. (find_key key >>= pop_found from_front count))
      ])) [
        | none ↦ λ s c. c
        | some count ↦
            keyed-Keeps args 1 (λ key. pop_found from_front count)
              (λ key. pop_found-Keeps from_front count)
      ])

llen_data-Keeps : (p : Ptr) (d : ValueData) → Keeps (llen_data p d)
unfolding llen_data
llen_data-Keeps p (list l) = then_touch-Keeps p _ (λ s c. c)
llen_data-Keeps p (string x) = λ s c. c
llen_data-Keeps p (hash h) = λ s c. c
llen_data-Keeps p (set x) = λ s c. c

llen_found-Keeps : (o : Option Ptr) → Keeps (llen_found o)
unfolding llen_found
llen_found-Keeps none = λ s c. c
llen_found-Keeps (some p) = load-Keeps p _ (λ n o. llen_data-Keeps p n.value.data_)

pub command_llen-Keeps : (args : List Bytes) → Keeps (command_llen args)
unfolding command_llen
command_llen-Keeps args = keyed-Keeps args 1 (λ key. llen_found) (λ key. llen_found-Keeps)
