-- ===== src/Commands/Reads.antt =====
-- The handlers that only read, and GET, answer every request to a readable database.
use druta_db.Prelude.{
  max_ℤ, min_ℤ, ltb_ℤ, false, pos, int_of_size-pos, fits_int, ◌+ℤ◌, ◌<◌, ◌^◌, ℕ, ok, negsuc,
  add_size, add_size-eq, ℕ, ◌≡◌, refl, inl, inr, arith, true, false, ltb, leb, ◌==◌, Bool-cases,
  Option, none, some, List, ◌∷◌, ◌++◌, length, Bytes, bytes_key, ℤ,
}
use druta_db.Text.Storage.{StdString}
use druta_db.Hash.{get_hash}
use druta_db.Value.{ValueData, string, list, hash, set}
use druta_db.Store.{reserve, Ptr, Store, Cmd, pure, ◌>>=◌, arg, find_key, erase_key}
use druta_db.Lru.{remove_from_lru}
use druta_db.Lru.Chain.{Item}
use druta_db.Lru.Holds.{Shape}
use druta_db.Lru.Remove.{remove_from_lru-Removed}
use druta_db.Lru.Consistent.Answers.{
  Readable, IsSmall, AreReadable, AreReadable-split, reserve-Answers, Ends, Answers, pure-Answers,
  bind-Answers, arg-Answers, found-Answers, as_it_is, load-Ends, touch-Ends,
}
use druta_db.Commands.Replies.{nil_reply, bulk_reply}
use druta_db.Commands.Strings.{is_expired, get_data, get_found, command_get, command_echo}
use druta_db.Commands.Strings.Entries.{then_pure}
use druta_db.Text.{stoi}
use druta_db.Text.Range.{IsWithin, stoi-IsWithin}
use druta_db.Commands.Lists.{
  from_end, add_int, range_numbers, range_reply, range_items, lrange_data, lrange_found,
  command_lrange, llen_data, llen_found, command_llen,
}
use druta_db.Commands.Hashes.{
  field_reply, hget_data, hget_found, command_hget, hgetall_data, hgetall_found, command_hgetall,
  hlen_found, command_hlen,
}

from_end-ok :
    (m : ℕ) (i : ℤ)
    → m < 2 ^ 31
    → IsWithin (2 ^ 31) (some i)
    → (j : ℤ) × (from_end (pos m) i ≡ ok j)
unfolding from_end add_int
from_end-ok m (pos n) h w =
    let late : ltb_ℤ (pos n) (pos 0) ≡ false = ground arith in (pos n, rw late)
from_end-ok m (negsuc n) h w =
    let f : fits_int (negsuc n +ℤ pos m) ≡ true = unfold fits_int in unfold ◌+ℤ◌ in ground arith in
    let early : ltb_ℤ (negsuc n) (pos 0) ≡ true = ground arith in (negsuc n +ℤ pos m, rw (early, f))

-- The indices that `std::stoi` gives do not overflow, if the length is an `int`.
range_numbers-ok :
    (l : List Bytes) (first last : Option ℤ)
    → length l < 2 ^ 31
    → IsWithin (2 ^ 31) first
    → IsWithin (2 ^ 31) last
    → (res : Bytes) × (range_numbers l first last ≡ ok res)
unfolding range_numbers range_reply
range_numbers-ok l none last h f g = (_, refl)
range_numbers-ok l (some li) none h f g = (_, refl)
range_numbers-ok l (some li) (some ri) h f g =
    let m = length l in
    let (a, e) = from_end-ok m li h f in
    let (b, e') = from_end-ok m ri h g in
    let one : fits_int (pos m +ℤ negsuc 0) ≡ true =
      unfold fits_int in unfold ◌+ℤ◌ in ground arith in
    (
      range_items l (pos m) (max_ℤ a (pos 0)) (min_ℤ b (pos m +ℤ negsuc 0)),
      rw (int_of_size-pos m (omega arith), e, e', add_int, one) refl,
    )

module _ (s : Store) (as_ : List Item) (i : Item) (bs : List Item) (h : Shape s (as_ ++ (i ∷ bs)))
    (v : AreReadable (as_ ++ (i ∷ bs))) where
  abbrev pub here : Readable s
  here = as_it_is s as_ i bs h v

  lrange_data-Ends :
      (first last : Bytes) (d : ValueData)
      → IsSmall d i.value.memory_usage
      → Ends (lrange_data i.at first last d s)
  unfolding lrange_data
  lrange_data-Ends first last (list l) small =
      let (res, e) =
        range_numbers-ok l (stoi first) (stoi last) small (stoi-IsWithin first)
          (stoi-IsWithin last) in
      touch-Ends s as_ i bs h v _ (rw e (pure-Answers res))
  lrange_data-Ends first last (string x) small = pure-Answers _ s here
  lrange_data-Ends first last (hash x) small = pure-Answers _ s here
  lrange_data-Ends first last (set x) small = pure-Answers _ s here

  llen_data-Ends : (d : ValueData) → Ends (llen_data i.at d s)
  unfolding llen_data
  llen_data-Ends (list l) = touch-Ends s as_ i bs h v _ (pure-Answers _)
  llen_data-Ends (string x) = pure-Answers _ s here
  llen_data-Ends (hash x) = pure-Answers _ s here
  llen_data-Ends (set x) = pure-Answers _ s here

  field_reply-Ends : (o : Option StdString) → Ends (field_reply i.at o s)
  unfolding field_reply
  field_reply-Ends none = pure-Answers _ s here
  field_reply-Ends (some val) = touch-Ends s as_ i bs h v _ (pure-Answers _)

  hget_data-Ends : (field : Bytes) (d : ValueData) → Ends (hget_data i.at field d s)
  unfolding hget_data
  hget_data-Ends field (hash x) = field_reply-Ends (get_hash x field)
  hget_data-Ends field (string x) = pure-Answers _ s here
  hget_data-Ends field (list x) = pure-Answers _ s here
  hget_data-Ends field (set x) = pure-Answers _ s here

  hgetall_data-Ends :
      (d : ValueData) → IsSmall d i.value.memory_usage → Ends (hgetall_data i.at d s)
  unfolding hgetall_data
  hgetall_data-Ends (hash x) small =
      let e = add_size-eq 1024 x.memory_usage (omega (arith, small)) in
      touch-Ends s as_ i bs h v _ (
        bind-Answers (reserve (add_size 1024 x.memory_usage)) _
          (reserve-Answers (add_size 1024 x.memory_usage) (omega (arith, small, e)))
          (λ _. pure-Answers _))
  hgetall_data-Ends (string x) small = pure-Answers _ s here
  hgetall_data-Ends (list x) small = pure-Answers _ s here
  hgetall_data-Ends (set x) small = pure-Answers _ s here

-- At least `k` arguments.
pub at_least : (k n : ℕ) → leb k n ≡ true → ltb n k ≡ false
at_least k n h = ground arith

pub has_arg_of : (i k n : ℕ) → leb k n ≡ true → ltb i k ≡ true → ltb i n ≡ true
has_arg_of i k n h e = ground arith

-- An argument that a handler with `n` arguments reads.
pub has_arg : (i n k : ℕ) → (n == k) ≡ true → ltb i k ≡ true → ltb i n ≡ true
has_arg i n k e h = ground arith

pub command_lrange-Answers :
    (args : List Bytes) → (length args == 4) ≡ true → Answers (command_lrange args)
unfolding command_lrange lrange_found
command_lrange-Answers args n =
    bind-Answers (arg args 1) _ (arg-Answers args 1 (has_arg 1 (length args) 4 n refl)) (λ key.
      bind-Answers (arg args 2) _ (arg-Answers args 2 (has_arg 2 (length args) 4 n refl)) (λ first.
        bind-Answers (arg args 3) _ (arg-Answers args 3 (has_arg 3 (length args) 4 n refl)) (λ last.
          found-Answers key (lrange_found first last) (pure-Answers _) (λ s as_ i bs h v _ _.
            load-Ends s as_ i bs h v _ (
              lrange_data-Ends s as_ i bs h v first last i.value.data_
                (AreReadable-split as_ i bs v).1.1)))))

-- A handler of a key.
pub keyed-Answers :
    (args : List Bytes) (k : Bytes → Option Ptr → Cmd Bytes)
    → ltb 1 (length args) ≡ true
    → ((key : Bytes) → Answers (k key none))
    → ((key : Bytes) (s : Store) (as_ : List Item) (i : Item) (bs : List Item)
        → Shape s (as_ ++ (i ∷ bs))
        → AreReadable (as_ ++ (i ∷ bs))
        → Ends (k key (some i.at) s))
    → Answers (arg args 1 >>= λ key. (find_key key >>= k key))
keyed-Answers args k n absent there =
    bind-Answers (arg args 1) _ (arg-Answers args 1 n) (λ key.
      found-Answers key (k key) (absent key) (λ s as_ i bs h v _ _. there key s as_ i bs h v))

pub command_llen-Answers :
    (args : List Bytes) → (length args == 2) ≡ true → Answers (command_llen args)
unfolding command_llen llen_found
command_llen-Answers args n =
    keyed-Answers args (λ key. llen_found) (has_arg 1 (length args) 2 n refl)
      (λ key. pure-Answers _)
      (λ key s as_ i bs h v.
        load-Ends s as_ i bs h v _ (llen_data-Ends s as_ i bs h v i.value.data_))

pub command_hget-Answers :
    (args : List Bytes) → (length args == 3) ≡ true → Answers (command_hget args)
unfolding command_hget hget_found
command_hget-Answers args n = rw n (
    bind-Answers (arg args 1) _ (arg-Answers args 1 (has_arg 1 (length args) 3 n refl)) (λ key.
      bind-Answers (arg args 2) _ (arg-Answers args 2 (has_arg 2 (length args) 3 n refl)) (λ field.
        found-Answers key (hget_found field) (pure-Answers _) (λ s as_ i bs h v _ _.
          load-Ends s as_ i bs h v _ (hget_data-Ends s as_ i bs h v field i.value.data_)))))

pub command_hgetall-Answers :
    (args : List Bytes) → (length args == 2) ≡ true → Answers (command_hgetall args)
unfolding command_hgetall hgetall_found
command_hgetall-Answers args n = rw n (
    keyed-Answers args (λ key. hgetall_found) (has_arg 1 (length args) 2 n refl)
      (λ key. pure-Answers _)
      (λ key s as_ i bs h v.
        load-Ends s as_ i bs h v _
          (hgetall_data-Ends s as_ i bs h v i.value.data_ (AreReadable-split as_ i bs v).1.1)))

pub command_hlen-Answers :
    (args : List Bytes) → (length args == 2) ≡ true → Answers (command_hlen args)
unfolding command_hlen hlen_found
command_hlen-Answers args n = rw n (
    keyed-Answers args (λ key. hlen_found) (has_arg 1 (length args) 2 n refl)
      (λ key. pure-Answers _)
      (λ key s as_ i bs h v. load-Ends s as_ i bs h v _ (pure-Answers _ s (here s as_ i bs h v))))

-- An expired string goes, another one is touched.
get_data-Ends :
    (now : ℤ) (s : Store) (as_ : List Item) (i : Item) (bs : List Item)
    → Shape s (as_ ++ (i ∷ bs))
    → AreReadable (as_ ++ (i ∷ bs))
    → (at : ℤ) (d : ValueData) → Ends (get_data now i.key i.at at d s)
unfolding get_data
get_data-Ends now s as_ i bs h v at (string val) = elim (Bool-cases (is_expired now at)) [
  | inl late ↦
      let (a, run, d) = remove_from_lru-Removed s as_ i bs h in
      rw late (
        (nil_reply, a.1),
        then_pure (remove_from_lru i.at s) (erase_key i.key) nil_reply a run,
        record { items = as_ ++ bs; shape = d.shape; readable = (AreReadable-split as_ i bs v).0 },
      )
  | inr n ↦ rw n (touch-Ends s as_ i bs h v (pure (bulk_reply val)) (pure-Answers (bulk_reply val)))
]
get_data-Ends now s as_ i bs h v at (list l) = pure-Answers _ s (here s as_ i bs h v)
get_data-Ends now s as_ i bs h v at (hash m) = pure-Answers _ s (here s as_ i bs h v)
get_data-Ends now s as_ i bs h v at (set m) = pure-Answers _ s (here s as_ i bs h v)

pub command_get-Answers :
    (now : ℤ) (args : List Bytes) → (length args == 2) ≡ true → Answers (command_get now args)
unfolding command_get
command_get-Answers now args n =
    bind-Answers (arg args 1) _ (arg-Answers args 1 (has_arg 1 (length args) 2 n refl)) (λ key.
      found-Answers key (get_found now key) (pure-Answers _) (λ s as_ i bs h v _ e. rw e (
        load-Ends s as_ i bs h v _
          (get_data-Ends now s as_ i bs h v i.value.expiry_time i.value.data_))))

pub command_echo-Answers :
    (args : List Bytes) → ltb 1 (length args) ≡ true → Answers (command_echo args)
unfolding command_echo
command_echo-Answers args n =
    bind-Answers (arg args 1) _ (arg-Answers args 1 n) (λ m. pure-Answers _)
