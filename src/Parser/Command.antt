-- ===== src/Parser/Command.antt =====
-- The round trip of a command: what `format_resp_command` writes, `parse_and_execute` hands to
-- `handle_command` argument by argument unchanged.
use druta_db.Prelude.{
  ℕ, ◌+◌, ◌^◌, ◌<◌, ◌≡◌, refl, sym, ap, ◌∙◌, true, false, List, [], ◌∷◌, ◌++◌, arith, length,
  length-append, snoc, append-snoc, append-nil, append_assoc, All, Bytes, ℤ, pos, int_of_size,
  int_of_size-pos, eqb_ℤ, Result, ok, ◌>>=◌, bind_assoc,
}
use druta_db.Text.{to_string, crlf}
use druta_db.Text.Decimal.{to_string-IsDigit}
use druta_db.Text.Numbers.{stoi-to_string}
use druta_db.Resp.{resp_bulk_string, append_bulk_strings, array_header, format_resp_command}
use druta_db.Parser.{RespParser, reset, step_array_size, finish_argument, parse_and_execute}
use druta_db.Parser.Bulk.{at_array_size, at_bulk_size, at_data, bulk, array_digits, parse-bulk}

-- What one command's strings add to the text.
abbrev pub bulks : List Bytes → Bytes
bulks [] = []
bulks (arg ∷ args) = bulk arg ++ bulks args

append_bulk_strings-bulks :
    (res : Bytes) (args : List Bytes) → append_bulk_strings res args ≡ res ++ bulks args
unfolding append_bulk_strings resp_bulk_string
append_bulk_strings-bulks res [] = sym (append-nil res)
append_bulk_strings-bulks res (arg ∷ args) =
    append_bulk_strings-bulks (res ++ bulk arg) args ∙ append_assoc res (bulk arg) (bulks args)

-- A command's text: its header and its strings.
pub format-bulks :
    (args : List Bytes)
    → format_resp_command args ≡ array_header (to_string (length args)) ++ bulks args
unfolding format_resp_command
format-bulks args = append_bulk_strings-bulks (array_header (to_string (length args))) args

-- A string whose length is an `int`.
abbrev pub IsShort : Bytes → Type 0
IsShort s = length s < 2 ^ 31

-- A command that the protocol can carry: it has a name, and its sizes are `int`s.
pub record IsSendable (args : List Bytes) : Type 0 where
  pub nonempty : 0 < length args
  pub few : length args < 2 ^ 31
  pub short : All IsShort args

count_reached : (n m : ℕ) → n ≡ m → m < 2 ^ 31 → eqb_ℤ (int_of_size n) (pos m) ≡ true
count_reached n m e small = rw (int_of_size-pos n (omega arith)) (ground arith)

count_open : (n m : ℕ) → n < m → m < 2 ^ 31 → eqb_ℤ (int_of_size n) (pos m) ≡ false
count_open n m h small = rw (int_of_size-pos n (omega arith)) (ground arith)

length-snoc : (xs : List Bytes) (x : Bytes) → length (snoc xs x) ≡ length xs + 1
length-snoc xs x = omega (arith, length-append xs (x ∷ []))

module _ {W : Type 0} (h : List Bytes → W → Result W) where
  -- The command runs, and the parser goes on with the rest from its first state.
  abbrev pub run_then : List Bytes → Bytes → W → Result (RespParser × W)
  run_then args rest w = h args w >>= λ w'. parse_and_execute h reset rest w'

  finish_last :
      (args : List Bytes) (n : ℕ) (len : ℤ) (val rest : Bytes) (w : W)
      → length args ≡ n
      → n < 2 ^ 31
      → (finish_argument h (at_data args (pos n) len val) w >>= λ r.
          parse_and_execute h r.0 rest r.1)
        ≡ run_then args rest w
  unfolding finish_argument
  finish_last args n len val rest w e small =
      rw (count_reached (length args) n e small)
        (bind_assoc (h args w) (λ w'. ok (reset, w')) (λ r. parse_and_execute h r.0 rest r.1))

  finish_open :
      (args : List Bytes) (n : ℕ) (len : ℤ) (val : Bytes) (w : W)
      → length args < n
      → n < 2 ^ 31
      → finish_argument h (at_data args (pos n) len val) w
        ≡ ok (at_bulk_size args (pos n) len [] val, w)
  unfolding finish_argument
  finish_open args n len val w e small = rw (count_open (length args) n e small)

  parse-bulks :
      (before_args : List Bytes) (arg : Bytes) (args : List Bytes) (n : ℕ) (len : ℤ)
      (val rest : Bytes) (w : W)
      → All IsShort (arg ∷ args)
      → length before_args + length (arg ∷ args) ≡ n
      → n < 2 ^ 31
      → parse_and_execute h
          (at_bulk_size before_args (pos n) len [] val)
          (bulks (arg ∷ args) ++ rest)
          w
        ≡ run_then (before_args ++ (arg ∷ args)) rest w
  parse-bulks before_args arg [] n len val rest w short e small = rw append-nil (
      parse-bulk h before_args (pos n) len val arg rest w short.0
      ∙ finish_last (snoc before_args arg) n (pos (length arg)) arg rest w
          (omega (arith, length-snoc before_args arg)) small)
  parse-bulks before_args arg (next ∷ args) n len val rest w short e small =
      rw (append_assoc, append-snoc before_args (next ∷ args) arg)
        (parse-bulk h before_args (pos n) len val arg (bulks (next ∷ args) ++ rest) w short.0
          ∙ rw
              (finish_open (snoc before_args arg) n (pos (length arg)) arg w
                (omega (arith, length-snoc before_args arg)) small)
              (parse-bulks (snoc before_args arg) next args n (pos (length arg)) arg rest w short.1
                (omega (arith, length-snoc before_args arg)) small))

  array_size_end :
      (n : ℕ) (rest : Bytes) (w : W)
      → n < 2 ^ 31
      → parse_and_execute h (at_array_size [] (pos 0) (to_string n)) (crlf ++ rest) w
        ≡ parse_and_execute h (at_bulk_size [] (pos n) (pos 0) [] []) rest w
  unfolding parse_and_execute
  array_size_end n rest w small = rw (stoi-to_string n small, step_array_size)

  -- A header opens an array of that many strings.
  pub parse-array_header :
      (n : ℕ) (rest : Bytes) (w : W)
      → n < 2 ^ 31
      → parse_and_execute h reset (array_header (to_string n) ++ rest) w
        ≡ parse_and_execute h (at_bulk_size [] (pos n) (pos 0) [] []) rest w
  unfolding array_header
  parse-array_header n rest w small =
      star
      ∙ rw append_assoc
          (array_digits h [] (pos 0) [] (to_string n) (crlf ++ rest) w (to_string-IsDigit n))
      ∙ array_size_end n rest w small
    where
      star :
          parse_and_execute h reset (array_header (to_string n) ++ rest) w
          ≡ parse_and_execute h (at_array_size [] (pos 0) []) ((to_string n ++ crlf) ++ rest) w
      star = unfold parse_and_execute in refl

  -- A formatted command, followed by any bytes, is handed to the handler with exactly its
  -- arguments, after which the parser is as new and reads what follows.
  pub parse-format :
      (args : List Bytes) (rest : Bytes) (w : W)
      → IsSendable args
      → parse_and_execute h reset (format_resp_command args ++ rest) w ≡ run_then args rest w
  parse-format [] rest w s = absurd (omega arith)
  parse-format (arg ∷ args) rest w s =
      let n = length (arg ∷ args) in
      ap (λ t. parse_and_execute h reset (t ++ rest) w) (format-bulks (arg ∷ args))
      ∙ ap (λ t. parse_and_execute h reset t w)
          (append_assoc (array_header (to_string n)) (bulks (arg ∷ args)) rest)
      ∙ parse-array_header n (bulks (arg ∷ args) ++ rest) w s.few
      ∙ parse-bulks [] arg args n (pos 0) [] rest w s.short (omega arith) s.few
