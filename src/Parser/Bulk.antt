-- ===== src/Parser/Bulk.antt =====
-- The parser on one length-prefixed string: the runs of digits and of data bytes.
use druta_db.Prelude.{
  ℕ, ◌+◌, ◌^◌, ◌≤◌, ◌<◌, ◌≡◌, refl, ◌∙◌, true, false, some, List, [], ◌∷◌, ◌++◌, arith, ◌==◌,
  length, length-append, snoc, append-snoc, append-nil, append_assoc, All, Bytes, ℤ, pos,
  int_of_size, int_of_size-pos, ltb_ℤ, Result, ◌>>=◌,
}
use druta_db.Text.{to_string, stoi, cr, lf, crlf}
use druta_db.Text.Decimal.{IsDigit, to_string-IsDigit, cons-to_string}
use druta_db.Text.Numbers.{stoi-to_string}
use druta_db.Parser.{
  RespParser, reading_array_size, reading_bulk_size, reading_data, finish_argument, step_data,
  parse_and_execute,
}

-- The parser in its states.
module _ (args : List Bytes) (count : ℤ) where
  abbrev pub at_array_size : Bytes → RespParser
  at_array_size buffer = record {
    state = reading_array_size;
    args = args;
    array_count = count;
    current_bulk_len = pos 0;
    current_buffer = buffer;
    data_accumulator = [];
  }

  abbrev pub at_bulk_size : ℤ → Bytes → Bytes → RespParser
  at_bulk_size len buffer data_bytes = record {
    state = reading_bulk_size;
    args = args;
    array_count = count;
    current_bulk_len = len;
    current_buffer = buffer;
    data_accumulator = data_bytes;
  }

  abbrev pub at_data : ℤ → Bytes → RespParser
  at_data len data_bytes = record {
    state = reading_data;
    args = args;
    array_count = count;
    current_bulk_len = len;
    current_buffer = [];
    data_accumulator = data_bytes;
  }

-- What `resp_bulk_string` appends.
abbrev pub bulk : Bytes → Bytes
bulk val = b'$' ∷ to_string (length val) ++ (crlf ++ (val ++ crlf))

pub digit_ne : (c k : ℕ) → IsDigit c → k < b'0' → (c == k) ≡ false
digit_ne c k h small = ground arith

data_waits : (n len : ℕ) → n < len → len < 2 ^ 31 → ltb_ℤ (int_of_size n) (pos len) ≡ true
data_waits n len h small = rw (int_of_size-pos n (omega arith)) (ground arith)

data_full : (len : ℕ) → len < 2 ^ 31 → ltb_ℤ (int_of_size len) (pos len) ≡ false
data_full len small = rw (int_of_size-pos len small) (ground arith)

module _ {W : Type 0} (h : List Bytes → W → Result W) where
  -- Digits of the array size gather in `current_buffer`.
  pub array_digits :
      (args : List Bytes) (count : ℤ) (buffer ds rest : Bytes) (w : W)
      → All IsDigit ds
      → parse_and_execute h (at_array_size args count buffer) (ds ++ rest) w
        ≡ parse_and_execute h (at_array_size args count (buffer ++ ds)) rest w
  unfolding parse_and_execute
  array_digits args count buffer [] rest w d = rw append-nil
  array_digits args count buffer (c ∷ ds) rest w d =
      rw (digit_ne c lf d.0 (omega arith), digit_ne c cr d.0 (omega arith), append-snoc buffer ds c)
        (array_digits args count (snoc buffer c) ds rest w d.1)

  -- Digits of a bulk length gather in `current_buffer`.
  pub bulk_digits :
      (args : List Bytes) (count len : ℤ) (buffer data_bytes ds rest : Bytes) (w : W)
      → All IsDigit ds
      → parse_and_execute h (at_bulk_size args count len buffer data_bytes) (ds ++ rest) w
        ≡ parse_and_execute h (at_bulk_size args count len (buffer ++ ds) data_bytes) rest w
  unfolding parse_and_execute
  bulk_digits args count len buffer data_bytes [] rest w d = rw append-nil
  bulk_digits args count len buffer data_bytes (c ∷ ds) rest w d =
      rw
        (
          digit_ne c b'$' d.0 (omega arith),
          digit_ne c lf d.0 (omega arith),
          digit_ne c cr d.0 (omega arith),
          append-snoc buffer ds c,
        )
        (bulk_digits args count len (snoc buffer c) data_bytes ds rest w d.1)

  -- Data bytes gather in `data_accumulator`, whatever they are, up to the announced length.
  bulk_data :
      (args : List Bytes) (count : ℤ) (len : ℕ) (data_bytes vs rest : Bytes) (w : W)
      → len < 2 ^ 31
      → length data_bytes + length vs ≤ len
      → parse_and_execute h (at_data args count (pos len) data_bytes) (vs ++ rest) w
        ≡ parse_and_execute h (at_data args count (pos len) (data_bytes ++ vs)) rest w
  unfolding parse_and_execute
  bulk_data args count len data_bytes [] rest w small fits = rw append-nil
  bulk_data args count len data_bytes (c ∷ vs) rest w small fits =
      rw (data_waits (length data_bytes) len (omega arith) small, append-snoc data_bytes vs c)
        (bulk_data args count len (snoc data_bytes c) vs rest w small
          (omega (arith, length-append data_bytes (c ∷ []))))

  -- The "\r\n" after the length.
  bulk_size_end :
      (args : List Bytes) (count len : ℤ) (n : ℕ) (data_bytes rest : Bytes) (w : W)
      → n < 2 ^ 31
      → parse_and_execute h (at_bulk_size args count len (to_string n) data_bytes) (crlf ++ rest) w
        ≡ parse_and_execute h (at_data args count (pos n) []) rest w
  unfolding parse_and_execute
  bulk_size_end args count len n data_bytes rest w small =
      let (c, cs, e) = cons-to_string n in
      let value : stoi (c ∷ cs) ≡ some (pos n) = rw (← e) (stoi-to_string n small) in rw (e, value)

  -- The "\r\n" after the data.
  bulk_data_end :
      (args : List Bytes) (count : ℤ) (val rest : Bytes) (w : W)
      → length val < 2 ^ 31
      → parse_and_execute h (at_data args count (pos (length val)) val) (crlf ++ rest) w ≡ (
          finish_argument h (at_data (snoc args val) count (pos (length val)) val) w >>= λ r.
          parse_and_execute h r.0 rest r.1)
  unfolding parse_and_execute
  bulk_data_end args count val rest w small =
      let full = data_full (length val) small in rw (full, step_data) (rw (full, step_data))

  -- One bulk string is read whole and becomes the next argument.
  pub parse-bulk :
      (args : List Bytes) (count len : ℤ) (data_bytes val rest : Bytes) (w : W)
      → length val < 2 ^ 31
      → parse_and_execute h (at_bulk_size args count len [] data_bytes) (bulk val ++ rest) w ≡ (
          finish_argument h (at_data (snoc args val) count (pos (length val)) val) w >>= λ r.
          parse_and_execute h r.0 rest r.1)
  parse-bulk args count len data_bytes val rest w small =
      let ds = to_string (length val) in
      let after = crlf ++ ((val ++ crlf) ++ rest) in
      dollar
      ∙ rw append_assoc
          (bulk_digits args count len [] data_bytes ds after w (to_string-IsDigit (length val)))
      ∙ bulk_size_end args count len (length val) data_bytes ((val ++ crlf) ++ rest) w small
      ∙ rw append_assoc
          (bulk_data args count (length val) [] val (crlf ++ rest) w small (omega arith))
      ∙ bulk_data_end args count val rest w small
    where
      dollar :
          parse_and_execute h (at_bulk_size args count len [] data_bytes) (bulk val ++ rest) w
          ≡ parse_and_execute h
              (at_bulk_size args count len [] data_bytes)
              ((to_string (length val) ++ (crlf ++ (val ++ crlf))) ++ rest)
              w
      dollar = unfold parse_and_execute in refl
