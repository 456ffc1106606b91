-- ===== src/Parser/Malformed.antt =====
-- Input that is no command: array sizes that are no numbers, and empty arrays.
use druta_db.Prelude.{
  ℕ, ◌≡◌, ◌≢◌, refl, ◌∙◌, false, none, List, [], ◌∷◌, ◌++◌, arith, ◌==◌, length, snoc, append-snoc,
  append-nil, append_assoc, All, Bytes, ℤ, pos, Result, ok, fault, uncaught,
}
use druta_db.Text.{
  to_string, stoi, read_signed, skip_space, is_space, read_magnitude, is_digit, cr, lf, crlf,
}
use druta_db.Text.Decimal.{IsDigit, to_string-IsDigit}
use druta_db.Resp.{array_header, format_resp_command}
use druta_db.Parser.{reset, step_array_size, parse_and_execute}
use druta_db.Parser.Bulk.{at_array_size, at_bulk_size, bulk, bulk_digits}
use druta_db.Parser.Command.{bulks, parse-array_header, format-bulks}

-- A byte that does not end a line.
abbrev pub IsPlain : ℕ → Type 0
IsPlain c = (c ≢ cr) × (c ≢ lf)

-- A byte that does not open a command.
abbrev pub IsNoStar : ℕ → Type 0
IsNoStar c = c ≢ b'*'

ne-false : (c k : ℕ) → c ≢ k → (c == k) ≡ false
ne-false c k h = ground arith

All-append {ℓ κ} :
    {A : Type ℓ} (P : A → Type κ) (xs ys : List A) → All P xs → All P ys → All P (xs ++ ys)
All-append P [] ys hx hy = hy
All-append P (x ∷ xs) ys hx hy = (hx.0, All-append P xs ys hx.1 hy)

module _ {W : Type 0} (h : List Bytes → W → Result W) where
  array_plain :
      (buffer ds rest : Bytes) (w : W)
      → All IsPlain ds
      → parse_and_execute h (at_array_size [] (pos 0) buffer) (ds ++ rest) w
        ≡ parse_and_execute h (at_array_size [] (pos 0) (buffer ++ ds)) rest w
  unfolding parse_and_execute
  array_plain buffer [] rest w d = rw append-nil
  array_plain buffer (c ∷ ds) rest w d =
      rw (ne-false c lf d.0.1, ne-false c cr d.0.0, append-snoc buffer ds c)
        (array_plain (snoc buffer c) ds rest w d.1)

  array_size_throws :
      (buffer rest : Bytes) (w : W)
      → stoi buffer ≡ none
      → parse_and_execute h (at_array_size [] (pos 0) buffer) (lf ∷ rest) w ≡ fault uncaught
  unfolding parse_and_execute
  array_size_throws buffer rest w e = rw (e, step_array_size)

  -- A line "*size" whose size is no `int` ends the process by an exception that nothing catches,
  -- whatever the handler, the state and the bytes that follow.
  pub parse-bad_array_size :
      (size rest : Bytes) (w : W)
      → All IsPlain size
      → stoi size ≡ none
      → parse_and_execute h reset (b'*' ∷ size ++ (lf ∷ rest)) w ≡ fault uncaught
  parse-bad_array_size size rest w plain bad =
      star ∙ array_plain [] size (lf ∷ rest) w plain ∙ array_size_throws size rest w bad
    where
      star :
          parse_and_execute h reset (b'*' ∷ size ++ (lf ∷ rest)) w
          ≡ parse_and_execute h (at_array_size [] (pos 0) []) (size ++ (lf ∷ rest)) w
      star = unfold parse_and_execute in refl

  -- Between commands, bytes are skipped up to the next '*'.
  parse-idle :
      (bytes : Bytes) (w : W)
      → All IsNoStar bytes
      → parse_and_execute h reset bytes w ≡ ok (reset, w)
  unfolding parse_and_execute
  parse-idle [] w d = refl
  parse-idle (c ∷ bytes) w d = rw (ne-false c b'*' d.0) (parse-idle bytes w d.1)

  star_line_resets :
      (count : ℤ) (n : ℕ) (rest : Bytes) (w : W)
      → parse_and_execute h
          (at_bulk_size [] count (pos 0) [] [])
          (array_header (to_string n) ++ rest)
          w
        ≡ parse_and_execute h reset rest w
  star_line_resets count n rest w =
      star
      ∙ rw append_assoc (
          bulk_digits h [] count (pos 0) (b'*' ∷ []) [] (to_string n) (crlf ++ rest) w
            (to_string-IsDigit n))
      ∙ line_end
    where
      star :
          parse_and_execute h
            (at_bulk_size [] count (pos 0) [] [])
            (array_header (to_string n) ++ rest)
            w
          ≡ parse_and_execute h
              (at_bulk_size [] count (pos 0) (b'*' ∷ []) [])
              ((to_string n ++ crlf) ++ rest)
              w
      star = unfold parse_and_execute array_header in refl

      line_end :
          parse_and_execute h
            (at_bulk_size [] count (pos 0) (b'*' ∷ to_string n) [])
            (crlf ++ rest)
            w
          ≡ parse_and_execute h reset rest w
      line_end =
          unfold parse_and_execute stoi read_signed skip_space is_space read_magnitude is_digit in
          refl

digit-IsNoStar : (ds : Bytes) → All IsDigit ds → All IsNoStar ds
digit-IsNoStar [] d = tt
digit-IsNoStar (c ∷ ds) d = (omega arith, digit-IsNoStar ds d.1)

crlf-IsNoStar : All IsNoStar crlf
crlf-IsNoStar = omega arith

bulk-IsNoStar : (val : Bytes) → All IsNoStar val → All IsNoStar (bulk val)
bulk-IsNoStar val d =
    let size = to_string (length val) in
    (
      omega arith,
      All-append IsNoStar size (crlf ++ (val ++ crlf))
          (digit-IsNoStar size (to_string-IsDigit (length val)))
          (All-append IsNoStar crlf (val ++ crlf) crlf-IsNoStar
            (All-append IsNoStar val crlf d crlf-IsNoStar)),
    )

bulks-IsNoStar : (args : List Bytes) → All (All IsNoStar) args → All IsNoStar (bulks args)
bulks-IsNoStar [] d = tt
bulks-IsNoStar (arg ∷ args) d =
    All-append IsNoStar (bulk arg) (bulks args) (bulk-IsNoStar arg d.0) (bulks-IsNoStar args d.1)

-- After an empty array, "*0\r\n", the next command is lost: it is read to its end without running,
-- when no string of it holds a '*'.
pub parse-after_empty_array :
    {W : Type 0} (h : List Bytes → W → Result W) (args : List Bytes) (w : W)
    → All (All IsNoStar) args
    → parse_and_execute h reset (array_header (to_string 0) ++ format_resp_command args) w
      ≡ ok (reset, w)
parse-after_empty_array h args w d =
    parse-array_header h 0 (format_resp_command args) w (omega arith)
    ∙ rw (format-bulks args) (star_line_resets h (pos 0) (length args) (bulks args) w)
    ∙ parse-idle h (bulks args) w (bulks-IsNoStar args d)
