-- ===== src/Parser/Tests.antt =====
-- Runs of the parser with a handler that logs the commands.
use druta_db.Prelude.{
  ◌≡◌, refl, [], ◌∷◌, List, ◌++◌, snoc, arith, none, Bytes, Result, ok, fault, uncaught, ◌>>=◌,
}
use druta_db.Text.{
  codes, stoi, read_signed, to_string, skip_space, is_space, read_magnitude, is_digit,
}
use druta_db.Resp.{array_header, format_resp_command}
use druta_db.Parser.{reset, parse_and_execute}
use druta_db.Parser.Command.{IsSendable}
use druta_db.Parser.Malformed.{parse-bad_array_size, parse-after_empty_array}
use druta_db.Parser.Stream.{format_all, run_all, parse-format_all}

abbrev Log : Type 0
Log = List (List Bytes)

abbrev log_handler : List Bytes → Log → Result Log
log_handler args log = ok (snoc log args)

abbrev get_k : List Bytes
get_k = codes "GET" ∷ codes "k" ∷ []

abbrev ping : List Bytes
ping = codes "PING" ∷ []

get_k-IsSendable : IsSendable get_k
get_k-IsSendable = record { nonempty = omega arith; few = omega arith; short = omega arith }

ping-IsSendable : IsSendable ping
ping-IsSendable = record { nonempty = omega arith; few = omega arith; short = omega arith }

parse-format_all_example :
    parse_and_execute log_handler reset (format_all (get_k ∷ ping ∷ [])) []
    ≡ (run_all log_handler (get_k ∷ ping ∷ []) [] >>= λ w'. ok (reset, w'))
parse-format_all_example =
    parse-format_all log_handler (get_k ∷ ping ∷ []) [] (get_k-IsSendable, (ping-IsSendable, tt))

stoi_x : stoi (codes "x") ≡ none
unfolding stoi read_signed skip_space is_space read_magnitude is_digit
stoi_x = refl

parse-bad_array_size_example :
    parse_and_execute log_handler reset (b'*' ∷ codes "x" ++ (10 ∷ [])) [] ≡ fault uncaught
parse-bad_array_size_example =
    parse-bad_array_size log_handler (codes "x") [] [] (omega arith) stoi_x

parse-after_empty_array_example :
    parse_and_execute log_handler reset (array_header (to_string 0) ++ format_resp_command ping) []
    ≡ ok (reset, [])
parse-after_empty_array_example = parse-after_empty_array log_handler ping [] (omega arith)
