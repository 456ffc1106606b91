-- ===== src/Resp.antt =====
-- Writing RESP: `resp_bulk_string` of src/parser_resp.cpp and `format_resp_command` of
-- src/aof.cpp. A call that appends to the string `res` returns the new string.
use druta_db.Prelude.{List, [], ◌∷◌, ◌++◌, length, Bytes}
use druta_db.Text.{to_string, crlf}

unfoldable pub resp_bulk_string : Bytes → Bytes → Bytes
resp_bulk_string res val = res ++ (b'$' ∷ to_string (length val) ++ (crlf ++ (val ++ crlf)))

-- The loop over `args`.
unfoldable pub append_bulk_strings : Bytes → List Bytes → Bytes
append_bulk_strings res [] = res
append_bulk_strings res (arg ∷ args) = append_bulk_strings (resp_bulk_string res arg) args

-- "*", a count and "\r\n".
unfoldable pub array_header : Bytes → Bytes
array_header count = (b'*' ∷ count) ++ crlf

unfoldable pub format_resp_command : List Bytes → Bytes
unfolding append_bulk_strings array_header
format_resp_command args = append_bulk_strings (array_header (to_string (length args))) args
