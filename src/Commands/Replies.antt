-- ===== src/Commands/Replies.antt =====
-- The reply texts that the handlers share.
use druta_db.Prelude.{◌∷◌, ◌++◌, List, [], Bytes, ℤ, length}
use druta_db.Text.{codes, crlf, to_string, int_to_string}
use druta_db.Resp.{resp_bulk_string, append_bulk_strings, array_header}

-- `send_integer`
unfoldable pub integer_reply : ℤ → Bytes
integer_reply n = b':' ∷ int_to_string n ++ crlf

-- "$-1\r\n", "*0\r\n" and "+OK\r\n"
unfoldable pub nil_reply : Bytes
nil_reply = codes "$-1" ++ crlf

unfoldable pub empty_array_reply : Bytes
empty_array_reply = codes "*0" ++ crlf

unfoldable pub ok_reply : Bytes
ok_reply = codes "+OK" ++ crlf

unfoldable pub wrong_type : Bytes
wrong_type = codes "-WRONGTYPE Operation against a key holding the wrong kind of value" ++ crlf

unfoldable pub not_an_integer : Bytes
not_an_integer = codes "-ERR value is not an integer or out of range" ++ crlf

unfoldable pub not_numeric : Bytes
not_numeric = codes "-WRONGTYPE Non-numeric values given for range" ++ crlf

unfoldable pub invalid_arguments : Bytes
invalid_arguments = codes "-ERR Invalid number of arguments" ++ crlf

unfoldable pub no_such_key : Bytes
no_such_key = codes "-ERR no such key"

-- "-ERR wrong number of arguments for 'name' command\r\n"
unfoldable pub wrong_number : Bytes → Bytes
wrong_number name =
    codes "-ERR wrong number of arguments for '" ++ (name ++ (codes "' command" ++ crlf))

-- One bulk string.
unfoldable pub bulk_reply : Bytes → Bytes
bulk_reply s = resp_bulk_string [] s

-- An array of bulk strings.
unfoldable pub array_reply : List Bytes → Bytes
array_reply items = append_bulk_strings (array_header (to_string (length items))) items
