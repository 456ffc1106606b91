-- ===== src/Value/Sound.antt =====
-- What holds of the data of every value.
use druta_db.Prelude.{◌^◌, ◌<◌, bytes_key, ℤ, pos, negsuc}
use druta_db.Ordered.Set
use druta_db.Hash.Contents.{IsValid}
use druta_db.Value.{ValueData, string, list, hash, set}

-- The expiry time is a `long long`, the hash is valid, and the set is in order.
abbrev pub IsSound : ValueData → ℤ → Type 0
IsSound (string s) (pos n) = n < 2 ^ 63
IsSound (string s) (negsuc n) = Unit
IsSound (list l) at = Unit
IsSound (hash h) at = IsValid h
IsSound (set s) at = Set.IsSorted s
