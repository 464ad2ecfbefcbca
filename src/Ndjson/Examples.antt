-- ===== src/Ndjson/Examples.antt =====
-- A string with a line feed and a byte that is no UTF-8, and an instance of the theorem about such strings.
use tamarackdb.Prelude.{◌≡◌, refl, [], ◌∷◌, ◌++◌, some}
use tamarackdb.Prelude.Eq.{Bytes, bytes}
use tamarackdb.Ndjson.{append_string}
use tamarackdb.Ndjson.Reader.{read_string}
use tamarackdb.Ndjson.ReadBack.{Sanitized, read_string-append_string}

abbrev mixed : Bytes
mixed = bytes "a" ++ 0x0a ∷ 0xff ∷ 0xe2 ∷ 0x80 ∷ 0xa8 ∷ []

mixed_written : append_string [] mixed ≡ bytes "\"a\\n\\ufffd\\u2028\""
unfolding append_string
mixed_written = refl

read_string-append_string_example :
    (v : Bytes) × Sanitized mixed v
    × (read_string (append_string [] mixed ++ bytes ",") ≡ some (v, bytes ","))
read_string-append_string_example = read_string-append_string mixed (bytes ",")
