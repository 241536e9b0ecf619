-- ===== src/Aggregate/Fields.antt =====
-- `_string`, `_unsigned`, `_optional_unsigned` and `_hex_bytes` of cli/kswarm_cli/aggregate.py, and
-- Python's `bytes.fromhex` and `bytes.hex` on lowercase hex digits.
use kswarm.Prelude.{
  ℕ, ◌+◌, ◌-◌, ◌*◌, ◌&&◌, Option, none, some, List, [], ◌∷◌, String, leb, if◌then◌else◌, ok, err,
  ◌>>=◌,
}
use kswarm.Prelude.Bytes.{Bytes}
use kswarm.Prelude.Int.{pos}
use kswarm.Prelude.Text.{codes}
use kswarm.Json.{Json, Fields, null, int, str, get}
use kswarm.Aggregate.Error.{Outcome, bad_string, bad_unsigned, bad_hex}

unfoldable pub as_string : Json → Outcome String
as_string (str s) = ok s
as_string _ = err bad_string

-- `_string`
unfoldable pub string_field : Fields → String → Outcome String
unfolding as_string
string_field value name = as_string (get value name)

-- `isinstance(found, bool) or not isinstance(found, int) or found < 0`
unfoldable pub as_unsigned : Json → Outcome ℕ
as_unsigned (int (pos n)) = ok n
as_unsigned _ = err bad_unsigned

-- `_unsigned`
unfoldable pub unsigned_field : Fields → String → Outcome ℕ
unfolding as_unsigned
unsigned_field value name = as_unsigned (get value name)

unfoldable pub as_unsigned_or_zero : Json → Outcome ℕ
unfolding as_unsigned
as_unsigned_or_zero null = ok 0
as_unsigned_or_zero found = as_unsigned found

-- `_optional_unsigned(value, field) or 0`
unfoldable pub unsigned_or_zero : Fields → String → Outcome ℕ
unfolding as_unsigned_or_zero
unsigned_or_zero value name = as_unsigned_or_zero (get value name)

-- The value of a lowercase hex digit.
unfoldable pub hex_value : ℕ → Option ℕ
hex_value c =
    if leb 48 c && leb c 57
    then some (c - 48)
    else if leb 97 c && leb c 102
    then some (c - 87)
    else none

-- `bytes.fromhex(text)` where the length is even and each character a lowercase digit, else `none`.
unfoldable pub from_hex : List ℕ → Option Bytes
unfolding hex_value
from_hex [] = some []
from_hex (c ∷ []) = none
from_hex (c ∷ d ∷ cs) = elim (hex_value c) [
  | none ↦ none
  | some hi ↦ elim (hex_value d) [
    | none ↦ none
    | some lo ↦ elim (from_hex cs) [ none ↦ none | some bytes ↦ some ((16 * hi + lo) ∷ bytes) ]
  ]
]

-- `_hex_bytes`
unfoldable pub hex_field : Fields → String → Outcome Bytes
unfolding string_field from_hex
hex_field value name = do
  text ← string_field value name
  elim (from_hex (codes text)) [ none ↦ err bad_hex | some bytes ↦ ok bytes ]
