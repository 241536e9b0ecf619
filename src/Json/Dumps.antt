-- ===== src/Json/Dumps.antt =====
-- `canonical_json_bytes` of cli/kswarm_cli/aggregate.py and backend/app/protocol/canonical_hash.py:
-- `json.dumps(..., sort_keys=True, separators=(",", ":"), ensure_ascii=False).encode("utf-8")`.
use kswarm.Prelude.{
  ℕ, ◌≡◌, refl, suc, ◌+◌, ◌/◌, ◌%◌, Bool, true, false, List, [], ◌∷◌, ◌++◌, String, ltb, ◌==◌,
  if◌then◌else◌,
}
use kswarm.Prelude.Bytes.{Bytes, bytes_leb}
use kswarm.Prelude.Int.{ℤ, pos, negsuc}
use kswarm.Prelude.Sort.{sort}
use kswarm.Prelude.Text.{codes, utf8, utf8_char, decimal}
use kswarm.Json.{Json, Items, Fields, null, bool, int, float, str, arr, obj, nil, cons, end, field}

abbrev hex_digit : ℕ → ℕ
hex_digit d = if ltb d 10 then 48 + d else 87 + d

-- A code point inside a JSON string.
escape : ℕ → Bytes
escape c =
    if c == b'"'
    then codes "\\\""
    else if c == 92
    then codes "\\\\"
    else if c == 10
    then codes "\\n"
    else if c == 13
    then codes "\\r"
    else if c == 9
    then codes "\\t"
    else if c == 12
    then codes "\\f"
    else if c == 8
    then codes "\\b"
    else if ltb c 32
    then codes "\\u00" ++ (hex_digit (c / 16) ∷ hex_digit (c % 16) ∷ [])
    else utf8_char c

escape_all : List ℕ → Bytes
unfolding escape
escape_all [] = []
escape_all (c ∷ cs) = escape c ++ escape_all cs

dump_string : String → Bytes
unfolding escape_all
dump_string s = (34 ∷ escape_all (codes s)) ++ (34 ∷ [])

dump_int : ℤ → Bytes
dump_int (pos n) = decimal n
dump_int (negsuc n) = 45 ∷ decimal (suc n)

-- `sort_keys=True`: keys are compared by code points, which is the order of their UTF-8 bytes.
abbrev by_key : Bytes × Bytes → Bytes × Bytes → Bool
by_key (k, v) (j, w) = bytes_leb k j

join : List (Bytes × Bytes) → Bytes
join [] = []
join ((k, v) ∷ []) = v
join ((k, v) ∷ rest) = v ++ (44 ∷ join rest)

unfoldable mutual
  unfolding dump_int dump_string join

  pub dumps : Json → Bytes
  dumps null = codes "null"
  dumps (bool true) = codes "true"
  dumps (bool false) = codes "false"
  dumps (int n) = dump_int n
  dumps (float repr) = utf8 repr
  dumps (str s) = dump_string s
  dumps (arr vs) = (91 ∷ join (dump_items vs)) ++ (93 ∷ [])
  dumps (obj fs) = (123 ∷ join (sort by_key (dump_fields fs))) ++ (125 ∷ [])

  pub dump_items : Items → List (Bytes × Bytes)
  dump_items nil = []
  dump_items (cons v vs) = ([], dumps v) ∷ dump_items vs

  -- Each entry with its key for the sort.
  pub dump_fields : Fields → List (Bytes × Bytes)
  dump_fields end = []
  dump_fields (field k v fs) = (utf8 k, dump_string k ++ (58 ∷ dumps v)) ∷ dump_fields fs

abbrev sample : Json
sample = obj (field "b" (arr (cons (int (pos 10)) (cons null nil))) (field "a" (str "x\"y") end))

dumps-sample : dumps sample ≡ codes "{\"a\":\"x\\\"y\",\"b\":[10,null]}"
unfolding dumps sort bytes_leb utf8 decimal
dumps-sample = refl
