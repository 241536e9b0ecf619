-- ===== src/Encoding/Examples.antt =====
-- Short values, written and read back.
use kswarm.Prelude.{[], ◌∷◌, arith}
use kswarm.Prelude.Bytes.{Bytes}
use kswarm.Encoding.{u64, encode_vec, read_u64, read_vec}
use kswarm.Encoding.RoundTrip.{ReadsBack, read_u64-u64, read_vec-encode_vec}

read_u64-u64_example : ReadsBack read_u64 70000 (u64 70000)
read_u64-u64_example = read_u64-u64 70000 (omega arith)

abbrev bytes : Bytes
bytes = 1 ∷ 2 ∷ 3 ∷ []

read_vec-encode_vec_example : ReadsBack read_vec bytes (encode_vec bytes)
read_vec-encode_vec_example = read_vec-encode_vec bytes (omega arith)
