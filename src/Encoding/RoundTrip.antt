-- ===== src/Encoding/RoundTrip.antt =====
-- What the writers of cli/kswarm_cli/encoding.py write, the readers read back, wherever it stands.
use mathlib.Core.List.{append_assoc}
use kswarm.Prelude.{
  ℕ, ◌+◌, ◌^◌, ◌<◌, ◌≡◌, refl, ap, ◌∙◌, some, ◌++◌, length, length-append, drop-append, arith, ok,
  Result,
}
use kswarm.Prelude.Bytes.{Bytes}
use kswarm.Prelude.Words.{
  le_bytes, length-le_bytes, pack_lem, slice, unpack_from, slice_at, unpack_at,
}
use kswarm.Encoding.{Error, u64, encode_vec, read_u64, read_vec}

-- What the bytes that `m` writes are read back as by `read`, between any bytes before and after.
abbrev pub ReadsBack {ℓ} :
    {A : Type ℓ} → (Bytes → ℕ → Result Error (A × ℕ)) → A → Result Error Bytes → Type ℓ
ReadsBack read value m =
    (bytes : Bytes) × (m ≡ ok bytes)
    × ((before after : Bytes)
        → read (before ++ (bytes ++ after)) (length before)
          ≡ ok (value, length before + length bytes))

module _ (before after : Bytes) where
  word_at :
      (w value : ℕ)
      → 0 < w
      → value < 256 ^ w
      → unpack_from w (before ++ (le_bytes w value ++ after)) (length before) ≡ some value
  word_at w value pos h =
      (unpack_at (before ++ (le_bytes w value ++ after)) (length before) w value after
        (drop-append before (le_bytes w value ++ after)) pos h).0

  vec_at :
      (bytes : Bytes)
      → slice
          (before ++ ((le_bytes 4 (length bytes) ++ bytes) ++ after))
          (length before + 4)
          (length bytes)
        ≡ bytes
  vec_at bytes =
      let count = le_bytes 4 (length bytes) in
      let input = before ++ ((count ++ bytes) ++ after) in
      let start = drop-append before ((count ++ bytes) ++ after) ∙ append_assoc count bytes after in
      let (here, rest) =
        rw (length-le_bytes 4 (length bytes)) at
          (slice_at input (length before) count (bytes ++ after) start) in
      (slice_at input (length before + 4) bytes after rest).0

-- A number below 2^64 is encoded, and between any bytes before and after the encoding is read
-- back, with the offset after it.
pub read_u64-u64 : (value : ℕ) → value < 256 ^ 8 → ReadsBack read_u64 value (u64 value)
unfolding read_u64 u64
read_u64-u64 value h = (
  le_bytes 8 value,
  rw (pack_lem 8 value h) refl,
  λ before after. rw (word_at before after 8 value (omega arith) h, length-le_bytes 8 value) refl,
)

-- Bytes of a length below 2^32 are encoded, and between any bytes before and after the encoding is
-- read back, with the offset after it.
pub read_vec-encode_vec :
    (bytes : Bytes) → length bytes < 256 ^ 4 → ReadsBack read_vec bytes (encode_vec bytes)
unfolding read_vec encode_vec
read_vec-encode_vec bytes h = (
  le_bytes 4 (length bytes) ++ bytes,
  rw (pack_lem 4 (length bytes) h) refl,
  λ before after.
      let size = length-append (le_bytes 4 (length bytes)) bytes in
      let count =
        rw (← append_assoc (le_bytes 4 (length bytes)) bytes after) at
          (word_at before (bytes ++ after) 4 (length bytes) (omega arith) h) in
      rw (count, vec_at before after bytes, size, length-le_bytes 4 (length bytes))
        (ap (λ n. ok (bytes, n)) (omega arith)),
)
