-- ===== src/Encoding/Cursor.antt =====
-- Reading one value after the other: each lemma reads a chunk where the cursor stands.
use mathlib.Core.List.{append_assoc}
use kswarm.Prelude.{
  ℕ, ◌+◌, ◌-◌, ◌^◌, ◌%◌, ◌<◌, ◌≡◌, refl, ap, ◌∙◌, Option, none, some, [], ◌∷◌, ◌++◌, length,
  length-take, drop, arith, ok, Result, ◌>>=◌, String, ltb→lt, false, leb,
}
use kswarm.Prelude.Bytes.{Bytes}
use kswarm.Prelude.Int.{ℤ, pos, negsuc}
use kswarm.Prelude.Text.{utf8, codes}
use kswarm.Prelude.Words.{
  le_bytes, pack, pack_lem, unpack_from, slice_at, unpack_at, byte_at, length-drop,
}
use kswarm.Encoding.{
  Error, anchor_ix_discriminator, anchor_account_discriminator, or_struct_error, encode_string,
  encode_vec, u8, u32, u64, signed, read_u8, read_u16, read_u32, read_u64, read_i64, read_bytes,
  read_vec, read_option, read_tagged, read_string,
}

-- Where `chunk` stands before any rest, the reader returns the value and moves behind the chunk.
abbrev pub IsRead : {A : Type 0} → (Bytes → ℕ → Result Error (A × ℕ)) → Bytes → A → Type 0
IsRead read chunk value =
    (input : Bytes) (offset : ℕ) (rest : Bytes)
    → drop offset input ≡ chunk ++ rest
    → (o : ℕ) × (read input offset ≡ ok (value, o)) × (drop o input ≡ rest)

-- What a decoder returns.
pub record Yields {A : Type 0} (m : Result Error A) (value : A) : Type 0 where
  pub at : m ≡ ok value

-- One read, then the rest of the decoder.
pub read_then :
    {A B : Type 0} {m : Result Error (A × ℕ)} {input rest : Bytes} {value : A} {result : B}
    (f : A × ℕ → Result Error B)
    → (o : ℕ) × (m ≡ ok (value, o)) × (drop o input ≡ rest)
    → ((o : ℕ) → drop o input ≡ rest → Yields (f (value, o)) result)
    → Yields (m >>= f) result
read_then f (o, e, d) k = rw e (k o d)

-- What a reader of several values returns, and what it leaves.
pub record Reaches {A : Type 0} (m : Result Error (A × ℕ)) (value : A) (input rest : Bytes)
    : Type 0 where
  pub stop : ℕ
  pub reads : m ≡ ok (value, stop)
  pub left : drop stop input ≡ rest

pub reach_then :
    {A B : Type 0} {m : Result Error (A × ℕ)} {input rest rest' : Bytes} {value : A} {result : B}
    (f : A × ℕ → Result Error (B × ℕ))
    → (o : ℕ) × (m ≡ ok (value, o)) × (drop o input ≡ rest)
    → ((o : ℕ) → drop o input ≡ rest → Reaches (f (value, o)) result input rest')
    → Reaches (m >>= f) result input rest'
reach_then f (o, e, d) k = rw e (k o d)

pub read_u8-IsRead : (v : ℕ) → v < 256 → IsRead read_u8 (le_bytes 1 v) v
unfolding read_u8 le_bytes
read_u8-IsRead v h input offset rest e =
    let low : v % 256 ≡ v = omega arith in
    let (here, after) = byte_at input offset v rest (e ∙ ap (λ b. b ∷ rest) low) in
    (offset + 1, rw (here, read_u8) refl, after)

module _ (v : ℕ) where
  pub read_u16-IsRead : v < 256 ^ 2 → IsRead read_u16 (le_bytes 2 v) v
  unfolding read_u16
  read_u16-IsRead h input offset rest e =
      let (here, after) = unpack_at input offset 2 v rest e (omega arith) h in
      (offset + 2, rw here refl, after)

  pub read_u32-IsRead : v < 256 ^ 4 → IsRead read_u32 (le_bytes 4 v) v
  unfolding read_u32
  read_u32-IsRead h input offset rest e =
      let (here, after) = unpack_at input offset 4 v rest e (omega arith) h in
      (offset + 4, rw here refl, after)

  pub read_u64-IsRead : v < 256 ^ 8 → IsRead read_u64 (le_bytes 8 v) v
  unfolding read_u64
  read_u64-IsRead h input offset rest e =
      let (here, after) = unpack_at input offset 8 v rest e (omega arith) h in
      (offset + 8, rw here refl, after)

-- A signed number in two's complement, as Borsh writes it.
abbrev pub i64_bits : ℤ → ℕ
i64_bits (pos n) = n
i64_bits (negsuc n) = 0xffffffffffffffff - n

abbrev pub IsI64 : ℤ → Type 0
IsI64 (pos n) = n < 0x8000000000000000
IsI64 (negsuc n) = n < 0x8000000000000000

signed-i64_bits : (z : ℤ) → IsI64 z → (signed (i64_bits z) ≡ z) × (i64_bits z < 256 ^ 8)
unfolding signed
signed-i64_bits (pos n) h = (ground arith, omega arith)
signed-i64_bits (negsuc n) h = (ground arith, omega arith)

pub read_i64-IsRead : (z : ℤ) → IsI64 z → IsRead read_i64 (le_bytes 8 (i64_bits z)) z
unfolding read_i64
read_i64-IsRead z h input offset rest e =
    let (same, fits) = signed-i64_bits z h in
    let (here, after) = unpack_at input offset 8 (i64_bits z) rest e (omega arith) fits in
    (offset + 8, rw (here, same) refl, after)

-- A slice of a known length.
pub read_bytes_at :
    (chunk rest input : Bytes) (offset n : ℕ)
    → length chunk ≡ n
    → drop offset input ≡ chunk ++ rest
    → (read_bytes input offset n ≡ (chunk, offset + n)) × (drop (offset + n) input ≡ rest)
unfolding read_bytes
read_bytes_at chunk rest input offset n size e =
    let (here, after) = rw size at (slice_at input offset chunk rest e) in (rw here refl, after)

-- A count of four bytes, and the bytes.
abbrev pub counted : Bytes → Bytes
counted bytes = le_bytes 4 (length bytes) ++ bytes

counted_at :
    (bytes rest input : Bytes) (offset : ℕ)
    → length bytes < 256 ^ 4
    → drop offset input ≡ counted bytes ++ rest
    → (unpack_from 4 input offset ≡ some (length bytes))
      × (read_bytes input (offset + 4) (length bytes) ≡ (bytes, offset + 4 + length bytes))
      × (drop (offset + 4 + length bytes) input ≡ rest)
counted_at bytes rest input offset h e =
    let start = e ∙ append_assoc (le_bytes 4 (length bytes)) bytes rest in
    let (here, after) =
      unpack_at input offset 4 (length bytes) (bytes ++ rest) start (omega arith) h in
    let (raw, left) = read_bytes_at bytes rest input (offset + 4) (length bytes) refl after in
    (here, raw, left)

pub read_vec-IsRead :
    (bytes : Bytes) → length bytes < 256 ^ 4 → IsRead read_vec (counted bytes) bytes
unfolding read_vec read_u32
read_vec-IsRead bytes h input offset rest e =
    let (here, raw, left) = counted_at bytes rest input offset h e in
    (offset + 4 + length bytes, rw (here, raw) refl, left)

pub read_string-IsRead :
    (decode : Bytes → Option String) (text : String)
    → decode (utf8 text) ≡ some text
    → length (utf8 text) < 256 ^ 4
    → IsRead (read_string decode) (counted (utf8 text)) text
unfolding read_string read_u32 read_bytes
read_string-IsRead decode text known h input offset rest e =
    let (here, raw, left) = counted_at (utf8 text) rest input offset h e in
    (offset + 4 + length (utf8 text), rw (here, ap (λ p. p.0) raw, known) refl, left)

-- An option as Borsh writes it.
abbrev pub option_bytes : {A : Type 0} → (A → Bytes) → Option A → Bytes
option_bytes write none = 0 ∷ []
option_bytes write (some a) = 1 ∷ write a

abbrev pub Each : {A : Type 0} → (A → Type 0) → Option A → Type 0
Each P none = Unit
Each P (some a) = P a

inside :
    (input rest : Bytes) (offset b : ℕ)
    → drop offset input ≡ b ∷ rest
    → leb (length input) offset ≡ false
inside input rest offset b e = ground (arith, length-drop offset input, ap length e)

pub read_option-IsRead :
    {A : Type 0} (read : Bytes → ℕ → Result Error (A × ℕ)) (write : A → Bytes) (value : Option A)
    → Each (λ a. IsRead read (write a) a) value
    → IsRead (λ input offset. read_option input offset read) (option_bytes write value) value
unfolding read_option read_tagged read_u8
read_option-IsRead read write none h input offset rest e =
    let (here, after) = byte_at input offset 0 rest e in
    (offset + 1, ground (arith, inside input rest offset 0 e, here), after)
read_option-IsRead read write (some a) h input offset rest e =
    let (here, after) = byte_at input offset 1 (write a ++ rest) e in
    let (o, found, left) = h input (offset + 1) rest after in
    (o, ground (arith, inside input (write a ++ rest) offset 1 e, here, found), left)

-- A writer that succeeds has written what the reader reads.
writes_word :
    (w v : ℕ) (b : Bytes) → or_struct_error (pack w v) ≡ ok b → (b ≡ le_bytes w v) × (v < 256 ^ w)
unfolding pack
writes_word w v b e = ground (arith, ltb→lt v (256 ^ w))

pub u8-IsRead : (v : ℕ) (b : Bytes) → u8 v ≡ ok b → IsRead read_u8 b v
unfolding u8
u8-IsRead v b e = let (same, fits) = writes_word 1 v b e in rw same (read_u8-IsRead v fits)

pub u32-IsRead : (v : ℕ) (b : Bytes) → u32 v ≡ ok b → IsRead read_u32 b v
unfolding u32
u32-IsRead v b e = let (same, fits) = writes_word 4 v b e in rw same (read_u32-IsRead v fits)

pub u64-IsRead : (v : ℕ) (b : Bytes) → u64 v ≡ ok b → IsRead read_u64 b v
unfolding u64
u64-IsRead v b e = let (same, fits) = writes_word 8 v b e in rw same (read_u64-IsRead v fits)

-- A text that is short enough is written.
pub encode_string_lem :
    (s : String) → length (utf8 s) < 256 ^ 4 → encode_string s ≡ ok (counted (utf8 s))
unfolding encode_string u32
encode_string_lem s h = rw (pack_lem 4 (length (utf8 s)) h) refl

-- A tag is the first 8 of the 32 bytes of a digest.
pub discriminator_lengths :
    (sha256 : Bytes → Bytes) (name : String)
    → ((b : Bytes) → length (sha256 b) ≡ 32)
    → (length (anchor_ix_discriminator sha256 name) ≡ 8)
      × (length (anchor_account_discriminator sha256 name) ≡ 8)
unfolding anchor_ix_discriminator anchor_account_discriminator
discriminator_lengths sha256 name size = (
  rw (length-take 8 (sha256 (codes "global:" ++ utf8 name)), size) refl,
  rw (length-take 8 (sha256 (codes "account:" ++ utf8 name)), size) refl,
)

pub encode_vec_lem : (b : Bytes) → length b < 256 ^ 4 → encode_vec b ≡ ok (counted b)
unfolding encode_vec u32
encode_vec_lem b h = rw (pack_lem 4 (length b) h) refl
