-- ===== src/Encoding.antt =====
-- cli/kswarm_cli/encoding.py: the little-endian writers and readers of the on-chain program's
-- instruction and account data. Readers return the value and the offset after it.
pub mod RoundTrip
pub mod Cursor
mod Examples
use kswarm.Prelude.{
  ℕ, zero, suc, ◌+◌, ◌-◌, ltb, Bool, Option, none, some, List, [], ◌∷◌, ◌++◌, length, take,
  get_elem?, leb, ◌==◌, if◌then◌else◌, String, Result, ok, err, ◌>>=◌, ◌>>◌, raise_if, not,
}
use kswarm.Prelude.Bytes.{Bytes}
use kswarm.Prelude.Int.{ℤ, pos, negsuc}
use kswarm.Prelude.Text.{codes, utf8}
use kswarm.Prelude.Words.{pack, unpack_from, slice}

-- What the writers and readers raise, and the decoders of cli/kswarm_cli/protocol.py that are built
-- on them.
pub data Error : Type 0 where
  struct_error index_error bad_option_tag not_utf8 : Error
  bad_discriminator bad_pubkey bad_token_program : Error

abbrev pub or_struct_error {ℓ} : {A : Type ℓ} → Option A → Result Error A
or_struct_error none = err struct_error
or_struct_error (some a) = ok a

unfoldable pub u8 : ℕ → Result Error Bytes
u8 value = or_struct_error (pack 1 value)

pub u16 : ℕ → Result Error Bytes
u16 value = or_struct_error (pack 2 value)

unfoldable pub u32 : ℕ → Result Error Bytes
u32 value = or_struct_error (pack 4 value)

unfoldable pub u64 : ℕ → Result Error Bytes
u64 value = or_struct_error (pack 8 value)

pub encode_vec : Bytes → Result Error Bytes
unfolding u32
encode_vec bytes = do count ← u32 (length bytes); ok (count ++ bytes)

pub encode_string : String → Result Error Bytes
unfolding encode_vec
encode_string value = do let bytes = utf8 value; count ← u32 (length bytes); ok (count ++ bytes)

pub read_u8 : Bytes → ℕ → Result Error (ℕ × ℕ)
read_u8 input offset = elim (get_elem? input offset) [
  | none ↦ err index_error
  | some b ↦ ok (b, offset + 1)
]

-- `read_u16`, `read_u32` and `read_u64`, which differ in the width.
abbrev read_word : ℕ → Bytes → ℕ → Result Error (ℕ × ℕ)
read_word width input offset = do
  value ← or_struct_error (unpack_from width input offset)
  ok (value, offset + width)

pub read_u16 : Bytes → ℕ → Result Error (ℕ × ℕ)
read_u16 = read_word 2

pub read_u32 : Bytes → ℕ → Result Error (ℕ × ℕ)
read_u32 = read_word 4

pub read_u64 : Bytes → ℕ → Result Error (ℕ × ℕ)
read_u64 = read_word 8

-- Two's complement.
pub signed : ℕ → ℤ
signed value =
    if ltb value 0x8000000000000000 then pos value else negsuc (0xffffffffffffffff - value)

pub read_i64 : Bytes → ℕ → Result Error (ℤ × ℕ)
unfolding signed
read_i64 input offset = do
  value ← or_struct_error (unpack_from 8 input offset)
  ok (signed value, offset + 8)

-- A slice that runs past the end is cut there, and the offset is not.
pub read_bytes : Bytes → ℕ → ℕ → Bytes × ℕ
read_bytes input offset size = (slice input offset size, offset + size)

pub read_vec : Bytes → ℕ → Result Error (Bytes × ℕ)
unfolding read_u32 read_bytes
read_vec input offset = do
  (size, offset') ← read_u32 input offset
  ok (read_bytes input offset' size)

-- The value behind an option's tag.
read_tagged {ℓ} :
    {A : Type ℓ} → ℕ → Bytes → ℕ → (Bytes → ℕ → Result Error (A × ℕ)) → Result Error (Option A × ℕ)
read_tagged zero input offset reader = ok (none, offset)
read_tagged (suc zero) input offset reader = do
  (value, offset') ← reader input offset
  ok (some value, offset')
read_tagged (suc (suc tag)) input offset reader = err bad_option_tag

pub read_option {ℓ} :
    {A : Type ℓ} → Bytes → ℕ → (Bytes → ℕ → Result Error (A × ℕ)) → Result Error (Option A × ℕ)
unfolding read_u8 read_tagged
read_option input offset reader =
    if leb (length input) offset
    then ok (none, offset)
    else (do (tag, offset') ← read_u8 input offset; read_tagged tag input offset' reader)

module _ (decode : Bytes → Option String) where
  -- `decode` is `bytes.decode("utf-8")`, `none` where it raises.
  pub read_string : Bytes → ℕ → Result Error (String × ℕ)
  unfolding read_u32 read_bytes
  read_string input offset = do
    (size, offset') ← read_u32 input offset
    let (raw, end) = read_bytes input offset' size
    elim (decode raw) [ none ↦ err not_utf8 | some text ↦ ok (text, end) ]

module _ (sha256 : Bytes → Bytes) where
  pub anchor_ix_discriminator : String → Bytes
  anchor_ix_discriminator name = take 8 (sha256 (codes "global:" ++ utf8 name))

  unfoldable pub anchor_account_discriminator : String → Bytes
  anchor_account_discriminator name = take 8 (sha256 (codes "account:" ++ utf8 name))
