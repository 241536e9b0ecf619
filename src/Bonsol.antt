-- ===== src/Bonsol.antt =====
-- cli/kswarm_cli/bonsol.py: the framing of a public input, and the digests and hashes that the
-- on-chain program compares.
pub mod Binding
mod Examples
use kswarm.Prelude.{
  ℕ, ◌+◌, ◌-◌, ◌^◌, Bool, true, false, not, Option, none, some, List, [], ◌∷◌, ◌++◌, length, leb,
  ltb, ◌==◌, ◌||◌, ◌&&◌, if◌then◌else◌, String, Result, ok, err, ◌>>=◌, ◌>>◌, raise_if,
}
use kswarm.Prelude.Bytes.{Bytes}
use kswarm.Prelude.Text.{codes}
use kswarm.Prelude.Words.{pack, le_value}
use kswarm.Aggregate.Fields.{from_hex, hex_value}

pub data Error : Type 0 where
  input_too_long bad_digest_length empty_outputs : Error
  invalid_hex_digit wrong_length not_reduced : Error
  struct_error : Error

abbrev u64_max : ℕ
u64_max = 0xffffffffffffffff

abbrev pub bn254_scalar_modulus : ℕ
bn254_scalar_modulus = 0x30644e72e131a029b85045b68181585d2833e84879b9709143e1f593f0000001

pub framed_input : Bytes → Result Error Bytes
framed_input payload = do
  raise_if (ltb u64_max (length payload)) input_too_long
  elim (pack 8 (length payload)) [ none ↦ err struct_error | some size ↦ ok (size ++ payload) ]

-- `for byte in digits: if byte not in _HEX_DIGIT_BYTES: raise`. A character outside ASCII is encoded
-- as `?`, which is no digit either.
pub all_hex_digits : List ℕ → Bool
all_hex_digits [] = true
all_hex_digits (c ∷ digits) =
    let rest = all_hex_digits digits in elim (hex_value c) [ none ↦ false | some v ↦ rest ]

pub decode_score_felt : String → Result Error Bytes
unfolding all_hex_digits
decode_score_felt score_hex = do
  let digits = codes score_hex
  raise_if (not (all_hex_digits digits)) invalid_hex_digit
  raise_if (not (length digits == 64)) wrong_length
  elim (from_hex digits) [
    | none ↦ err invalid_hex_digit
    | some score ↦ do raise_if (leb bn254_scalar_modulus (le_value score)) not_reduced; ok score
  ]

module _ (sha256 : Bytes → Bytes) where
  unfoldable pub framed_input_digest : Bytes → Result Error Bytes
  unfolding framed_input
  framed_input_digest payload = do framed ← framed_input payload; ok (sha256 framed)

  unfoldable pub journal_hash : Bytes → Bytes → Result Error Bytes
  journal_hash input_digest committed_outputs = do
    raise_if (not (length input_digest == 32)) bad_digest_length
    raise_if (length committed_outputs == 0) empty_outputs
    ok (sha256 (input_digest ++ committed_outputs))
