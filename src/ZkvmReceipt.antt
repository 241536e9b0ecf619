-- ===== src/ZkvmReceipt.antt =====
-- worker/worker_common/branch_receipt.py: the frame that the canonicalization guest reads, the
-- journal that it commits, and the checks that bind a verified journal to a claim. `prove` and
-- `verify` run the host binary; what they check of its answers is here.
pub mod Binding
mod Examples
pub mod Document
pub mod Verified
use Prim.Native.Char.{Char}
use Prim.Native.String
use text.Mathlib.Text.{◌==◌ as str_eq}
use kswarm.Prelude.{
  ℕ, ◌+◌, ◌/◌, ◌%◌, Bool, true, false, not, ◌&&◌, ◌||◌, Option, none, some, List, [], ◌∷◌, ◌++◌,
  length, get_elem?, ltb, ◌==◌, if◌then◌else◌, String, Result, ok, err, ◌>>=◌, ◌>>◌, raise_if,
}
use kswarm.Prelude.Bytes.{Bytes, bytes_eq}
use kswarm.Prelude.Int.{ℤ, pos, negsuc}
use kswarm.Prelude.Words.{pack}
use kswarm.Json.{
  Json, Fields, null, bool, int, float, str, arr, obj, nil, cons, field, end, lookup, get,
}
use kswarm.Json.Dumps.{dumps}

pub data Error : Type 0 where
  malformed_journal journal_out_of_range : Error
  not_an_object bad_version missing_field : Error
  not_verified wrong_journal_length bad_hex overflow : Error

pub record ReceiptJournal : Type 0 where
  pub input_digest : Bytes
  pub result_hash : Bytes
  pub output_len : ℕ

abbrev hex_chars : List Char
hex_chars =
    "0" ∷ "1" ∷ "2" ∷ "3" ∷ "4" ∷ "5" ∷ "6" ∷ "7" ∷ "8" ∷ "9" ∷ "a" ∷ "b" ∷ "c" ∷ "d" ∷ "e" ∷ "f"
    ∷ []

hex_char : ℕ → Char
hex_char n = elim (get_elem? hex_chars n) [ none ↦ "0" | some c ↦ c ]

-- `bytes.hex()`
unfoldable pub hex : Bytes → String
unfolding hex_char
hex [] = ""
hex (b ∷ bytes) = String.◌∷◌ (hex_char (b / 16)) (String.◌∷◌ (hex_char (b % 16)) (hex bytes))

-- `{key: value for key, value in output_payload.items() if key != RECEIPT_CID_FIELD}`
pub proof_document : Fields → Fields
proof_document end = end
proof_document (field key value rest) =
    let kept = proof_document rest in
    if str_eq key "zkvm_receipt_cid" then kept else field key value kept

-- The reasons that `bind_to_claim` may give, one for each test.
pub data Reason : Type 0 where
  other_input_digest other_result_hash other_output_len : Reason

abbrev reason_if : Bool → Reason → List Reason → List Reason
reason_if true r rest = r ∷ rest
reason_if false r rest = rest

pub bind_to_claim : ReceiptJournal → ReceiptJournal → Bytes → List Reason
bind_to_claim journal expected submitted_result_hash =
    reason_if (not (bytes_eq journal.input_digest expected.input_digest)) other_input_digest (
      reason_if (not (bytes_eq journal.result_hash submitted_result_hash)) other_result_hash
        (reason_if (not (journal.output_len == expected.output_len)) other_output_len []))

module _ (sha256 : Bytes → Bytes) where
  pub guest_input_bytes : Fields → Fields → Bytes
  unfolding proof_document
  guest_input_bytes branch_input_payload output_payload = dumps (
      obj (
        field "schema" (str "MFBR1") (
          field "schema_version" (int (pos 1)) (
            field "branch_input_sha256" (str (hex (sha256 (dumps (obj branch_input_payload)))))
              (field "branch_output" (obj (proof_document output_payload)) end)))))

  -- `len(frame).to_bytes(8, "little")` raises for a length that does not fit.
  pub expected_journal : Fields → Fields → Bytes → Result Error ReceiptJournal
  unfolding guest_input_bytes
  expected_journal branch_input_payload output_payload result_hash =
      let frame = guest_input_bytes branch_input_payload output_payload in
      elim (pack 8 (length frame)) [
        | none ↦ err overflow
        | some size ↦ ok (record {
          input_digest = sha256 (size ++ frame);
          result_hash = result_hash;
          output_len = length (dumps (obj (proof_document output_payload)));
        })
      ]

-- `value == BUNDLE_VERSION`
is_version : Json → Bool
is_version (str text) = str_eq text "kswarm-branch-receipt-v1"
is_version _ = false

-- `value is True`
is_true : Json → Bool
is_true (bool b) = b
is_true _ = false

-- `fromhex` is `bytes.fromhex`, `none` where it raises; `to_int` is `int()` on a JSON value.
module _ (fromhex : String → Option Bytes) (to_int : Json → Option ℤ) where
  hex_entry : Fields → String → Result Error Bytes
  hex_entry payload name = elim (lookup name payload) [
    | some (str text) ↦ elim (fromhex text) [ none ↦ err malformed_journal | some bytes ↦ ok bytes ]
    | _ ↦ err malformed_journal
  ]

  int_entry : Fields → String → Result Error ℤ
  int_entry payload name = elim (lookup name payload) [
    | none ↦ err malformed_journal
    | some value ↦ elim (to_int value) [ none ↦ err malformed_journal | some n ↦ ok n ]
  ]

  -- `output_len < 0`
  as_length : ℤ → Result Error ℕ
  as_length (pos n) = ok n
  as_length (negsuc n) = err journal_out_of_range

  -- `ReceiptJournal.from_json`
  pub from_json : Fields → Result Error ReceiptJournal
  unfolding hex_entry int_entry as_length
  from_json payload = do
    input_digest ← hex_entry payload "input_digest"
    result_hash ← hex_entry payload "result_hash"
    output_len ← int_entry payload "output_len"
    raise_if (not (length input_digest == 32) || not (length result_hash == 32))
        journal_out_of_range
    size ← as_length output_len
    ok (record { input_digest = input_digest; result_hash = result_hash; output_len = size })

  -- `from_json(value or {})`: a value that is no object has no entry to index.
  journal_of : Json → Result Error ReceiptJournal
  unfolding from_json
  journal_of (obj payload) = from_json payload
  journal_of _ = err malformed_journal

  -- `isinstance(bundle.get(field), str) and bundle[field]`
  is_text : Json → Bool
  is_text (str text) = not (str_eq text "")
  is_text _ = false

  -- `_validate_bundle_shape`, on an object and on any other value.
  validate_bundle_fields : Fields → Result Error (Unit {0})
  unfolding is_text journal_of is_version
  validate_bundle_fields bundle = do
    raise_if (not (is_version (get bundle "bundle_version"))) bad_version
    raise_if (not (is_text (get bundle "image_id_hex"))) missing_field
    raise_if (not (is_text (get bundle "journal_hex"))) missing_field
    raise_if (not (is_text (get bundle "receipt_b64"))) missing_field
    journal ← journal_of (get bundle "journal")
    ok tt

  pub validate_bundle_shape : Json → Result Error (Unit {0})
  unfolding validate_bundle_fields
  validate_bundle_shape (obj bundle) = validate_bundle_fields bundle
  validate_bundle_shape _ = err not_an_object

  -- `len(bytes.fromhex(verified.get("journal_hex", ""))) != JOURNAL_LEN`
  check_journal_hex : Option Json → Result Error (Unit {0})
  check_journal_hex none = err wrong_journal_length
  check_journal_hex (some (str text)) = elim (fromhex text) [
    | none ↦ err bad_hex
    | some bytes ↦ raise_if (not (length bytes == 68)) wrong_journal_length
  ]
  check_journal_hex (some _) = err bad_hex

  -- What `verify` makes of the host's answer.
  pub read_verified : Fields → Result Error ReceiptJournal
  unfolding journal_of check_journal_hex is_true
  read_verified verified = do
    raise_if (not (is_true (get verified "verified"))) not_verified
    journal ← journal_of (get verified "journal")
    check_journal_hex (lookup "journal_hex" verified)
    ok journal
