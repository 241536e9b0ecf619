-- ===== src/ZkvmReceipt/Examples.antt =====
-- A claim with a small input and output document, and a journal that binds to it.
use text.Mathlib.Text.{◌==◌ as str_eq}
use kswarm.Prelude.{
  ◌≡◌, refl, ◌⊎◌, [], ◌∷◌, ok, none, some, Option, String, true, if◌then◌else◌, arith,
}
use kswarm.Prelude.Bytes.{Bytes, bytes_eq_self, bytes_leb}
use kswarm.Prelude.Sort.{sort}
use kswarm.Prelude.Text.{codes, utf8, decimal}
use kswarm.Json.Dumps.{dumps}
use kswarm.Prelude.Digest.{Collision}
use kswarm.Prelude.Int.{ℤ, pos}
use kswarm.Prelude.Words.{pack, le_value, le_bytes}
use kswarm.Json.{Json, Fields, bool, int, str, obj, field, end, lookup, get}
use kswarm.Aggregate.Fields.{from_hex}
use kswarm.ZkvmReceipt.Verified.{HasDigests, read_verified-HasDigests}
use kswarm.Samples.{toy_sha256}
use kswarm.ZkvmReceipt.{
  ReceiptJournal, hex, read_verified, bind_to_claim, proof_document, guest_input_bytes,
  expected_journal,
}
use kswarm.ZkvmReceipt.Binding.{bind_to_claim-binds}
use kswarm.ZkvmReceipt.Document.{lookup-proof_document}

abbrev input : Fields
input = field "seed" (int (pos 7)) end

abbrev output : Fields
output = field "branch_index" (int (pos 0)) (field "zkvm_receipt_cid" (str "cid") end)

abbrev result_hash : Bytes
result_hash = 1 ∷ 2 ∷ []

expected : (j : ReceiptJournal) × (expected_journal toy_sha256 input output result_hash ≡ ok j)
unfolding expected_journal pack dumps sort bytes_leb utf8 hex toy_sha256 le_value decimal
expected = (_, refl)

same_hash : expected.0.result_hash ≡ result_hash
unfolding expected
same_hash = refl

bound : (j : ReceiptJournal) (hash : Bytes) → j.result_hash ≡ hash → bind_to_claim j j hash ≡ []
unfolding bind_to_claim
bound j hash e = ground (arith, bytes_eq_self j.input_digest, bytes_eq_self hash, e)

expected-bound : bind_to_claim expected.0 expected.0 result_hash ≡ []
expected-bound = bound expected.0 result_hash same_hash

bind_to_claim-binds_example :
    (result_hash ≡ result_hash)
    × ((guest_input_bytes toy_sha256 input output ≡ guest_input_bytes toy_sha256 input output)
        ⊎ Collision toy_sha256)
bind_to_claim-binds_example =
    bind_to_claim-binds toy_sha256 expected.0 expected.0 expected.0 input output input output
      result_hash result_hash expected.1 expected.1 expected-bound expected-bound

lookup-proof_document_example : lookup "zkvm_receipt_cid" (proof_document output) ≡ (
    if str_eq "zkvm_receipt_cid" "zkvm_receipt_cid" then none else lookup "zkvm_receipt_cid" output)
lookup-proof_document_example = lookup-proof_document output "zkvm_receipt_cid"

-- Lowercase digits without white space, of what `bytes.fromhex` takes.
abbrev fromhex : String → Option Bytes
fromhex text = from_hex (codes text)

abbrev to_int : Json → Option ℤ
to_int (int n) = some n
to_int _ = none

abbrev verified : Fields
verified = field "verified" (bool true) (
    field "journal_hex"
      (str
        "0000000000000000000000000000000000000000000000000000000000000000000000000000000000000000000000000000000000000000000000000000000000000000")
      (field "journal"
        (obj (
          field "input_digest"
            (str "0000000000000000000000000000000000000000000000000000000000000000")
            (field "result_hash"
              (str "0000000000000000000000000000000000000000000000000000000000000000")
              (field "output_len" (int (pos 9)) end))))
        end))

abbrev zeros : ReceiptJournal
zeros = record { input_digest = le_bytes 32 0; result_hash = le_bytes 32 0; output_len = 9 }

zeros-read : read_verified fromhex to_int verified ≡ ok zeros
unfolding read_verified get lookup from_hex le_bytes
zeros-read = refl

read_verified-HasDigests_example : HasDigests zeros
read_verified-HasDigests_example = read_verified-HasDigests fromhex to_int verified zeros zeros-read
