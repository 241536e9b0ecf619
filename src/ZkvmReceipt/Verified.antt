-- ===== src/ZkvmReceipt/Verified.antt =====
-- What `verify` of worker/worker_common/branch_receipt.py has checked of the journal that it returns.
use kswarm.Prelude.{
  ◌≡◌, Option, length, ok, arith, String, Ensures, Ensures-bind, Ensures-of_Returns, raise_if, not,
  ◌||◌, ◌==◌,
}
use kswarm.Prelude.Bytes.{Bytes}
use kswarm.Prelude.Int.{ℤ}
use kswarm.Json.{Json, Fields, obj, get, lookup}
use kswarm.ZkvmReceipt.{
  ReceiptJournal, from_json, journal_of, read_verified, hex_entry, int_entry, as_length, is_true,
  check_journal_hex, not_verified, journal_out_of_range,
}

abbrev pub HasDigests : ReceiptJournal → Type 0
HasDigests j = (length j.input_digest ≡ 32) × (length j.result_hash ≡ 32)

module _ (fromhex : String → Option Bytes) (to_int : Json → Option ℤ) where
  from_json-HasDigests : (payload : Fields) → Ensures HasDigests (from_json fromhex to_int payload)
  unfolding from_json
  from_json-HasDigests payload =
      Ensures-bind {m = hex_entry fromhex to_int payload "input_digest"} λ input_digest _.
        Ensures-bind {m = hex_entry fromhex to_int payload "result_hash"} λ result_hash _.
          Ensures-bind {m = int_entry fromhex to_int payload "output_len"} λ output_len _.
            Ensures-bind
              {m = raise_if (not (length input_digest == 32) || not (length result_hash == 32))
                journal_out_of_range}
              λ _ fit.
                Ensures-bind {m = as_length fromhex to_int output_len}
                  λ size _. Ensures-of_Returns _ (ground arith)

  journal_of-HasDigests : (value : Json) → Ensures HasDigests (journal_of fromhex to_int value)
  unfolding journal_of
  journal_of-HasDigests (obj payload) = from_json-HasDigests payload
  journal_of-HasDigests value = Ensures-of_Returns _ tt

  -- For any reading of hex texts and of integers, a journal that is returned for the host's answer
  -- has an input digest and a result hash of 32 bytes.
  pub read_verified-HasDigests :
      (verified : Fields) (journal : ReceiptJournal)
      → read_verified fromhex to_int verified ≡ ok journal
      → HasDigests journal
  unfolding read_verified
  read_verified-HasDigests verified journal run =
      (Ensures-bind {m = raise_if (not (is_true (get verified "verified"))) not_verified} λ _ _.
          Ensures-bind {m = journal_of fromhex to_int (get verified "journal")} λ j read.
            Ensures-bind {m = check_journal_hex fromhex to_int (lookup "journal_hex" verified)}
              λ _ _. Ensures-of_Returns _ ((journal_of-HasDigests _).at j read)).at
        journal run
