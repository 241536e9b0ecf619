-- ===== src/ZkvmReceipt/Binding.antt =====
-- A verified journal that binds to a claim describes one frame only.
use kswarm.Prelude.{◌≡◌, sym, ◌∙◌, ◌⊎◌, [], ◌++◌, length, ok, arith, append-cancel}
use kswarm.Prelude.Bytes.{Bytes, bytes_eq→eq}
use kswarm.Prelude.Digest.{Collision, same_or_Collision, map_inl}
use kswarm.Prelude.Words.{le_bytes, pack, length-le_bytes}
use kswarm.Json.{Fields}
use kswarm.ZkvmReceipt.{ReceiptJournal, bind_to_claim, guest_input_bytes, expected_journal}

-- No reason means that the digest and the length are the expected ones, and the hash the submitted one.
bound_fields :
    (journal expected : ReceiptJournal) (hash : Bytes)
    → bind_to_claim journal expected hash ≡ []
    → (journal.input_digest ≡ expected.input_digest)
      × (journal.result_hash ≡ hash)
      × (journal.output_len ≡ expected.output_len)
unfolding bind_to_claim
bound_fields journal expected hash e = ground (
  arith,
  bytes_eq→eq journal.input_digest expected.input_digest,
  bytes_eq→eq journal.result_hash hash,
)

module _ (sha256 : Bytes → Bytes) where
  digest_frame :
      (input output : Fields) (hash : Bytes) (j : ReceiptJournal)
      → expected_journal sha256 input output hash ≡ ok j
      → let frame = guest_input_bytes sha256 input output in
        j.input_digest ≡ sha256 (le_bytes 8 (length frame) ++ frame)
  unfolding expected_journal pack
  digest_frame input output hash j e = ground arith

  -- Where one journal binds to two claims without a reason against it, with the journals expected
  -- of their inputs, outputs and hashes, the submitted hashes are equal, and the guest's frames
  -- are equal or two different byte strings with one SHA-256 are given.
  pub bind_to_claim-binds :
      (journal j k : ReceiptJournal) (input output input' output' : Fields) (hash hash' : Bytes)
      → expected_journal sha256 input output hash ≡ ok j
      → expected_journal sha256 input' output' hash' ≡ ok k
      → bind_to_claim journal j hash ≡ []
      → bind_to_claim journal k hash' ≡ []
      → (hash ≡ hash')
        × ((guest_input_bytes sha256 input output ≡ guest_input_bytes sha256 input' output')
            ⊎ Collision sha256)
  bind_to_claim-binds journal j k input output input' output' hash hash' ej ek bj bk =
      let (dj, hj, lj) = bound_fields journal j hash bj in
      let (dk, hk, lk) = bound_fields journal k hash' bk in
      let f = guest_input_bytes sha256 input output in
      let g = guest_input_bytes sha256 input' output' in
      let same =
        sym (digest_frame input output hash j ej)
        ∙ sym dj
        ∙ dk
        ∙ digest_frame input' output' hash' k ek in
      let sizes = length-le_bytes 8 (length f) ∙ sym (length-le_bytes 8 (length g)) in
      (
        sym hj ∙ hk,
        map_inl
            (λ framed.
              (append-cancel (le_bytes 8 (length f)) f (le_bytes 8 (length g)) g sizes framed).1)
            (same_or_Collision sha256 _ _ same),
      )
