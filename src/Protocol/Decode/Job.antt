-- ===== src/Protocol/Decode/Job.antt =====
-- `decode_job` of cli/kswarm_cli/protocol.py reads the layout of a job account.
use kswarm.Prelude.{
  ℕ, ◌+◌, ◌≡◌, refl, ap, Bool, true, false, Option, none, some, length, drop, take, arith, ok,
  Result, String, take-append, drop-append,
}
use kswarm.Prelude.Bytes.{Bytes, bytes_eq_self}
use kswarm.Prelude.Words.{le_bytes}
use kswarm.Encoding.{Error, anchor_account_discriminator, read_i64, read_string, read_option}
use kswarm.Encoding.Cursor.{
  IsRead, Reaches, reach_then, read_bytes_at, read_u8-IsRead, read_u32-IsRead, read_u64-IsRead,
  read_i64-IsRead, read_vec-IsRead, read_string-IsRead, read_option-IsRead, Each, option_bytes,
}
use kswarm.Protocol.Accounts.{Pubkey, JobTerms, JobDeadlines, JobResult, JobVerifier, JobAccount}
use kswarm.Protocol.Decode.{
  read_pubkey, read_hash, read_flag, check_disc, read_terms, read_deadlines, read_result,
  read_verifier, decode_job,
}
use kswarm.Protocol.Decode.Layout.{
  IsHash, i64, flag, text, put_terms, put_deadlines, put_result, put_verifier, TermsFit,
  DeadlinesFit, IsText, ResultFits, VerifierFits, JobFits, job_bytes,
}

pub read_pubkey-IsRead : (key : Pubkey) → IsHash key → IsRead read_pubkey key key
unfolding read_pubkey
read_pubkey-IsRead key size input offset rest e =
    let (here, after) = read_bytes_at key rest input offset 32 size e in
    (offset + 32, ground (arith, here, size), after)

pub read_hash-IsRead : (hash : Bytes) → IsHash hash → IsRead read_hash hash hash
unfolding read_hash
read_hash-IsRead hash size input offset rest e =
    let (here, after) = read_bytes_at hash rest input offset 32 size e in
    (offset + 32, ap ok here, after)

read_flag-IsRead : (b : Bool) → IsRead read_flag (flag b) b
unfolding read_flag le_bytes
read_flag-IsRead true input offset rest e =
    let (o, here, after) = read_u8-IsRead 1 (omega arith) input offset rest e in
    (o, ground (arith, here), after)
read_flag-IsRead false input offset rest e =
    let (o, here, after) = read_u8-IsRead 0 (omega arith) input offset rest e in
    (o, ground (arith, here), after)

-- An option of values that fit.
option-IsRead :
    {A : Type 0} {P : A → Type 0} (read : Bytes → ℕ → Result Error (A × ℕ)) (write : A → Bytes)
    → ((a : A) → P a → IsRead read (write a) a)
    → (value : Option A) → Each P value
    → IsRead (λ input offset. read_option input offset read) (option_bytes write value) value
option-IsRead read write one none h = read_option-IsRead read write none h
option-IsRead read write one (some a) h = read_option-IsRead read write (some a) (one a h)

text-IsRead :
    (decode : Bytes → Option String) (s : String)
    → IsText decode s
    → IsRead (read_string decode) (text s) s
text-IsRead decode s (known, size) = read_string-IsRead decode s known size

module _ (input : Bytes) where
  deadlines_at :
      (d : JobDeadlines) (rest : Bytes) (offset : ℕ)
      → DeadlinesFit d
      → drop offset input ≡ put_deadlines d rest
      → Reaches (read_deadlines input offset) d input rest
  unfolding read_deadlines
  deadlines_at d rest offset h e =
      reach_then _ (read_i64-IsRead d.created_at h.created_at input offset _ e) λ o e.
        reach_then _ (read_i64-IsRead d.claim_deadline h.claim_deadline input o _ e) λ o e.
          reach_then _ (read_u32-IsRead d.execution_window_seconds h.execution_window input o _ e)
            λ o e.
              reach_then _ (read_i64-IsRead d.execute_deadline h.execute_deadline input o _ e)
                λ o e.
                  reach_then _
                    (read_u32-IsRead d.challenge_window_seconds h.challenge_window input o _ e)
                    λ o e.
                      reach_then _
                        (read_i64-IsRead d.challenge_deadline h.challenge_deadline input o _ e)
                        λ o e.
                          reach_then _
                            (read_u64-IsRead d.challenge_bond h.challenge_bond input o _ e)
                            λ o e.
                              reach_then _
                                (read_pubkey-IsRead d.challenger h.challenger input o _ e)
                                λ o e. record { stop = o; reads = refl; left = e }

  terms_at :
      (t : JobTerms) (rest : Bytes) (offset : ℕ)
      → TermsFit t
      → drop offset input ≡ put_terms t rest
      → Reaches (read_terms input offset) t input rest
  unfolding read_terms
  terms_at t rest offset h e = reach_then _ (read_u8-IsRead t.bump h.bump input offset _ e) λ o e.
      reach_then _ (read_u64-IsRead t.nonce h.nonce input o _ e) λ o e.
        reach_then _ (read_pubkey-IsRead t.customer h.customer input o _ e) λ o e.
          reach_then _ (read_pubkey-IsRead t.worker h.worker input o _ e) λ o e.
            reach_then _ (read_u8-IsRead t.status h.status input o _ e) λ o e.
              reach_then _ (read_u64-IsRead t.reward_amount h.reward_amount input o _ e) λ o e.
                reach_then _ (read_u64-IsRead t.required_stake h.required_stake input o _ e) λ o e.
                  reach_then _ (read_u8-IsRead t.job_class h.job_class input o _ e) λ o e.
                    reach_then _ (read_u8-IsRead t.required_role h.required_role input o _ e) λ o e.
                      reach_then _ (read_u8-IsRead t.required_tier h.required_tier input o _ e)
                        λ o e.
                          reach_then _
                            (read_hash-IsRead t.required_capability_class_hash h.capability input o
                              _ e)
                            λ o e.
                              reach_then _
                                (read_hash-IsRead t.required_software_digest h.digest input o _ e)
                                λ o e. record { stop = o; reads = refl; left = e }

  module _ (decode : Bytes → Option String) where
    result_at :
        (r : JobResult) (rest : Bytes) (offset : ℕ)
        → ResultFits decode r
        → drop offset input ≡ put_result r rest
        → Reaches (read_result decode input offset) r input rest
    unfolding read_result
    result_at r rest offset h e =
        reach_then _ (read_flag-IsRead r.slash_settled input offset _ e) λ o e.
          reach_then _ (read_flag-IsRead r.escrow_refunded input o _ e) λ o e.
            reach_then _ (read_flag-IsRead r.verifier_reward_paid input o _ e) λ o e.
              reach_then _ (read_flag-IsRead r.customer_slash_paid input o _ e) λ o e.
                reach_then _ (read_hash-IsRead r.input_bundle_hash h.input_bundle_hash input o _ e)
                  λ o e.
                    reach_then _
                      (read_hash-IsRead r.expected_result_hash h.expected_result_hash input o _ e)
                      λ o e.
                        reach_then _
                          (read_hash-IsRead r.submitted_result_hash h.submitted_result_hash input o
                            _ e)
                          λ o e.
                            reach_then _ (text-IsRead decode r.input_cid h.input_cid input o _ e)
                              λ o e.
                                reach_then _
                                  (text-IsRead decode r.output_cid h.output_cid input o _ e)
                                  λ o e.
                                    reach_then _
                                      (read_vec-IsRead r.result_bytes h.result_bytes input o _ e)
                                      λ o e. record { stop = o; reads = refl; left = e }

    verifier_at :
        (v : JobVerifier) (rest : Bytes) (offset : ℕ)
        → VerifierFits decode v
        → drop offset input ≡ put_verifier v rest
        → Reaches (read_verifier decode input offset) v input rest
    unfolding read_verifier
    verifier_at v rest offset h e =
        reach_then _
          (option-IsRead read_pubkey (λ k. k) read_pubkey-IsRead v.verifier_authority
            h.verifier_authority input offset _ e)
          λ o e.
            reach_then _
              (option-IsRead read_hash (λ k. k) read_hash-IsRead v.verifier_attestation_hash
                h.verifier_attestation_hash input o _ e)
              λ o e.
                reach_then _
                  (option-IsRead (read_string decode) text (text-IsRead decode)
                    v.verifier_evidence_cid h.verifier_evidence_cid input o _ e)
                  λ o e.
                    reach_then _
                      (option-IsRead read_i64 i64 read_i64-IsRead v.verifier_attestation_unix
                        h.verifier_attestation_unix input o _ e)
                      λ o e.
                        reach_then _
                          (option-IsRead read_pubkey (λ k. k) read_pubkey-IsRead
                            v.assigned_verifier_authority h.assigned_verifier_authority input o _ e)
                          λ o e.
                            reach_then _
                              (option-IsRead read_i64 i64 read_i64-IsRead v.assigned_verifier_unix
                                h.assigned_verifier_unix input o _ e)
                              λ o e.
                                reach_then _
                                  (read_u8-IsRead v.reassignment_counter h.reassignment_counter
                                    input o _ e)
                                  λ o e. record { stop = o; reads = refl; left = e }

module _ (decode : Bytes → Option String) (sha256 : Bytes → Bytes) where
  -- Where the account tag has 8 bytes, a job account whose numbers fit their fields, whose keys
  -- and hashes have 32 bytes and whose texts are decoded, laid out field by field behind the tag
  -- and before any padding, is decoded to itself.
  pub decode_job-job_bytes :
      (j : JobAccount) (padding : Bytes)
      → length (anchor_account_discriminator sha256 "Job") ≡ 8
      → JobFits decode j
      → decode_job decode sha256 (job_bytes (anchor_account_discriminator sha256 "Job") j padding)
        ≡ ok j
  unfolding decode_job check_disc
  decode_job-job_bytes j padding size h =
      let tag = anchor_account_discriminator sha256 "Job" in
      let fields =
        put_terms j.terms
          (put_deadlines j.deadlines (put_result j.result (put_verifier j.verifier padding))) in
      let input = job_bytes tag j padding in
      let same : take (length tag) input ≡ tag = take-append tag fields in
      let start : drop 8 input ≡ fields = rw size at (drop-append tag fields) in
      let terms = terms_at input j.terms _ 8 h.terms start in
      let deadlines = deadlines_at input j.deadlines _ terms.stop h.deadlines terms.left in
      let result = result_at input decode j.result _ deadlines.stop h.result deadlines.left in
      let verifier = verifier_at input decode j.verifier _ result.stop h.verifier result.left in
      rw (same, bytes_eq_self tag, terms.reads, deadlines.reads, result.reads, verifier.reads) refl
