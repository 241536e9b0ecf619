-- ===== src/Protocol/Decode/Layout.antt =====
-- The layout of a job account, as Borsh writes its fields: an independent description of what
-- `decode_job` reads. Each writer puts its bytes in front of the rest.
use kswarm.Prelude.{◌^◌, ◌<◌, ◌≡◌, Bool, true, false, Option, some, [], ◌∷◌, ◌++◌, length, String}
use kswarm.Prelude.Bytes.{Bytes}
use kswarm.Prelude.Int.{ℤ}
use kswarm.Prelude.Text.{utf8}
use kswarm.Prelude.Words.{le_bytes}
use kswarm.Encoding.Cursor.{i64_bits, IsI64, counted, option_bytes, Each}
use kswarm.Protocol.Accounts.{JobTerms, JobDeadlines, JobResult, JobVerifier, JobAccount}

abbrev pub IsHash : Bytes → Type 0
IsHash h = length h ≡ 32

abbrev pub i64 : ℤ → Bytes
i64 z = le_bytes 8 (i64_bits z)

abbrev pub flag : Bool → Bytes
flag true = 1 ∷ []
flag false = 0 ∷ []

abbrev pub text : String → Bytes
text s = counted (utf8 s)

abbrev pub put_terms : JobTerms → Bytes → Bytes
put_terms t rest =
    le_bytes 1 t.bump
    ++ (le_bytes 8 t.nonce
        ++ (t.customer
            ++ (t.worker
                ++ (le_bytes 1 t.status
                    ++ (le_bytes 8 t.reward_amount
                        ++ (le_bytes 8 t.required_stake
                            ++ (le_bytes 1 t.job_class
                                ++ (le_bytes 1 t.required_role
                                    ++ (le_bytes 1 t.required_tier
                                        ++ (t.required_capability_class_hash
                                            ++ (t.required_software_digest ++ rest)))))))))))

abbrev pub put_deadlines : JobDeadlines → Bytes → Bytes
put_deadlines d rest =
    i64 d.created_at
    ++ (i64 d.claim_deadline
        ++ (le_bytes 4 d.execution_window_seconds
            ++ (i64 d.execute_deadline
                ++ (le_bytes 4 d.challenge_window_seconds
                    ++ (i64 d.challenge_deadline
                        ++ (le_bytes 8 d.challenge_bond ++ (d.challenger ++ rest)))))))

abbrev pub put_result : JobResult → Bytes → Bytes
put_result r rest =
    flag r.slash_settled
    ++ (flag r.escrow_refunded
        ++ (flag r.verifier_reward_paid
            ++ (flag r.customer_slash_paid
                ++ (r.input_bundle_hash
                    ++ (r.expected_result_hash
                        ++ (r.submitted_result_hash
                            ++ (text r.input_cid
                                ++ (text r.output_cid ++ (counted r.result_bytes ++ rest)))))))))

abbrev pub put_verifier : JobVerifier → Bytes → Bytes
put_verifier v rest =
    option_bytes (λ k. k) v.verifier_authority
    ++ (option_bytes (λ h. h) v.verifier_attestation_hash
        ++ (option_bytes text v.verifier_evidence_cid
            ++ (option_bytes i64 v.verifier_attestation_unix
                ++ (option_bytes (λ k. k) v.assigned_verifier_authority
                    ++ (option_bytes i64 v.assigned_verifier_unix
                        ++ (le_bytes 1 v.reassignment_counter ++ rest))))))

-- The numbers fit their fields, keys and hashes have 32 bytes, and the texts are decoded.
pub record TermsFit (t : JobTerms) : Type 0 where
  pub bump : t.bump < 256
  pub nonce : t.nonce < 256 ^ 8
  pub customer : IsHash t.customer
  pub worker : IsHash t.worker
  pub status : t.status < 256
  pub reward_amount : t.reward_amount < 256 ^ 8
  pub required_stake : t.required_stake < 256 ^ 8
  pub job_class : t.job_class < 256
  pub required_role : t.required_role < 256
  pub required_tier : t.required_tier < 256
  pub capability : IsHash t.required_capability_class_hash
  pub digest : IsHash t.required_software_digest

pub record DeadlinesFit (d : JobDeadlines) : Type 0 where
  pub created_at : IsI64 d.created_at
  pub claim_deadline : IsI64 d.claim_deadline
  pub execution_window : d.execution_window_seconds < 256 ^ 4
  pub execute_deadline : IsI64 d.execute_deadline
  pub challenge_window : d.challenge_window_seconds < 256 ^ 4
  pub challenge_deadline : IsI64 d.challenge_deadline
  pub challenge_bond : d.challenge_bond < 256 ^ 8
  pub challenger : IsHash d.challenger

module _ (decode : Bytes → Option String) where
  abbrev pub IsText : String → Type 0
  IsText s = (decode (utf8 s) ≡ some s) × (length (utf8 s) < 256 ^ 4)

  pub record ResultFits (r : JobResult) : Type 0 where
    pub input_bundle_hash : IsHash r.input_bundle_hash
    pub expected_result_hash : IsHash r.expected_result_hash
    pub submitted_result_hash : IsHash r.submitted_result_hash
    pub input_cid : IsText r.input_cid
    pub output_cid : IsText r.output_cid
    pub result_bytes : length r.result_bytes < 256 ^ 4

  pub record VerifierFits (v : JobVerifier) : Type 0 where
    pub verifier_authority : Each IsHash v.verifier_authority
    pub verifier_attestation_hash : Each IsHash v.verifier_attestation_hash
    pub verifier_evidence_cid : Each IsText v.verifier_evidence_cid
    pub verifier_attestation_unix : Each IsI64 v.verifier_attestation_unix
    pub assigned_verifier_authority : Each IsHash v.assigned_verifier_authority
    pub assigned_verifier_unix : Each IsI64 v.assigned_verifier_unix
    pub reassignment_counter : v.reassignment_counter < 256

  pub record JobFits (j : JobAccount) : Type 0 where
    pub terms : TermsFit j.terms
    pub deadlines : DeadlinesFit j.deadlines
    pub result : ResultFits j.result
    pub verifier : VerifierFits j.verifier

-- A job account's bytes: the discriminator, the fields, and the padding of the account.
abbrev pub job_bytes : Bytes → JobAccount → Bytes → Bytes
job_bytes discriminator j padding =
    discriminator
    ++ put_terms j.terms
        (put_deadlines j.deadlines (put_result j.result (put_verifier j.verifier padding)))
