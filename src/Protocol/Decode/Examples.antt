-- ===== src/Protocol/Decode/Examples.antt =====
-- A job account, its bytes, and a digest that tells the account tags apart.
use kswarm.Prelude.{
  ℕ, ◌≡◌, ◌≢◌, refl, Option, some, [], ◌∷◌, length, ap, if◌then◌else◌, arith, String, ok, err,
}
use kswarm.Prelude.Bytes.{Bytes, bytes_eq}
use kswarm.Prelude.Text.{codes, utf8}
use kswarm.Prelude.Words.{le_bytes, length-le_bytes}
use kswarm.Samples.{toy_sha256, toy_sha256-length}
use kswarm.Encoding.{bad_discriminator, anchor_account_discriminator}
use kswarm.Encoding.Cursor.{discriminator_lengths}
use kswarm.Protocol.Accounts.{JobAccount}
use kswarm.Protocol.Fixture.{job_of}
use kswarm.Protocol.Decode.{decode_worker, decode_job}
use kswarm.Protocol.Decode.Layout.{IsText, JobFits, job_bytes}
use kswarm.Protocol.Decode.Job.{decode_job-job_bytes}
use kswarm.Protocol.Decode.Others.{worker, job as job_kind, tag_of, decoded_once}

abbrev job : JobAccount
job = job_of 2 (le_bytes 32 3) (le_bytes 32 4) (le_bytes 32 5)

-- The two texts of the job.
abbrev decode : Bytes → Option String
decode b = if bytes_eq b (codes "input") then some "input" else some "output"

input-Text : IsText decode "input"
unfolding utf8 bytes_eq
input-Text = (refl, omega arith)

output-Text : IsText decode "output"
unfolding utf8 bytes_eq
output-Text = (refl, omega arith)

job-fits : JobFits decode job
job-fits = record {
  terms = record {
    bump = omega arith;
    nonce = omega arith;
    customer = length-le_bytes 32 1;
    worker = length-le_bytes 32 2;
    status = omega arith;
    reward_amount = omega arith;
    required_stake = omega arith;
    job_class = omega arith;
    required_role = omega arith;
    required_tier = omega arith;
    capability = length-le_bytes 32 0;
    digest = length-le_bytes 32 0;
  };
  deadlines = record {
    created_at = omega arith;
    claim_deadline = omega arith;
    execution_window = omega arith;
    execute_deadline = omega arith;
    challenge_window = omega arith;
    challenge_deadline = omega arith;
    challenge_bond = omega arith;
    challenger = length-le_bytes 32 0;
  };
  result = record {
    input_bundle_hash = length-le_bytes 32 3;
    expected_result_hash = length-le_bytes 32 4;
    submitted_result_hash = length-le_bytes 32 5;
    input_cid = input-Text;
    output_cid = output-Text;
    result_bytes = omega arith;
  };
  verifier = record {
    verifier_authority = tt;
    verifier_attestation_hash = tt;
    verifier_evidence_cid = tt;
    verifier_attestation_unix = tt;
    assigned_verifier_authority = tt;
    assigned_verifier_unix = tt;
    reassignment_counter = omega arith;
  };
}

decode_job-job_bytes_example :
    decode_job decode toy_sha256
      (job_bytes (anchor_account_discriminator toy_sha256 "Job") job (0 ∷ 0 ∷ []))
    ≡ ok job
decode_job-job_bytes_example =
    decode_job-job_bytes decode toy_sha256 job (0 ∷ 0 ∷ [])
      (discriminator_lengths toy_sha256 "Job" toy_sha256-length).1 job-fits

-- A digest that tells the two names apart, by their lengths.
abbrev size_sha256 : Bytes → Bytes
size_sha256 b = le_bytes 32 (length b)

size_sha256-length : (b : Bytes) → length (size_sha256 b) ≡ 32
size_sha256-length b = length-le_bytes 32 (length b)

tags_apart : tag_of size_sha256 job_kind ≢ tag_of size_sha256 worker
unfolding anchor_account_discriminator utf8 le_bytes
tags_apart e = let impossible = ap first e in absurd (cc)
  where
    first : Bytes → ℕ
    first [] = 0
    first (b ∷ bs) = b

-- The job's account, under the tag of that digest.
abbrev account : Bytes
account = job_bytes (anchor_account_discriminator size_sha256 "Job") job (0 ∷ 0 ∷ [])

account-IsDecoded : decode_job decode size_sha256 account ≡ ok job
account-IsDecoded =
    decode_job-job_bytes decode size_sha256 job (0 ∷ 0 ∷ [])
      (discriminator_lengths size_sha256 "Job" size_sha256-length).1 job-fits

decoded_once_example : decode_worker size_sha256 account ≡ err bad_discriminator
decoded_once_example =
    decoded_once size_sha256 decode job_kind worker account size_sha256-length tags_apart
      (job, account-IsDecoded)
