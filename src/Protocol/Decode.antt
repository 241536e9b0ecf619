-- ===== src/Protocol/Decode.antt =====
-- The account decoders of cli/kswarm_cli/protocol.py. `decode` is `bytes.decode("utf-8")`.
pub mod Layout
pub mod Job
pub mod Others
mod Examples
use kswarm.Prelude.{
  ℕ, ◌+◌, Bool, true, false, not, Option, none, some, List, length, take, ◌==◌, String, Result, ok,
  err, ◌>>=◌, ◌>>◌, raise_if,
}
use kswarm.Prelude.Bytes.{Bytes, bytes_eq}
use kswarm.Encoding.{
  Error, bad_discriminator, bad_pubkey, anchor_account_discriminator, read_u8, read_u16, read_u32,
  read_u64, read_i64, read_bytes, read_vec, read_string, read_option,
}
use kswarm.Protocol.Accounts.{
  Pubkey, ProtocolConfigAccount, WorkerAccount, JobTerms, JobDeadlines, JobResult, JobVerifier,
  JobAccount, BonsolAggregateVerificationAccount,
}

-- `_read_pubkey`: `Pubkey.from_bytes` takes 32 bytes.
pub read_pubkey : Bytes → ℕ → Result Error (Pubkey × ℕ)
read_pubkey input offset = do
  let (raw, offset') = read_bytes input offset 32
  raise_if (not (length raw == 32)) bad_pubkey
  ok (raw, offset')

-- `_read_hash`, and `read_bytes(data, offset, 32)`.
pub read_hash : Bytes → ℕ → Result Error (Bytes × ℕ)
read_hash input offset = ok (read_bytes input offset 32)

-- `bool(raw)`
pub read_flag : Bytes → ℕ → Result Error (Bool × ℕ)
read_flag input offset = do (raw, offset') ← read_u8 input offset; ok (not (raw == 0), offset')

-- `_check_disc`: `data.startswith(expected)`
pub check_disc : Bytes → Bytes → Result Error (Unit {0})
check_disc input expected =
    raise_if (not (bytes_eq (take (length expected) input) expected)) bad_discriminator

pub read_terms : Bytes → ℕ → Result Error (JobTerms × ℕ)
read_terms input offset = do
  (bump, offset) ← read_u8 input offset
  (nonce, offset) ← read_u64 input offset
  (customer, offset) ← read_pubkey input offset
  (worker, offset) ← read_pubkey input offset
  (status, offset) ← read_u8 input offset
  (reward_amount, offset) ← read_u64 input offset
  (required_stake, offset) ← read_u64 input offset
  (job_class, offset) ← read_u8 input offset
  (required_role, offset) ← read_u8 input offset
  (required_tier, offset) ← read_u8 input offset
  (required_capability, offset) ← read_hash input offset
  (required_digest, offset) ← read_hash input offset
  ok (
    record {
      bump = bump;
      nonce = nonce;
      customer = customer;
      worker = worker;
      status = status;
      reward_amount = reward_amount;
      required_stake = required_stake;
      job_class = job_class;
      required_role = required_role;
      required_tier = required_tier;
      required_capability_class_hash = required_capability;
      required_software_digest = required_digest;
    },
    offset,
  )

pub read_deadlines : Bytes → ℕ → Result Error (JobDeadlines × ℕ)
read_deadlines input offset = do
  (created_at, offset) ← read_i64 input offset
  (claim_deadline, offset) ← read_i64 input offset
  (execution_window_seconds, offset) ← read_u32 input offset
  (execute_deadline, offset) ← read_i64 input offset
  (challenge_window_seconds, offset) ← read_u32 input offset
  (challenge_deadline, offset) ← read_i64 input offset
  (challenge_bond, offset) ← read_u64 input offset
  (challenger, offset) ← read_pubkey input offset
  ok (
    record {
      created_at = created_at;
      claim_deadline = claim_deadline;
      execution_window_seconds = execution_window_seconds;
      execute_deadline = execute_deadline;
      challenge_window_seconds = challenge_window_seconds;
      challenge_deadline = challenge_deadline;
      challenge_bond = challenge_bond;
      challenger = challenger;
    },
    offset,
  )

module _ (decode : Bytes → Option String) where
  pub read_result : Bytes → ℕ → Result Error (JobResult × ℕ)
  read_result input offset = do
    (slash_settled, offset) ← read_flag input offset
    (escrow_refunded, offset) ← read_flag input offset
    (verifier_reward_paid, offset) ← read_flag input offset
    (customer_slash_paid, offset) ← read_flag input offset
    (input_bundle_hash, offset) ← read_hash input offset
    (expected_result_hash, offset) ← read_hash input offset
    (submitted_result_hash, offset) ← read_hash input offset
    (input_cid, offset) ← read_string decode input offset
    (output_cid, offset) ← read_string decode input offset
    (result_bytes, offset) ← read_vec input offset
    ok (
      record {
        slash_settled = slash_settled;
        escrow_refunded = escrow_refunded;
        verifier_reward_paid = verifier_reward_paid;
        customer_slash_paid = customer_slash_paid;
        input_bundle_hash = input_bundle_hash;
        expected_result_hash = expected_result_hash;
        submitted_result_hash = submitted_result_hash;
        input_cid = input_cid;
        output_cid = output_cid;
        result_bytes = result_bytes;
      },
      offset,
    )

  pub read_verifier : Bytes → ℕ → Result Error (JobVerifier × ℕ)
  read_verifier input offset = do
    (verifier_authority, offset) ← read_option input offset read_pubkey
    (verifier_attestation_hash, offset) ← read_option input offset read_hash
    (verifier_evidence_cid, offset) ← read_option input offset (read_string decode)
    (verifier_attestation_unix, offset) ← read_option input offset read_i64
    (assigned_verifier_authority, offset) ← read_option input offset read_pubkey
    (assigned_verifier_unix, offset) ← read_option input offset read_i64
    (reassignment_counter, offset) ← read_u8 input offset
    ok (
      record {
        verifier_authority = verifier_authority;
        verifier_attestation_hash = verifier_attestation_hash;
        verifier_evidence_cid = verifier_evidence_cid;
        verifier_attestation_unix = verifier_attestation_unix;
        assigned_verifier_authority = assigned_verifier_authority;
        assigned_verifier_unix = assigned_verifier_unix;
        reassignment_counter = reassignment_counter;
      },
      offset,
    )

  module _ (sha256 : Bytes → Bytes) where
    pub decode_job : Bytes → Result Error JobAccount
    unfolding read_terms read_deadlines read_result read_verifier
    decode_job input = do
      check_disc input (anchor_account_discriminator sha256 "Job")
      (terms, offset) ← read_terms input 8
      (deadlines, offset) ← read_deadlines input offset
      (result, offset) ← read_result input offset
      (verifier, offset) ← read_verifier input offset
      ok (record { terms = terms; deadlines = deadlines; result = result; verifier = verifier })

module _ (sha256 : Bytes → Bytes) where
  pub decode_config : Bytes → Result Error ProtocolConfigAccount
  decode_config input = do
    check_disc input (anchor_account_discriminator sha256 "ProtocolConfig")
    (bump, offset) ← read_u8 input 8
    (admin, offset) ← read_pubkey input offset
    (payment_mint, offset) ← read_pubkey input offset
    (token_program, offset) ← read_pubkey input offset
    (payment_decimals, offset) ← read_u8 input offset
    (tier_one, offset) ← read_u64 input offset
    (tier_two, offset) ← read_u64 input offset
    (tier_three, offset) ← read_u64 input offset
    (verifier, offset) ← read_u64 input offset
    (min_challenge_window_seconds, offset) ← read_u32 input offset
    ok (record {
      bump = bump;
      admin = admin;
      payment_mint = payment_mint;
      token_program = token_program;
      payment_decimals = payment_decimals;
      tier_one_stake_floor = tier_one;
      tier_two_stake_floor = tier_two;
      tier_three_stake_floor = tier_three;
      verifier_stake_floor = verifier;
      min_challenge_window_seconds = min_challenge_window_seconds;
    })

  pub decode_worker : Bytes → Result Error WorkerAccount
  decode_worker input = do
    check_disc input (anchor_account_discriminator sha256 "Worker")
    (bump, offset) ← read_u8 input 8
    (authority, offset) ← read_pubkey input offset
    (stake_vault, offset) ← read_pubkey input offset
    (locked_stake, offset) ← read_u64 input offset
    (active_claims, offset) ← read_u16 input offset
    (registered_at, offset) ← read_i64 input offset
    (status, offset) ← read_u8 input offset
    (role, offset) ← read_u8 input offset
    (capability, offset) ← read_hash input offset
    (digest, offset) ← read_hash input offset
    ok (record {
      bump = bump;
      authority = authority;
      stake_vault = stake_vault;
      locked_stake = locked_stake;
      active_claims = active_claims;
      registered_at = registered_at;
      status = status;
      role = role;
      capability_class_hash = capability;
      software_digest = digest;
    })

  pub decode_marker : Bytes → Result Error BonsolAggregateVerificationAccount
  decode_marker input = do
    check_disc input (anchor_account_discriminator sha256 "BonsolAggregateVerification")
    (bump, offset) ← read_u8 input 8
    (aggregate_job, offset) ← read_pubkey input offset
    (execution_id, offset) ← read_hash input offset
    (image_id, offset) ← read_hash input offset
    (input_digest, offset) ← read_hash input offset
    (output_digest, offset) ← read_hash input offset
    (journal_hash, offset) ← read_hash input offset
    (callback_unix, offset) ← read_i64 input offset
    (status, offset) ← read_u8 input offset
    ok (record {
      bump = bump;
      aggregate_job = aggregate_job;
      execution_id = execution_id;
      image_id = image_id;
      input_digest = input_digest;
      output_digest = output_digest;
      journal_hash = journal_hash;
      callback_unix = callback_unix;
      status = status;
    })
