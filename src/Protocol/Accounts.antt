-- ===== src/Protocol/Accounts.antt =====
-- The account dataclasses of cli/kswarm_cli/protocol.py. A `Pubkey` is its 32 bytes. The fields of
-- `JobAccount` stand in four groups, in the source's order.
use kswarm.Prelude.{ℕ, Bool, Option, String}
use kswarm.Prelude.Bytes.{Bytes}
use kswarm.Prelude.Int.{ℤ}

abbrev pub Pubkey : Type 0
Pubkey = Bytes

pub record ProtocolConfigAccount : Type 0 where
  pub bump : ℕ
  pub admin : Pubkey
  pub payment_mint : Pubkey
  pub token_program : Pubkey
  pub payment_decimals : ℕ
  pub tier_one_stake_floor : ℕ
  pub tier_two_stake_floor : ℕ
  pub tier_three_stake_floor : ℕ
  pub verifier_stake_floor : ℕ
  pub min_challenge_window_seconds : ℕ

pub record WorkerAccount : Type 0 where
  pub bump : ℕ
  pub authority : Pubkey
  pub stake_vault : Pubkey
  pub locked_stake : ℕ
  pub active_claims : ℕ
  pub registered_at : ℤ
  pub status : ℕ
  pub role : ℕ
  pub capability_class_hash : Bytes
  pub software_digest : Bytes

pub record JobTerms : Type 0 where
  pub bump : ℕ
  pub nonce : ℕ
  pub customer : Pubkey
  pub worker : Pubkey
  pub status : ℕ
  pub reward_amount : ℕ
  pub required_stake : ℕ
  pub job_class : ℕ
  pub required_role : ℕ
  pub required_tier : ℕ
  pub required_capability_class_hash : Bytes
  pub required_software_digest : Bytes

pub record JobDeadlines : Type 0 where
  pub created_at : ℤ
  pub claim_deadline : ℤ
  pub execution_window_seconds : ℕ
  pub execute_deadline : ℤ
  pub challenge_window_seconds : ℕ
  pub challenge_deadline : ℤ
  pub challenge_bond : ℕ
  pub challenger : Pubkey

pub record JobResult : Type 0 where
  pub slash_settled : Bool
  pub escrow_refunded : Bool
  pub verifier_reward_paid : Bool
  pub customer_slash_paid : Bool
  pub input_bundle_hash : Bytes
  pub expected_result_hash : Bytes
  pub submitted_result_hash : Bytes
  pub input_cid : String
  pub output_cid : String
  pub result_bytes : Bytes

pub record JobVerifier : Type 0 where
  pub verifier_authority : Option Pubkey
  pub verifier_attestation_hash : Option Bytes
  pub verifier_evidence_cid : Option String
  pub verifier_attestation_unix : Option ℤ
  pub assigned_verifier_authority : Option Pubkey
  pub assigned_verifier_unix : Option ℤ
  pub reassignment_counter : ℕ

pub record JobAccount : Type 0 where
  pub terms : JobTerms
  pub deadlines : JobDeadlines
  pub result : JobResult
  pub verifier : JobVerifier

pub record BonsolAggregateVerificationAccount : Type 0 where
  pub bump : ℕ
  pub aggregate_job : Pubkey
  pub execution_id : Bytes
  pub image_id : Bytes
  pub input_digest : Bytes
  pub output_digest : Bytes
  pub journal_hash : Bytes
  pub callback_unix : ℤ
  pub status : ℕ
