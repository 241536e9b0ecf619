-- ===== src/Protocol/Instructions/Authority.antt =====
-- Who an instruction of cli/kswarm_cli/protocol.py is sent by.
use kswarm.Prelude.{
  ℕ, ◌≡◌, refl, true, List, [], ◌∷◌, if◌then◌else◌, String, ok, Ensures, Ensures-bind,
  Ensures-of_Returns,
}
use kswarm.Prelude.Bytes.{Bytes}
use kswarm.Encoding.{Error, u8, u32, u64, encode_string, encode_vec}
use kswarm.Protocol.Accounts.{Pubkey, JobAccount}
use kswarm.Protocol.Addresses.{Env, AccountMeta, Instruction, meta, ProtocolAddresses, job_pda}
use kswarm.Protocol.Floors.{InitializeProtocolArgs, to_bytes}
use kswarm.Protocol.Instructions.Workers.{
  initialize_protocol_ix, register_worker_ix, deposit_worker_stake_ix, withdraw_unlocked_stake_ix,
}
use kswarm.Protocol.Instructions.Jobs.{
  open_job_ix, commit_input_artifact_ix, claim_job_ix, submit_receipt_ix,
  submit_verifier_attestation_ix, assign_verifier_ix, reassign_verifier_ix,
  cancel_aggregate_proof_job_ix, cancel_open_job_ix, slash_stale_job_ix,
}
use kswarm.Protocol.Instructions.Settlement.{
  settle_job_ix, settle_aggregate_proof_job_ix, challenge_job_ix, refund_slashed_job_escrow_ix,
  claim_verifier_slash_reward_ix, claim_customer_slash_compensation_ix,
}

-- The keys that sign.
abbrev pub signers : List AccountMeta → List Pubkey
signers [] = []
signers (a ∷ rest) = let others = signers rest in if a.is_signer then a.pubkey ∷ others else others

-- The caller stands first, pays, and is the only one who signs.
abbrev pub IsAuthorized : Pubkey → Pubkey → Instruction → Type 0
IsAuthorized program_id caller ix =
    (ix.program_id ≡ program_id)
    × (signers ix.accounts ≡ caller ∷ [])
    × (rest : List AccountMeta) × (ix.accounts ≡ meta caller true true ∷ rest)

returned :
    {program_id caller : Pubkey} {ix : Instruction}
    → IsAuthorized program_id caller ix
    → Ensures {E = Error} (IsAuthorized program_id caller) (ok ix)
returned {ix = ix} h = Ensures-of_Returns (ok ix) h

module _ (env : Env) (proto : ProtocolAddresses) where
  -- What the builders return for a caller. The callback of Bonsol's program is not sent by a caller.
  pub data IsBuilt : Pubkey → Instruction → Type 0 where
    initialize_protocol :
        (admin : Pubkey) (args : InitializeProtocolArgs) (ix : Instruction)
        → initialize_protocol_ix env proto admin args ≡ ok ix
        → IsBuilt admin ix
    register_worker :
        (authority : Pubkey) (role : ℕ) (capability digest : Bytes) (ix : Instruction)
        → register_worker_ix env proto authority role capability digest ≡ ok ix
        → IsBuilt authority ix
    deposit_worker_stake :
        (authority : Pubkey) (amount : ℕ) (ix : Instruction)
        → deposit_worker_stake_ix env proto authority amount ≡ ok ix
        → IsBuilt authority ix
    withdraw_unlocked_stake :
        (authority : Pubkey) (amount : ℕ) (ix : Instruction)
        → withdraw_unlocked_stake_ix env proto authority amount ≡ ok ix
        → IsBuilt authority ix
    open_job :
        (customer : Pubkey) (nonce : ℕ) (input_bundle_hash expected_result_hash : Bytes)
        (reward_amount required_stake job_class required_role required_tier : ℕ)
        (required_capability required_digest : Bytes)
        (claim_window_seconds execution_window_seconds challenge_window_seconds challenge_bond : ℕ)
        (ix : Instruction)
        → open_job_ix env proto customer nonce input_bundle_hash expected_result_hash reward_amount
            required_stake job_class required_role required_tier required_capability required_digest
            claim_window_seconds execution_window_seconds challenge_window_seconds challenge_bond
          ≡ ok ix
        → IsBuilt customer ix
    commit_input_artifact :
        (customer job : Pubkey) (cid : String) (ix : Instruction)
        → commit_input_artifact_ix env proto.program_id customer job cid ≡ ok ix
        → IsBuilt customer ix
    claim_job : (authority job : Pubkey) → IsBuilt authority (claim_job_ix env proto authority job)
    submit_receipt :
        (authority job : Pubkey) (output_cid : String) (result_bytes : Bytes) (ix : Instruction)
        → submit_receipt_ix env proto.program_id authority job output_cid result_bytes ≡ ok ix
        → IsBuilt authority ix
    submit_verifier_attestation :
        (verifier_authority job : Pubkey) (result_hash : Bytes) (evidence_cid : String)
        (software_digest : Bytes) (ix : Instruction)
        → submit_verifier_attestation_ix env proto verifier_authority job result_hash evidence_cid
            software_digest
          ≡ ok ix
        → IsBuilt verifier_authority ix
    assign_verifier :
        (caller job verifier : Pubkey)
        → IsBuilt caller (assign_verifier_ix env proto.program_id caller job verifier)
    reassign_verifier :
        (caller job : Pubkey)
        → IsBuilt caller (reassign_verifier_ix env proto.program_id caller job)
    cancel_aggregate_proof_job :
        (customer job_key : Pubkey) (job : JobAccount)
        → IsBuilt customer (cancel_aggregate_proof_job_ix env proto customer job_key job)
    cancel_open_job :
        (customer job_key : Pubkey)
        → IsBuilt customer (cancel_open_job_ix env proto customer job_key)
    slash_stale_job :
        (caller job_key : Pubkey) (job : JobAccount)
        → IsBuilt caller (slash_stale_job_ix env proto caller job_key job)
    settle_job :
        (caller job_key : Pubkey) (job : JobAccount)
        → IsBuilt caller (settle_job_ix env proto caller job_key job)
    settle_aggregate_proof_job :
        (caller job_key : Pubkey) (job : JobAccount) (marker : Pubkey)
        → IsBuilt caller (settle_aggregate_proof_job_ix env proto caller job_key job marker)
    challenge_job :
        (caller job_key : Pubkey) (job : JobAccount)
        → IsBuilt caller (challenge_job_ix env proto caller job_key job)
    refund_slashed_job_escrow :
        (caller job_key : Pubkey) (job : JobAccount)
        → IsBuilt caller (refund_slashed_job_escrow_ix env proto caller job_key job)
    claim_verifier_slash_reward :
        (caller job_key : Pubkey) (job : JobAccount)
        → IsBuilt caller (claim_verifier_slash_reward_ix env proto caller job_key job)
    claim_customer_slash_compensation :
        (caller job_key : Pubkey) (job : JobAccount)
        → IsBuilt caller (claim_customer_slash_compensation_ix env proto caller job_key job)

  -- An instruction that a builder returns for a caller, the callback of the proof network aside,
  -- goes to the protocol's program, has the caller as its first account, writable, and as its only
  -- signer.
  pub IsBuilt-Authorized :
      (caller : Pubkey) (ix : Instruction)
      → IsBuilt caller ix
      → IsAuthorized proto.program_id caller ix
  unfolding initialize_protocol_ix register_worker_ix deposit_worker_stake_ix
      withdraw_unlocked_stake_ix open_job_ix commit_input_artifact_ix claim_job_ix submit_receipt_ix
      submit_verifier_attestation_ix assign_verifier_ix reassign_verifier_ix
      cancel_aggregate_proof_job_ix cancel_open_job_ix slash_stale_job_ix settle_job_ix
      settle_aggregate_proof_job_ix challenge_job_ix refund_slashed_job_escrow_ix
      claim_verifier_slash_reward_ix claim_customer_slash_compensation_ix
  IsBuilt-Authorized _ _ (initialize_protocol admin args ix e) =
      (Ensures-bind {m = to_bytes args} λ _ _. returned (refl, refl, _, refl)).at ix e
  IsBuilt-Authorized _ _ (register_worker authority role capability digest ix e) =
      (Ensures-bind {m = u8 role} λ _ _. returned (refl, refl, _, refl)).at ix e
  IsBuilt-Authorized _ _ (deposit_worker_stake authority amount ix e) =
      (Ensures-bind {m = u64 amount} λ _ _. returned (refl, refl, _, refl)).at ix e
  IsBuilt-Authorized _ _ (withdraw_unlocked_stake authority amount ix e) =
      (Ensures-bind {m = u64 amount} λ _ _. returned (refl, refl, _, refl)).at ix e
  IsBuilt-Authorized _ _
        (open_job customer nonce input_bundle_hash expected_result_hash reward_amount required_stake
          job_class required_role required_tier required_capability required_digest
          claim_window_seconds execution_window_seconds challenge_window_seconds challenge_bond ix
          e) =
      (Ensures-bind {m = job_pda env proto.program_id customer nonce} λ job _.
          Ensures-bind {m = u64 nonce} λ _ _. Ensures-bind {m = u64 reward_amount} λ _ _.
            Ensures-bind {m = u64 required_stake} λ _ _. Ensures-bind {m = u8 job_class} λ _ _.
              Ensures-bind {m = u8 required_role} λ _ _. Ensures-bind {m = u8 required_tier} λ _ _.
                Ensures-bind {m = u32 claim_window_seconds} λ _ _.
                  Ensures-bind {m = u32 execution_window_seconds} λ _ _.
                    Ensures-bind {m = u32 challenge_window_seconds} λ _ _.
                      Ensures-bind {m = u64 challenge_bond}
                        λ _ _. returned (refl, refl, _, refl)).at
        ix e
  IsBuilt-Authorized _ _ (commit_input_artifact customer job cid ix e) =
      (Ensures-bind {m = encode_string cid} λ _ _. returned (refl, refl, _, refl)).at ix e
  IsBuilt-Authorized _ _ (claim_job authority job) = (refl, refl, _, refl)
  IsBuilt-Authorized _ _ (submit_receipt authority job output_cid result_bytes ix e) =
      (Ensures-bind {m = encode_string output_cid} λ _ _.
          Ensures-bind {m = encode_vec result_bytes} λ _ _. returned (refl, refl, _, refl)).at
        ix e
  IsBuilt-Authorized _ _
        (submit_verifier_attestation verifier_authority job result_hash evidence_cid software_digest
          ix e) =
      (Ensures-bind {m = encode_string evidence_cid} λ _ _. returned (refl, refl, _, refl)).at ix e
  IsBuilt-Authorized _ _ (assign_verifier caller job verifier) = (refl, refl, _, refl)
  IsBuilt-Authorized _ _ (reassign_verifier caller job) = (refl, refl, _, refl)
  IsBuilt-Authorized _ _ (cancel_aggregate_proof_job customer job_key job) = (refl, refl, _, refl)
  IsBuilt-Authorized _ _ (cancel_open_job customer job_key) = (refl, refl, _, refl)
  IsBuilt-Authorized _ _ (slash_stale_job caller job_key job) = (refl, refl, _, refl)
  IsBuilt-Authorized _ _ (settle_job caller job_key job) = (refl, refl, _, refl)
  IsBuilt-Authorized _ _ (settle_aggregate_proof_job caller job_key job marker) =
      (refl, refl, _, refl)
  IsBuilt-Authorized _ _ (challenge_job caller job_key job) = (refl, refl, _, refl)
  IsBuilt-Authorized _ _ (refund_slashed_job_escrow caller job_key job) = (refl, refl, _, refl)
  IsBuilt-Authorized _ _ (claim_verifier_slash_reward caller job_key job) = (refl, refl, _, refl)
  IsBuilt-Authorized _ _ (claim_customer_slash_compensation caller job_key job) =
      (refl, refl, _, refl)
