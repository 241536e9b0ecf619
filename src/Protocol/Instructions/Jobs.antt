-- ===== src/Protocol/Instructions/Jobs.antt =====
-- cli/kswarm_cli/protocol.py: the instructions of a job's life.
use kswarm.Prelude.{ℕ, true, false, [], ◌∷◌, ◌++◌, String, Result, ok, ◌>>=◌}
use kswarm.Prelude.Bytes.{Bytes}
use kswarm.Encoding.{Error, anchor_ix_discriminator, u8, u32, u64, encode_string, encode_vec}
use kswarm.Protocol.Accounts.{Pubkey, JobAccount}
use kswarm.Protocol.Addresses.{
  Env, Instruction, meta, ProtocolAddresses, system_program, associated_token_program, config_pda,
  worker_pda, job_pda, ata, job_escrow_vault,
}

module _ (env : Env) where
  unfoldable pub open_job_ix :
      ProtocolAddresses
      → Pubkey
      → ℕ
      → Bytes
      → Bytes
      → ℕ
      → ℕ
      → ℕ
      → ℕ
      → ℕ
      → Bytes
      → Bytes
      → ℕ
      → ℕ
      → ℕ
      → ℕ
      → Result Error Instruction
  open_job_ix proto customer nonce input_bundle_hash expected_result_hash reward_amount
        required_stake job_class required_role required_tier required_capability required_digest
        claim_window_seconds execution_window_seconds challenge_window_seconds challenge_bond =
      do
        job ← job_pda env proto.program_id customer nonce
        nonce_bytes ← u64 nonce
        reward_amount_bytes ← u64 reward_amount
        required_stake_bytes ← u64 required_stake
        job_class_bytes ← u8 job_class
        required_role_bytes ← u8 required_role
        required_tier_bytes ← u8 required_tier
        claim_window_seconds_bytes ← u32 claim_window_seconds
        execution_window_seconds_bytes ← u32 execution_window_seconds
        challenge_window_seconds_bytes ← u32 challenge_window_seconds
        challenge_bond_bytes ← u64 challenge_bond
        ok (record {
          program_id = proto.program_id;
          data_bytes =
              anchor_ix_discriminator env.sha256 "open_job"
              ++ (nonce_bytes
                  ++ (input_bundle_hash
                      ++ (expected_result_hash
                          ++ (reward_amount_bytes
                              ++ (required_stake_bytes
                                  ++ (job_class_bytes
                                      ++ (required_role_bytes
                                          ++ (required_tier_bytes
                                              ++ (required_capability
                                                  ++ (required_digest
                                                      ++ (claim_window_seconds_bytes
                                                          ++ (execution_window_seconds_bytes
                                                            ++ (challenge_window_seconds_bytes
                                                            ++ challenge_bond_bytes)))))))))))));
          accounts =
              meta customer true true
              ∷ meta (config_pda env proto.program_id) false false
              ∷ meta proto.payment_mint false false
              ∷ meta job false true
              ∷ meta (job_escrow_vault env proto job) false true
              ∷ meta (ata env proto customer) false true
              ∷ meta proto.token_program false false
              ∷ meta (associated_token_program env) false false
              ∷ meta (system_program env) false false
              ∷ [];
        })

  unfoldable pub commit_input_artifact_ix :
      Pubkey → Pubkey → Pubkey → String → Result Error Instruction
  commit_input_artifact_ix program_id customer job cid = do
    cid_bytes ← encode_string cid
    ok (record {
      program_id = program_id;
      data_bytes = anchor_ix_discriminator env.sha256 "commit_input_artifact" ++ cid_bytes;
      accounts = meta customer true true ∷ meta job false true ∷ [];
    })

  unfoldable pub claim_job_ix : ProtocolAddresses → Pubkey → Pubkey → Instruction
  claim_job_ix proto authority job =
      let worker = worker_pda env proto.program_id authority in
      record {
        program_id = proto.program_id;
        data_bytes = anchor_ix_discriminator env.sha256 "claim_job";
        accounts =
            meta authority true true
            ∷ meta (config_pda env proto.program_id) false false
            ∷ meta proto.payment_mint false false
            ∷ meta worker false true
            ∷ meta (ata env proto worker) false true
            ∷ meta job false true
            ∷ meta proto.token_program false false
            ∷ [];
      }

  unfoldable pub submit_receipt_ix :
      Pubkey → Pubkey → Pubkey → String → Bytes → Result Error Instruction
  submit_receipt_ix program_id authority job output_cid result_bytes = do
    output_cid_bytes ← encode_string output_cid
    result_bytes_bytes ← encode_vec result_bytes
    ok (record {
      program_id = program_id;
      data_bytes =
          anchor_ix_discriminator env.sha256 "submit_receipt"
          ++ (output_cid_bytes ++ result_bytes_bytes);
      accounts =
          meta authority true true
          ∷ meta (worker_pda env program_id authority) false true
          ∷ meta job false true
          ∷ [];
    })

  unfoldable pub submit_verifier_attestation_ix :
      ProtocolAddresses → Pubkey → Pubkey → Bytes → String → Bytes → Result Error Instruction
  submit_verifier_attestation_ix proto verifier_authority job result_hash evidence_cid
        software_digest =
      do
        let verifier = worker_pda env proto.program_id verifier_authority
        evidence_cid_bytes ← encode_string evidence_cid
        ok (record {
          program_id = proto.program_id;
          data_bytes =
              anchor_ix_discriminator env.sha256 "submit_verifier_attestation"
              ++ (result_hash ++ (evidence_cid_bytes ++ software_digest));
          accounts =
              meta verifier_authority true true
              ∷ meta (config_pda env proto.program_id) false false
              ∷ meta proto.payment_mint false false
              ∷ meta verifier false false
              ∷ meta (ata env proto verifier) false false
              ∷ meta job false true
              ∷ meta proto.token_program false false
              ∷ [];
        })

  unfoldable pub assign_verifier_ix : Pubkey → Pubkey → Pubkey → Pubkey → Instruction
  assign_verifier_ix program_id caller job verifier = record {
    program_id = program_id;
    data_bytes = anchor_ix_discriminator env.sha256 "assign_verifier" ++ verifier;
    accounts =
        meta caller true true
        ∷ meta (config_pda env program_id) false false
        ∷ meta job false true
        ∷ [];
  }

  unfoldable pub reassign_verifier_ix : Pubkey → Pubkey → Pubkey → Instruction
  reassign_verifier_ix program_id caller job = record {
    program_id = program_id;
    data_bytes = anchor_ix_discriminator env.sha256 "reassign_verifier";
    accounts = meta caller true true ∷ meta job false true ∷ [];
  }

  unfoldable pub cancel_aggregate_proof_job_ix :
      ProtocolAddresses → Pubkey → Pubkey → JobAccount → Instruction
  cancel_aggregate_proof_job_ix proto customer job_key job =
      let worker = worker_pda env proto.program_id job.terms.worker in
      record {
        program_id = proto.program_id;
        data_bytes = anchor_ix_discriminator env.sha256 "cancel_aggregate_proof_job";
        accounts =
            meta customer true true
            ∷ meta (config_pda env proto.program_id) false false
            ∷ meta proto.payment_mint false false
            ∷ meta job_key false true
            ∷ meta (job_escrow_vault env proto job_key) false true
            ∷ meta (ata env proto customer) false true
            ∷ meta proto.token_program false false
            ∷ meta worker false true
            ∷ meta job.terms.worker false false
            ∷ [];
      }

  unfoldable pub cancel_open_job_ix : ProtocolAddresses → Pubkey → Pubkey → Instruction
  cancel_open_job_ix proto customer job_key = record {
    program_id = proto.program_id;
    data_bytes = anchor_ix_discriminator env.sha256 "cancel_open_job";
    accounts =
        meta customer true true
        ∷ meta (config_pda env proto.program_id) false false
        ∷ meta proto.payment_mint false false
        ∷ meta job_key false true
        ∷ meta (job_escrow_vault env proto job_key) false true
        ∷ meta (ata env proto customer) false true
        ∷ meta proto.token_program false false
        ∷ [];
  }

  unfoldable pub slash_stale_job_ix : ProtocolAddresses → Pubkey → Pubkey → JobAccount → Instruction
  slash_stale_job_ix proto caller job_key job =
      let worker = worker_pda env proto.program_id job.terms.worker in
      record {
        program_id = proto.program_id;
        data_bytes = anchor_ix_discriminator env.sha256 "slash_stale_job";
        accounts =
            meta caller true true
            ∷ meta (config_pda env proto.program_id) false false
            ∷ meta proto.payment_mint false false
            ∷ meta job_key false true
            ∷ meta job.terms.customer false false
            ∷ meta (ata env proto job.terms.customer) false true
            ∷ meta worker false true
            ∷ meta job.terms.worker false false
            ∷ meta (ata env proto worker) false true
            ∷ meta (job_escrow_vault env proto job_key) false true
            ∷ meta proto.token_program false false
            ∷ [];
      }

  pub record_aggregate_verification_raw_ix :
      Pubkey
      → Pubkey
      → Pubkey
      → Pubkey
      → Bytes
      → Bytes
      → Bytes
      → Bytes
      → Bytes
      → Bytes
      → Instruction
  record_aggregate_verification_raw_ix program_id bonsol_execution_account marker aggregate_job
        execution_id image_id input_digest output_digest journal_hash forwarded_payload =
      record {
        program_id = program_id;
        data_bytes =
            1 ∷ execution_id
            ++ (image_id
                ++ (input_digest ++ (output_digest ++ (journal_hash ++ forwarded_payload))));
        accounts =
            meta bonsol_execution_account true false
            ∷ meta marker false true
            ∷ meta aggregate_job false false
            ∷ meta (system_program env) false false
            ∷ [];
      }
