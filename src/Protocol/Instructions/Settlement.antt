-- ===== src/Protocol/Instructions/Settlement.antt =====
-- cli/kswarm_cli/protocol.py: the instructions that settle, challenge and refund a job.
use kswarm.Prelude.{true, false, Option, none, some, List, [], ◌∷◌, ◌++◌}
use kswarm.Encoding.{anchor_ix_discriminator}
use kswarm.Protocol.Accounts.{Pubkey, JobAccount}
use kswarm.Protocol.Addresses.{
  Env, AccountMeta, Instruction, meta, ProtocolAddresses, config_pda, worker_pda, ata,
  job_escrow_vault,
}

abbrev optional_meta : Option Pubkey → List AccountMeta
optional_meta none = []
optional_meta (some key) = meta key false false ∷ []

module _ (env : Env) where
  -- `_settlement_accounts`, with the marker account if there is one.
  abbrev settlement_accounts :
      ProtocolAddresses → Pubkey → Pubkey → JobAccount → Option Pubkey → List AccountMeta
  settlement_accounts proto caller job_key job include_marker =
      let worker = worker_pda env proto.program_id job.terms.worker in
      let marker = optional_meta include_marker in
      meta caller true true
        ∷ meta (config_pda env proto.program_id) false false
        ∷ meta proto.payment_mint false false
        ∷ meta job_key false true
        ∷ marker
      ++ (meta worker false true
          ∷ meta job.terms.worker false false
          ∷ meta (job_escrow_vault env proto job_key) false true
          ∷ meta (ata env proto job.terms.worker) false true
          ∷ meta proto.token_program false false
          ∷ [])

  unfoldable pub settle_job_ix : ProtocolAddresses → Pubkey → Pubkey → JobAccount → Instruction
  settle_job_ix proto caller job_key job = record {
    program_id = proto.program_id;
    data_bytes = anchor_ix_discriminator env.sha256 "settle_job";
    accounts = settlement_accounts proto caller job_key job none;
  }

  unfoldable pub settle_aggregate_proof_job_ix :
      ProtocolAddresses → Pubkey → Pubkey → JobAccount → Pubkey → Instruction
  settle_aggregate_proof_job_ix proto caller job_key job marker = record {
    program_id = proto.program_id;
    data_bytes = anchor_ix_discriminator env.sha256 "settle_aggregate_proof_job";
    accounts = settlement_accounts proto caller job_key job (some marker);
  }

  unfoldable pub challenge_job_ix : ProtocolAddresses → Pubkey → Pubkey → JobAccount → Instruction
  challenge_job_ix proto caller job_key job =
      let verifier = worker_pda env proto.program_id caller in
      let worker = worker_pda env proto.program_id job.terms.worker in
      record {
        program_id = proto.program_id;
        data_bytes = anchor_ix_discriminator env.sha256 "challenge_job";
        accounts =
            meta caller true true
            ∷ meta (config_pda env proto.program_id) false false
            ∷ meta proto.payment_mint false false
            ∷ meta verifier false true
            ∷ meta (ata env proto verifier) false true
            ∷ meta job_key false true
            ∷ meta worker false true
            ∷ meta job.terms.worker false false
            ∷ meta (ata env proto worker) false true
            ∷ meta proto.token_program false false
            ∷ [];
      }

  unfoldable pub refund_slashed_job_escrow_ix :
      ProtocolAddresses → Pubkey → Pubkey → JobAccount → Instruction
  refund_slashed_job_escrow_ix proto caller job_key job = record {
    program_id = proto.program_id;
    data_bytes = anchor_ix_discriminator env.sha256 "refund_slashed_job_escrow";
    accounts =
        meta caller true true
        ∷ meta (config_pda env proto.program_id) false false
        ∷ meta proto.payment_mint false false
        ∷ meta job_key false true
        ∷ meta job.terms.customer false false
        ∷ meta (ata env proto job.terms.customer) false true
        ∷ meta (job_escrow_vault env proto job_key) false true
        ∷ meta proto.token_program false false
        ∷ [];
  }

  unfoldable pub claim_verifier_slash_reward_ix :
      ProtocolAddresses → Pubkey → Pubkey → JobAccount → Instruction
  claim_verifier_slash_reward_ix proto caller job_key job =
      let worker = worker_pda env proto.program_id job.terms.worker in
      record {
        program_id = proto.program_id;
        data_bytes = anchor_ix_discriminator env.sha256 "claim_verifier_slash_reward";
        accounts =
            meta caller true true
            ∷ meta (config_pda env proto.program_id) false false
            ∷ meta proto.payment_mint false false
            ∷ meta job_key false true
            ∷ meta job.deadlines.challenger false false
            ∷ meta (ata env proto job.deadlines.challenger) false true
            ∷ meta worker false true
            ∷ meta job.terms.worker false false
            ∷ meta (ata env proto worker) false true
            ∷ meta proto.token_program false false
            ∷ [];
      }

  unfoldable pub claim_customer_slash_compensation_ix :
      ProtocolAddresses → Pubkey → Pubkey → JobAccount → Instruction
  claim_customer_slash_compensation_ix proto caller job_key job =
      let worker = worker_pda env proto.program_id job.terms.worker in
      record {
        program_id = proto.program_id;
        data_bytes = anchor_ix_discriminator env.sha256 "claim_customer_slash_compensation";
        accounts =
            meta caller true true
            ∷ meta (config_pda env proto.program_id) false false
            ∷ meta proto.payment_mint false false
            ∷ meta job_key false true
            ∷ meta job.terms.customer false false
            ∷ meta (ata env proto job.terms.customer) false true
            ∷ meta worker false true
            ∷ meta job.terms.worker false false
            ∷ meta (ata env proto worker) false true
            ∷ meta proto.token_program false false
            ∷ [];
      }
