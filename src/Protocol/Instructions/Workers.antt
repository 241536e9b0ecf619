-- ===== src/Protocol/Instructions/Workers.antt =====
-- cli/kswarm_cli/protocol.py: the instructions of the protocol set-up and of the workers' stakes.
use kswarm.Prelude.{ℕ, true, false, [], ◌∷◌, ◌++◌, Result, ok, ◌>>=◌}
use kswarm.Prelude.Bytes.{Bytes}
use kswarm.Encoding.{Error, anchor_ix_discriminator, u8, u64}
use kswarm.Protocol.Accounts.{Pubkey}
use kswarm.Protocol.Addresses.{
  Env, Instruction, meta, ProtocolAddresses, system_program, associated_token_program,
  program_data_pda, config_pda, worker_pda, ata,
}
use kswarm.Protocol.Floors.{InitializeProtocolArgs, to_bytes}

module _ (env : Env) where
  unfoldable pub initialize_protocol_ix :
      ProtocolAddresses → Pubkey → InitializeProtocolArgs → Result Error Instruction
  initialize_protocol_ix proto admin args = do
    args_bytes ← to_bytes args
    ok (record {
      program_id = proto.program_id;
      data_bytes = anchor_ix_discriminator env.sha256 "initialize_protocol" ++ args_bytes;
      accounts =
          meta admin true true
          ∷ meta (config_pda env proto.program_id) false true
          ∷ meta proto.payment_mint false false
          ∷ meta proto.token_program false false
          ∷ meta (system_program env) false false
          ∷ meta proto.program_id false false
          ∷ meta (program_data_pda env proto.program_id) false false
          ∷ [];
    })

  unfoldable pub register_worker_ix :
      ProtocolAddresses → Pubkey → ℕ → Bytes → Bytes → Result Error Instruction
  register_worker_ix proto authority role capability digest = do
    let worker = worker_pda env proto.program_id authority
    role_bytes ← u8 role
    ok (record {
      program_id = proto.program_id;
      data_bytes =
          anchor_ix_discriminator env.sha256 "register_worker"
          ++ (role_bytes ++ (capability ++ digest));
      accounts =
          meta authority true true
          ∷ meta (config_pda env proto.program_id) false false
          ∷ meta proto.payment_mint false false
          ∷ meta worker false true
          ∷ meta (ata env proto worker) false true
          ∷ meta proto.token_program false false
          ∷ meta (associated_token_program env) false false
          ∷ meta (system_program env) false false
          ∷ [];
    })

  unfoldable pub deposit_worker_stake_ix : ProtocolAddresses → Pubkey → ℕ → Result Error Instruction
  deposit_worker_stake_ix proto authority amount = do
    let worker = worker_pda env proto.program_id authority
    amount_bytes ← u64 amount
    ok (record {
      program_id = proto.program_id;
      data_bytes = anchor_ix_discriminator env.sha256 "deposit_worker_stake" ++ amount_bytes;
      accounts =
          meta authority true true
          ∷ meta (config_pda env proto.program_id) false false
          ∷ meta proto.payment_mint false false
          ∷ meta worker false false
          ∷ meta (ata env proto worker) false true
          ∷ meta (ata env proto authority) false true
          ∷ meta proto.token_program false false
          ∷ [];
    })

  unfoldable pub withdraw_unlocked_stake_ix :
      ProtocolAddresses → Pubkey → ℕ → Result Error Instruction
  withdraw_unlocked_stake_ix proto authority amount = do
    let worker = worker_pda env proto.program_id authority
    amount_bytes ← u64 amount
    ok (record {
      program_id = proto.program_id;
      data_bytes = anchor_ix_discriminator env.sha256 "withdraw_unlocked_stake" ++ amount_bytes;
      accounts =
          meta authority true true
          ∷ meta (config_pda env proto.program_id) false false
          ∷ meta proto.payment_mint false false
          ∷ meta worker false true
          ∷ meta (ata env proto worker) false true
          ∷ meta (ata env proto authority) false true
          ∷ meta proto.token_program false false
          ∷ [];
    })
