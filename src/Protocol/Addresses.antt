-- ===== src/Protocol/Addresses.antt =====
-- The program addresses of cli/kswarm_cli/protocol.py and cli/kswarm_cli/spl_token.py.
use kswarm.Prelude.{ℕ, Bool, not, List, [], ◌∷◌, String, Result, ok, ◌>>=◌, ◌>>◌, raise_if, ◌||◌}
use kswarm.Prelude.Bytes.{Bytes, bytes_eq}
use kswarm.Prelude.Text.{codes}
use kswarm.Encoding.{Error, u64, bad_token_program}
use kswarm.Protocol.Accounts.{Pubkey}

-- The library functions: SHA-256, `Pubkey.find_program_address(seeds, program)[0]`, and
-- `Pubkey.from_string`.
pub record Env : Type 0 where
  pub sha256 : Bytes → Bytes
  pub find_program_address : List Bytes → Pubkey → Pubkey
  pub from_string : String → Pubkey

pub record AccountMeta : Type 0 where
  pub pubkey : Pubkey
  pub is_signer : Bool
  pub is_writable : Bool

pub record Instruction : Type 0 where
  pub program_id : Pubkey
  pub data_bytes : Bytes
  pub accounts : List AccountMeta

abbrev pub meta : Pubkey → Bool → Bool → AccountMeta
meta pubkey is_signer is_writable = record {
  pubkey = pubkey;
  is_signer = is_signer;
  is_writable = is_writable;
}

-- `validate_token_program` has accepted the token program.
pub record ProtocolAddresses : Type 0 where
  pub program_id : Pubkey
  pub payment_mint : Pubkey
  pub token_program : Pubkey

module _ (env : Env) where
  pub system_program : Pubkey
  system_program = env.from_string "11111111111111111111111111111111"

  pub associated_token_program : Pubkey
  associated_token_program = env.from_string "ATokenGPvbdGVxr1b2hvZbsiqW5xWH25efTNsLJA8knL"

  pub bpf_loader_upgradeable : Pubkey
  bpf_loader_upgradeable = env.from_string "BPFLoaderUpgradeab1e11111111111111111111111"

  -- `KNOWN_TOKEN_PROGRAMS`
  is_known_token_program : Pubkey → Bool
  is_known_token_program p =
      bytes_eq p (env.from_string "TokenkegQfeZyiNwAJbNbGKPFXCWuBvf9Ss623VQ5DA")
      || bytes_eq p (env.from_string "TokenzQdBNbLqP5VEhdkAS6EPFLC1PHnBqCXEpPxuEb")

  pub validate_token_program : Pubkey → Result Error (Unit {0})
  unfolding is_known_token_program
  validate_token_program token_program =
      raise_if (not (is_known_token_program token_program)) bad_token_program

  -- `ProtocolAddresses(...)` with its `__post_init__`.
  pub protocol_addresses : Pubkey → Pubkey → Pubkey → Result Error ProtocolAddresses
  unfolding validate_token_program
  protocol_addresses program_id payment_mint token_program = do
    validate_token_program token_program
    ok (record {
      program_id = program_id;
      payment_mint = payment_mint;
      token_program = token_program;
    })

  -- `associated_token_address` after its check, which a `ProtocolAddresses` has passed.
  pub associated_token_address : Pubkey → Pubkey → Pubkey → Pubkey
  unfolding associated_token_program
  associated_token_address mint owner token_program =
      env.find_program_address (owner ∷ token_program ∷ mint ∷ []) associated_token_program

  pub program_data_pda : Pubkey → Pubkey
  unfolding bpf_loader_upgradeable
  program_data_pda program_id = env.find_program_address (program_id ∷ []) bpf_loader_upgradeable

  pub config_pda : Pubkey → Pubkey
  config_pda program_id = env.find_program_address (codes "config" ∷ []) program_id

  pub worker_pda : Pubkey → Pubkey → Pubkey
  worker_pda program_id authority =
      env.find_program_address (codes "worker" ∷ authority ∷ []) program_id

  unfoldable pub job_pda : Pubkey → Pubkey → ℕ → Result Error Pubkey
  job_pda program_id customer nonce = do
    nonce_bytes ← u64 nonce
    ok (env.find_program_address (codes "job" ∷ customer ∷ nonce_bytes ∷ []) program_id)

  pub bonsol_marker_pda : Pubkey → Pubkey → Bytes → Bytes → Bytes → Bytes → Pubkey
  bonsol_marker_pda program_id aggregate_job execution_id image_id input_digest journal_hash =
      env.find_program_address
        (codes "bonsol_aggregate_verification"
          ∷ aggregate_job
          ∷ execution_id
          ∷ image_id
          ∷ input_digest
          ∷ journal_hash
          ∷ [])
        program_id

  -- `ProtocolAddresses.ata`
  pub ata : ProtocolAddresses → Pubkey → Pubkey
  unfolding associated_token_address
  ata proto owner = associated_token_address proto.payment_mint owner proto.token_program

  -- `ProtocolAddresses.job_escrow_vault`
  pub job_escrow_vault : ProtocolAddresses → Pubkey → Pubkey
  unfolding ata
  job_escrow_vault proto job = ata proto job
