-- ===== src/Protocol/Instructions/Examples.antt =====
-- A claim, and a job that is opened.
use kswarm.Prelude.{◌≡◌, refl, [], ok}
use kswarm.Prelude.Words.{pack, le_bytes, length-le_bytes}
use kswarm.Samples.{toy_sha256, toy_sha256-length}
use kswarm.Encoding.{u8, u32, u64}
use kswarm.Encoding.Cursor.{Reaches, discriminator_lengths}
use kswarm.Protocol.Accounts.{Pubkey}
use kswarm.Protocol.Addresses.{Instruction, ProtocolAddresses, job_pda}
use kswarm.Protocol.Fixture.{toy_env}
use kswarm.Protocol.Instructions.Jobs.{claim_job_ix, open_job_ix}
use kswarm.Protocol.Instructions.Authority.{IsAuthorized, claim_job, IsBuilt-Authorized}
use kswarm.Protocol.Instructions.OpenJob.{JobOffer, read_offer, offer_ix, read_offer-open_job_ix}

abbrev proto : ProtocolAddresses
proto = record {
  program_id = le_bytes 32 4;
  payment_mint = le_bytes 32 5;
  token_program = le_bytes 32 6;
}

abbrev caller : Pubkey
caller = le_bytes 32 1

abbrev claim : Instruction
claim = claim_job_ix toy_env proto caller (le_bytes 32 9)

IsBuilt-Authorized_example : IsAuthorized proto.program_id caller claim
IsBuilt-Authorized_example =
    IsBuilt-Authorized toy_env proto caller claim (claim_job caller (le_bytes 32 9))

abbrev offer : JobOffer
offer = record {
  nonce = 7;
  input_bundle_hash = le_bytes 32 1;
  expected_result_hash = le_bytes 32 2;
  reward_amount = 5;
  required_stake = 6;
  job_class = 2;
  required_role = 2;
  required_tier = 1;
  required_capability = le_bytes 32 3;
  required_digest = le_bytes 32 4;
  claim_window_seconds = 60;
  execution_window_seconds = 60;
  challenge_window_seconds = 60;
  challenge_bond = 0;
}

opened : (ix : Instruction) × (offer_ix toy_env proto caller offer ≡ ok ix)
unfolding open_job_ix u8 u32 u64 pack job_pda
opened = (_, refl)

read_offer-open_job_ix_example :
    Reaches (read_offer (opened.0).data_bytes 8) offer (opened.0).data_bytes []
read_offer-open_job_ix_example =
    read_offer-open_job_ix toy_env proto caller offer opened.0
      (discriminator_lengths toy_sha256 "open_job" toy_sha256-length).0 (length-le_bytes 32 1)
      (length-le_bytes 32 2) (length-le_bytes 32 3) (length-le_bytes 32 4) opened.1
