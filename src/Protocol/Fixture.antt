-- ===== src/Protocol/Fixture.antt =====
-- An environment and a submitted job, for the tests.
use kswarm.Prelude.{ℕ, false, none, []}
use kswarm.Prelude.Bytes.{Bytes}
use kswarm.Prelude.Int.{pos}
use kswarm.Prelude.Text.{codes}
use kswarm.Prelude.Words.{le_bytes}
use kswarm.Samples.{toy_sha256}
use kswarm.Protocol.Accounts.{JobAccount}
use kswarm.Protocol.Addresses.{Env}

abbrev pub toy_env : Env
toy_env = record {
  sha256 = toy_sha256;
  find_program_address = λ seeds program. program;
  from_string = codes;
}

abbrev zero_hash : Bytes
zero_hash = le_bytes 32 0

-- A submitted job of a class, with three hashes.
abbrev pub job_of : ℕ → Bytes → Bytes → Bytes → JobAccount
job_of job_class input_bundle_hash expected_result_hash submitted_result_hash = record {
  terms = record {
    bump = 255;
    nonce = 7;
    customer = le_bytes 32 1;
    worker = le_bytes 32 2;
    status = 4;
    reward_amount = 5;
    required_stake = 6;
    job_class = job_class;
    required_role = 2;
    required_tier = 1;
    required_capability_class_hash = zero_hash;
    required_software_digest = zero_hash;
  };
  deadlines = record {
    created_at = pos 1;
    claim_deadline = pos 2;
    execution_window_seconds = 60;
    execute_deadline = pos 3;
    challenge_window_seconds = 60;
    challenge_deadline = pos 4;
    challenge_bond = 0;
    challenger = zero_hash;
  };
  result = record {
    slash_settled = false;
    escrow_refunded = false;
    verifier_reward_paid = false;
    customer_slash_paid = false;
    input_bundle_hash = input_bundle_hash;
    expected_result_hash = expected_result_hash;
    submitted_result_hash = submitted_result_hash;
    input_cid = "input";
    output_cid = "output";
    result_bytes = [];
  };
  verifier = record {
    verifier_authority = none;
    verifier_attestation_hash = none;
    verifier_evidence_cid = none;
    verifier_attestation_unix = none;
    assigned_verifier_authority = none;
    assigned_verifier_unix = none;
    reassignment_counter = 0;
  };
}
