-- ===== src/Worker/Verifier.antt =====
-- worker/verifier_worker/daemon.py: the state and the log of the verifier daemon, the jobs that it
-- takes, and what it compares. Its steps are in Verifier/Branch, Verifier/Reduction and Verifier/Run.
pub mod Session
pub mod Receipt
pub mod Branch
pub mod Reduction
pub mod Run
pub mod Honest
pub mod Attested
mod Examples
use text.Mathlib.Text.{◌==◌ as str_eq}
use kswarm.Prelude.{
  ℕ, Bool, true, false, not, ◌&&◌, ◌||◌, Option, none, some, List, [], ◌∷◌, ◌++◌, ◌==◌, String,
  Result,
}
use kswarm.Prelude.Bytes.{Bytes, bytes_eq}
use kswarm.Prelude.Int.{ℤ}
use kswarm.Json.{Json}
use kswarm.CanonicalHash.{BranchOutput, kind_id, is_some}
use kswarm.Aggregate.Journal.{AggregateJournal}
use kswarm.Protocol.Accounts.{Pubkey, JobAccount}
use kswarm.Protocol.Addresses.{ProtocolAddresses}
use kswarm.ZkvmReceipt.{ReceiptJournal, Reason}
use kswarm.Worker.World.{
  Failure, BranchInput, status_submitted, branch_proof, aggregate_proof, zero_hash,
}

-- The reasons of `_validate_output_matches_input`.
pub data Mismatch : Type 0 where
  other_parent_job other_branch_index other_rng_seed other_output_kind : Mismatch

-- The reasons of `_verify_branch_receipt`.
pub data ReceiptFault : Type 0 where
  no_receipt receipt_not_verified other_image_id : ReceiptFault
  unbound : Reason → ReceiptFault

-- The reasons of `_verify_and_attest_aggregate` and `_aggregate_branches_match_chain`.
pub data AggregateFault : Type 0 where
  other_framed_digest other_journal_hash other_submitted_hash other_receipt_bytes : AggregateFault
  no_branch_job not_a_branch_job other_branch_receipt : Pubkey → AggregateFault

-- The report of `_verify_branch_receipt`.
pub data ReceiptReport : Type 0 where
  disabled absent unverified : ReceiptReport
  compared : ReceiptJournal → ReceiptJournal → List ReceiptFault → ReceiptReport

-- `Verification`, without the text of its `surface`.
pub record Verification : Type 0 where
  pub verifier_result_bytes : Bytes
  pub verifier_hash : Bytes
  pub matched : Bool
  pub validation_errors : List Mismatch
  pub verifier_output : BranchOutput
  pub verifier_transcript : Option Json

-- The evidence artifacts, without their fixed texts.
pub data Evidence : Type 0 where
  branch_evidence : Pubkey → JobAccount → BranchOutput → Verification → ReceiptReport → Evidence
  aggregate_evidence :
      Pubkey → JobAccount → Bytes → List AggregateFault → AggregateJournal → Evidence

-- What the daemon has done: a metric that went up, a job that it attested to, a job that it challenged.
pub data Event : Type 0 where
  counted : String → Event
  attested : Pubkey → Bytes → String → Bytes → Event
  challenged : Pubkey → JobAccount → Event

-- What `BranchExecutor.execute` returns.
pub record Execution : Type 0 where
  pub result_bytes : Bytes
  pub output : BranchOutput
  pub transcript : Json

-- The executor that the daemon is given.
pub record Executor : Type 0 where
  pub llm_model_name : String
  pub execute : List Event → Pubkey → BranchInput → BranchOutput → Result Failure Execution

-- The daemon: its wallet, its session's addresses, its configuration, and the IPFS node that it
-- publishes evidence to. `host_verify` runs the host binary, whose answer is a JSON value.
pub record Verifier : Type 0 where
  pub wallet : Pubkey
  pub proto : ProtocolAddresses
  pub software_digest : Bytes
  pub challenge_on_mismatch : Bool
  pub executor : Option Executor
  pub zkvm_host : Option String
  pub zkvm_image_id : Option String
  pub zkvm_required : Bool
  pub host_verify : String → Json → Option Json
  pub add_json : List Event → Evidence → Result Failure String

abbrev pub reason_if : {A : Type 0} → Bool → A → List A
reason_if true r = r ∷ []
reason_if false r = []

abbrev pub is_empty : {A : Type 0} → List A → Bool
is_empty [] = true
is_empty (x ∷ xs) = false

-- `_validate_output_matches_input`
pub validate_output_matches_input : BranchInput → BranchOutput → List Mismatch
validate_output_matches_input input output =
    reason_if (not (str_eq output.parent_job input.parent_job)) other_parent_job
    ++ (reason_if (not (output.branch_index == input.branch_index)) other_branch_index
        ++ (reason_if (not (output.rng_seed == input.rng_seed)) other_rng_seed
            ++ reason_if (not (kind_id output.output_kind == kind_id input.target_output_kind))
                other_output_kind))

-- `is_past deadline` is `deadline <= now`, where `now` is the clock's float.
module _ (v : Verifier) (is_past : ℤ → Bool) where
  -- `_matches_attestable_branch_job`
  unfoldable pub matches_attestable_branch_job : JobAccount → Bool
  matches_attestable_branch_job job =
      (job.terms.status == status_submitted)
      && ((job.terms.job_class == branch_proof)
          && (not (is_some job.verifier.verifier_authority)
              && (not (is_past job.deadlines.challenge_deadline)
                  && ((bytes_eq job.terms.required_software_digest v.software_digest
                        || bytes_eq job.terms.required_software_digest zero_hash)
                      && not (bytes_eq job.terms.worker v.wallet)))))

  -- `_matches_attestable_aggregate_job`
  unfoldable pub matches_attestable_aggregate_job : JobAccount → Bool
  matches_attestable_aggregate_job job =
      (job.terms.status == status_submitted)
      && ((job.terms.job_class == aggregate_proof)
          && (not (is_some job.verifier.verifier_authority)
              && (not (is_past job.deadlines.challenge_deadline)
                  && (not (bytes_eq job.terms.worker v.wallet)
                      && not (str_eq job.result.input_cid "")))))
