-- ===== src/Worker/Runner.antt =====
-- worker/aggregator_runner/runner.py: the state, the log and the events of the aggregate runner, and
-- whether it may submit an aggregate without a proof.
pub mod Hook
pub mod Bind
pub mod Submit
pub mod Bound
pub mod Honest
pub mod Settled
mod Examples
use text.Mathlib.Text.{◌==◌ as str_eq}
use kswarm.Prelude.{
  ℕ, Bool, true, false, not, ◌&&◌, ◌||◌, Option, none, some, List, if◌then◌else◌, String, Result,
  ok, err,
}
use kswarm.Prelude.Bytes.{Bytes}
use kswarm.Json.{Json}
use kswarm.Aggregate.Journal.{AggregateJournal}
use kswarm.CanonicalHash.{BranchOutput}
use kswarm.Protocol.Accounts.{Pubkey, JobAccount}
use kswarm.Protocol.Addresses.{ProtocolAddresses}
use kswarm.Worker.World.{Failure, aggregation_error}

-- `AggregateBinding`, with the committed outputs that its journal gives.
pub record AggregateBinding : Type 0 where
  pub artifact : Bytes
  pub journal : AggregateJournal
  pub committed_outputs : Bytes

-- `BonsolBinding` of worker/aggregator_runner/bonsol_hook.py
pub record BonsolBinding : Type 0 where
  pub execution_id : String
  pub image_id : Bytes
  pub input_digest : Bytes
  pub output_digest : Bytes
  pub journal_hash : Bytes
  pub committed_outputs : Bytes

-- The entries of a run's file that the runner reads or writes.
pub record Run : Type 0 where
  pub parent_run : String
  pub aggregate_job : String
  pub combiner : String
  pub output_schema_hash : String
  pub aggregate_submitted : Bool
  pub aggregate_claimed_at_unix : Option ℕ
  pub aggregate_output_cid : Option String
  pub aggregate_result_hash : Option Bytes
  pub aggregate_journal : Option AggregateJournal
  pub aggregate_bonsol_execution : Option BonsolBinding
  pub updated_at_unix : ℕ

-- What the runner has done: a metric that went up, a run that it saved, a job that it claimed, a
-- receipt that it submitted, an execution of the proof that it accepted.
pub data Event : Type 0 where
  counted : String → Event
  saved : Run → Event
  claimed : Pubkey → Event
  submitted : Pubkey → String → Bytes → Event
  proved : Pubkey → BonsolBinding → Event

-- The aggregate output artifact: the run, the job's input, the binding, whether it is to be proven,
-- and the branch documents.
pub record Report : Type 0 where
  pub run : Run
  pub aggregate_input_cid : String
  pub binding : AggregateBinding
  pub unproven : Bool
  pub result_hash : Bytes
  pub branch_outputs : List BranchOutput

-- What the hook is called with.
pub record HookRequest : Type 0 where
  pub run : Run
  pub image_id : Bytes
  pub input_cid : String
  pub binding : AggregateBinding

-- `run_hook` starts the hook's command and gives what it printed, if it ended well; `clock` is `int(self.clock())`,
-- and `load` reads a run whose file it could lock.
pub record Runner : Type 0 where
  pub wallet : Pubkey
  pub proto : ProtocolAddresses
  pub allow_completed_branches : Bool
  pub hook_command : Option String
  pub allow_unproven : Bool
  pub run_hook : List Event → String → HookRequest → Option Bytes
  pub add_json : List Event → Report → Result Failure String
  pub clock : List Event → ℕ
  pub load : List Event → String → Option Run

-- `PROVING_REQUIRED_CLUSTERS`
unfoldable pub needs_proof : String → Bool
needs_proof cluster = str_eq cluster "devnet" || str_eq cluster "mainnet"

-- `if self.hook_command`
unfoldable pub has_hook : Option String → Bool
has_hook none = false
has_hook (some command) = not (str_eq command "")

-- `_resolve_allow_unproven`; `setting` is the environment's value, stripped.
unfoldable pub resolve_allow_unproven : Option String → String → String → Result Failure Bool
resolve_allow_unproven hook_command setting cluster =
    if has_hook hook_command
    then ok false
    else if not (str_eq setting "1")
    then ok false
    else if needs_proof cluster
    then err aggregation_error
    else ok true
