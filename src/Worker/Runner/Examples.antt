-- ===== src/Worker/Runner/Examples.antt =====
-- One aggregate job that is in order, and a hook that proves it.
use text.Mathlib.Text.{◌==◌ as str_eq}
use kswarm.Prelude.{
  ◌≡◌, refl, ap, true, false, Option, none, some, List, [], ◌∷◌, ◌++◌, String, Result-cases, inl,
  inr, ok, arith, All, length, if◌then◌else◌, ◌<◌, ◌^◌,
}
use kswarm.Prelude.Bytes.{Bytes, bytes_eq, bytes_eq_self}
use kswarm.Prelude.Text.{codes, utf8}
use kswarm.Prelude.Words.{le_bytes, length-le_bytes, unpack_from}
use kswarm.Json.{get, items, lookup, end}
use kswarm.Samples.{toy_sha256, toy_sha256-length}
use kswarm.Encoding.Cursor.{encode_string_lem, encode_vec_lem}
use kswarm.CanonicalHash.{BranchOutput}
use kswarm.Aggregate.Fields.{from_hex}
use kswarm.Aggregate.Receipt.{
  parse_branch_result_bytes, parse_body, read_if, read_bps, read_scores_if,
}
use kswarm.Aggregate.Reduce.Fixture.{loads, receipt_hash}
use kswarm.Aggregate.Journal.Fixture.{
  journal, framing, opened, outputs, expected, outputs_length, expected_lem,
}
use kswarm.Protocol.Accounts.{Pubkey, JobAccount}
use kswarm.Protocol.Addresses.{Instruction}
use kswarm.Protocol.Fixture.{toy_env, job_of}
use kswarm.Protocol.Instructions.Jobs.{submit_receipt_ix}
use kswarm.Worker.Action.{pure, ask, or_fail, attempt, ◌>>=◌}
use kswarm.Worker.World.{World, entry, cat_json, zero_hash}
use kswarm.Worker.Runner.{
  AggregateBinding, BonsolBinding, Run, Event, claimed, submitted, proved, HookRequest, Runner,
  has_hook, needs_proof, resolve_allow_unproven,
}
use kswarm.Worker.Runner.Hook.{parse_hook_output, check_binding_against_job}
use kswarm.Worker.Runner.Bind.{
  bind_committed_artifact, bind_artifact, check_branches_against_chain, check_artifact_against_plan,
}
use kswarm.Worker.Runner.Submit.{
  may_aggregate, is_ours, branch_outputs_for_report, run_hook, aggregate_found, run_once,
}
use kswarm.Worker.Runner.Bound.{bind_committed_artifact-IsBound}
use kswarm.Worker.Runner.Honest.{IsHonest, Takes}
use kswarm.Worker.Runner.Honest.Clusters.{Takes-proven}
use kswarm.Worker.Runner.Honest.Runs.{runner-Honest}
use kswarm.Worker.Runner.Settled.{steps, IsInOrder, aggregate_found-steps}

abbrev job_key : Pubkey
job_key = le_bytes 32 9

abbrev image : Bytes
image = le_bytes 32 4

abbrev job : JobAccount
job =
    let opened_job = job_of 4 journal.input_digest expected.0 [] in
    record opened_job {
      terms = record (opened_job.terms) { status = 2; required_software_digest = image };
    }

abbrev branch_job : JobAccount
branch_job =
    let submitted_job = job_of 2 [] [] receipt_hash in
    record submitted_job { terms = record (submitted_job.terms) { status = 5 } }

abbrev unhex : String → Option Bytes
unhex s =
    if str_eq s "outputs"
    then some outputs.0
    else if str_eq s "image"
    then some image
    else if str_eq s "input"
    then some journal.input_digest
    else if str_eq s "digest"
    then some (toy_sha256 outputs.0)
    else if str_eq s "journal"
    then some expected.0
    else from_hex (codes s)

abbrev toy_world : World Event
toy_world = record {
  env = toy_env;
  parse_key = λ s. some (if str_eq s "job" then job_key else le_bytes 32 8);
  fromhex = unhex;
  loads = loads;
  to_int = λ j. none;
  lowered = λ j. "";
  shown = λ j. "";
  truthy = λ j. false;
  same_value = λ a b. true;
  as_dict = λ j. none;
  parse_input = λ b. none;
  parse_output = λ j. none;
  dump_input = λ i. end;
  dump_output = λ o. end;
  cat_bytes = λ log cid. ok [];
  fetch_jobs = λ log. ok [];
  fetch_job = λ log key. ok (some (if bytes_eq key job_key then job else branch_job));
  send = λ log ix. ok tt;
}

abbrev run : Run
run = record {
  parent_run = "run";
  aggregate_job = "job";
  combiner = "weighted-mean";
  output_schema_hash = "";
  aggregate_submitted = false;
  aggregate_claimed_at_unix = none;
  aggregate_output_cid = none;
  aggregate_result_hash = none;
  aggregate_journal = none;
  aggregate_bonsol_execution = none;
  updated_at_unix = 0;
}

abbrev toy_runner : Runner
toy_runner = record {
  wallet = le_bytes 32 3;
  proto = record {
    program_id = le_bytes 32 4;
    payment_mint = le_bytes 32 5;
    token_program = le_bytes 32 6;
  };
  allow_completed_branches = false;
  hook_command = some "prove";
  allow_unproven = false;
  run_hook = λ log command request. some (1 ∷ []);
  add_json = λ log report. ok "report";
  clock = λ log. 7;
  load = λ log path. some run;
}

abbrev plain : String → String
plain s = s

abbrev binding : AggregateBinding
binding = record { artifact = []; journal = journal; committed_outputs = outputs.0 }

abbrev execution : BonsolBinding
execution = record {
  execution_id = "execution";
  image_id = image;
  input_digest = journal.input_digest;
  output_digest = toy_sha256 outputs.0;
  journal_hash = expected.0;
  committed_outputs = outputs.0;
}

abbrev journal_preimage : Bytes
journal_preimage = 0 ∷ 0 ∷ 0 ∷ 0 ∷ 0 ∷ 0 ∷ 0 ∷ 0 ∷ []

parsed : parse_hook_output toy_world plain (1 ∷ []) ≡ ok execution
unfolding parse_hook_output get lookup utf8
parsed =
    rw
      (
        expected_lem,
        length-le_bytes 32 4,
        toy_sha256-length journal_preimage,
        toy_sha256-length outputs.0,
        toy_sha256-length (journal.input_digest ++ outputs.0),
        outputs_length,
        bytes_eq_self (toy_sha256 outputs.0),
        bytes_eq_self (toy_sha256 (journal.input_digest ++ outputs.0)),
      )
      refl

checked : check_binding_against_job execution job binding ≡ ok tt
unfolding check_binding_against_job
checked =
    rw
      (
        bytes_eq_self outputs.0,
        bytes_eq_self journal.input_digest,
        bytes_eq_self image,
        bytes_eq_self expected.0,
      )
      refl

branches_ready : check_branches_against_chain toy_world toy_runner [] [] ≡ (ok tt, [])
unfolding check_branches_against_chain pure ask or_fail ◌>>=◌ lookup items parse_branch_result_bytes
    unpack_from parse_body read_if read_bps read_scores_if bytes_eq entry from_hex toy_sha256
    le_bytes
branches_ready = refl

image_set : bytes_eq image zero_hash ≡ false
unfolding bytes_eq le_bytes
image_set = refl

bound : bind_committed_artifact toy_world toy_runner job [] ≡ (ok binding, [])
unfolding bind_committed_artifact bind_artifact check_artifact_against_plan pure ask or_fail ◌>>=◌
    get lookup
bound =
    rw
      (
        framing,
        bytes_eq_self journal.input_digest,
        opened,
        expected.1,
        outputs.1,
        bytes_eq_self expected.0,
        image_set,
        branches_ready,
      )
      refl

reported :
    (documents : List BranchOutput) × (branch_outputs_for_report toy_world plain toy_runner binding
        []
      ≡ (ok documents, []))
unfolding branch_outputs_for_report pure ask or_fail attempt ◌>>=◌ lookup items entry cat_json
reported = (_, refl)

report_short : length (utf8 "report") < 256 ^ 4
unfolding utf8
report_short = omega arith

submits :
    (ix : Instruction) × (submit_receipt_ix toy_env toy_runner.proto.program_id toy_runner.wallet
        job_key "report" outputs.0
      ≡ ok ix)
unfolding submit_receipt_ix
submits =
    elim (Result-cases (
      submit_receipt_ix toy_env toy_runner.proto.program_id toy_runner.wallet job_key "report"
        outputs.0)) [
          | inl (ix, e) ↦ (ix, e)
          | inr (x, e) ↦
              let text = encode_string_lem "report" report_short in
              let vector = encode_vec_lem outputs.0 (omega (arith, outputs_length)) in
              let impossible = rw (text, vector) at e in absurd (cc)
        ]

is_hooked : has_hook toy_runner.hook_command ≡ true
unfolding has_hook
is_hooked = refl

allowed : may_aggregate toy_world plain toy_runner job ≡ true
unfolding may_aggregate
allowed = refl

not_ours : is_ours toy_world plain toy_runner job ≡ false
unfolding is_ours
not_ours = refl

executed :
    (log : List Event) (request : HookRequest)
    → request.binding ≡ binding
    → run_hook toy_world plain toy_runner "prove" request job log ≡ (ok execution, log)
unfolding run_hook pure ask or_fail ◌>>=◌
executed log request e = rw (e, parsed, checked) refl

abbrev in_order : IsInOrder toy_world plain toy_runner [] job_key job
in_order = record {
  command = "prove";
  has_command = refl;
  hooked = is_hooked;
  proving = refl;
  allowed = allowed;
  not_ours = not_ours;
  binding = binding;
  bound = bound;
  outputs = reported.0;
  reported = reported.1;
  cid = "report";
  published = λ log report. refl;
  ix = submits.0;
  encoded = submits.1;
  accepted = λ log ix. refl;
  execution = execution;
  executed = λ log run. executed log _ refl;
}

aggregate_found-steps_example :
    let (result, after) = aggregate_found toy_world plain toy_runner run job_key (some job) [] in
    (result ≡ ok true)
    × (steps after
        ≡ proved job_key execution ∷ submitted job_key "report" outputs.0 ∷ claimed job_key ∷ [])
aggregate_found-steps_example =
    aggregate_found-steps toy_world plain toy_runner [] run job_key job in_order

runner-Honest_example :
    All
      (IsHonest toy_world plain toy_runner)
      ((run_once toy_world plain toy_runner ("run" ∷ []) []).1)
runner-Honest_example = runner-Honest toy_world plain toy_runner ("run" ∷ []) [] tt

resolved : resolve_allow_unproven toy_runner.hook_command "" "devnet" ≡ ok toy_runner.allow_unproven
unfolding resolve_allow_unproven has_hook
resolved = refl

on_devnet : needs_proof "devnet" ≡ true
unfolding needs_proof
on_devnet = refl

takes : Takes toy_world plain toy_runner job binding
takes = record {
  allowed = allowed;
  bound =
      bind_committed_artifact-IsBound toy_world toy_runner job binding
        (record { before = []; returns = ap (λ p. p.0) bound });
  provable = inl is_hooked;
}

Takes-proven_example : has_hook toy_runner.hook_command ≡ true
Takes-proven_example =
    Takes-proven toy_world plain toy_runner "" "devnet" job binding resolved on_devnet takes
