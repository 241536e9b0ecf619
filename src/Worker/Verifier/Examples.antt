-- ===== src/Worker/Verifier/Examples.antt =====
-- One aggregate job that agrees with its artifact, in a world that answers.
use kswarm.Prelude.{
  ℕ, zero, suc, ◌≡◌, refl, ◌++◌, List, String, Bool, true, false, none, some, [], ◌∷◌, ok, arith,
  All, length, ◌<◌, ◌^◌,
}
use kswarm.Prelude.Bytes.{Bytes, bytes_eq}
use kswarm.Prelude.Int.{ℤ}
use kswarm.Prelude.Text.{codes, utf8}
use kswarm.Prelude.Words.{le_bytes, unpack_from}
use kswarm.Json.{Json, arr, cons, nil, items, lookup, end}
use kswarm.Samples.{toy_sha256}
use kswarm.Aggregate.Fields.{from_hex}
use kswarm.Aggregate.Receipt.{
  scalar, parse_branch_result_bytes, parse_body, read_if, read_bps, read_scores_if,
}
use kswarm.Aggregate.Reduce.Fixture.{loads, receipt_hash, branch, artifact}
use kswarm.Aggregate.Journal.Fixture.{journal, framing, opened, outputs, expected}
use kswarm.Protocol.Accounts.{Pubkey, JobAccount}
use kswarm.Protocol.Fixture.{toy_env, job_of}
use kswarm.Worker.World.{entry, as_list, World, zero_hash}
use kswarm.Worker.Verifier.{
  Event, Verifier, AggregateFault, aggregate_evidence, matches_attestable_aggregate_job,
}
use kswarm.Worker.Verifier.Run.{run_job, run_once}
use kswarm.Worker.Verifier.Attested.{Entry, IsAnswered, Outcome}
use kswarm.Worker.Verifier.Attested.Settles.{run_job-attested}
use kswarm.Worker.Verifier.Honest.{IsHonest, Names}
use kswarm.Worker.Verifier.Honest.Reduces.{run_once-Honest}

abbrev aggregate_job : JobAccount
aggregate_job = job_of 4 journal.input_digest expected.0 (toy_sha256 outputs.0)

abbrev branch_job : JobAccount
branch_job = job_of 2 zero_hash zero_hash receipt_hash

abbrev job_key : Pubkey
job_key = le_bytes 32 9

abbrev toy_world : World Event
toy_world = record {
  env = toy_env;
  parse_key = λ s. some (codes s);
  fromhex = λ s. from_hex (codes s);
  loads = loads;
  to_int = λ j. none;
  lowered = λ j. "";
  shown = λ j. "";
  truthy = λ j. false;
  same_value = λ a b. true;
  as_dict = λ j. none;
  parse_input = λ b. none;
  parse_output = λ j. none;
  dump_input = λ i. end;
  dump_output = λ o. end;
  cat_bytes = λ log cid. ok [];
  fetch_jobs = λ log. ok ((job_key, aggregate_job) ∷ []);
  fetch_job = λ log key. ok (some branch_job);
  send = λ log ix. ok tt;
}

abbrev toy_verifier : Verifier
toy_verifier = record {
  wallet = le_bytes 32 3;
  proto = record {
    program_id = le_bytes 32 4;
    payment_mint = le_bytes 32 5;
    token_program = le_bytes 32 6;
  };
  software_digest = le_bytes 32 8;
  challenge_on_mismatch = true;
  executor = none;
  zkvm_host = none;
  zkvm_image_id = none;
  zkvm_required = false;
  host_verify = λ host bundle. none;
  add_json = λ log evidence. ok "evidence";
}

abbrev is_past : ℤ → Bool
is_past deadline = false

short : length (utf8 "evidence") < 256 ^ 4
unfolding utf8
short = omega arith

attestable : matches_attestable_aggregate_job toy_verifier is_past aggregate_job ≡ true
unfolding matches_attestable_aggregate_job bytes_eq le_bytes
attestable = refl

-- The receipt's canonical hash.
abbrev repeated : ℕ → Bytes
repeated zero = []
repeated (suc n) = 171 ∷ repeated n

-- The artifact's one entry, and the branch job that it names.
abbrev entry_raw : Bytes
entry_raw = receipt_hash ++ repeated 13

branch_entry : Entry toy_world [] branch
unfolding entry lookup from_hex parse_branch_result_bytes unpack_from parse_body read_if read_bps
    read_scores_if bytes_eq toy_sha256 le_bytes
branch_entry = record {
  job_text = "branch job";
  job_key = codes "branch job";
  found = some branch_job;
  hex =
      "4d464232020100000000018813abababababababababababababababababababababababababababababababab";
  raw = entry_raw;
  receipt = record {
    branch_index = 0;
    output_kind = scalar;
    scalar_value_bps = some 5000;
    categorical_label_index = none;
    canonical_hash = repeated 32;
    result_hash = receipt_hash;
  };
  named = refl;
  parsed = refl;
  answered = refl;
  carried = refl;
  decoded = refl;
  received = refl;
}

abbrev branch_list : Json
branch_list = arr (cons branch nil)

listed : entry "branches" artifact ≡ ok branch_list
unfolding entry lookup
listed = refl

elements : as_list branch_list ≡ ok (branch ∷ [])
unfolding items
elements = refl

abbrev answered : IsAnswered toy_world toy_verifier is_past [] job_key aggregate_job
answered = record {
  attestable = attestable;
  artifact = [];
  framed = journal.input_digest;
  outputs = outputs.0;
  journal_hash = expected.0;
  journal = journal;
  document = artifact;
  found = branch_list;
  branches = branch ∷ [];
  fetched = refl;
  framing = framing;
  reduced = opened;
  committed = outputs.1;
  hashed = expected.1;
  loaded = refl;
  listed = listed;
  elements = elements;
  entries = (branch_entry, tt);
  published = λ evidence. ("evidence", refl, short);
  accepted = λ log ix. refl;
  refreshed = λ log. (branch_job, refl);
}

run_job-attested_example :
    (cid : String) × (digest : Bytes) × (after : List Event) × (errors : List AggregateFault)
    × Names toy_verifier aggregate_job digest
    × (toy_verifier.add_json [] (aggregate_evidence job_key aggregate_job outputs.0 errors journal)
        ≡ ok cid)
    × Outcome toy_world toy_verifier is_past [] job_key aggregate_job answered cid digest errors
        after
    × (run_job toy_world toy_verifier is_past job_key aggregate_job [] ≡ (ok true, after))
run_job-attested_example =
    run_job-attested toy_world toy_verifier is_past [] job_key aggregate_job answered

run_once-Honest_example :
    All (IsHonest toy_world toy_verifier is_past) ((run_once toy_world toy_verifier is_past []).1)
run_once-Honest_example = run_once-Honest toy_world toy_verifier is_past [] tt
