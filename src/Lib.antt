-- ===== src/Lib.antt =====
-- Verification library for the Python parts of kswarm: the commit-and-settle rules by which the
-- outputs of independent branch workers become one aggregate result that the chain can check.
--
-- How the parts interact: a branch worker encodes its output as an MFB2 receipt; the command line
-- collects the receipts into an aggregate artifact; the reduction re-reads the artifact, checks every
-- receipt against its declared hash, combines the values and commits to the branches by a Merkle
-- root; the journal binds the artifact and the outcome for the on-chain program.
--
-- Files and code (paths from the repository's root):
--   Aggregate          cli/kswarm_cli/aggregate.py
--     Aggregate.Receipt    parse_branch_result_bytes, _read_u8, _read_bps, and what they ensure (Accepted)
--     Aggregate.Combiner   the three combiners; Mean, Retained, Survivors, Trimmed, Vote, Winner prove
--     Aggregate.Merkle     sorted_branches_merkle_root; Levels is its loop, Binding and Order prove
--     Aggregate.Fields     _string, _unsigned, _optional_unsigned, _hex_bytes
--     Aggregate.Reduce     reduce_aggregate_artifact; Collect, Bounds, Sound prove
--     Aggregate.Journal    aggregate_committed_outputs, aggregate_journal, AggregateJournal
--   CanonicalHash      backend/app/protocol/canonical_hash.py and branch_schemas.py: the encoder
--   Encoding           cli/kswarm_cli/encoding.py: binary writers and readers
--   Bonsol             cli/kswarm_cli/bonsol.py: framing, digests, the journal rule
--   Prediction         cli/kswarm_cli/prediction.py: combiner parameters and nonces
--   Protocol           cli/kswarm_cli/protocol.py
--     Protocol.Accounts    the account dataclasses; JobAccount in four groups of fields
--     Protocol.Addresses   ProtocolAddresses and the program's derived addresses
--     Protocol.Floors      InitializeProtocolArgs and validate_stake_floors (Valid)
--     Protocol.Decode      the account decoders; Layout, Job and Others prove
--     Protocol.Instructions  the instruction builders; Authority and OpenJob prove
--   Worker             the daemons of worker/
--     Worker.Action        a step of a daemon: a log of events, a result or an exception
--     Worker.World         exceptions, constants, BranchInput, and what a daemon asks
--     Worker.Verifier      worker/verifier_worker/daemon.py: the job filters and comparisons; Session
--                          (worker_common/protocol.py and _challenge), Receipt (verify and
--                          _verify_branch_receipt), Branch (_verify_and_attest), Reduction
--                          (_verify_and_attest_aggregate), Run (run_once); Honest and Attested say
--                          what a log and a round owe, and the files under them prove it
--     Worker.Runner        worker/aggregator_runner/runner.py: state, events, when a proof is needed; Hook
--                          (bonsol_hook.py and check_binding_against_job), Bind (_bind_committed_artifact
--                          and its checks), Submit (_try_aggregate, _prove_bonsol, run_once); Bound,
--                          Honest and Settled prove
--   ZkvmReceipt        worker/worker_common/branch_receipt.py: frame, journal, binding to a claim
--   Json, Json.Dumps   Python's JSON values and canonical_json_bytes
--   Prelude            lists, results, sorting, bytes, words, text, digests
--   Samples            a digest for the tests
--
-- Exceptions are the constructors of each module's Error, one for each raise site. A reader passes its
-- offset along as the source does. A Python integer that a parser has checked to be non-negative is a
-- natural; others are integers. `bytes` are lists of naturals, and where a number is written in w bytes
-- the test that it is below 256 ^ w is the one of struct.pack.
--
-- Parameters: `sha256` stands for hashlib's SHA-256, of which at most the length of a digest is
-- assumed; `loads` for json.loads, of which nothing is assumed; `decode` for bytes.decode;
-- `fromhex` for bytes.fromhex and `to_int` for int() on a JSON value, of which nothing is assumed;
-- `randbelow` for secrets.randbelow, which draws below its bound. Binding theorems give two byte
-- strings with one digest as their second case, so they assume nothing of the digest's strength.
--
-- Loops: the loop over Merkle levels is recursion on the accessibility of the level under its length,
-- which halves; the decimal printer has fuel n + 1 for the number n, which has at most as many digits.
-- Every other loop is structural.
--
-- A daemon's step takes the log of what was done so far and returns what it adds. IPFS, the cluster and
-- the executor are functions that may depend on that log; of their answers nothing is assumed but what
-- a theorem names. `Env` holds SHA-256, find_program_address and Pubkey.from_string; pydantic's parsers
-- and dumps, and the run of the zkVM host binary, are fields of `World` and `Verifier`. Python integers
-- that the instruction builders write are naturals; struct.pack refuses a negative one as it refuses one
-- that is too large. The clock enters the verifier as the test `is_past` of a deadline.
-- Python's str(), bool(), dict() and == on JSON values are fields of `World`.
--
-- Not modelled: the branch worker, the hook scripts, the executor's calls of the
-- language model, the command line, RPC, wallets and the IPFS client. The Rust guests are another
-- implementation of the same rules. In the modelled files: the start-up and the endless loop of the
-- verifier and of the runner, the texts of their artifacts and their log lines; the run store; the RPC readers and the decimal amounts of the
-- protocol module; the lenient receipt parser, the validators of the pydantic models but for the grid of
-- a branch input, build_aggregate_artifact, the legacy reducer outputs, image ids and the files of run
-- manifests.
pub mod Prelude
pub mod Json
pub mod Samples
pub mod Encoding
pub mod Bonsol
pub mod CanonicalHash
pub mod Aggregate
pub mod Prediction
pub mod Protocol
pub mod Worker
pub mod ZkvmReceipt
