-- ===== src/Worker/World.antt =====
-- What the daemons of worker/ stand on: the exceptions they tell apart, the constants of
-- cli/kswarm_cli/constants.py, the branch input of backend/app/protocol/branch_schemas.py, and the
-- world they ask. IPFS, the cluster, pydantic and the JSON parser are parameters.
use kswarm.Prelude.{ℕ, Bool, zero, suc, Option, none, some, List, [], ◌∷◌, String, Result, ok, err}
use kswarm.Prelude.Bytes.{Bytes}
use kswarm.Prelude.Int.{ℤ}
use kswarm.Json.{Json, Fields, str, arr, obj, lookup, items}
use kswarm.Aggregate.Error.{
  Error as AggregateError, byte_out_of_range, input_too_long, journal_refused, struct_error,
  index_error,
}
use kswarm.Aggregate.Receipt.{OutputKind, categorical}
use kswarm.CanonicalHash.{BranchOutput}
use kswarm.Protocol.Accounts.{Pubkey, JobAccount}
use kswarm.Protocol.Addresses.{Env, Instruction}
use kswarm.ZkvmReceipt.{Error as ReceiptError, bad_hex, overflow}

-- The exceptions that a handler names; `other` is every other one.
pub data Failure : Type 0 where
  rpc_error : String → Failure
  ipfs_error llm_endpoint_error model_output_rejected : Failure
  aggregation_error hook_error : Failure
  aggregate_error : AggregateError → Failure
  receipt_error : ReceiptError → Failure
  other : Failure

-- `AggregateError`, or a Python exception of a helper.
pub aggregate_failure : AggregateError → Failure
aggregate_failure byte_out_of_range = other
aggregate_failure input_too_long = other
aggregate_failure journal_refused = other
aggregate_failure struct_error = other
aggregate_failure index_error = other
aggregate_failure e = aggregate_error e

-- `BranchReceiptError`, or a Python exception of a helper.
pub receipt_failure : ReceiptError → Failure
receipt_failure bad_hex = other
receipt_failure overflow = other
receipt_failure e = receipt_error e

abbrev pub failing : {X A : Type 0} → (X → Failure) → Result X A → Result Failure A
failing f (ok a) = ok a
failing f (err e) = err (f e)

abbrev pub present : {A : Type 0} → Option A → Result Failure A
present none = err other
present (some a) = ok a

-- `JOB_STATUS_BY_NAME["submitted"]`, and the job classes.
abbrev pub status_submitted : ℕ
status_submitted = 4

abbrev pub status_open : ℕ
status_open = 2

abbrev pub branch_proof : ℕ
branch_proof = 2

abbrev pub aggregate_proof : ℕ
aggregate_proof = 4

-- `ZERO_HASH`
abbrev pub zeros : ℕ → Bytes
zeros zero = []
zeros (suc n) = 0 ∷ zeros n

abbrev pub zero_hash : Bytes
zero_hash = zeros 32

pub record BranchInput : Type 0 where
  pub schema_version : ℤ
  pub parent_job : String
  pub branch_index : ℕ
  pub seed : String
  pub parameters : Fields
  pub persona_set_cid : Option String
  pub rng_seed : ℕ
  pub target_output_kind : OutputKind
  pub scalar_grid_bps : Option ℕ

-- `BranchInput.validate_grid`
pub validate_grid : BranchInput → BranchInput
validate_grid input = grid_for input.target_output_kind input.scalar_grid_bps input
  where
    grid_for : OutputKind → Option ℕ → BranchInput → BranchInput
    grid_for categorical grid input = input
    grid_for _ none input = record input { scalar_grid_bps = some 1 }
    grid_for _ (some grid) input = input

-- `E` is the type of the events in the log, on which an answer may depend.
pub record World (E : Type 0) : Type 0 where
  pub env : Env
  -- `Pubkey.from_string`, `bytes.fromhex`, `json.loads`, `int` on a JSON value, `str(value).lower()`
  pub parse_key : String → Option Pubkey
  pub fromhex : String → Option Bytes
  pub loads : Bytes → Option Json
  pub to_int : Json → Option ℤ
  pub lowered : Json → String
  -- `str(value)`, `bool(value)`, `a == b` and `dict(value)`
  pub shown : Json → String
  pub truthy : Json → Bool
  pub same_value : Json → Json → Bool
  pub as_dict : Json → Option Fields
  -- pydantic: the fields of a `BranchInput` before `validate_grid`, a `BranchOutput`, and their dumps
  pub parse_input : Bytes → Option BranchInput
  pub parse_output : Json → Option BranchOutput
  pub dump_input : BranchInput → Fields
  pub dump_output : BranchOutput → Fields
  -- IPFS and the cluster
  pub cat_bytes : List E → String → Result Failure Bytes
  pub fetch_jobs : List E → Result Failure (List (Pubkey × JobAccount))
  pub fetch_job : List E → Pubkey → Result Failure (Option JobAccount)
  pub send : List E → Instruction → Result Failure (Unit {0})

-- `cat_json`
unfoldable pub cat_json : {E : Type 0} → World E → List E → String → Result Failure Json
cat_json w log cid = elim (w.cat_bytes log cid) [ err e ↦ err e | ok raw ↦ present (w.loads raw) ]

-- `value[name]`
unfoldable pub entry : String → Json → Result Failure Json
unfolding lookup
entry name (obj fields) = elim (lookup name fields) [ some found ↦ ok found | none ↦ err other ]
entry name _ = err other

-- A value that the code takes for a text.
abbrev pub as_text : Json → Result Failure String
as_text (str s) = ok s
as_text _ = err other

-- The elements that a `for` takes from a value; those of a text or of a dict are no dicts.
abbrev pub as_list : Json → Result Failure (List Json)
as_list (arr xs) = ok (items xs)
as_list _ = err other
