-- ===== src/Worker/Runner/Hook.antt =====
-- worker/aggregator_runner/bonsol_hook.py, and `check_binding_against_job` of runner.py.
use text.Mathlib.Text.{◌==◌ as str_eq}
use kswarm.Prelude.{
  not, ◌||◌, ltb, ◌==◌, none, some, ◌++◌, length, String, Result, ok, err, ◌>>=◌, ◌>>◌, raise_if,
}
use kswarm.Prelude.Bytes.{Bytes, bytes_eq}
use kswarm.Prelude.Text.{utf8}
use kswarm.Json.{Json, Fields, str, obj, get}
use kswarm.Protocol.Accounts.{JobAccount}
use kswarm.Worker.World.{Failure, hook_error, World}
use kswarm.Worker.Runner.{AggregateBinding, BonsolBinding, Event}

-- `value.removeprefix("0x")`, then `bytes.fromhex`: `unprefixed` is the first.
module _ (w : World Event) (unprefixed : String → String) where
  -- `_hex_bytes`, without its length.
  unfoldable pub hex_value : Json → Result Failure Bytes
  hex_value (str value) = elim (w.fromhex (unprefixed value)) [
    | none ↦ err hook_error
    | some raw ↦ ok raw
  ]
  hex_value _ = err hook_error

  unfoldable pub hex_digest : Fields → String → Result Failure Bytes
  unfolding hex_value
  hex_digest payload name = do
    raw ← hex_value (get payload name)
    raise_if (not (length raw == 32)) hook_error
    ok raw

  unfoldable pub text_value : Json → Result Failure String
  text_value (str value) = ok value
  text_value _ = err hook_error

  unfoldable pub parse_fields : Fields → Result Failure BonsolBinding
  unfolding hex_digest text_value
  parse_fields payload = do
    execution_id ← text_value (get payload "execution_id")
    raise_if (str_eq execution_id "") hook_error
    raise_if (ltb 32 (length (utf8 execution_id))) hook_error
    image_id ← hex_digest payload "image_id"
    input_digest ← hex_digest payload "input_digest"
    output_digest ← hex_digest payload "output_digest"
    journal_hash ← hex_digest payload "journal_hash"
    committed_outputs ← hex_value (get payload "committed_outputs")
    raise_if ((length committed_outputs == 0) || ltb 512 (length committed_outputs)) hook_error
    raise_if (not (bytes_eq (w.env.sha256 committed_outputs) output_digest)) hook_error
    raise_if (not (bytes_eq (w.env.sha256 (input_digest ++ committed_outputs)) journal_hash))
        hook_error
    ok (record {
      execution_id = execution_id;
      image_id = image_id;
      input_digest = input_digest;
      output_digest = output_digest;
      journal_hash = journal_hash;
      committed_outputs = committed_outputs;
    })

  -- `parse_hook_output`
  unfoldable pub parse_hook_output : Bytes → Result Failure BonsolBinding
  unfolding parse_fields
  parse_hook_output stdout = elim (w.loads stdout) [
    | some (obj payload) ↦ parse_fields payload
    | _ ↦ err hook_error
  ]

-- `check_binding_against_job`
unfoldable pub check_binding_against_job :
    BonsolBinding → JobAccount → AggregateBinding → Result Failure (Unit {0})
check_binding_against_job execution job binding = do
  raise_if (not (bytes_eq execution.committed_outputs binding.committed_outputs)) hook_error
  raise_if (not (bytes_eq execution.input_digest binding.journal.input_digest)) hook_error
  raise_if (not (bytes_eq execution.input_digest job.result.input_bundle_hash)) hook_error
  raise_if (not (bytes_eq execution.image_id job.terms.required_software_digest)) hook_error
  raise_if (not (bytes_eq execution.journal_hash job.result.expected_result_hash)) hook_error
