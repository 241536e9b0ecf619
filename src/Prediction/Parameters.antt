-- ===== src/Prediction/Parameters.antt =====
-- The parameters that cli/kswarm_cli/prediction.py writes, as cli/kswarm_cli/aggregate.py reads them.
use text.Mathlib.Text.{◌==◌ as str_eq}
use kswarm.Prelude.{
  Ensures, Ensures-bind, Ensures-of_Returns, raise_if, ℕ, ◌<◌, ◌≡◌, refl, Option, none, some, ok,
  arith, String, Bool, true, false,
}
use kswarm.Prelude.Int.{ℤ, pos, negsuc}
use kswarm.Json.{Fields, get, int, field, end}
use kswarm.Aggregate.Fields.{unsigned_or_zero}
use kswarm.Aggregate.Combiner.{bps_scale, trim_count_from_bps}
use kswarm.Aggregate.Combiner.Trimmed.{trim_count_from_bps_lem}
use kswarm.Prediction.{
  combiner_parameters, parameters_for, validate_combiner, validate_output_kind, validate_trim_bps,
  is_given, suits_kind, trim_not_used,
}

-- The aggregation reads a share to drop, below the whole.
abbrev Reads : Fields → Type 0
Reads parameters =
    (trim : ℕ) × (unsigned_or_zero parameters "trim_bps" ≡ ok trim) × (trim < bps_scale)

trim-Reads : (n : ℕ) → n < bps_scale → Reads (field "trim_bps" (int (pos n)) end)
unfolding unsigned_or_zero get
trim-Reads n h = (n, refl, h)

none-Reads : Reads end
unfolding unsigned_or_zero get
none-Reads = (0, refl, omega arith)

validated_below : (n trim : ℕ) → validate_trim_bps (pos n) ≡ ok trim → trim < bps_scale
unfolding validate_trim_bps
validated_below n trim e = ground arith

parameters_for-Reads : (b : Bool) (trim_bps : Option ℤ) → Ensures Reads (parameters_for b trim_bps)
unfolding parameters_for
parameters_for-Reads true none = Ensures-of_Returns _ (trim-Reads 1000 (omega arith))
parameters_for-Reads true (some (negsuc n)) = Ensures-of_Returns _ tt
parameters_for-Reads true (some (pos n)) =
    Ensures-bind {m = validate_trim_bps (pos n)}
      λ trim read. Ensures-of_Returns _ (trim-Reads trim (validated_below n trim read))
parameters_for-Reads false trim_bps =
    Ensures-bind {m = raise_if (is_given trim_bps) trim_not_used}
      λ _ _. Ensures-of_Returns _ none-Reads

combiner_parameters-Reads :
    (combiner output_kind : String) (trim_bps : Option ℤ)
    → Ensures Reads (combiner_parameters combiner output_kind trim_bps)
unfolding combiner_parameters
combiner_parameters-Reads combiner output_kind trim_bps =
    Ensures-bind {m = validate_combiner combiner} λ _ _.
      Ensures-bind {m = validate_output_kind output_kind} λ _ _.
        Ensures-bind {m = suits_kind combiner output_kind}
          λ _ _. parameters_for-Reads (str_eq combiner "trimmed-mean") trim_bps

-- What combiner_parameters returns, the aggregation reads as a share to drop that its trim count
-- accepts for any positive number of branches, and that leaves at least one of them.
pub combiner_parameters-accepted :
    (combiner output_kind : String) (trim_bps : Option ℤ) (parameters : Fields) (branch_count : ℕ)
    → combiner_parameters combiner output_kind trim_bps ≡ ok parameters
    → 0 < branch_count
    → (trim : ℕ) × (k : ℕ) × (unsigned_or_zero parameters "trim_bps" ≡ ok trim)
      × (trim_count_from_bps branch_count trim ≡ ok k)
      × (k < branch_count)
combiner_parameters-accepted combiner output_kind trim_bps parameters branch_count e h =
    let (trim, read, low) =
      (combiner_parameters-Reads combiner output_kind trim_bps).at parameters e in
    let (k, run, less) = trim_count_from_bps_lem branch_count trim h low in
    (trim, k, read, run, less)
