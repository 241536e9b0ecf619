-- ===== src/Prediction/Examples.antt =====
-- A run of three branches.
use kswarm.Prelude.{ℕ, ◌-◌, ◌≡◌, ◌<◌, refl, none, List, ok, arith}
use kswarm.Prelude.Int.{pos}
use kswarm.Json.{Fields, int, field, end}
use kswarm.Aggregate.Combiner.{trim_count_from_bps}
use kswarm.Aggregate.Fields.{unsigned_or_zero}
use kswarm.Prediction.{combiner_parameters, planned_nonces, random_base_nonce}
use kswarm.Prediction.Nonces.{ArePlanned, planned-random}
use kswarm.Prediction.Parameters.{combiner_parameters-accepted}

-- The highest number that may be drawn.
abbrev highest : ℕ → ℕ
highest n = n - 1

highest_below : (n : ℕ) → 0 < n → highest n < n
highest_below n h = omega arith

planned-random_example :
    (base : ℕ) × (nonces : List ℕ) × (aggregate : ℕ) × (random_base_nonce highest (pos 3) ≡ ok base)
    × (planned_nonces (pos base) (pos 3) ≡ ok (nonces, aggregate))
    × ArePlanned 3 nonces aggregate
planned-random_example = planned-random highest highest_below 3 (omega arith)

abbrev parameters : Fields
parameters = field "trim_bps" (int (pos 1000)) end

default_parameters : combiner_parameters "trimmed-mean" "scalar" none ≡ ok parameters
unfolding combiner_parameters
default_parameters = refl

combiner_parameters-accepted_example :
    (trim : ℕ) × (k : ℕ) × (unsigned_or_zero parameters "trim_bps" ≡ ok trim)
    × (trim_count_from_bps 3 trim ≡ ok k)
    × (k < 3)
combiner_parameters-accepted_example =
    combiner_parameters-accepted "trimmed-mean" "scalar" none parameters 3 default_parameters
      (omega arith)
