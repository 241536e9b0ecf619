-- ===== src/Prediction.antt =====
-- cli/kswarm_cli/prediction.py: the rules of a prediction run that need no network. The arguments
-- have the types that the signatures annotate; files are not modelled.
mod Examples
pub mod Nonces
pub mod Parameters
use text.Mathlib.Text.{◌==◌ as str_eq}
use kswarm.Prelude.{
  ℕ, zero, suc, ◌+◌, ◌-◌, ◌^◌, Bool, true, false, not, ◌&&◌, ◌||◌, Option, none, some, List, [],
  ◌∷◌, ◌++◌, map, ltb, leb, if◌then◌else◌, String, Result, ok, err, ◌>>=◌, ◌>>◌, raise_if,
}
use kswarm.Prelude.Int.{ℤ, pos, negsuc}
use kswarm.Json.{Json, Fields, null, str, arr, obj, int, field, end, lookup, get, items}

pub data Error : Type 0 where
  bad_output_kind unknown_combiner bad_trim_bps needs_scalar needs_categorical trim_not_used : Error
  outside_nonce_range nonces_do_not_fit : Error
  key_error not_an_object not_a_list : Error

-- `x in names`
pub one_of : String → List String → Bool
one_of x [] = false
one_of x (name ∷ names) = str_eq x name || one_of x names

abbrev combiners : List String
combiners = "weighted-mean" ∷ "trimmed-mean" ∷ "majority-vote" ∷ []

abbrev output_kinds : List String
output_kinds = "scalar" ∷ "categorical" ∷ "narrative_with_scalar" ∷ []

pub validate_output_kind : String → Result Error (Unit {0})
unfolding one_of
validate_output_kind output_kind = raise_if (not (one_of output_kind output_kinds)) bad_output_kind

pub validate_combiner : String → Result Error (Unit {0})
unfolding one_of
validate_combiner combiner = raise_if (not (one_of combiner combiners)) unknown_combiner

pub validate_trim_bps : ℤ → Result Error ℕ
validate_trim_bps (negsuc n) = err bad_trim_bps
validate_trim_bps (pos n) = do raise_if (leb 10000 n) bad_trim_bps; ok n

-- `DEFAULT_TRIM_BPS if trim_bps is None else trim_bps`
pub trim_or_default : Option ℤ → ℤ
trim_or_default none = pos 1000
trim_or_default (some trim_bps) = trim_bps

abbrev pub is_given {ℓ} : {A : Type ℓ} → Option A → Bool
is_given none = false
is_given (some a) = true

-- The object, once the combiner suits the output kind.
parameters_for : Bool → Option ℤ → Result Error Fields
unfolding validate_trim_bps trim_or_default
parameters_for true trim_bps = do
  trim ← validate_trim_bps (trim_or_default trim_bps)
  ok (field "trim_bps" (int (pos trim)) end)
parameters_for false trim_bps = do raise_if (is_given trim_bps) trim_not_used; ok end

-- The tests that a combiner and an output kind go together.
suits_kind : String → String → Result Error (Unit {0})
suits_kind combiner output_kind = do
  raise_if
      (one_of combiner ("weighted-mean" ∷ "trimmed-mean" ∷ [])
        && not (one_of output_kind ("scalar" ∷ "narrative_with_scalar" ∷ [])))
      needs_scalar
  raise_if (str_eq combiner "majority-vote" && not (str_eq output_kind "categorical"))
      needs_categorical

pub combiner_parameters : String → String → Option ℤ → Result Error Fields
unfolding validate_combiner validate_output_kind suits_kind parameters_for
combiner_parameters combiner output_kind trim_bps = do
  validate_combiner combiner
  validate_output_kind output_kind
  suits_kind combiner output_kind
  parameters_for (str_eq combiner "trimmed-mean") trim_bps

-- `NONCE_MAX`
abbrev pub nonce_max : ℕ
nonce_max = 0xffffffffffffffff

-- `[base_nonce + index for index in range(branches)]`, from an index.
pub nonces_from : ℕ → ℕ → List ℕ
nonces_from base zero = []
nonces_from base (suc branches) = base ∷ nonces_from (base + 1) branches

pub planned_nonces : ℤ → ℤ → Result Error (List ℕ × ℕ)
unfolding nonces_from
planned_nonces (pos base) (pos branches) = do
  raise_if (ltb nonce_max (base + branches)) nonces_do_not_fit
  ok (nonces_from base branches, base + branches)
planned_nonces _ _ = err nonces_do_not_fit

module _ (randbelow : ℕ → ℕ) where
  -- `randbelow` is `secrets.randbelow`.
  pub random_base_nonce : ℤ → Result Error ℕ
  random_base_nonce (negsuc n) = err outside_nonce_range
  random_base_nonce (pos branches) = do
    raise_if (ltb nonce_max branches) outside_nonce_range
    ok (randbelow (nonce_max - branches + 1))
