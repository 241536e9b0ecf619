-- ===== src/CanonicalHash.antt =====
-- backend/app/protocol/canonical_hash.py and branch_schemas.py: the canonical form of a branch output
-- and its compact MFB2 receipt.
mod Examples
pub mod Flags
pub mod Encode
pub mod RoundTrip
use Prim.Native.Nat.{bit_or}
use kswarm.Prelude.{
  ℕ, zero, suc, ◌+◌, Bool, true, false, not, Option, none, some, List, [], ◌∷◌, ◌++◌, length, take,
  map, String, ltb, ◌==◌, if◌then◌else◌, Result, ok, err, ◌>>=◌, ◌>>◌, raise_if,
}
use kswarm.Prelude.Bytes.{Bytes, bytes_leb}
use kswarm.Prelude.Int.{ℤ, pos}
use kswarm.Prelude.Sort.{sort}
use kswarm.Prelude.Text.{utf8}
use kswarm.Prelude.Words.{pack}
use kswarm.Json.{Json, Fields, null, int, str, obj, field, end}
use kswarm.Json.Dumps.{dumps}
use kswarm.Aggregate.Combiner.{bps_scale}
use kswarm.Aggregate.Receipt.{
  OutputKind, scalar, categorical, narrative_with_scalar, magic, or_raise,
}

-- The `ValueError`s of the encoder, and `struct.error`.
pub data Error : Type 0 where
  outside_bps too_many_scores too_long struct_error : Error

-- `BranchOutput`: the fields after validation, so every number but the schema version is a natural. Keys of
-- `narrative_scores` are distinct, as in a dict.
pub record BranchOutput : Type 0 where
  pub schema_version : ℤ
  pub parent_job : String
  pub branch_index : ℕ
  pub output_kind : OutputKind
  pub scalar_value_bps : Option ℕ
  pub scalar_confidence_lower_bps : Option ℕ
  pub scalar_confidence_upper_bps : Option ℕ
  pub categorical_label_index : Option ℕ
  pub narrative_text : Option String
  pub narrative_scores : Option (List (String × ℕ))
  pub rng_seed : ℕ
  pub llm_model : String
  pub llm_version_hash : String
  pub completed_at_unix : ℕ
  pub transcript_cid : String
  pub zkvm_receipt_cid : Option String

-- `OUTPUT_KIND_IDS`
unfoldable pub kind_id : OutputKind → ℕ
kind_id scalar = 1
kind_id categorical = 2
kind_id narrative_with_scalar = 3

abbrev kind_name : OutputKind → String
kind_name scalar = "scalar"
kind_name categorical = "categorical"
kind_name narrative_with_scalar = "narrative_with_scalar"

abbrev number : ℕ → Json
number n = int (pos n)

abbrev optional {ℓ} : {A : Type ℓ} → (A → Json) → Option A → Json
optional f none = null
optional f (some a) = f a

score_fields : List (String × ℕ) → Fields
score_fields [] = end
score_fields ((key, value) ∷ rest) = field key (number value) (score_fields rest)

-- `canonical_hash_preimage`: the dump of the model without `narrative_text`, `completed_at_unix`
-- and `zkvm_receipt_cid`.
pub canonical_hash_preimage : BranchOutput → Json
unfolding score_fields
canonical_hash_preimage o = obj (
    field "schema_version" (int o.schema_version) (
      field "parent_job" (str o.parent_job) (
        field "branch_index" (number o.branch_index) (
          field "output_kind" (str (kind_name o.output_kind)) (
            field "scalar_value_bps" (optional number o.scalar_value_bps) (
              field "scalar_confidence_lower_bps" (optional number o.scalar_confidence_lower_bps) (
                field "scalar_confidence_upper_bps" (optional number o.scalar_confidence_upper_bps)
                  (field "categorical_label_index" (optional number o.categorical_label_index) (
                    field "narrative_scores"
                      (optional (λ s. obj (score_fields s)) o.narrative_scores)
                      (field "rng_seed" (number o.rng_seed) (
                        field "llm_model" (str o.llm_model) (
                          field "llm_version_hash" (str o.llm_version_hash)
                            (field "transcript_cid" (str o.transcript_cid) end)))))))))))))

-- `_u16_bps`
pub u16_bps : ℕ → Result Error Bytes
u16_bps value = do raise_if (ltb bps_scale value) outside_bps; or_raise (pack 2 value) struct_error

-- `if value is not None: out.extend(encode(value))`
pub encode_if : (ℕ → Result Error Bytes) → Option ℕ → Result Error Bytes
encode_if encode none = ok []
encode_if encode (some value) = encode value

-- `if b: flags |= flag`
abbrev set_flag : Bool → ℕ → ℕ → ℕ
set_flag true flag flags = bit_or flags flag
set_flag false flag flags = flags

abbrev pub is_some {ℓ} : {A : Type ℓ} → Option A → Bool
is_some none = false
is_some (some a) = true

abbrev pub is_cons {ℓ} : {A : Type ℓ} → List A → Bool
is_cons [] = false
is_cons (x ∷ xs) = true

-- `scores = output.narrative_scores or {}`
abbrev pub scores_of : BranchOutput → List (String × ℕ)
scores_of o = elim o.narrative_scores [ none ↦ [] | some scores ↦ scores ]

-- The tests on the five optional fields, in the source's order.
unfoldable pub flags_of : Bool → Bool → Bool → Bool → Bool → ℕ
flags_of scalar_value lower upper category scores =
    set_flag scores 16
      (set_flag category 8 (set_flag upper 4 (set_flag lower 2 (set_flag scalar_value 1 0))))

pub output_flags : BranchOutput → ℕ
unfolding flags_of
output_flags o =
    flags_of (is_some o.scalar_value_bps) (is_some o.scalar_confidence_lower_bps)
      (is_some o.scalar_confidence_upper_bps) (is_some o.categorical_label_index)
      (is_cons (scores_of o))

-- `sorted(scores)`: keys by code points, which is the order of their UTF-8 bytes.
abbrev pub by_key : String × ℕ → String × ℕ → Bool
by_key (k, v) (j, w) = bytes_leb (utf8 k) (utf8 j)

module _ (sha256 : Bytes → Bytes) where
  pub encode_scores : List (String × ℕ) → Result Error Bytes
  unfolding u16_bps
  encode_scores [] = ok []
  encode_scores ((key, value) ∷ rest) = do
    v ← u16_bps value
    out ← encode_scores rest
    ok (take 4 (sha256 (utf8 key)) ++ (v ++ out))

  -- `if scores:`
  pub encode_scores_if : List (String × ℕ) → Result Error Bytes
  unfolding encode_scores
  encode_scores_if [] = ok []
  encode_scores_if (s ∷ rest) = do
    let scores = s ∷ rest
    raise_if (ltb 32 (length scores)) too_many_scores
    count ← or_raise (pack 1 (length scores)) struct_error
    out ← encode_scores (sort by_key scores)
    ok (count ++ out)

  -- `CanonicalHash.of`
  pub canonical_hash_of : BranchOutput → Bytes
  unfolding canonical_hash_preimage
  canonical_hash_of o = sha256 (dumps (canonical_hash_preimage o))

  -- `struct.pack("<BBIB", ...)`
  pub encode_header : BranchOutput → Result Error Bytes
  unfolding output_flags kind_id
  encode_header o = do
    version ← or_raise (pack 1 2) struct_error
    kind ← or_raise (pack 1 (kind_id o.output_kind)) struct_error
    branch_index ← or_raise (pack 4 o.branch_index) struct_error
    flags ← or_raise (pack 1 (output_flags o)) struct_error
    ok (version ++ (kind ++ (branch_index ++ flags)))

  pub branch_output_result_bytes : BranchOutput → Result Error Bytes
  unfolding encode_header encode_if u16_bps encode_scores_if canonical_hash_of
  branch_output_result_bytes o = do
    header ← encode_header o
    scalar_value ← encode_if u16_bps o.scalar_value_bps
    lower ← encode_if u16_bps o.scalar_confidence_lower_bps
    upper ← encode_if u16_bps o.scalar_confidence_upper_bps
    category ← encode_if (λ v. or_raise (pack 1 v) struct_error) o.categorical_label_index
    scores ← encode_scores_if (scores_of o)
    let out =
        magic
        ++ (header
            ++ (scalar_value
                ++ (lower ++ (upper ++ (category ++ (scores ++ canonical_hash_of o))))))
    raise_if (ltb 512 (length out)) too_long
    ok out

  -- `branch_result_hash`
  pub branch_result_hash : BranchOutput → Result Error Bytes
  unfolding branch_output_result_bytes
  branch_result_hash o = do out ← branch_output_result_bytes o; ok (sha256 out)
