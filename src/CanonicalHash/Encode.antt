-- ===== src/CanonicalHash/Encode.antt =====
-- What the MFB2 encoder of backend/app/protocol/canonical_hash.py writes, byte for byte.
use kswarm.Prelude.{
  ℕ, ◌+◌, ◌*◌, ◌^◌, ◌≤◌, ◌<◌, ◌≡◌, refl, false, Option, none, some, List, [], ◌∷◌, ◌++◌, length,
  length-append, length-take, take, arith, ok, All, String, ltb,
}
use kswarm.Prelude.Bytes.{Bytes}
use kswarm.Prelude.Sort.{sort, sort-permᴰ, All-sort}
use kswarm.Prelude.Text.{utf8}
use kswarm.Prelude.Words.{pack, le_bytes, length-le_bytes, pack_lem}
use kswarm.Aggregate.Combiner.{bps_scale}
use kswarm.Aggregate.Combiner.Retained.{length-permᴰ}
use kswarm.Aggregate.Receipt.{OutputKind, magic, or_raise}
use kswarm.CanonicalHash.{
  BranchOutput, kind_id, u16_bps, encode_if, output_flags, scores_of, by_key, struct_error,
  encode_scores, encode_scores_if, canonical_hash_of, encode_header, branch_output_result_bytes,
}
use kswarm.CanonicalHash.Flags.{flags_lem}

abbrev pub optional_bytes : ℕ → Option ℕ → Bytes
optional_bytes w none = []
optional_bytes w (some v) = le_bytes w v

abbrev pub Below : ℕ → Option ℕ → Type 0
Below n none = Unit
Below n (some v) = v < n

-- What the model's validators and the field widths ask of an output.
pub record IsEncodable (o : BranchOutput) : Type 0 where
  pub index_fits : o.branch_index < 256 ^ 4
  pub scalar_fits : Below 10001 o.scalar_value_bps
  pub lower_fits : Below 10001 o.scalar_confidence_lower_bps
  pub upper_fits : Below 10001 o.scalar_confidence_upper_bps
  pub label_fits : Below 256 o.categorical_label_index
  pub scores_fit : All (λ s. s.1 ≤ bps_scale) (scores_of o)
  pub scores_few : length (scores_of o) ≤ 32

u16_bps_lem : (v : ℕ) → v ≤ bps_scale → u16_bps v ≡ ok (le_bytes 2 v)
unfolding u16_bps
u16_bps_lem v h = ground (arith, pack_lem 2 v)

encode_bps : (x : Option ℕ) → Below 10001 x → encode_if u16_bps x ≡ ok (optional_bytes 2 x)
unfolding encode_if
encode_bps none h = refl
encode_bps (some v) h = u16_bps_lem v (omega arith)

encode_label :
    (x : Option ℕ)
    → Below 256 x
    → encode_if (λ v. or_raise (pack 1 v) struct_error) x ≡ ok (optional_bytes 1 x)
unfolding encode_if
encode_label none h = refl
encode_label (some v) h = ground (arith, pack_lem 1 v)

abbrev pub header_bytes : BranchOutput → Bytes
header_bytes o =
    le_bytes 1 2
    ++ (le_bytes 1 (kind_id o.output_kind)
        ++ (le_bytes 4 o.branch_index ++ le_bytes 1 (output_flags o)))

kind_id-lt : (k : OutputKind) → kind_id k < 256 ^ 1
unfolding kind_id
kind_id-lt k = ground arith

pub output_flags-lt : (o : BranchOutput) → output_flags o < 256 ^ 1
unfolding output_flags
output_flags-lt o = (flags_lem _ _ _ _ _).5

encode_header_lem :
    (sha256 : Bytes → Bytes) (o : BranchOutput)
    → o.branch_index < 256 ^ 4
    → encode_header sha256 o ≡ ok (header_bytes o)
unfolding encode_header
encode_header_lem sha256 o h = simp (
  pack_lem 1 2 (omega arith),
  pack_lem 1 (kind_id o.output_kind) (kind_id-lt _),
  pack_lem 4 o.branch_index h,
  pack_lem 1 (output_flags o) (output_flags-lt o),
)

module _ (sha256 : Bytes → Bytes) where
  unfoldable pub score_bytes : List (String × ℕ) → Bytes
  score_bytes [] = []
  score_bytes ((key, value) ∷ rest) =
      take 4 (sha256 (utf8 key)) ++ (le_bytes 2 value ++ score_bytes rest)

  -- The score section: a count and the sorted scores, or nothing.
  unfoldable pub score_section : List (String × ℕ) → Bytes
  unfolding score_bytes
  score_section [] = []
  score_section (s ∷ rest) = le_bytes 1 (length (s ∷ rest)) ++ score_bytes (sort by_key (s ∷ rest))

  encode_scores_lem :
      (ss : List (String × ℕ))
      → All (λ s. s.1 ≤ bps_scale) ss
      → encode_scores sha256 ss ≡ ok (score_bytes ss)
  unfolding encode_scores score_bytes
  encode_scores_lem [] h = refl
  encode_scores_lem ((k, v) ∷ ss) h = rw (u16_bps_lem v h.0, encode_scores_lem ss h.1)

  encode_scores_if_lem :
      (ss : List (String × ℕ))
      → All (λ s. s.1 ≤ bps_scale) ss
      → length ss ≤ 32
      → encode_scores_if sha256 ss ≡ ok (score_section ss)
  unfolding encode_scores_if score_section
  encode_scores_if_lem [] h few = refl
  encode_scores_if_lem (s ∷ ss) h few = ground (
    arith,
    pack_lem 1 (length (s ∷ ss)),
    encode_scores_lem (sort by_key (s ∷ ss)) (All-sort by_key _ (s ∷ ss) h),
  )

  abbrev pub body_bytes : BranchOutput → Bytes
  body_bytes o =
      optional_bytes 2 o.scalar_value_bps
      ++ (optional_bytes 2 o.scalar_confidence_lower_bps
          ++ (optional_bytes 2 o.scalar_confidence_upper_bps
              ++ (optional_bytes 1 o.categorical_label_index
                  ++ (score_section (scores_of o) ++ canonical_hash_of sha256 o))))

  abbrev pub receipt_bytes : BranchOutput → Bytes
  receipt_bytes o = magic ++ (header_bytes o ++ body_bytes o)

  module _ (digest_length : (b : Bytes) → length (sha256 b) ≡ 32) where
    pub length-score_bytes : (ss : List (String × ℕ)) → length (score_bytes ss) ≡ 6 * length ss
    unfolding score_bytes
    length-score_bytes [] = omega arith
    length-score_bytes ((k, v) ∷ ss) =
        let key = take 4 (sha256 (utf8 k)) in
        omega (
          arith,
          length-append key (le_bytes 2 v ++ score_bytes ss),
          length-append (le_bytes 2 v) (score_bytes ss),
          length-take 4 (sha256 (utf8 k)),
          digest_length (utf8 k),
          length-le_bytes 2 v,
          length-score_bytes ss,
        )

    length-score_section : (ss : List (String × ℕ)) → length (score_section ss) ≤ 1 + 6 * length ss
    unfolding score_section
    length-score_section [] = omega arith
    length-score_section (s ∷ ss) = omega (
      arith,
      length-append (le_bytes 1 (length (s ∷ ss))) (score_bytes (sort by_key (s ∷ ss))),
      length-le_bytes 1 (length (s ∷ ss)),
      length-score_bytes (sort by_key (s ∷ ss)),
      length-permᴰ (sort-permᴰ by_key (s ∷ ss)),
    )

    length-optional_bytes : (w : ℕ) (x : Option ℕ) → length (optional_bytes w x) ≤ w
    length-optional_bytes w none = omega arith
    length-optional_bytes w (some v) = omega (arith, length-le_bytes w v)

    -- The length of the layout.
    pub receipt_bounds :
        (o : BranchOutput)
        → IsEncodable o
        → (43 ≤ length (receipt_bytes o)) × (length (receipt_bytes o) ≤ 243)
    unfolding canonical_hash_of
    receipt_bounds o h = omega (
      arith,
      h.scores_few,
      length-append (header_bytes o) (body_bytes o),
      length-append (le_bytes 1 2) (
          le_bytes 1 (kind_id o.output_kind)
          ++ (le_bytes 4 o.branch_index ++ le_bytes 1 (output_flags o))),
      length-append (le_bytes 1 (kind_id o.output_kind))
          (le_bytes 4 o.branch_index ++ le_bytes 1 (output_flags o)),
      length-append (le_bytes 4 o.branch_index) (le_bytes 1 (output_flags o)),
      length-le_bytes 1 2,
      length-le_bytes 1 (kind_id o.output_kind),
      length-le_bytes 4 o.branch_index,
      length-le_bytes 1 (output_flags o),
      length-append (optional_bytes 2 o.scalar_value_bps) (
          optional_bytes 2 o.scalar_confidence_lower_bps
          ++ (optional_bytes 2 o.scalar_confidence_upper_bps
              ++ (optional_bytes 1 o.categorical_label_index
                  ++ (score_section (scores_of o) ++ canonical_hash_of sha256 o)))),
      length-append (optional_bytes 2 o.scalar_confidence_lower_bps) (
          optional_bytes 2 o.scalar_confidence_upper_bps
          ++ (optional_bytes 1 o.categorical_label_index
              ++ (score_section (scores_of o) ++ canonical_hash_of sha256 o))),
      length-append (optional_bytes 2 o.scalar_confidence_upper_bps) (
          optional_bytes 1 o.categorical_label_index
          ++ (score_section (scores_of o) ++ canonical_hash_of sha256 o)),
      length-append (optional_bytes 1 o.categorical_label_index)
          (score_section (scores_of o) ++ canonical_hash_of sha256 o),
      length-append (score_section (scores_of o)) (canonical_hash_of sha256 o),
      length-score_section (scores_of o),
      length-optional_bytes 2 o.scalar_value_bps,
      length-optional_bytes 2 o.scalar_confidence_lower_bps,
      length-optional_bytes 2 o.scalar_confidence_upper_bps,
      length-optional_bytes 1 o.categorical_label_index,
      digest_length _,
    )

    -- The encoder accepts every such output, and writes these bytes.
    pub encode_lem :
        (o : BranchOutput)
        → IsEncodable o
        → branch_output_result_bytes sha256 o ≡ ok (receipt_bytes o)
    unfolding branch_output_result_bytes
    encode_lem o h =
        let short : ltb 512 (length (receipt_bytes o)) ≡ false =
          ground (arith, receipt_bounds o h) in
        rw (
          encode_header_lem sha256 o h.index_fits,
          encode_bps o.scalar_value_bps h.scalar_fits,
          encode_bps o.scalar_confidence_lower_bps h.lower_fits,
          encode_bps o.scalar_confidence_upper_bps h.upper_fits,
          encode_label o.categorical_label_index h.label_fits,
          encode_scores_if_lem (scores_of o) h.scores_fit h.scores_few,
          short,
        )

    -- Where SHA-256 gives 32 bytes, an output whose numbers fit their fields (branch index below
    -- 2^32, values up to 10000, label below 256, at most 32 scores) is encoded, and its bytes
    -- number from 43, the least that the parser accepts, to 243, below the encoder's cap of 512.
    pub encoded_bounds :
        (o : BranchOutput)
        → IsEncodable o
        → (bytes : Bytes) × (branch_output_result_bytes sha256 o ≡ ok bytes)
          × (43 ≤ length bytes)
          × (length bytes ≤ 243)
    encoded_bounds o h =
        let (low, high) = receipt_bounds o h in (receipt_bytes o, encode_lem o h, low, high)
