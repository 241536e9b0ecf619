-- ===== src/Aggregate/Journal/Binding.antt =====
-- The committed outputs of cli/kswarm_cli/aggregate.py: their length, and what they bind.
use kswarm.Prelude.{
  Result-cases, inl, inr, ◌⊎◌, ℕ, ◌^◌, ◌≡◌, ◌<◌, sym, ap, ◌∙◌, ◌∷◌, ◌++◌, length, length-append, ok,
  arith, append-cancel, Option,
}
use kswarm.Prelude.Bytes.{Bytes}
use kswarm.Prelude.Words.{pack_lem, le_bytes, le_value, length-le_bytes, le_value-le_bytes}
use kswarm.Aggregate.Reduce.{AggregateReduction}
use kswarm.Aggregate.Journal.{
  AggregateJournal, aggregate_committed_outputs, aggregate_journal, expected_journal_hash,
}
use kswarm.Bonsol.{framed_input_digest, journal_hash}
use kswarm.Bonsol.Binding.{framed_input_digest-binds, journal_hash-binds}
use kswarm.Prelude.Digest.{Collision}
use kswarm.Json.{Json}

-- The number that each field of the outputs has room for, and the digests' length.
pub record Fits (r : AggregateReduction) : Type 0 where
  pub combiner : r.combiner_id < 256
  pub params : length r.params_digest ≡ 32
  pub result : r.result_value < 256 ^ 4
  pub count : r.branch_count < 256 ^ 4
  pub root : length r.merkle_root ≡ 32

layout : AggregateReduction → Bytes
layout r =
    r.combiner_id
    ∷ (r.params_digest
        ++ (le_bytes 4 r.result_value ++ (le_bytes 4 r.branch_count ++ r.merkle_root)))

length-layout : (r : AggregateReduction) → Fits r → length (layout r) ≡ 73
unfolding layout
length-layout r h = omega (
  arith,
  h.params,
  h.root,
  length-append r.params_digest
      (le_bytes 4 r.result_value ++ (le_bytes 4 r.branch_count ++ r.merkle_root)),
  length-append (le_bytes 4 r.result_value) (le_bytes 4 r.branch_count ++ r.merkle_root),
  length-append (le_bytes 4 r.branch_count) r.merkle_root,
  length-le_bytes 4 r.result_value,
  length-le_bytes 4 r.branch_count,
)

outputs_eq : (r : AggregateReduction) → Fits r → aggregate_committed_outputs r ≡ ok (layout r)
unfolding aggregate_committed_outputs layout
outputs_eq r h =
    rw (pack_lem 4 r.result_value h.result, pack_lem 4 r.branch_count h.count)
      (ground (arith, length-layout r h, h.combiner))

-- A reduction whose fields fit (id below 256, result and count below 2^32, digest and root of 32
-- bytes) has committed outputs, and they have 73 bytes.
pub committed_outputs_lem :
    (r : AggregateReduction)
    → Fits r
    → (outputs : Bytes) × (aggregate_committed_outputs r ≡ ok outputs) × (length outputs ≡ 73)
committed_outputs_lem r h = (layout r, outputs_eq r h, length-layout r h)

word-injective : (v w : ℕ) → v < 256 ^ 4 → w < 256 ^ 4 → le_bytes 4 v ≡ le_bytes 4 w → v ≡ w
word-injective v w hv hw e =
    sym (le_value-le_bytes 4 v hv) ∙ ap le_value e ∙ le_value-le_bytes 4 w hw

-- The fields that a journal commits to.
abbrev pub Agree : AggregateReduction → AggregateReduction → Type 0
Agree r s =
    (r.combiner_id ≡ s.combiner_id)
    × (r.params_digest ≡ s.params_digest)
    × (r.result_value ≡ s.result_value)
    × (r.branch_count ≡ s.branch_count)
    × (r.merkle_root ≡ s.merkle_root)

layout-injective : (r s : AggregateReduction) → Fits r → Fits s → layout r ≡ layout s → Agree r s
unfolding layout
layout-injective r s hr hs e =
    let (params, e1) =
      append-cancel r.params_digest _ s.params_digest _ (hr.params ∙ sym hs.params) (cc) in
    let (result, e2) =
      append-cancel (le_bytes 4 r.result_value) _ (le_bytes 4 s.result_value) _
        (length-le_bytes 4 _ ∙ sym (length-le_bytes 4 _)) e1 in
    let (count, root) =
      append-cancel (le_bytes 4 r.branch_count) _ (le_bytes 4 s.branch_count) _
        (length-le_bytes 4 _ ∙ sym (length-le_bytes 4 _)) e2 in
    (
      cc,
      params,
      word-injective _ _ hr.result hs.result result,
      word-injective _ _ hr.count hs.count count,
      root,
    )

-- Reductions whose fields fit (id below 256, result and count below 2^32, digest and root of 32
-- bytes) and whose committed outputs are the same agree on combiner, parameter digest, result,
-- branch count and root.
pub committed_outputs-binds :
    (r s : AggregateReduction)
    → Fits r
    → Fits s
    → aggregate_committed_outputs r ≡ aggregate_committed_outputs s
    → Agree r s
committed_outputs-binds r s hr hs e =
    let same : ok (layout r) ≡ ok (layout s) = sym (outputs_eq r hr) ∙ e ∙ outputs_eq s hs in
    layout-injective r s hr hs (cc)

module _ (sha256 : Bytes → Bytes) where
  digest-journal :
      (loads : Bytes → Option Json) (artifact : Bytes) (j : AggregateJournal)
      → aggregate_journal sha256 loads artifact ≡ ok j
      → framed_input_digest sha256 artifact ≡ ok j.input_digest
  unfolding aggregate_journal
  digest-journal loads artifact j e = ground arith

  hash-journal :
      (j : AggregateJournal) (hash : Bytes)
      → expected_journal_hash sha256 j ≡ ok hash
      → (outputs : Bytes) × (journal_hash sha256 j.input_digest outputs ≡ ok hash)
  unfolding expected_journal_hash
  hash-journal j hash e = elim (Result-cases (aggregate_committed_outputs j.reduction)) [
    | inl (outputs, run) ↦ (outputs, ground arith)
    | inr (x, run) ↦ absurd (ground arith)
  ]

  -- Two artifacts whose journals have one expected journal hash are equal, or two different byte
  -- strings with one SHA-256 are given.
  pub aggregate_journal-binds :
      (loads : Bytes → Option Json) (a b : Bytes) (j k : AggregateJournal) (hash : Bytes)
      → aggregate_journal sha256 loads a ≡ ok j
      → aggregate_journal sha256 loads b ≡ ok k
      → expected_journal_hash sha256 j ≡ ok hash
      → expected_journal_hash sha256 k ≡ ok hash
      → (a ≡ b) ⊎ Collision sha256
  aggregate_journal-binds loads a b j k hash ja kb hj hk =
      let (x, ex) = hash-journal j hash hj in
      let (y, ey) = hash-journal k hash hk in
      elim (journal_hash-binds sha256 j.input_digest k.input_digest x y hash ex ey) [
        | inl (same, _) ↦
            framed_input_digest-binds sha256 a b k.input_digest
              (digest-journal loads a j ja ∙ ap ok same) (digest-journal loads b k kb)
        | inr c ↦ inr c
      ]
