-- ===== src/CanonicalHash/RoundTrip.antt =====
-- The strict parser of cli/kswarm_cli/aggregate.py reads back what the encoder of
-- backend/app/protocol/canonical_hash.py wrote.
use Prim.Native.Nat.{bit_and}
use kswarm.Prelude.{
  ℕ, ◌+◌, ◌%◌, ◌≤◌, ◌<◌, ◌≡◌, refl, ap, subst, ◌∙◌, true, false, Option, none, some, List, [], ◌∷◌,
  ◌++◌, length, length-take, take, take-append, drop, get_elem?, arith, ok, All, String, ltb, ◌==◌,
  le→ltb_false, eq→==,
}
use mathlib.Core.List.{append_assoc, append-nil}
use kswarm.Prelude.Sort.{sort, sort-permᴰ, All-sort}
use kswarm.Prelude.Bytes.{Bytes, bytes_eq_self}
use kswarm.Prelude.Text.{utf8}
use kswarm.Prelude.Words.{
  le_bytes, length-le_bytes, length-drop, slice, unpack_from, unpack_at, slice_at, byte_at, room_at,
}
use kswarm.Aggregate.Combiner.{bps_scale}
use kswarm.Aggregate.Receipt.{
  read_u8, read_bps, read_if, read_scores, read_scores_if, magic, OutputKind, BranchReceipt,
  parse_body, parse_branch_result_bytes, kind_by_id,
}
use kswarm.Aggregate.Error.{Outcome}
use kswarm.Aggregate.Combiner.Retained.{length-permᴰ}
use kswarm.CanonicalHash.{
  BranchOutput, kind_id, output_flags, scores_of, is_some, is_cons, by_key, canonical_hash_of,
  branch_output_result_bytes,
}
use kswarm.CanonicalHash.Flags.{flags_lem}
use kswarm.CanonicalHash.Encode.{
  IsEncodable, body_bytes, receipt_bytes, receipt_bounds, encode_lem, output_flags-lt,
  optional_bytes, Below, score_bytes, score_section,
}

-- A read where the cursor stands: what it returns, the new offset, and what is left there.
abbrev Reads : {A : Type 0} → Outcome (A × ℕ) → A → Bytes → Bytes → Type 0
Reads m a input rest = (o : ℕ) × (m ≡ ok (a, o)) × (drop o input ≡ rest)

module _ (input : Bytes) (offset : ℕ) where
  read_bps_at :
      (v : ℕ) (rest : Bytes)
      → v < 10001
      → drop offset input ≡ le_bytes 2 v ++ rest
      → Reads (read_bps input offset) v input rest
  unfolding read_bps
  read_bps_at v rest h e =
      let (here, after) = unpack_at input offset 2 v rest e (omega arith) (omega arith) in
      let room = room_at input offset (le_bytes 2 v) rest e (omega (arith, length-le_bytes 2 v)) in
      (offset + 2, ground (arith, here, room, length-le_bytes 2 v), after)

  read_u8_at :
      (v : ℕ) (rest : Bytes)
      → v < 256
      → drop offset input ≡ le_bytes 1 v ++ rest
      → Reads (read_u8 input offset) v input rest
  unfolding read_u8 le_bytes
  read_u8_at v rest h e =
      let small : v % 256 ≡ v = omega arith in
      let (here, after) = byte_at input offset (v % 256) rest e in
      let room = room_at input offset (v % 256 ∷ []) rest e (omega arith) in
      (offset + 1, ground (arith, here, room, small), after)

  read_bps_if_at :
      (x : Option ℕ) (rest : Bytes)
      → Below 10001 x
      → drop offset input ≡ optional_bytes 2 x ++ rest
      → Reads (read_if (is_some x) read_bps input offset) x input rest
  unfolding read_if
  read_bps_if_at none rest h e = (offset, refl, e)
  read_bps_if_at (some v) rest h e = let (o, r, after) = read_bps_at v rest h e in (o, rw r, after)

  read_u8_if_at :
      (x : Option ℕ) (rest : Bytes)
      → Below 256 x
      → drop offset input ≡ optional_bytes 1 x ++ rest
      → Reads (read_if (is_some x) read_u8 input offset) x input rest
  unfolding read_if
  read_u8_if_at none rest h e = (offset, refl, e)
  read_u8_if_at (some v) rest h e = let (o, r, after) = read_u8_at v rest h e in (o, rw r, after)

kind_by_id-kind_id : (k : OutputKind) → kind_by_id (kind_id k % 256) ≡ some k
unfolding kind_by_id kind_id
kind_by_id-kind_id OutputKind.scalar = refl
kind_by_id-kind_id OutputKind.categorical = refl
kind_by_id-kind_id OutputKind.narrative_with_scalar = refl

output_flags_known : (o : BranchOutput) → (bit_and (output_flags o) 0xe0 == 0) ≡ true
unfolding output_flags
output_flags_known o = (flags_lem _ _ _ _ _).6

-- The checks of the header, as facts about the bytes.
parse_header :
    (sha256 : Bytes → Bytes) (input : Bytes) (id : ℕ) (kind : OutputKind) (index flags : ℕ)
    → ltb (length input) 43 ≡ false
    → take 4 input ≡ magic
    → get_elem? input 4 ≡ some 2
    → get_elem? input 5 ≡ some id
    → kind_by_id id ≡ some kind
    → unpack_from 4 input 6 ≡ some index
    → get_elem? input 10 ≡ some flags
    → (bit_and flags 0xe0 == 0) ≡ true
    → parse_branch_result_bytes sha256 input ≡ parse_body sha256 input index kind flags
unfolding parse_branch_result_bytes
parse_header sha256 input id kind index flags e1 e2 e3 e4 e5 e6 e7 e8 =
    rw (e1, e2, bytes_eq_self magic, e3, e4, e5, e6, e7, e8)

take_all : (xs : Bytes) {n : ℕ} → length xs ≡ n → take n xs ≡ xs
take_all xs e = rw (← e) (rw append-nil at (take-append xs []))

-- The receipt that an output stands for, with these bytes.
abbrev pub receipt_of : (Bytes → Bytes) → BranchOutput → Bytes → BranchReceipt
receipt_of sha256 o bytes = record {
  branch_index = o.branch_index;
  output_kind = o.output_kind;
  scalar_value_bps = o.scalar_value_bps;
  categorical_label_index = o.categorical_label_index;
  canonical_hash = canonical_hash_of sha256 o;
  result_hash = sha256 bytes;
}

module _ (sha256 : Bytes → Bytes) (digest_length : (b : Bytes) → length (sha256 b) ≡ 32) where
  length-canonical_hash_of : (o : BranchOutput) → length (canonical_hash_of sha256 o) ≡ 32
  unfolding canonical_hash_of
  length-canonical_hash_of o = digest_length _

  read_scores_at :
      (ss : List (String × ℕ)) (input rest : Bytes) (offset : ℕ)
      → All (λ s. s.1 ≤ bps_scale) ss
      → drop offset input ≡ score_bytes sha256 ss ++ rest
      → (o : ℕ) × (read_scores (length ss) input offset ≡ ok o) × (drop o input ≡ rest)
  unfolding read_scores score_bytes
  read_scores_at [] input rest offset h e = (offset, refl, e)
  read_scores_at ((k, v) ∷ ss) input rest offset h e =
      let key = take 4 (sha256 (utf8 k)) in
      let size : length key ≡ 4 =
        omega (arith, length-take 4 (sha256 (utf8 k)), digest_length (utf8 k)) in
      let more = le_bytes 2 v ++ score_bytes sha256 ss in
      let e' : drop offset input ≡ key ++ (more ++ rest) = e ∙ append_assoc key more rest in
      let (here, after) = rw size at (slice_at input offset key (more ++ rest) e') in
      let room = room_at input offset key (more ++ rest) e' (omega (arith, size)) in
      let enough : ltb (length input) (offset + 4) ≡ false = ground (arith, room, size) in
      let next = after ∙ append_assoc (le_bytes 2 v) (score_bytes sha256 ss) rest in
      let (o1, r1, a1) =
        read_bps_at input (offset + 4) v (score_bytes sha256 ss ++ rest) (omega (arith, h.0))
          next in
      let (o, r, a) = read_scores_at ss input rest o1 h.1 a1 in (o, rw (enough, r1) r, a)

  read_section_at :
      (ss : List (String × ℕ)) (input rest : Bytes) (offset : ℕ)
      → All (λ s. s.1 ≤ bps_scale) ss
      → length ss ≤ 32
      → drop offset input ≡ score_section sha256 ss ++ rest
      → (o : ℕ) × (read_scores_if (is_cons ss) input offset ≡ ok o) × (drop o input ≡ rest)
  unfolding read_scores_if score_section
  read_section_at [] input rest offset h few e = (offset, refl, e)
  read_section_at (s ∷ ss) input rest offset h few e =
      let sorted = sort by_key (s ∷ ss) in
      let size : length sorted ≡ length (s ∷ ss) = length-permᴰ (sort-permᴰ by_key (s ∷ ss)) in
      let start =
        e ∙ append_assoc (le_bytes 1 (length (s ∷ ss))) (score_bytes sha256 sorted) rest in
      let (o1, r1, a1) =
        read_u8_at input offset (length (s ∷ ss)) (score_bytes sha256 sorted ++ rest) (omega arith)
          start in
      let (o, r, a) = read_scores_at sorted input rest o1 (All-sort by_key _ (s ∷ ss) h) a1 in
      let many : ltb 32 (length (s ∷ ss)) ≡ false = ground arith in
      let nonzero : (length (s ∷ ss) == 0) ≡ false = ground arith in
      (o, rw (r1, nonzero, many) (subst (λ n. read_scores n input o1 ≡ ok o) size r), a)

  -- The body of a receipt where the header ends.
  parse_body_at :
      (o : BranchOutput) (input : Bytes)
      → IsEncodable o
      → drop 11 input ≡ body_bytes sha256 o
      → parse_body sha256 input o.branch_index o.output_kind (output_flags o)
        ≡ ok (receipt_of sha256 o input)
  unfolding parse_body output_flags
  parse_body_at o input h e =
      let f =
        flags_lem (is_some o.scalar_value_bps) (is_some o.scalar_confidence_lower_bps)
          (is_some o.scalar_confidence_upper_bps) (is_some o.categorical_label_index)
          (is_cons (scores_of o)) in
      let (o1, r1, a1) = read_bps_if_at input 11 o.scalar_value_bps _ h.scalar_fits e in
      let (o2, r2, a2) = read_bps_if_at input o1 o.scalar_confidence_lower_bps _ h.lower_fits a1 in
      let (o3, r3, a3) = read_bps_if_at input o2 o.scalar_confidence_upper_bps _ h.upper_fits a2 in
      let (o4, r4, a4) = read_u8_if_at input o3 o.categorical_label_index _ h.label_fits a3 in
      let (o5, r5, a5) =
        read_section_at (scores_of o) input (canonical_hash_of sha256 o) o4 h.scores_fit
          h.scores_few a4 in
      let size : o5 + 32 ≡ length input =
        omega (arith, length-drop o5 input, ap length a5, length-canonical_hash_of o) in
      let end : ltb (length input) (o5 + 32) ≡ false = le→ltb_false _ _ (omega (arith, size)) in
      let exact : (o5 + 32 == length input) ≡ true = eq→== _ _ size in
      let digest : slice input o5 32 ≡ canonical_hash_of sha256 o =
        rw a5 (take_all _ (length-canonical_hash_of o)) in
      rw (f.0, r1, f.1, r2, f.2, r3, f.3, r4, f.4, r5, end, exact, digest)

  -- Where SHA-256 gives 32 bytes, an output whose numbers fit their fields (branch index below
  -- 2^32, values up to 10000, label below 256, at most 32 scores) is encoded, and the strict
  -- parser of the aggregation accepts the bytes: it returns the output's index, kind, scalar and
  -- label, its canonical hash, and the hash of the bytes.
  pub parse-encode :
      (o : BranchOutput)
      → IsEncodable o
      → (bytes : Bytes) × (branch_output_result_bytes sha256 o ≡ ok bytes)
        × (parse_branch_result_bytes sha256 bytes ≡ ok (receipt_of sha256 o bytes))
  unfolding parse_branch_result_bytes le_bytes
  parse-encode o h =
      let bytes = receipt_bytes sha256 o in
      let (at_least, at_most) = receipt_bounds sha256 digest_length o h in
      let long : ltb (length bytes) 43 ≡ false = le→ltb_false _ _ at_least in
      let body = parse_body_at o bytes h refl in
      let flags : output_flags o % 256 ≡ output_flags o = omega (arith, output_flags-lt o) in
      let index =
        unpack_at bytes 6 4 o.branch_index (le_bytes 1 (output_flags o) ++ body_bytes sha256 o) refl
          (omega arith) h.index_fits in
      (
        bytes,
        encode_lem sha256 digest_length o h,
        parse_header sha256 bytes (kind_id o.output_kind % 256) o.output_kind o.branch_index
              (output_flags o) long refl refl refl (kind_by_id-kind_id o.output_kind) index.0
              (ap some flags) (output_flags_known o)
            ∙ body,
      )
