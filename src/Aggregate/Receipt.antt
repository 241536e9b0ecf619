-- ===== src/Aggregate/Receipt.antt =====
-- `parse_branch_result_bytes`, `_read_u8` and `_read_bps` of cli/kswarm_cli/aggregate.py: the strict
-- parser of the MFB2 branch receipt. An offset into the bytes is passed along, as in the source.
pub mod Accepted
use Prim.Native.Nat.{bit_and}
use kswarm.Prelude.{
  ℕ, zero, suc, ◌+◌, Bool, true, false, not, ◌||◌, Option, none, some, List, [], ◌∷◌, length, take,
  get_elem?, ltb, ◌==◌, if◌then◌else◌, Result, ok, err, ◌>>=◌, ◌>>◌, raise_if,
}
use kswarm.Prelude.Bytes.{Bytes, bytes_eq}
use kswarm.Prelude.Words.{slice, unpack_from}
use kswarm.Aggregate.Combiner.{bps_scale}
use kswarm.Aggregate.Error.{
  Outcome, too_short, bad_magic, bad_version, bad_kind, bad_flags, bad_bps, bad_score_count,
  trailing_bytes, struct_error, index_error,
}

pub data OutputKind : Type 0 where
  scalar categorical narrative_with_scalar : OutputKind

-- `OUTPUT_KIND_BY_ID`
unfoldable pub kind_by_id : ℕ → Option OutputKind
kind_by_id id =
    if id == 1
    then some scalar
    else if id == 2
    then some categorical
    else if id == 3
    then some narrative_with_scalar
    else none

-- `MFB2_MAGIC`
abbrev pub magic : Bytes
magic = b'M' ∷ b'F' ∷ b'B' ∷ b'2' ∷ []

pub record BranchReceipt : Type 0 where
  pub branch_index : ℕ
  pub output_kind : OutputKind
  pub scalar_value_bps : Option ℕ
  pub categorical_label_index : Option ℕ
  pub canonical_hash : Bytes
  pub result_hash : Bytes

-- A value that Python would raise an exception without.
abbrev pub or_raise {ℓ κ} : {E : Type ℓ} {A : Type κ} → Option A → E → Result E A
or_raise none e = err e
or_raise (some a) e = ok a

-- `_read_u8`
unfoldable pub read_u8 : Bytes → ℕ → Outcome (ℕ × ℕ)
read_u8 input offset = do
  raise_if (ltb (length input) (offset + 1)) too_short
  b ← or_raise (get_elem? input offset) index_error
  ok (b, offset + 1)

-- `_read_bps`
unfoldable pub read_bps : Bytes → ℕ → Outcome (ℕ × ℕ)
read_bps input offset = do
  raise_if (ltb (length input) (offset + 2)) too_short
  value ← or_raise (unpack_from 2 input offset) struct_error
  raise_if (ltb bps_scale value) bad_bps
  ok (value, offset + 2)

-- `if flags & FLAG: field, offset = read(data, offset)`
unfoldable pub read_if : Bool → (Bytes → ℕ → Outcome (ℕ × ℕ)) → Bytes → ℕ → Outcome (Option ℕ × ℕ)
read_if false read input offset = ok (none, offset)
read_if true read input offset = do (value, offset') ← read input offset; ok (some value, offset')

-- `for _ in range(count)`: a key hash of four bytes and a value.
unfoldable pub read_scores : ℕ → Bytes → ℕ → Outcome ℕ
unfolding read_bps
read_scores zero input offset = ok offset
read_scores (suc count) input offset = do
  raise_if (ltb (length input) (offset + 4)) too_short
  (value, offset') ← read_bps input (offset + 4)
  read_scores count input offset'

-- `if flags & FLAG_SCORES`
unfoldable pub read_scores_if : Bool → Bytes → ℕ → Outcome ℕ
unfolding read_u8 read_scores
read_scores_if false input offset = ok offset
read_scores_if true input offset = do
  (count, offset') ← read_u8 input offset
  raise_if (count == 0 || ltb 32 count) bad_score_count
  read_scores count input offset'

-- `flags & FLAG`
abbrev pub has_flag : ℕ → ℕ → Bool
has_flag flags flag = not (bit_and flags flag == 0)

module _ (sha256 : Bytes → Bytes) where
  -- The part after the fixed header: `offset` starts at 11.
  unfoldable pub parse_body : Bytes → ℕ → OutputKind → ℕ → Outcome BranchReceipt
  parse_body input branch_index kind flags = do
    (scalar_value, o1) ← read_if (has_flag flags 1) read_bps input 11
    (lower, o2) ← read_if (has_flag flags 2) read_bps input o1
    (upper, o3) ← read_if (has_flag flags 4) read_bps input o2
    (label, o4) ← read_if (has_flag flags 8) read_u8 input o3
    offset ← read_scores_if (has_flag flags 16) input o4
    raise_if (ltb (length input) (offset + 32)) too_short
    raise_if (not (offset + 32 == length input)) trailing_bytes
    ok (record {
      branch_index = branch_index;
      output_kind = kind;
      scalar_value_bps = scalar_value;
      categorical_label_index = label;
      canonical_hash = slice input offset 32;
      result_hash = sha256 input;
    })

  unfoldable pub parse_branch_result_bytes : Bytes → Outcome BranchReceipt
  unfolding kind_by_id
  parse_branch_result_bytes input = do
    raise_if (ltb (length input) 43) too_short
    raise_if (not (bytes_eq (take 4 input) magic)) bad_magic
    version ← or_raise (get_elem? input 4) index_error
    raise_if (not (version == 2)) bad_version
    kind_id ← or_raise (get_elem? input 5) index_error
    kind ← or_raise (kind_by_id kind_id) bad_kind
    branch_index ← or_raise (unpack_from 4 input 6) struct_error
    flags ← or_raise (get_elem? input 10) index_error
    raise_if (not (bit_and flags 0xe0 == 0)) bad_flags
    parse_body input branch_index kind flags
