-- ===== src/Aggregate/Merkle.antt =====
-- `merkle_leaf_hash`, `merkle_node_hash` and `sorted_branches_merkle_root` of
-- cli/kswarm_cli/aggregate.py, over an abstract SHA-256.
mod Examples
mod Levels
pub mod Binding
pub mod Order
use mathlib.Core.WellFounded.{WellFounded}
use kswarm.Prelude.{List, [], ◌∷◌, ◌++◌, map, Option, none, some, ok, err}
use kswarm.Prelude.Bytes.{Bytes, bytes_leb}
use kswarm.Prelude.Sort.{sort}
use kswarm.Aggregate.Error.{Outcome, no_branches_root, index_error}
use Levels.{climb, Shorter-wf}

-- `level[0]`
first : Option Bytes → Outcome Bytes
first none = err index_error
first (some root) = ok root

module _ (sha256 : Bytes → Bytes) where
  unfoldable pub merkle_leaf_hash : Bytes → Bytes
  merkle_leaf_hash leaf = sha256 (0x00 ∷ leaf)

  pub merkle_node_hash : Bytes → Bytes → Bytes
  merkle_node_hash left right = sha256 (0x01 ∷ (left ++ right))

  pub sorted_branches_merkle_root : List Bytes → Outcome Bytes
  unfolding first
  sorted_branches_merkle_root [] = err no_branches_root
  sorted_branches_merkle_root (h ∷ hs) =
      let level = map merkle_leaf_hash (sort bytes_leb (h ∷ hs)) in
      first (climb merkle_node_hash level (Shorter-wf.apply level))
