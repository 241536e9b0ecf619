-- ===== src/Aggregate/Merkle/Examples.antt =====
-- Merkle roots of two hashes.
use mathlib.Core.List.{Perm}
use mathlib.Core.List.Perm
use kswarm.Prelude.{◌≡◌, ◌≢◌, sym, ◌∙◌, List, [], ◌∷◌, ok, ◌⊎◌}
use kswarm.Prelude.Bytes.{Bytes}
use kswarm.Samples.{toy_sha256, toy_sha256-length}
use kswarm.Aggregate.Merkle.{sorted_branches_merkle_root}
use kswarm.Aggregate.Merkle.Binding.{merkle_root-binds}
use kswarm.Prelude.Digest.{Collision}
use kswarm.Aggregate.Merkle.Order.{merkle_root_total, merkle_root_of_perm}

abbrev two_hashes : List Bytes
two_hashes = (1 ∷ []) ∷ (2 ∷ 3 ∷ []) ∷ []

abbrev swapped : List Bytes
swapped = (2 ∷ 3 ∷ []) ∷ (1 ∷ []) ∷ []

two_hashes_nonempty : two_hashes ≢ []
two_hashes_nonempty e = cc

merkle_root_total_example : (r : Bytes) × (sorted_branches_merkle_root toy_sha256 two_hashes ≡ ok r)
merkle_root_total_example = merkle_root_total toy_sha256 two_hashes two_hashes_nonempty

swap : Perm two_hashes swapped
swap = Perm.swap _ _ _

merkle_root_of_perm_example :
    sorted_branches_merkle_root toy_sha256 two_hashes
    ≡ sorted_branches_merkle_root toy_sha256 swapped
merkle_root_of_perm_example = merkle_root_of_perm toy_sha256 two_hashes swapped swap

merkle_root-binds_example : Perm two_hashes swapped ⊎ Collision toy_sha256
merkle_root-binds_example =
    merkle_root-binds toy_sha256 toy_sha256-length two_hashes swapped merkle_root_total_example.0
      merkle_root_total_example.1 (sym merkle_root_of_perm_example ∙ merkle_root_total_example.1)
