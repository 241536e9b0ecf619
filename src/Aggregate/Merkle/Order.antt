-- ===== src/Aggregate/Merkle/Order.antt =====
-- The root exists for every set of branches, and does not depend on the order of the hashes.
use mathlib.Core.List.{Perm, map-eq-nil_iff}
use mathlib.Core.List.Perm
use mathlib.Core.WellFounded.{Acc}
use kswarm.Prelude.{◌≡◌, refl, ◌≢◌, ap, subst, List, [], ◌∷◌, map, ok, some}
use kswarm.Prelude.Bytes.{Bytes, Bytes-set, bytes_leb, bytes_leb-IsTotalOrder, bytes_leb_antisymm}
use kswarm.Prelude.Sort.{sort, sort_of_perm, sort-perm}
use kswarm.Aggregate.Merkle.{merkle_leaf_hash, merkle_node_hash, first, sorted_branches_merkle_root}
use kswarm.Aggregate.Merkle.Levels.{climb, Shorter, Shorter-wf, climb_total}

module _ (sha256 : Bytes → Bytes) where
  climb_exists :
      (level : List Bytes) (w : Acc Shorter level)
      → level ≢ []
      → (r : Bytes) × (climb (merkle_node_hash sha256) level w ≡ some r)
  climb_exists [] w h = absurd (h refl)
  climb_exists (x ∷ xs) w h = climb_total (merkle_node_hash sha256) x xs w

  sort-ne-nil : (xs : List Bytes) → xs ≢ [] → map (merkle_leaf_hash sha256) (sort bytes_leb xs) ≢ []
  sort-ne-nil xs h e =
      let sorted : Perm [] xs =
        subst (λ l. Perm l xs) ((map-eq-nil_iff _).0 e) (sort-perm bytes_leb xs) in
      h (Perm.eq-nil (Perm.symm sorted))

  -- The loop over the levels ends with a root for every list of hashes that is not empty.
  pub merkle_root_total :
      (hs : List Bytes) → hs ≢ [] → (r : Bytes) × (sorted_branches_merkle_root sha256 hs ≡ ok r)
  unfolding sorted_branches_merkle_root first
  merkle_root_total [] h = absurd (h refl)
  merkle_root_total (x ∷ xs) h =
      let (r, e) = climb_exists _ (Shorter-wf.apply _) (sort-ne-nil (x ∷ xs) h) in (r, rw e)

  -- Permutations of a list of branch hashes have the same Merkle root, or the same error.
  pub merkle_root_of_perm :
      (xs ys : List Bytes)
      → Perm xs ys
      → sorted_branches_merkle_root sha256 xs ≡ sorted_branches_merkle_root sha256 ys
  unfolding sorted_branches_merkle_root
  merkle_root_of_perm [] [] p = refl
  merkle_root_of_perm [] (y ∷ ys) p = absurd (let e = Perm.nil-eq p in cc)
  merkle_root_of_perm (x ∷ xs) [] p = absurd (let e = Perm.eq-nil p in cc)
  merkle_root_of_perm (x ∷ xs) (y ∷ ys) p =
      ap
        (λ (s : List Bytes).
          first (
            climb (merkle_node_hash sha256) (map (merkle_leaf_hash sha256) s) (Shorter-wf.apply _)))
        (sort_of_perm bytes_leb bytes_leb-IsTotalOrder bytes_leb_antisymm Bytes-set (x ∷ xs)
          (y ∷ ys) p)

  -- One branch: the root is the hash of its leaf.
  pub one_branch_root :
      (h : Bytes) → sorted_branches_merkle_root sha256 (h ∷ []) ≡ ok (merkle_leaf_hash sha256 h)
  unfolding sorted_branches_merkle_root first climb sort Shorter-wf
  one_branch_root h = refl
