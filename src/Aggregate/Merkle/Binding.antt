-- ===== src/Aggregate/Merkle/Binding.antt =====
-- The root commits to the branch hashes: two lists with one root are permutations of one another,
-- or they show two byte strings with one SHA-256.
use mathlib.Core.Path.{◌≡◌, refl, ap, ap₂, sym, ◌∙◌, subst}
use mathlib.Core.List.{Perm}
use mathlib.Core.List.Perm
use kswarm.Prelude.{
  ◌⊎◌, inl, inr, List, [], ◌∷◌, ◌++◌, map, length, ok, arith, append-cancel, Option-cases,
}
use kswarm.Prelude.Bytes.{Bytes, bytes_leb}
use kswarm.Prelude.Digest.{Collision, same_or_Collision, both}
use kswarm.Prelude.Sort.{sort, sort-perm}
use kswarm.Aggregate.Merkle.{merkle_leaf_hash, merkle_node_hash, first, sorted_branches_merkle_root}
use kswarm.Aggregate.Merkle.Levels.{climb, Shorter-wf, gather, gather-climb, map-climb}

-- What the hash stands for: the tree whose leaves are the branch hashes.
data Tree : Type 0 where
  leaf : Bytes → Tree
  node : Tree → Tree → Tree

leaves : Tree → List Bytes
leaves (leaf b) = b ∷ []
leaves (node l r) = leaves l ++ leaves r

leaves-node : (l r : Tree) → leaves (node l r) ≡ leaves l ++ leaves r
unfolding leaves
leaves-node l r = refl

gather-leaf : (bs : List Bytes) → gather node leaves leaves-node (map leaf bs) ≡ bs
unfolding gather leaves
gather-leaf [] = refl
gather-leaf (b ∷ bs) = ap (◌∷◌ b) (gather-leaf bs)

module _ (sha256 : Bytes → Bytes) where
  value : Tree → Bytes
  value (leaf b) = merkle_leaf_hash sha256 b
  value (node l r) = merkle_node_hash sha256 (value l) (value r)

  module _ (digest_length : (b : Bytes) → length (sha256 b) ≡ 32) where
    length-value : (t : Tree) → length (value t) ≡ 32
    unfolding value merkle_leaf_hash merkle_node_hash
    length-value (leaf b) = digest_length _
    length-value (node l r) = digest_length _

    -- The prefixes tell a leaf from a node, and the digests' length tells the halves of a node apart.
    value-binds : (s t : Tree) → value s ≡ value t → (s ≡ t) ⊎ Collision sha256
    unfolding value merkle_leaf_hash merkle_node_hash
    value-binds (leaf a) (leaf b) e = elim (same_or_Collision sha256 _ _ e) [
      | inl p ↦ inl (cc)
      | inr c ↦ inr c
    ]
    value-binds (leaf a) (node l r) e =
        inr (0x00 ∷ a, 0x01 ∷ (value l ++ value r), (λ p. ground arith), e)
    value-binds (node l r) (leaf a) e =
        inr (0x01 ∷ (value l ++ value r), 0x00 ∷ a, (λ p. ground arith), e)
    value-binds (node l r) (node l' r') e = elim (same_or_Collision sha256 _ _ e) [
      | inl p ↦
          let same_length : length (value l) ≡ length (value l') =
            omega (arith, length-value l, length-value l') in
          let halves = append-cancel (value l) (value r) (value l') (value r') same_length (cc) in
          nodes (both (value-binds l l' halves.0) (value-binds r r' halves.1))
      | inr c ↦ inr c
    ]
      where
        nodes :
            ((l ≡ l') × (r ≡ r')) ⊎ Collision sha256 → (node l r ≡ node l' r') ⊎ Collision sha256
        nodes (inl (p, q)) = inl (ap₂ node p q)
        nodes (inr c) = inr c

  map-value : (bs : List Bytes) → map value (map leaf bs) ≡ map (merkle_leaf_hash sha256) bs
  unfolding value
  map-value [] = refl
  map-value (b ∷ bs) = ap (◌∷◌ (merkle_leaf_hash sha256 b)) (map-value bs)

  -- The tree behind a root that was computed: its leaves are the sorted hashes.
  root_tree :
      (hs : List Bytes) (root : Bytes)
      → sorted_branches_merkle_root sha256 hs ≡ ok root
      → (t : Tree) × (leaves t ≡ sort bytes_leb hs) × (value t ≡ root)
  unfolding sorted_branches_merkle_root first
  root_tree [] root e = absurd (cc)
  root_tree (h ∷ hs) root e =
      let bs = sort bytes_leb (h ∷ hs) in
      let w = Shorter-wf.apply (map leaf bs) in
      let found =
        map-climb node (merkle_node_hash sha256) value (λ a b. unfold value in refl) (map leaf bs)
          (map (merkle_leaf_hash sha256) bs) w (Shorter-wf.apply _) (map-value bs) in
      elim (Option-cases (climb node (map leaf bs) w)) [
        | inl n ↦ absurd (ground (arith, found, n))
        | inr (t, s) ↦ (
          t,
          gather-climb node leaves leaves-node (map leaf bs) w t s ∙ gather-leaf bs,
          ground (arith, found, s),
        )
      ]

  module _ (digest_length : (b : Bytes) → length (sha256 b) ≡ 32) where
    -- Where SHA-256 gives 32 bytes, two lists of branch hashes with one Merkle root are
    -- permutations of one another, or two different byte strings with one SHA-256 are given.
    pub merkle_root-binds :
        (xs ys : List Bytes) (root : Bytes)
        → sorted_branches_merkle_root sha256 xs ≡ ok root
        → sorted_branches_merkle_root sha256 ys ≡ ok root
        → Perm xs ys ⊎ Collision sha256
    merkle_root-binds xs ys root ex ey =
        let (s, ls, vs) = root_tree xs root ex in
        let (t, lt, vt) = root_tree ys root ey in
        same_items (value-binds digest_length s t (vs ∙ sym vt)) ls lt
      where
        same_items :
            {s t : Tree}
            → (s ≡ t) ⊎ Collision sha256
            → leaves s ≡ sort bytes_leb xs
            → leaves t ≡ sort bytes_leb ys
            → Perm xs ys ⊎ Collision sha256
        same_items (inr c) ls lt = inr c
        same_items (inl e) ls lt = inl (
            Perm.trans (Perm.symm (sort-perm bytes_leb xs))
              (subst (λ l. Perm l ys) (sym lt ∙ ap leaves (sym e) ∙ ls) (sort-perm bytes_leb ys)))
