-- ===== src/Aggregate/Merkle/Levels.antt =====
-- The level loop of `sorted_branches_merkle_root`, over any way to join two nodes.
use mathlib.Core.WellFounded.{Acc, WellFounded}
use mathlib.Core.List.{append-nil, append_assoc}
use mathlib.Core.Option
use kswarm.Prelude.{
  ℕ, zero, suc, ◌<◌, ◌≤◌, ◌≡◌, refl, ap, ap₂, ◌∙◌, List, [], ◌∷◌, ◌++◌, length, map, arith, Option,
  none, some,
}

abbrev pub Shorter {ℓ} : {A : Type ℓ} → List A → List A → Type 0
Shorter a b = length a < length b

module _ {ℓ} {A : Type ℓ} where
  acc_below : (k : ℕ) (l : List A) → length l < k → Acc Shorter l
  acc_below zero l h = absurd (omega arith)
  acc_below (suc k) l h = Acc.intro l λ m shorter. acc_below k m (omega arith)

  unfoldable pub Shorter-wf : WellFounded (Shorter {A = A})
  unfolding acc_below
  Shorter-wf = record { apply = λ l. acc_below (suc (length l)) l (omega arith) }

  module _ (join : A → A → A) where
    -- `node(level[i], level[i + 1]) if i + 1 < len(level) else level[i]`, for `i` in steps of two:
    -- an odd node is promoted.
    unfoldable pub next_level : List A → List A
    next_level (l ∷ r ∷ rest) = join l r ∷ next_level rest
    next_level (x ∷ []) = x ∷ []
    next_level [] = []

    pub length-next_level : (xs : List A) → length (next_level xs) ≤ length xs
    unfolding next_level
    length-next_level (l ∷ r ∷ rest) = omega (arith, length-next_level rest)
    length-next_level (x ∷ []) = omega arith
    length-next_level [] = omega arith

    pub level_shrinks :
        (l r : A) (rest : List A) → Shorter (next_level (l ∷ r ∷ rest)) (l ∷ r ∷ rest)
    unfolding next_level
    level_shrinks l r rest = omega (arith, length-next_level rest)

    -- `while len(level) > 1: level = [...]`, then `level[0]`, which an empty list has not.
    unfoldable pub climb : (level : List A) → Acc Shorter level → Option A
    climb (l ∷ r ∷ rest) (Acc.intro _ smaller) =
        climb (next_level (l ∷ r ∷ rest)) (smaller _ (level_shrinks l r rest))
    climb (x ∷ []) _ = some x
    climb [] _ = none

    -- A level with a node in it leads to a root.
    pub climb_total :
        (x : A) (xs : List A) (w : Acc Shorter (x ∷ xs)) → (r : A) × (climb (x ∷ xs) w ≡ some r)
    unfolding climb next_level
    climb_total x [] w = (x, refl)
    climb_total x (y ∷ ys) (Acc.intro _ smaller) =
        climb_total (join x y) (next_level ys) (smaller _ (level_shrinks x y ys))

-- A map that turns one join into another commutes with the climb.
module _ {ℓ κ} {A : Type ℓ} {B : Type κ} (join : A → A → A) (join' : B → B → B) (f : A → B)
    (f-join : (a b : A) → f (join a b) ≡ join' (f a) (f b)) where
  map-next_level : (xs : List A) → map f (next_level join xs) ≡ next_level join' (map f xs)
  unfolding next_level
  map-next_level (l ∷ r ∷ rest) = ap₂ ◌∷◌ (f-join l r) (map-next_level rest)
  map-next_level (x ∷ []) = refl
  map-next_level [] = refl

  pub map-climb :
      (xs : List A) (ys : List B) (w : Acc Shorter xs) (w' : Acc Shorter ys)
      → map f xs ≡ ys
      → Option.map f (climb join xs w) ≡ climb join' ys w'
  unfolding climb
  map-climb [] [] w w' e = refl
  map-climb [] (y ∷ ys) w w' e = absurd (cc)
  map-climb (x ∷ xs) [] w w' e = absurd (cc)
  map-climb (x ∷ []) (y ∷ []) w w' e = cc
  map-climb (x ∷ []) (y ∷ z ∷ zs) w w' e = absurd (cc)
  map-climb (x ∷ x' ∷ xs) (y ∷ []) w w' e = absurd (cc)
  map-climb (x ∷ x' ∷ xs) (y ∷ y' ∷ ys) (Acc.intro _ s) (Acc.intro _ s') e =
      map-climb (next_level join (x ∷ x' ∷ xs)) (next_level join' (y ∷ y' ∷ ys))
        (s _ (level_shrinks join x x' xs)) (s' _ (level_shrinks join' y y' ys))
        (map-next_level (x ∷ x' ∷ xs) ∙ ap (next_level join') e)

-- A measure into lists that a join concatenates is kept, in order, from the level to the root.
module _ {ℓ κ} {A : Type ℓ} {B : Type κ} (join : A → A → A) (f : A → List B)
    (f-join : (a b : A) → f (join a b) ≡ f a ++ f b) where
  unfoldable pub gather : List A → List B
  gather [] = []
  gather (x ∷ xs) = f x ++ gather xs

  gather-next_level : (xs : List A) → gather (next_level join xs) ≡ gather xs
  unfolding next_level gather
  gather-next_level (l ∷ r ∷ rest) =
      rw (f-join l r, gather-next_level rest) (append_assoc (f l) (f r) (gather rest))
  gather-next_level (x ∷ []) = refl
  gather-next_level [] = refl

  pub gather-climb :
      (xs : List A) (w : Acc Shorter xs) (t : A) → climb join xs w ≡ some t → f t ≡ gather xs
  unfolding climb gather
  gather-climb [] w t e = absurd (cc)
  gather-climb (x ∷ []) w t e = rw append-nil (cc)
  gather-climb (x ∷ y ∷ ys) (Acc.intro _ s) t e =
      gather-climb (next_level join (x ∷ y ∷ ys)) (s _ (level_shrinks join x y ys)) t e
      ∙ gather-next_level (x ∷ y ∷ ys)
