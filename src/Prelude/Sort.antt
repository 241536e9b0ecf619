-- ===== src/Prelude/Sort.antt =====
-- Python's `sorted` as a stable insertion sort by a Boolean order: an element goes in front of the
-- first one that it does not exceed, so elements with equal keys keep their order.
use mathlib.Core.Path.{◌≡◌, refl, ap₂, ◌∙◌}
use mathlib.Core.Bool.{Bool, true, false}
use mathlib.Core.Logic.{∥∥₁_elim, inl, inr}
use mathlib.Core.List.{List, [], ◌∷◌, Perm, Permᴰ}
use mathlib.Core.List.Permᴰ
use native.Mathlib.Omega.{arith}
use kswarm.Prelude.Tests.{if◌then◌else◌, Bool-cases}
use kswarm.Prelude.Lists.{All}

-- The order by which a list is sorted, as far as the theorems need it.
pub record IsTotalOrder {ℓ} {A : Type ℓ} (le : A → A → Bool) : Type ℓ where
  pub total : (a b : A) → le a b ≡ false → le b a ≡ true
  pub trans : (a b c : A) → le a b ≡ true → le b c ≡ true → le a c ≡ true

module _ {ℓ} {A : Type ℓ} (le : A → A → Bool) where
  unfoldable pub insert : A → List A → List A
  insert a [] = a ∷ []
  insert a (x ∷ xs) = if le a x then a ∷ x ∷ xs else x ∷ insert a xs

  unfoldable pub sort : List A → List A
  unfolding insert
  sort [] = []
  sort (x ∷ xs) = insert x (sort xs)

  -- Each element is at most every later one.
  abbrev pub IsSorted : List A → Type ℓ
  IsSorted [] = Unit
  IsSorted (x ∷ xs) = All (λ y. le x y ≡ true) xs × IsSorted xs

module _ {ℓ} {A : Type ℓ} (le : A → A → Bool) where
  insert-permᴰ : (a : A) (xs : List A) → Permᴰ (insert le a xs) (a ∷ xs)
  unfolding insert
  insert-permᴰ a [] = Permᴰ.refl _
  insert-permᴰ a (x ∷ xs) =
      elim (le a x) as (λ b. Permᴰ (if b then a ∷ x ∷ xs else x ∷ insert le a xs) (a ∷ x ∷ xs)) [
        | true ↦ Permᴰ.refl _
        | false ↦ Permᴰ.trans (Permᴰ.cons refl (insert-permᴰ a xs)) (Permᴰ.swap refl refl)
      ]

  pub sort-permᴰ : (xs : List A) → Permᴰ (sort le xs) xs
  unfolding sort
  sort-permᴰ [] = Permᴰ.nil
  sort-permᴰ (x ∷ xs) = Permᴰ.trans (insert-permᴰ x (sort le xs)) (Permᴰ.cons refl (sort-permᴰ xs))

  pub sort-perm : (xs : List A) → Perm (sort le xs) xs
  sort-perm xs = ∣ sort-permᴰ xs ∣₁

  All-insert {κ} : (P : A → Type κ) (a : A) (xs : List A) → P a → All P xs → All P (insert le a xs)
  unfolding insert
  All-insert P a [] h hs = (h, tt)
  All-insert P a (x ∷ xs) h hs =
      elim (le a x) as (λ b. All P (if b then a ∷ x ∷ xs else x ∷ insert le a xs)) [
        | true ↦ (h, hs)
        | false ↦ (hs.0, All-insert P a xs h hs.1)
      ]

  pub All-sort {κ} : (P : A → Type κ) (xs : List A) → All P xs → All P (sort le xs)
  unfolding sort
  All-sort P [] h = tt
  All-sort P (x ∷ xs) h = All-insert P x (sort le xs) h.0 (All-sort P xs h.1)

module _ {ℓ} {A : Type ℓ} (le : A → A → Bool) (order : IsTotalOrder le) where
  All-le_trans :
      (a x : A) (xs : List A)
      → le a x ≡ true
      → All (λ y. le x y ≡ true) xs
      → All (λ y. le a y ≡ true) xs
  All-le_trans a x [] h hs = tt
  All-le_trans a x (y ∷ ys) h hs = (order.trans a x y h hs.0, All-le_trans a x ys h hs.1)

  insert-IsSorted : (a : A) (xs : List A) → IsSorted le xs → IsSorted le (insert le a xs)
  unfolding insert
  insert-IsSorted a [] h = (tt, tt)
  insert-IsSorted a (x ∷ xs) h = elim (Bool-cases (le a x)) [
    | inl e ↦ rw e ((e, All-le_trans a x xs e h.0), h)
    | inr e ↦
        rw e (
          All-insert le (λ y. le x y ≡ true) a xs (order.total a x e) h.0,
          insert-IsSorted a xs h.1,
        )
  ]

  pub sort-IsSorted : (xs : List A) → IsSorted le (sort le xs)
  unfolding sort
  sort-IsSorted [] = tt
  sort-IsSorted (x ∷ xs) = insert-IsSorted x (sort le xs) (sort-IsSorted xs)

  module _ (antisymm : (a b : A) → le a b ≡ true → le b a ≡ true → a ≡ b) where
    insert_comm :
        (a b : A) (xs : List A) → insert le a (insert le b xs) ≡ insert le b (insert le a xs)
    unfolding insert
    insert_comm a b [] = ground (arith, order.total a b, order.total b a, antisymm a b)
    insert_comm a b (x ∷ xs) = ground (
      arith,
      order.total a b,
      order.total b a,
      antisymm a b,
      order.trans a b x,
      order.trans b a x,
      insert_comm a b xs,
    )

    sort_of_permᴰ : {xs ys : List A} → Permᴰ xs ys → sort le xs ≡ sort le ys
    unfolding sort
    sort_of_permᴰ Permᴰ.nil = refl
    sort_of_permᴰ (Permᴰ.cons e p) = ap₂ (insert le) e (sort_of_permᴰ p)
    sort_of_permᴰ (Permᴰ.swap {a = a} {b = b} {l = l} e e') =
        insert_comm a b (sort le l) ∙ ap₂ (λ x y. insert le x (insert le y (sort le l))) e' e
    sort_of_permᴰ (Permᴰ.trans p q) = sort_of_permᴰ p ∙ sort_of_permᴰ q

    -- A sorted list depends on the elements alone, not on the order in which they came.
    pub sort_of_perm : IsSet A → (xs ys : List A) → Perm xs ys → sort le xs ≡ sort le ys
    sort_of_perm s xs ys p = ∥∥₁_elim p (hlevel s) sort_of_permᴰ
