-- ===== src/Aggregate/Combiner/Survivors.antt =====
-- The filter of `retained_values` on items that carry their index: with the first items of a
-- permutation given up, exactly the others survive.
use mathlib.Core.List.{Permᴰ}
use mathlib.Core.List.Permᴰ
use kswarm.Prelude.{
  ℕ, ◌+◌, ◌≡◌, refl, ◌≢◌, ap, sym, subst, ◌∙◌, ◌<◌, true, false, List, [], ◌∷◌, ◌++◌, map, arith,
  if◌then◌else◌, All,
}
use kswarm.Aggregate.Combiner.{contains, keep, enumerate}

abbrev Item : Type 0
Item = ℕ × ℕ

abbrev pub index : ℕ × ℕ → ℕ
index (i, v) = i

abbrev pub item_value : ℕ × ℕ → ℕ
item_value (i, v) = v

-- `keep` on the items themselves.
pub survivors : List ℕ → List (ℕ × ℕ) → List (ℕ × ℕ)
survivors rejected [] = []
survivors rejected (x ∷ rest) =
    let kept = survivors rejected rest in if contains (index x) rejected then kept else x ∷ kept

pub keep-survivors :
    (rejected : List ℕ) (items : List (ℕ × ℕ))
    → keep rejected items ≡ map item_value (survivors rejected items)
unfolding keep survivors
keep-survivors rejected [] = refl
keep-survivors rejected (x ∷ rest) = ground (arith, keep-survivors rejected rest)

module _ (rejected : List ℕ) where
  survivors-cons :
      (a b : Item) (xs ys : List Item)
      → a ≡ b
      → Permᴰ (survivors rejected xs) (survivors rejected ys)
      → Permᴰ (survivors rejected (a ∷ xs)) (survivors rejected (b ∷ ys))
  unfolding survivors
  survivors-cons a b xs ys e p =
      rw (← e)
        (elim (contains (index a) rejected)
          as (λ t.
            Permᴰ (if t then survivors rejected xs else a ∷ survivors rejected xs)
              (if t then survivors rejected ys else a ∷ survivors rejected ys)) [
                | true ↦ p
                | false ↦ Permᴰ.cons refl p
              ])

  survivors-swap :
      (a b : Item) (xs : List Item)
      → Permᴰ (survivors rejected (a ∷ b ∷ xs)) (survivors rejected (b ∷ a ∷ xs))
  unfolding survivors
  survivors-swap a b xs =
      let rest = survivors rejected xs in
      elim (contains (index a) rejected)
        as (λ t.
          Permᴰ
            (if t
              then (if contains (index b) rejected then rest else b ∷ rest)
              else a ∷ (if contains (index b) rejected then rest else b ∷ rest))
            (if contains (index b) rejected
              then (if t then rest else a ∷ rest)
              else b ∷ (if t then rest else a ∷ rest))) [
                | true ↦ Permᴰ.refl _
                | false ↦
                    elim (contains (index b) rejected)
                      as (λ t.
                        Permᴰ (a ∷ (if t then rest else b ∷ rest))
                          (if t then a ∷ rest else b ∷ a ∷ rest)) [
                            | true ↦ Permᴰ.refl _
                            | false ↦ Permᴰ.swap refl refl
                          ]
              ]

  pub survivors-permᴰ :
      {xs ys : List (ℕ × ℕ)} → Permᴰ xs ys → Permᴰ (survivors rejected xs) (survivors rejected ys)
  survivors-permᴰ Permᴰ.nil = Permᴰ.refl _
  survivors-permᴰ (Permᴰ.cons {a = a} {b = b} {l₁ = xs} {l₂ = ys} e p) =
      survivors-cons a b xs ys e (survivors-permᴰ p)
  survivors-permᴰ (Permᴰ.swap {a = a} {b = b} {l = xs} e e') =
      subst
        (λ (z : Item × Item).
          Permᴰ (survivors rejected (a ∷ b ∷ xs)) (survivors rejected (z.0 ∷ z.1 ∷ xs)))
        (λ i. (e' i, e i)) (survivors-swap a b xs)
  survivors-permᴰ (Permᴰ.trans p q) = Permᴰ.trans (survivors-permᴰ p) (survivors-permᴰ q)

  -- Rejected items in front vanish, and items with other indices stay.
  survivors_rejected :
      (xs ys : List Item)
      → All (λ x. contains (index x) rejected ≡ true) xs
      → survivors rejected (xs ++ ys) ≡ survivors rejected ys
  unfolding survivors
  survivors_rejected [] ys h = refl
  survivors_rejected (x ∷ xs) ys h = rw h.0 (survivors_rejected xs ys h.1)

  survivors_kept :
      (xs : List Item)
      → All (λ x. contains (index x) rejected ≡ false) xs
      → survivors rejected xs ≡ xs
  unfolding survivors
  survivors_kept [] h = refl
  survivors_kept (x ∷ xs) h = rw h.0 (ap (◌∷◌ x) (survivors_kept xs h.1))

-- No two items have one index.
abbrev pub Distinct : List (ℕ × ℕ) → Type 0
Distinct [] = Unit
Distinct (x ∷ xs) = All (λ y. index x ≢ index y) xs × Distinct xs

pub All-permᴰ {ℓ κ} :
    {A : Type ℓ} (P : A → Type κ) {xs ys : List A} → Permᴰ xs ys → All P xs → All P ys
All-permᴰ P Permᴰ.nil h = h
All-permᴰ P (Permᴰ.cons e p) h = (subst P e h.0, All-permᴰ P p h.1)
All-permᴰ P (Permᴰ.swap e e') h = (subst P e' h.1.0, (subst P e h.0, h.1.1))
All-permᴰ P (Permᴰ.trans p q) h = All-permᴰ P q (All-permᴰ P p h)

Distinct-permᴰ : {xs ys : List Item} → Permᴰ xs ys → Distinct xs → Distinct ys
Distinct-permᴰ Permᴰ.nil h = h
Distinct-permᴰ (Permᴰ.cons {l₂ = ys} e p) h =
    (subst (λ x. All (λ y. index x ≢ index y) ys) e (All-permᴰ _ p h.0), Distinct-permᴰ p h.1)
Distinct-permᴰ (Permᴰ.swap {l = xs} e e') h =
    subst (λ (z : Item × Item). Distinct (z.0 ∷ z.1 ∷ xs)) (λ i. (e' i, e i))
      (((λ p. h.0.0 (sym p)), h.1.0), (h.0.1, h.1.1))
Distinct-permᴰ (Permᴰ.trans p q) h = Distinct-permᴰ q (Distinct-permᴰ p h)

-- `enumerate` counts up, so its indices are distinct.
enumerate-above :
    (k start : ℕ) (values : List ℕ) → k < start → All (λ y. k ≢ index y) (enumerate start values)
unfolding enumerate
enumerate-above k start [] h = tt
enumerate-above k start (v ∷ vs) h = (omega arith, enumerate-above k (start + 1) vs (omega arith))

pub enumerate-Distinct : (start : ℕ) (values : List ℕ) → Distinct (enumerate start values)
unfolding enumerate
enumerate-Distinct start [] = tt
enumerate-Distinct start (v ∷ vs) =
    (enumerate-above start (start + 1) vs (omega arith), enumerate-Distinct (start + 1) vs)

pub enumerate-values :
    (start : ℕ) (values : List ℕ) → map item_value (enumerate start values) ≡ values
unfolding enumerate
enumerate-values start [] = refl
enumerate-values start (v ∷ vs) = ap (◌∷◌ v) (enumerate-values (start + 1) vs)

weaken :
    (i : ℕ) (xs : List Item) (rejected : List ℕ)
    → All (λ x. contains (index x) rejected ≡ true) xs
    → All (λ x. contains (index x) (i ∷ rejected) ≡ true) xs
unfolding contains
weaken i [] rejected h = tt
weaken i (x ∷ xs) rejected h = (ground (arith, h.0), weaken i xs rejected h.1)

contains_own : (xs : List Item) → All (λ x. contains (index x) (map index xs) ≡ true) xs
unfolding contains
contains_own [] = tt
contains_own (x ∷ xs) = (ground arith, weaken (index x) xs (map index xs) (contains_own xs))

strengthen :
    (x : Item) (ys : List Item) (rejected : List ℕ)
    → All (λ y. index x ≢ index y) ys
    → All (λ y. contains (index y) rejected ≡ false) ys
    → All (λ y. contains (index y) (index x ∷ rejected) ≡ false) ys
unfolding contains
strengthen x [] rejected h hs = tt
strengthen x (y ∷ ys) rejected h hs = (ground (arith, h.0, hs.0), strengthen x ys rejected h.1 hs.1)

contains_none : (ys : List Item) → All (λ y. contains (index y) [] ≡ false) ys
unfolding contains
contains_none [] = tt
contains_none (y ∷ ys) = (refl, contains_none ys)

pub All-right {ℓ κ} : {A : Type ℓ} (P : A → Type κ) (xs ys : List A) → All P (xs ++ ys) → All P ys
All-right P [] ys h = h
All-right P (x ∷ xs) ys h = All-right P xs ys h.1

contains_other :
    (xs ys : List Item)
    → Distinct (xs ++ ys)
    → All (λ y. contains (index y) (map index xs) ≡ false) ys
contains_other [] ys h = contains_none ys
contains_other (x ∷ xs) ys h =
    strengthen x ys (map index xs) (All-right _ xs ys h.0) (contains_other xs ys h.1)

-- Giving up the items `xs` of a permutation `xs ++ ys` of the items leaves `ys`, in some order.
pub survivors_lem :
    (items xs ys : List (ℕ × ℕ))
    → Permᴰ (xs ++ ys) items
    → Distinct items
    → Permᴰ (survivors (map index xs) items) ys
survivors_lem items xs ys p h =
    let distinct = Distinct-permᴰ (Permᴰ.symm p) h in
    let left : survivors (map index xs) (xs ++ ys) ≡ ys =
      survivors_rejected _ xs ys (contains_own xs)
      ∙ survivors_kept _ ys (contains_other xs ys distinct) in
    subst (λ l. Permᴰ (survivors (map index xs) items) l) left (survivors-permᴰ _ (Permᴰ.symm p))
