-- ===== src/Aggregate/Combiner/Retained.antt =====
-- `retained_values` and `trimmed_mean_bps` of cli/kswarm_cli/aggregate.py.
use mathlib.Core.List.{Permᴰ, Sublistᴰ, map-append}
use mathlib.Core.List.Permᴰ
use kswarm.Prelude.{
  ℕ, zero, suc, ◌+◌, ◌/◌, ◌≤◌, ◌<◌, ◌≡◌, refl, ap, sym, ◌∙◌, subst, true, false, some, List, [],
  ◌∷◌, ◌++◌, map, length, length-map, take, drop, get_elem?, arith, ok, All, if◌then◌else◌,
}
use kswarm.Prelude.Sort.{sort, sort-permᴰ, IsSorted, sort-IsSorted, IsTotalOrder}
use kswarm.Aggregate.Combiner.{
  enumerate, distance, by_value, by_rejection, rejection, upper_median, keep, contains,
  retained_values,
}
use kswarm.Aggregate.Combiner.Survivors.{
  index, item_value, keep-survivors, survivors_lem, All-right, All-permᴰ, enumerate-Distinct,
  enumerate-values,
}

by_rejection-IsTotalOrder : (median : ℕ) → IsTotalOrder (by_rejection median)
by_rejection-IsTotalOrder median = record {
  total = λ a b h. ground arith;
  trans = λ a b c h k. ground arith;
}

get_elem?-some {ℓ} :
    {A : Type ℓ} (xs : List A) (i : ℕ) → i < length xs → (x : A) × (get_elem? xs i ≡ some x)
get_elem?-some [] i h = elim h [ ]
get_elem?-some (x ∷ xs) zero h = (x, refl)
get_elem?-some (x ∷ xs) (suc i) h = get_elem?-some xs i (omega arith)

pub length-permᴰ {ℓ} : {A : Type ℓ} {xs ys : List A} → Permᴰ xs ys → length xs ≡ length ys
length-permᴰ Permᴰ.nil = refl
length-permᴰ (Permᴰ.cons e p) = ap suc (length-permᴰ p)
length-permᴰ (Permᴰ.swap e e') = refl
length-permᴰ (Permᴰ.trans p q) = length-permᴰ p ∙ length-permᴰ q

length-enumerate : (start : ℕ) (values : List ℕ) → length (enumerate start values) ≡ length values
unfolding enumerate
length-enumerate start [] = refl
length-enumerate start (v ∷ vs) = ap suc (length-enumerate (start + 1) vs)

by_value-IsTotalOrder : IsTotalOrder by_value
by_value-IsTotalOrder = record { total = λ a b h. ground arith; trans = λ a b c h k. ground arith }

-- The value that has half of the others, rounded down, at or below it, and the rest at or above it.
pub record IsMiddle (values : List ℕ) (m : ℕ) : Type 0 where
  pub below : List ℕ
  pub above : List ℕ
  pub parted : Permᴰ (below ++ m ∷ above) values
  pub half : length below ≡ length values / 2
  pub below_le : All (λ b. b ≤ m) below
  pub above_ge : All (λ a. m ≤ a) above

-- Where the place of a sorted list is, the values before it are no more, those after it no less.
values_after :
    (x : ℕ × ℕ) (ys : List (ℕ × ℕ))
    → All (λ y. by_value x y ≡ true) ys
    → All (λ a. item_value x ≤ a) (map item_value ys)
values_after x [] h = tt
values_after x (y ∷ ys) h = (ground (arith, h.0), values_after x ys h.1)

later :
    (x y : ℕ × ℕ) (xs : List (ℕ × ℕ)) (i : ℕ)
    → All (λ y. by_value x y ≡ true) xs
    → get_elem? xs i ≡ some y
    → item_value x ≤ item_value y
later x y [] i h e = absurd (cc)
later x y (z ∷ xs) zero h e = let same : z ≡ y = cc in ground (arith, h.0, ap item_value same)
later x y (z ∷ xs) (suc i) h e = later x y xs i h.1 e

split_at :
    (xs : List (ℕ × ℕ)) (i : ℕ) (y : ℕ × ℕ)
    → IsSorted by_value xs
    → get_elem? xs i ≡ some y
    → (before : List ℕ) × (after : List ℕ) × (before ++ item_value y ∷ after ≡ map item_value xs)
      × (length before ≡ i)
      × All (λ b. b ≤ item_value y) before
      × All (λ a. item_value y ≤ a) after
split_at [] i y h e = absurd (cc)
split_at (x ∷ xs) zero y h e =
    let same : x ≡ y = cc in
    (
      [],
      map item_value xs,
      ap (λ z. item_value z ∷ map item_value xs) (sym same),
      refl,
      tt,
      subst (λ z. All (λ a. item_value z ≤ a) (map item_value xs)) same (values_after x xs h.0),
    )
split_at (x ∷ xs) (suc i) y h e =
    let (before, after, whole, size, low, high) = split_at xs i y h.1 e in
    (
      item_value x ∷ before,
      after,
      ap (◌∷◌ (item_value x)) whole,
      ap suc size,
      (later x y xs i h.0 e, low),
      high,
    )

upper_median_total :
    (v : ℕ) (vs : List ℕ) → (m : ℕ) × (upper_median (v ∷ vs) ≡ ok m) × IsMiddle (v ∷ vs) m
unfolding upper_median
upper_median_total v vs =
    let items = enumerate 0 (v ∷ vs) in
    let size = length-permᴰ (sort-permᴰ by_value items) ∙ length-enumerate 0 (v ∷ vs) in
    let (x, e) = get_elem?-some (sort by_value items) (length (v ∷ vs) / 2) (omega (arith, size)) in
    let (before, after, whole, half, low, high) =
      split_at (sort by_value items) (length (v ∷ vs) / 2) x
        (sort-IsSorted by_value by_value-IsTotalOrder items) e in
    (
      item_value x,
      rw (e, upper_median),
      record {
        below = before;
        above = after;
        parted =
            subst (λ l. Permᴰ l (v ∷ vs)) (sym whole)
              (subst (λ l. Permᴰ (map item_value (sort by_value items)) l)
                (enumerate-values 0 (v ∷ vs)) (Permᴰ.map item_value (sort-permᴰ by_value items)));
        half = half;
        below_le = low;
        above_ge = high;
      },
    )

-- `keep` drops elements and moves none.
keep-Sublistᴰ :
    (rejected : List ℕ) (start : ℕ) (values : List ℕ)
    → Sublistᴰ (keep rejected (enumerate start values)) values
unfolding keep enumerate
keep-Sublistᴰ rejected start [] = Sublistᴰ.slnil
keep-Sublistᴰ rejected start (v ∷ vs) =
    let rest = keep rejected (enumerate (start + 1) vs) in
    elim (contains start rejected) as (λ t. Sublistᴰ (if t then rest else v ∷ rest) (v ∷ vs)) [
      | true ↦ Sublistᴰ.cons (keep-Sublistᴰ rejected (start + 1) vs)
      | false ↦ Sublistᴰ.cons-cons refl (keep-Sublistᴰ rejected (start + 1) vs)
    ]

split {ℓ} :
    {A : Type ℓ} (k : ℕ) (xs : List A)
    → k ≤ length xs
    → (take k xs ++ drop k xs ≡ xs) × (length (take k xs) ≡ k)
split zero xs h = (refl, refl)
split (suc k) [] h = absurd (omega arith)
split (suc k) (x ∷ xs) h = let ih = split k xs (omega arith) in (ap (◌∷◌ x) ih.0, ap suc ih.1)

-- No retained value lies farther from the median than a dropped one.
abbrev pub Farther : ℕ → List ℕ → List ℕ → Type 0
Farther median dropped retained =
    All (λ d. All (λ r. distance r median ≤ distance d median) retained) dropped

module _ (median : ℕ) where
  abbrev NotFarther : ℕ × ℕ → ℕ → Type 0
  NotFarther x r = distance r median ≤ distance (item_value x) median

  rejected_first :
      (x : ℕ × ℕ) (ys : List (ℕ × ℕ))
      → All (λ y. by_rejection median x y ≡ true) ys
      → All (NotFarther x) (map item_value ys)
  rejected_first x [] h = tt
  rejected_first x (y ∷ ys) h = (ground (arith, h.0), rejected_first x ys h.1)

  sorted_split :
      (xs ys : List (ℕ × ℕ))
      → IsSorted (by_rejection median) (xs ++ ys)
      → Farther median (map item_value xs) (map item_value ys)
  sorted_split [] ys h = tt
  sorted_split (x ∷ xs) ys h = (rejected_first x ys (All-right _ xs ys h.0), sorted_split xs ys h.1)

  Farther-permᴰ :
      (dropped : List ℕ) {rs rs' : List ℕ}
      → Permᴰ rs rs'
      → Farther median dropped rs
      → Farther median dropped rs'
  Farther-permᴰ [] p h = tt
  Farther-permᴰ (d ∷ ds) p h = (All-permᴰ _ p h.0, Farther-permᴰ ds p h.1)

-- What `retained_values` promises of its result, for the values and the number to drop.
pub record IsRetained (values : List ℕ) (outlier_count : ℕ) (retained : List ℕ) : Type 0 where
  pub median : ℕ
  pub dropped : List ℕ
  pub middle : IsMiddle values median
  pub in_order : Sublistᴰ retained values
  pub parted : Permᴰ (retained ++ dropped) values
  pub dropped_count : length dropped ≡ outlier_count
  pub farthest : Farther median dropped retained

module _ (v : ℕ) (vs : List ℕ) (k : ℕ) (fits : k < length (v ∷ vs)) (m : ℕ)
    (found : upper_median (v ∷ vs) ≡ ok m) (middle : IsMiddle (v ∷ vs) m) where
  abbrev order : List (ℕ × ℕ)
  order = rejection m (v ∷ vs)

  order-permᴰ : Permᴰ order (enumerate 0 (v ∷ vs))
  order-permᴰ = Permᴰ.trans (sort-permᴰ (by_rejection m) _) (sort-permᴰ by_value _)

  halves : (take k order ++ drop k order ≡ order) × (length (take k order) ≡ k)
  halves = split k order (omega (arith, length-permᴰ order-permᴰ, length-enumerate 0 (v ∷ vs)))

  abbrev kept : List ℕ
  kept = keep (map index (take k order)) (enumerate 0 (v ∷ vs))

  parts-permᴰ : Permᴰ (take k order ++ drop k order) (enumerate 0 (v ∷ vs))
  parts-permᴰ = subst (λ l. Permᴰ l (enumerate 0 (v ∷ vs))) (sym halves.0) order-permᴰ

  kept-permᴰ : Permᴰ kept (map item_value (drop k order))
  kept-permᴰ = rw keep-survivors (
      Permᴰ.map item_value (
        survivors_lem (enumerate 0 (v ∷ vs)) (take k order) (drop k order) parts-permᴰ
          (enumerate-Distinct 0 (v ∷ vs))))

  kept_parted : Permᴰ (kept ++ map item_value (take k order)) (v ∷ vs)
  kept_parted = Permᴰ.trans (Permᴰ.append_right (map item_value (take k order)) kept-permᴰ) (
      Permᴰ.trans
        (Permᴰ.append_comm (map item_value (drop k order)) (map item_value (take k order)))
        (subst (λ l. Permᴰ l (v ∷ vs)) (map-append item_value (take k order) (drop k order))
          (subst (λ l. Permᴰ (map item_value (take k order ++ drop k order)) l)
            (enumerate-values 0 (v ∷ vs)) (Permᴰ.map item_value parts-permᴰ))))

  kept-IsRetained : IsRetained (v ∷ vs) k kept
  kept-IsRetained = record {
    median = m;
    dropped = map item_value (take k order);
    middle = middle;
    in_order = keep-Sublistᴰ _ 0 (v ∷ vs);
    parted = kept_parted;
    dropped_count = length-map item_value (take k order) ∙ halves.1;
    farthest = Farther-permᴰ m _ (Permᴰ.symm kept-permᴰ) (
        sorted_split m (take k order) (drop k order) (
          subst (IsSorted (by_rejection m)) (sym halves.0)
            (sort-IsSorted (by_rejection m) (by_rejection-IsTotalOrder m) _)));
  }

  retained_step : retained_values (v ∷ vs) k ≡ ok kept
  unfolding retained_values
  retained_step = ground (arith, found)

-- With fewer outliers than values, the result is a part of the values in their order; the dropped
-- values make up the rest, there are as many as asked for, and no retained value is farther from
-- the median than a dropped one. The median is a value with half of the count, rounded down, of
-- the other values at or below it, and the rest of them at or above it: the upper middle for an
-- even count.
pub retained_values_lem :
    (values : List ℕ) (outlier_count : ℕ)
    → outlier_count < length values
    → (r : List ℕ) × (retained_values values outlier_count ≡ ok r)
      × IsRetained values outlier_count r
retained_values_lem [] k h = elim h [ ]
retained_values_lem (v ∷ vs) k h =
    let (m, found, middle) = upper_median_total v vs in
    (
      kept v vs k h m found middle,
      retained_step v vs k h m found middle,
      kept-IsRetained v vs k h m found middle,
    )
