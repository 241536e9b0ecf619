-- ===== src/Aggregate/Combiner/Trimmed.antt =====
-- `trimmed_mean_bps` of cli/kswarm_cli/aggregate.py: the mean of the retained values.
use mathlib.Core.List.Permᴰ
use kswarm.Prelude.{
  ◌/◌, err, ℕ, ◌*◌, ◌≤◌, ◌<◌, ◌≡◌, List, [], ◌∷◌, ◌++◌, length, length-append, arith, ok, All,
}
use kswarm.Aggregate.Combiner.{
  trim_count_from_bps, bps_scale, retained_values, check_bps, check_all, sum, trimmed_mean_bps,
}
use kswarm.Aggregate.Error.{bad_trim_bps}
use kswarm.Aggregate.Combiner.Mean.{Between, IsRounded, round_half_up_lem}
use kswarm.Aggregate.Combiner.Retained.{retained_values_lem, length-permᴰ}
use kswarm.Aggregate.Combiner.Survivors.{All-permᴰ}

All-left {ℓ κ} : {A : Type ℓ} (P : A → Type κ) (xs ys : List A) → All P (xs ++ ys) → All P xs
All-left P [] ys h = tt
All-left P (x ∷ xs) ys h = (h.0, All-left P xs ys h.1)

check_all_lem :
    (lo hi : ℕ) (values : List ℕ)
    → hi ≤ bps_scale
    → All (Between lo hi) values
    → check_all values ≡ ok tt
unfolding check_all check_bps
check_all_lem lo hi [] top h = ground arith
check_all_lem lo hi (v ∷ vs) top h = ground (arith, h.0, check_all_lem lo hi vs top h.1)

sum-Between :
    (lo hi : ℕ) (values : List ℕ)
    → All (Between lo hi) values
    → (lo * length values ≤ sum values) × (sum values ≤ hi * length values)
sum-Between lo hi [] h = omega arith
sum-Between lo hi (v ∷ vs) h = grind (arith, sum-Between lo hi vs h.1)

-- For values between two bounds of at most 10000, and fewer outliers than values, the trimmed mean
-- raises no error: it is the mean of the retained values, rounded to the nearest with a half up,
-- and lies between the bounds.
pub trimmed_mean_bps_lem :
    (values : List ℕ) (outlier_count lo hi : ℕ)
    → hi ≤ bps_scale
    → All (Between lo hi) values
    → outlier_count < length values
    → (r : List ℕ) × (m : ℕ) × (retained_values values outlier_count ≡ ok r)
      × (trimmed_mean_bps values outlier_count ≡ ok m)
      × IsRounded (sum r) (length r) m
      × Between lo hi m
unfolding trimmed_mean_bps
trimmed_mean_bps_lem values k lo hi top h fits =
    let (r, e, parts) = retained_values_lem values k fits in
    let kept = All-left (Between lo hi) r parts.dropped (All-permᴰ _ (Permᴰ.symm parts.parted) h) in
    let size = length-permᴰ parts.parted in
    let some_left : 0 < length r =
      omega (arith, size, length-append r parts.dropped, parts.dropped_count) in
    let (a, b) = sum-Between lo hi r kept in
    let (m, q, rounded, between) = round_half_up_lem (sum r) (length r) lo hi some_left top a b in
    (r, m, e, rw (e, check_all_lem lo hi r top kept) q, rounded, between)

-- The share of the branches to drop leaves a branch.
pub trim_count_from_bps_lem :
    (branch_count trim_bps : ℕ)
    → 0 < branch_count
    → trim_bps < bps_scale
    → (k : ℕ) × (trim_count_from_bps branch_count trim_bps ≡ ok k) × (k < branch_count)
unfolding trim_count_from_bps
trim_count_from_bps_lem n t h low = (n * t / bps_scale, ground arith, grind arith)

pub trim_count_from_bps_refused :
    (branch_count trim_bps : ℕ)
    → bps_scale ≤ trim_bps
    → trim_count_from_bps branch_count trim_bps ≡ err bad_trim_bps
unfolding trim_count_from_bps
trim_count_from_bps_refused n t high = ground arith
