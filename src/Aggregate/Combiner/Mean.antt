-- ===== src/Aggregate/Combiner/Mean.antt =====
-- The two means of cli/kswarm_cli/aggregate.py against exact arithmetic.
use native.Mathlib.Decide.{dec_lt}
use native.Mathlib.Nat.{zero-add}
use kswarm.Prelude.{ℕ, suc, ◌+◌, ◌*◌, ◌/◌, ◌≤◌, ◌<◌, ◌≡◌, List, [], ◌∷◌, arith, ok, All}
use kswarm.Aggregate.Combiner.{bps_scale, round_half_up, check_bps, weigh, weighted_mean_bps}

-- The weights' sum and the sum of the values times their weights, as the mean defines them.
abbrev pub total : List (ℕ × ℕ) → ℕ
total [] = 0
total ((v, w) ∷ vs) = w + total vs

abbrev pub weighted : List (ℕ × ℕ) → ℕ
weighted [] = 0
weighted ((v, w) ∷ vs) = v * w + weighted vs

abbrev pub Between : ℕ → ℕ → ℕ → Type 0
Between lo hi v = (lo ≤ v) × (v ≤ hi)

-- `m` is `s / w` rounded to the nearest, a half up.
abbrev pub IsRounded : ℕ → ℕ → ℕ → Type 0
IsRounded s w m = (2 * (m * w) ≤ 2 * s + w) × (2 * s + w < 2 * (m * w) + 2 * w)

quotient_bounds : (n d : ℕ) → 0 < d → (n / d * d ≤ n) × (n < n / d * d + d)
quotient_bounds n d h = grind arith

mul_right_mono : (a b w : ℕ) → a ≤ b → a * w ≤ b * w
mul_right_mono a b w h = grind arith

le_of_mul_lt : (a b w : ℕ) → a * w < b * w + w → a ≤ b
le_of_mul_lt a b w h = elim (dec_lt b a) [
  | yes p ↦ absurd (omega (arith, mul_right_mono (suc b) a w p))
  | no p ↦ omega arith
]

rounded-Between :
    (s w m lo hi : ℕ) → 0 < w → IsRounded s w m → lo * w ≤ s → s ≤ hi * w → Between lo hi m
rounded-Between s w m lo hi h r a b =
    (le_of_mul_lt lo m w (omega arith), le_of_mul_lt m hi w (omega arith))

-- A quotient in basis points is rounded, and no check refuses it.
pub round_half_up_lem :
    (s w lo hi : ℕ)
    → 0 < w
    → hi ≤ bps_scale
    → lo * w ≤ s
    → s ≤ hi * w
    → (m : ℕ) × (round_half_up s w ≡ ok m) × IsRounded s w m × Between lo hi m
unfolding round_half_up
round_half_up_lem s w lo hi h top a b =
    let m = (s * 2 + w) / (w * 2) in
    let q = quotient_bounds (s * 2 + w) (w * 2) (omega arith) in
    let r : IsRounded s w m = (grind arith, grind arith) in
    let between = rounded-Between s w m lo hi h r a b in (m, ground arith, r, between)

weigh_lem :
    (values : List (ℕ × ℕ)) (lo hi t s : ℕ)
    → hi ≤ bps_scale
    → All (λ p. Between lo hi p.0) values
    → weigh values t s ≡ ok (t + total values, s + weighted values)
unfolding weigh check_bps
weigh_lem [] lo hi t s top h = ground arith
weigh_lem ((v, w) ∷ vs) lo hi t s top h =
    ground (arith, weigh_lem vs lo hi (t + w) (s + v * w) top h.1)

weighted-Between :
    (values : List (ℕ × ℕ)) (lo hi : ℕ)
    → All (λ p. Between lo hi p.0) values
    → (lo * total values ≤ weighted values) × (weighted values ≤ hi * total values)
weighted-Between [] lo hi h = omega arith
weighted-Between ((v, w) ∷ vs) lo hi h = grind (arith, weighted-Between vs lo hi h.1)

-- For values between two bounds of at most 10000 whose weights have a sum above 0, the weighted
-- mean raises no error: it is the weighted sum over the sum of the weights, rounded to the nearest
-- with a half up, and lies between the bounds.
pub weighted_mean_bps_lem :
    (values : List (ℕ × ℕ)) (lo hi : ℕ)
    → hi ≤ bps_scale
    → All (λ p. Between lo hi p.0) values
    → 0 < total values
    → (m : ℕ) × (weighted_mean_bps values ≡ ok m)
      × IsRounded (weighted values) (total values) m
      × Between lo hi m
unfolding weighted_mean_bps
weighted_mean_bps_lem [] lo hi top h pos = elim pos [ ]
weighted_mean_bps_lem (v ∷ vs) lo hi top h pos =
    let (a, b) = weighted-Between (v ∷ vs) lo hi h in
    let (m, e, r, between) =
      round_half_up_lem (weighted (v ∷ vs)) (total (v ∷ vs)) lo hi pos top a b in
    (m, rw (weigh_lem (v ∷ vs) lo hi 0 0 top h, zero-add, zero-add) e, r, between)
