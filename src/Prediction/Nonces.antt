-- ===== src/Prediction/Nonces.antt =====
-- The nonces that cli/kswarm_cli/prediction.py plans for a run.
use kswarm.Prelude.{
  ℕ, zero, suc, ◌+◌, ◌-◌, ◌≤◌, ◌<◌, ◌≡◌, refl, List, [], ◌∷◌, All, length, ok, arith, le→ltb_false,
}
use kswarm.Prelude.Int.{pos}
use kswarm.Prediction.{nonce_max, nonces_from, planned_nonces, random_base_nonce}

-- Each nonce is above the ones before it.
abbrev pub Increasing : List ℕ → Type 0
Increasing [] = Unit
Increasing (n ∷ ns) = All (λ m. n < m) ns × Increasing ns

nonces_between :
    (lo hi base branches : ℕ)
    → lo ≤ base
    → base + branches ≤ hi
    → All (λ n. (lo ≤ n) × (n < hi)) (nonces_from base branches)
unfolding nonces_from
nonces_between lo hi base zero l h = tt
nonces_between lo hi base (suc branches) l h =
    ((l, omega arith), nonces_between lo hi (base + 1) branches (omega arith) (omega arith))

nonces_above : (lo base branches : ℕ) → lo < base → All (λ n. lo < n) (nonces_from base branches)
unfolding nonces_from
nonces_above lo base zero h = tt
nonces_above lo base (suc branches) h = (h, nonces_above lo (base + 1) branches (omega arith))

nonces_increase : (base branches : ℕ) → Increasing (nonces_from base branches)
unfolding nonces_from
nonces_increase base zero = tt
nonces_increase base (suc branches) =
    (nonces_above base (base + 1) branches (omega arith), nonces_increase (base + 1) branches)

length-nonces_from : (base branches : ℕ) → length (nonces_from base branches) ≡ branches
unfolding nonces_from
length-nonces_from base zero = refl
length-nonces_from base (suc branches) = omega (arith, length-nonces_from (base + 1) branches)

-- One nonce for each branch, all distinct, below the aggregate's, which fits a u64.
pub record ArePlanned (branches : ℕ) (nonces : List ℕ) (aggregate : ℕ) : Type 0 where
  pub counted : length nonces ≡ branches
  pub increasing : Increasing nonces
  pub below : All (λ n. n < aggregate) nonces
  pub fits : aggregate ≤ nonce_max

below_of_between :
    (lo hi : ℕ) (ns : List ℕ) → All (λ n. (lo ≤ n) × (n < hi)) ns → All (λ n. n < hi) ns
below_of_between lo hi [] h = tt
below_of_between lo hi (n ∷ ns) h = (h.0.1, below_of_between lo hi ns h.1)

pub planned_nonces_lem :
    (base branches : ℕ)
    → base + branches ≤ nonce_max
    → (nonces : List ℕ) × (aggregate : ℕ) × (planned_nonces (pos base) (pos branches)
        ≡ ok (nonces, aggregate))
      × ArePlanned branches nonces aggregate
unfolding planned_nonces
planned_nonces_lem base branches h = (
  nonces_from base branches,
  base + branches,
  rw (le→ltb_false _ _ h) refl,
  record {
    counted = length-nonces_from base branches;
    increasing = nonces_increase base branches;
    below =
        below_of_between base (base + branches) _
          (nonces_between base (base + branches) base branches (omega arith) (omega arith));
    fits = h;
  },
)

-- For a random source that draws below its bound and a branch count of at most 2^64 - 1, a base
-- nonce is drawn and the nonces are planned: one for each branch, increasing, below the
-- aggregate's nonce, which is at most 2^64 - 1.
pub planned-random :
    (randbelow : ℕ → ℕ)
    → ((n : ℕ) → 0 < n → randbelow n < n)
    → (branches : ℕ) → branches ≤ nonce_max
    → (base : ℕ) × (nonces : List ℕ) × (aggregate : ℕ) × (random_base_nonce randbelow (pos branches)
        ≡ ok base)
      × (planned_nonces (pos base) (pos branches) ≡ ok (nonces, aggregate))
      × ArePlanned branches nonces aggregate
unfolding random_base_nonce
planned-random randbelow bound branches h =
    let base = randbelow (nonce_max - branches + 1) in
    let room : base + branches ≤ nonce_max =
      omega (arith, bound (nonce_max - branches + 1) (omega arith)) in
    let (nonces, aggregate, run, planned) = planned_nonces_lem base branches room in
    (base, nonces, aggregate, rw (le→ltb_false _ _ h) refl, run, planned)
