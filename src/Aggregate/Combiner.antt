-- ===== src/Aggregate/Combiner.antt =====
-- The combiners of cli/kswarm_cli/aggregate.py: `trim_count_from_bps`, `_round_half_up`,
-- `weighted_mean_bps`, `trimmed_mean_bps`, `retained_values`, `majority_vote` and `_check_bps`.
-- Values, weights, counts and categories reach them from the parsers, which accept no negative
-- number, so they are naturals and the source's tests `< 0` never fire.
pub mod Mean
pub mod Retained
pub mod Trimmed
pub mod Vote
pub mod Winner
mod Examples
mod Survivors
use kswarm.Prelude.{
  ℕ, zero, suc, ◌+◌, ◌-◌, ◌*◌, ◌/◌, Bool, true, false, not, ◌&&◌, ◌||◌, Option, none, some, List,
  [], ◌∷◌, map, length, take, get_elem?, ltb, leb, ◌==◌, if◌then◌else◌, ok, err, ◌>>=◌, ◌>>◌,
  raise_if,
}
use kswarm.Prelude.Sort.{sort}
use kswarm.Aggregate.Error.{
  Outcome, bad_trim_bps, zero_weight_total, value_out_of_range, branch_value_out_of_range,
  no_branches_mean, no_branches_trim, no_branches_vote, trim_leaves_nothing, zero_votes,
  index_error,
}

abbrev pub bps_scale : ℕ
bps_scale = 10000

-- `floor(branch_count * trim_bps / 10000)`
pub trim_count_from_bps : ℕ → ℕ → Outcome ℕ
trim_count_from_bps branch_count trim_bps = do
  raise_if (leb bps_scale trim_bps) bad_trim_bps
  ok (branch_count * trim_bps / bps_scale)

-- `_round_half_up`
pub round_half_up : ℕ → ℕ → Outcome ℕ
round_half_up numerator denominator = do
  raise_if (denominator == 0) zero_weight_total
  let value = (numerator * 2 + denominator) / (denominator * 2)
  raise_if (ltb bps_scale value) value_out_of_range
  ok value

-- `_check_bps`
pub check_bps : ℕ → Outcome (Unit {0})
check_bps value = raise_if (ltb bps_scale value) branch_value_out_of_range

-- The loop of `weighted_mean_bps` over its two accumulators.
pub weigh : List (ℕ × ℕ) → ℕ → ℕ → Outcome (ℕ × ℕ)
unfolding check_bps
weigh [] total_weight weighted_sum = ok (total_weight, weighted_sum)
weigh ((value, weight) ∷ values) total_weight weighted_sum = do
  check_bps value
  weigh values (total_weight + weight) (weighted_sum + value * weight)

unfoldable pub weighted_mean_bps : List (ℕ × ℕ) → Outcome ℕ
unfolding weigh round_half_up
weighted_mean_bps [] = err no_branches_mean
weighted_mean_bps (v ∷ vs) = do
  (total_weight, weighted_sum) ← weigh (v ∷ vs) 0 0
  round_half_up weighted_sum total_weight

-- `enumerate(values)`, from an index
pub enumerate : ℕ → List ℕ → List (ℕ × ℕ)
enumerate index [] = []
enumerate index (value ∷ values) = (index, value) ∷ enumerate (index + 1) values

-- `abs(a - b)`
pub distance : ℕ → ℕ → ℕ
distance a b = if leb a b then b - a else a - b

-- `key=lambda item: item[1]`
abbrev pub by_value : ℕ × ℕ → ℕ × ℕ → Bool
by_value (i, v) (j, w) = leb v w

-- `key=lambda item: (-abs(item[1] - median), item[1], item[0])`
abbrev pub by_rejection : ℕ → ℕ × ℕ → ℕ × ℕ → Bool
by_rejection median (i, v) (j, w) =
    let far = distance v median in
    let far' = distance w median in
    ltb far' far || (far == far' && (ltb v w || (v == w && leb i j)))

-- `index in rejected`
pub contains : ℕ → List ℕ → Bool
contains index [] = false
contains index (i ∷ rejected) = index == i || contains index rejected

-- `[value for index, value in enumerate(values) if index not in rejected]`
pub keep : List ℕ → List (ℕ × ℕ) → List ℕ
unfolding contains
keep rejected [] = []
keep rejected ((index, value) ∷ rest) =
    let kept = keep rejected rest in if contains index rejected then kept else value ∷ kept

-- `indexed[len(indexed) // 2][1]`
pub upper_median : List ℕ → Outcome ℕ
upper_median values = elim (get_elem? (sort by_value (enumerate 0 values)) (length values / 2)) [
  | none ↦ err index_error
  | some (index, value) ↦ ok value
]

-- The order in which values are given up.
abbrev pub rejection : ℕ → List ℕ → List (ℕ × ℕ)
rejection median values = sort (by_rejection median) (sort by_value (enumerate 0 values))

pub retained_values : List ℕ → ℕ → Outcome (List ℕ)
unfolding upper_median keep enumerate distance
retained_values [] outlier_count = err no_branches_trim
retained_values (v ∷ vs) outlier_count = do
  let values = v ∷ vs
  raise_if (leb (length values) outlier_count) trim_leaves_nothing
  median ← upper_median values
  let rejected = map (λ item. item.0) (take outlier_count (rejection median values))
  ok (keep rejected (enumerate 0 values))

-- `for value in retained: _check_bps(value)`
pub check_all : List ℕ → Outcome (Unit {0})
unfolding check_bps
check_all [] = ok tt
check_all (value ∷ values) = check_bps value >> check_all values

abbrev pub sum : List ℕ → ℕ
sum [] = 0
sum (x ∷ xs) = x + sum xs

pub trimmed_mean_bps : List ℕ → ℕ → Outcome ℕ
unfolding retained_values check_all round_half_up
trimmed_mean_bps values outlier_count = do
  retained ← retained_values values outlier_count
  check_all retained
  round_half_up (sum retained) (length retained)

-- `totals[category] = totals.get(category, 0) + weight`, on a dict in insertion order.
pub add_vote : ℕ → ℕ → List (ℕ × ℕ) → List (ℕ × ℕ)
add_vote category weight [] = (category, weight) ∷ []
add_vote category weight ((c, w) ∷ totals) =
    if c == category then (c, w + weight) ∷ totals else (c, w) ∷ add_vote category weight totals

-- The loop of `majority_vote`: a vote of weight 0 is skipped.
pub count_votes : List (ℕ × ℕ) → List (ℕ × ℕ) → List (ℕ × ℕ)
unfolding add_vote
count_votes [] totals = totals
count_votes ((category, weight) ∷ votes) totals =
    count_votes votes (if weight == 0 then totals else add_vote category weight totals)

-- `key=lambda item: (-item[1], item[0])`
abbrev pub by_votes : ℕ × ℕ → ℕ × ℕ → Bool
by_votes (c, w) (d, x) = ltb x w || (w == x && leb c d)

-- `sorted(totals.items(), ...)[0][0]`
pub winner : List (ℕ × ℕ) → Outcome ℕ
winner [] = err index_error
winner ((category, weight) ∷ _) = ok category

pub majority_vote : List (ℕ × ℕ) → Outcome ℕ
unfolding count_votes winner
majority_vote [] = err no_branches_vote
majority_vote (v ∷ votes) = do
  let totals = count_votes (v ∷ votes) []
  raise_if (length totals == 0) zero_votes
  winner (sort by_votes totals)
