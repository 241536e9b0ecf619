-- ===== src/Aggregate/Combiner/Vote.antt =====
-- `majority_vote` of cli/kswarm_cli/aggregate.py against the plain count of the weights.
use mathlib.Core.List.{Permᴰ}
use kswarm.Prelude.{
  ℕ, ◌+◌, ◌≤◌, ◌<◌, ◌≡◌, ◌≢◌, refl, sym, ◌∙◌, subst, ◌⊎◌, inl, inr, true, List, [], ◌∷◌, arith, All,
  ◌==◌, if◌then◌else◌, Bool-cases,
}
use kswarm.Prelude.Sort.{IsSorted}
use kswarm.Aggregate.Combiner.{add_vote, count_votes, by_votes}
use kswarm.Aggregate.Combiner.Survivors.{All-permᴰ}

-- The weight that the votes give a category.
unfoldable pub tally : ℕ → List (ℕ × ℕ) → ℕ
tally c [] = 0
tally c ((d, w) ∷ votes) = (if c == d then w else 0) + tally c votes

tally-add_vote :
    (c category weight : ℕ) (totals : List (ℕ × ℕ))
    → tally c (add_vote category weight totals)
      ≡ (if c == category then weight else 0) + tally c totals
unfolding tally add_vote
tally-add_vote c category weight [] = refl
tally-add_vote c category weight ((d, w) ∷ totals) =
    ground (arith, tally-add_vote c category weight totals)

pub tally_cons :
    (c d w : ℕ) (votes : List (ℕ × ℕ))
    → tally c ((d, w) ∷ votes) ≡ (if c == d then w else 0) + tally c votes
unfolding tally
tally_cons c d w votes = refl

pub tally-count_votes :
    (c : ℕ) (votes totals : List (ℕ × ℕ))
    → tally c (count_votes votes totals) ≡ tally c votes + tally c totals
unfolding count_votes
tally-count_votes c [] totals = unfold tally in omega arith
tally-count_votes c ((d, w) ∷ votes) totals = elim (Bool-cases (w == 0)) [
  | inl e ↦ rw e (ground (arith, tally-count_votes c votes totals, tally_cons c d w votes))
  | inr e ↦ rw e (
      ground (
        arith,
        tally-count_votes c votes (add_vote d w totals),
        tally-add_vote c d w totals,
        tally_cons c d w votes,
      ))
]

-- The categories of a table of totals, each once and with a weight above 0.
abbrev pub IsTable : List (ℕ × ℕ) → Type 0
IsTable [] = Unit
IsTable ((c, w) ∷ totals) = (0 < w) × All (λ e. c ≢ e.0) totals × IsTable totals

add_vote-absent :
    (c category weight : ℕ) (totals : List (ℕ × ℕ))
    → c ≢ category
    → All (λ e. c ≢ e.0) totals
    → All (λ e. c ≢ e.0) (add_vote category weight totals)
unfolding add_vote
add_vote-absent c category weight [] h hs = (h, tt)
add_vote-absent c category weight ((d, w) ∷ totals) h hs = elim (Bool-cases (d == category)) [
  | inl e ↦ rw e hs
  | inr e ↦ rw e (hs.0, add_vote-absent c category weight totals h hs.1)
]

add_vote-IsTable :
    (category weight : ℕ) (totals : List (ℕ × ℕ))
    → 0 < weight
    → IsTable totals
    → IsTable (add_vote category weight totals)
unfolding add_vote
add_vote-IsTable category weight [] h t = (h, tt, tt)
add_vote-IsTable category weight ((d, w) ∷ totals) h t = elim (Bool-cases (d == category)) [
  | inl e ↦ rw e (omega arith, t.1, t.2)
  | inr e ↦ rw e (
    t.0,
    add_vote-absent d category weight totals (ground (arith, e)) t.1,
    add_vote-IsTable category weight totals h t.2,
  )
]

pub count_votes-IsTable :
    (votes totals : List (ℕ × ℕ)) → IsTable totals → IsTable (count_votes votes totals)
unfolding count_votes
count_votes-IsTable [] totals t = t
count_votes-IsTable ((d, w) ∷ votes) totals t = elim (Bool-cases (w == 0)) [
  | inl e ↦ rw e (count_votes-IsTable votes totals t)
  | inr e ↦ rw e (
      count_votes-IsTable votes (add_vote d w totals)
        (add_vote-IsTable d w totals (ground (arith, e)) t))
]

pub IsTable-permᴰ : {xs ys : List (ℕ × ℕ)} → Permᴰ xs ys → IsTable xs → IsTable ys
IsTable-permᴰ Permᴰ.nil t = t
IsTable-permᴰ (Permᴰ.cons {a = x} {b = y} {l₂ = ys} e p) t =
    subst (λ (z : ℕ × ℕ). IsTable (z ∷ ys)) e (t.0, All-permᴰ _ p t.1, IsTable-permᴰ p t.2)
IsTable-permᴰ (Permᴰ.swap {a = x} {b = y} {l = xs} e e') t =
    subst (λ (z : (ℕ × ℕ) × (ℕ × ℕ)). IsTable (z.0 ∷ z.1 ∷ xs)) (λ i. (e' i, e i))
      (t.2.0, ((λ q. t.1.0 (sym q)), t.2.1), (t.0, t.1.1, t.2.2))
IsTable-permᴰ (Permᴰ.trans p q) t = IsTable-permᴰ q (IsTable-permᴰ p t)

pub tally-permᴰ : (c : ℕ) {xs ys : List (ℕ × ℕ)} → Permᴰ xs ys → tally c xs ≡ tally c ys
unfolding tally
tally-permᴰ c Permᴰ.nil = refl
tally-permᴰ c (Permᴰ.cons e p) = ground (arith, e, tally-permᴰ c p)
tally-permᴰ c (Permᴰ.swap e e') = ground (arith, e, e')
tally-permᴰ c (Permᴰ.trans p q) = tally-permᴰ c p ∙ tally-permᴰ c q

tally_absent : (c : ℕ) (totals : List (ℕ × ℕ)) → All (λ e. c ≢ e.0) totals → tally c totals ≡ 0
unfolding tally
tally_absent c [] h = refl
tally_absent c ((d, w) ∷ totals) h = ground (arith, h.0, tally_absent c totals h.1)

-- `d` has less weight than `c`, or as much and no lower number.
abbrev pub Beats : ℕ → ℕ → ℕ → ℕ → Type 0
Beats c w d x = (x < w) ⊎ ((x ≡ w) × (c ≤ d))

Beats-rest :
    (c w d : ℕ) (rest : List (ℕ × ℕ))
    → 0 < w
    → IsTable rest
    → All (λ e. by_votes (c, w) e ≡ true) rest
    → Beats c w d (tally d rest)
unfolding tally
Beats-rest c w d [] h t b = inl h
Beats-rest c w d ((e, x) ∷ rest) h t b =
    ground (arith, b.0, Beats-rest c w d rest h t.2 b.1, tally_absent e rest t.1)

-- `c` is the category with the most weight, the lowest one among those.
pub record Wins (c : ℕ) (votes : List (ℕ × ℕ)) : Type 0 where
  pub voted : 0 < tally c votes
  pub beats : (d : ℕ) → Beats c (tally c votes) d (tally d votes)

pub first-Wins :
    (c w : ℕ) (rest : List (ℕ × ℕ))
    → IsTable ((c, w) ∷ rest)
    → IsSorted by_votes ((c, w) ∷ rest)
    → Wins c ((c, w) ∷ rest)
first-Wins c w rest t s =
    let own : tally c ((c, w) ∷ rest) ≡ w =
      ground (arith, tally_cons c c w rest, tally_absent c rest t.1) in
    record {
      voted = rw own t.0;
      beats = λ d. rw own (
          ground (
            arith,
            tally_cons d c w rest,
            Beats-rest c w d rest t.0 t.2 s.0,
            tally_absent c rest t.1,
          ));
    }
