-- ===== src/Worker/Runner/Honest/Quiet.antt =====
-- The steps of the runner that add nothing to the log but metrics.
use kswarm.Prelude.{refl, not, Option, none, some, List, [], ◌∷◌, String, Result}
use kswarm.Json.{Json, get}
use kswarm.Protocol.Accounts.{JobAccount}
use kswarm.Worker.Action.{
  Action, pure, raise, ask, or_fail, emit, Logs, Logs-silent, Logs-attempt, Logs-if, Logs-bind,
  Logs-emit, ◌>>◌,
}
use kswarm.Worker.World.{Failure, World}
use kswarm.Worker.Runner.{Run, Event, counted, saved, Runner}
use kswarm.Worker.Runner.Bind.{
  check_branch, check_branches, check_branches_against_chain, compare_with_plan, check_document,
  check_artifact_against_plan, bind_artifact, bind_committed_artifact,
}
use kswarm.Worker.Runner.Honest.{IsHonest}

module _ (w : World Event) (unprefixed : String → String) (r : Runner) where
  pub asks :
      {A : Type 0} (answer : List Event → Result Failure A)
      → Logs (IsHonest w unprefixed r) (ask answer)
  unfolding ask
  asks answer = Logs-silent (IsHonest w unprefixed r) (ask answer) λ h. refl

  pub gives :
      {A : Type 0} (m : Result Failure A) → Logs (IsHonest w unprefixed r) (or_fail {E = Event} m)
  unfolding or_fail
  gives m = Logs-silent (IsHonest w unprefixed r) (or_fail m) λ h. refl

  pub returns :
      {A : Type 0} (a : A) → Logs (IsHonest w unprefixed r) (pure {E = Event} {F = Failure} a)
  unfolding pure
  returns a = Logs-silent (IsHonest w unprefixed r) (pure a) λ h. refl

  pub raises :
      {A : Type 0} (e : Failure) → Logs (IsHonest w unprefixed r) (raise {E = Event} {A = A} e)
  unfolding raise
  raises e = Logs-silent (IsHonest w unprefixed r) (raise e) λ h. refl

  pub counts :
      (metric : String) → Logs {F = Failure} (IsHonest w unprefixed r) (emit (counted metric))
  counts metric = Logs-emit (IsHonest w unprefixed r) (counted metric) tt

  pub saves : (run : Run) → Logs {F = Failure} (IsHonest w unprefixed r) (emit (saved run))
  saves run = Logs-emit (IsHonest w unprefixed r) (saved run) tt

  pub counts_then :
      {A : Type 0} (metric : String) (m : Action Event Failure A)
      → Logs (IsHonest w unprefixed r) m
      → Logs (IsHonest w unprefixed r) (emit (counted metric) >> m)
  counts_then metric m lm = Logs-bind (IsHonest w unprefixed r) (counts metric) λ _ _. lm

  check_branch-Logs :
      (branch : Json) (job : Option JobAccount)
      → Logs (IsHonest w unprefixed r) (check_branch w r branch job)
  unfolding check_branch
  check_branch-Logs branch none = raises _
  check_branch-Logs branch (some job) = Logs-bind _ (gives _) λ _ _. Logs-bind _ (gives _) λ _ _.
      Logs-bind _ (gives _) λ _ _.
        Logs-bind _ (gives _)
          λ _ _. Logs-bind _ (gives _) λ _ _. Logs-bind _ (gives _) λ _ _. gives _

  check_branches-Logs :
      (branches : List Json) → Logs (IsHonest w unprefixed r) (check_branches w r branches)
  unfolding check_branches
  check_branches-Logs [] = returns _
  check_branches-Logs (branch ∷ rest) = Logs-bind _ (gives _) λ _ _. Logs-bind _ (gives _) λ _ _.
      Logs-bind _ (gives _) λ _ _.
        Logs-bind _ (asks _)
          λ job _. Logs-bind _ (check_branch-Logs branch job) λ _ _. check_branches-Logs rest

  pub bind_committed_artifact-Logs :
      (job : JobAccount) → Logs (IsHonest w unprefixed r) (bind_committed_artifact w r job)
  unfolding bind_committed_artifact bind_artifact check_branches_against_chain
      check_artifact_against_plan check_document compare_with_plan
  bind_committed_artifact-Logs job = Logs-bind _ (asks _) λ artifact _. Logs-bind _ (gives _) λ _ _.
      Logs-bind _ (gives _) λ _ _. Logs-bind _ (gives _) λ _ _. Logs-bind _ (gives _) λ _ _.
        Logs-bind _ (gives _) λ _ _. Logs-bind _ (gives _) λ _ _. Logs-bind _ (gives _) λ _ _.
          Logs-bind _
            (Logs-bind _ (gives _) λ _ _.
              Logs-bind _ (gives _)
                λ _ _. Logs-bind _ (gives _) λ branches _. check_branches-Logs branches)
            λ _ _.
              Logs-bind _
                (Logs-bind _ (gives _) λ _ _. Logs-bind _ (gives _) λ document _.
                  Logs-if _ (not (w.truthy (get document "aggregate_plan_cid"))) (λ _. returns _)
                    λ _. Logs-bind _ (Logs-attempt _ (asks _) λ e. raises _) λ _ _.
                      Logs-bind _ (gives _) λ plan _. Logs-bind _ (gives _) λ _ _.
                        Logs-bind _ (gives _) λ _ _. Logs-bind _ (gives _) λ _ _.
                          Logs-bind _ (gives _) λ _ _. Logs-bind _ (gives _) λ _ _.
                            Logs-bind _ (gives _) λ _ _. Logs-bind _ (gives _) λ _ _. gives _)
                λ _ _. returns _
