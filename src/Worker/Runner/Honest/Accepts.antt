-- ===== src/Worker/Runner/Honest/Accepts.antt =====
-- An execution that `_prove_bonsol` of worker/aggregator_runner/runner.py returns has been checked.
use kswarm.Prelude.{inl, inr, Bool, true, false, Option, none, some, String, if◌then◌else◌}
use kswarm.Protocol.Accounts.{JobAccount}
use kswarm.Worker.Action.{
  raise, emit, MayReturn, MayReturn-bind, MayReturn-pure, MayReturn-attempt, raise_returns, ◌>>◌,
}
use kswarm.Worker.World.{Failure, aggregation_error, World}
use kswarm.Worker.Runner.{AggregateBinding, BonsolBinding, Run, Event, counted, Runner, has_hook}
use kswarm.Worker.Runner.Submit.{is_hook_error, prove_with, prove_bonsol}
use kswarm.Worker.Runner.Bound.{IsConsistent, IsOfJob, run_hook-accepted}

module _ (w : World Event) (unprefixed : String → String) (r : Runner) where
  handler_raises :
      {B : Type 0} (hook : Bool) (e : Failure) (b : BonsolBinding)
      → MayReturn
          (if hook then emit (counted "bonsol_hook_failed") >> raise e else raise {E = Event} e)
          b
      → B
  handler_raises true e b may = let (_, _, rest) = MayReturn-bind may in raise_returns e rest
  handler_raises false e b may = raise_returns e may

  prove_with-accepted :
      (command : Option String) (run : Run) (job : JobAccount) (binding : AggregateBinding)
      (b : BonsolBinding)
      → MayReturn (prove_with w unprefixed r command run job binding) b
      → IsConsistent w.env.sha256 b × IsOfJob job binding b
  unfolding prove_with
  prove_with-accepted none run job binding b may = raise_returns aggregation_error may
  prove_with-accepted (some command) run job binding b may =
      let (execution, tried, may) = MayReturn-bind may in
      let (_, _, may) = MayReturn-bind may in
      let same = MayReturn-pure may in
      elim (MayReturn-attempt tried) [
        | inl ran ↦ rw same (run_hook-accepted w r unprefixed command _ job execution ran)
        | inr (e, handled) ↦ handler_raises (is_hook_error e) e execution handled
      ]

  accepted_if :
      (hook : Bool) (run : Run) (job : JobAccount) (binding : AggregateBinding) (b : BonsolBinding)
      → MayReturn
          (if hook
            then prove_with w unprefixed r r.hook_command run job binding
            else raise aggregation_error)
          b
      → IsConsistent w.env.sha256 b × IsOfJob job binding b
  accepted_if true run job binding b may = prove_with-accepted r.hook_command run job binding b may
  accepted_if false run job binding b may = raise_returns aggregation_error may

  pub prove_bonsol-accepted :
      (run : Run) (job : JobAccount) (binding : AggregateBinding) (b : BonsolBinding)
      → MayReturn (prove_bonsol w unprefixed r run job binding) b
      → IsConsistent w.env.sha256 b × IsOfJob job binding b
  unfolding prove_bonsol
  prove_bonsol-accepted run job binding b may =
      accepted_if (has_hook r.hook_command) run job binding b may
