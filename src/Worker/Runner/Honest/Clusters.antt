-- ===== src/Worker/Runner/Honest/Clusters.antt =====
-- Where a proof is needed: `_resolve_allow_unproven` of worker/aggregator_runner/runner.py.
use text.Mathlib.Text.{◌==◌ as str_eq}
use kswarm.Prelude.{
  ◌≡◌, ◌⊎◌, inl, inr, refl, Bool, true, false, not, String, ok, err, if◌then◌else◌,
}
use kswarm.Protocol.Accounts.{JobAccount}
use kswarm.Worker.World.{aggregation_error, World}
use kswarm.Worker.Runner.{
  AggregateBinding, Event, Runner, has_hook, needs_proof, resolve_allow_unproven,
}
use kswarm.Worker.Runner.Honest.{Takes}

module _ (w : World Event) (unprefixed : String → String) (r : Runner) where
  -- On a cluster that needs proofs, a runner whose setting was resolved for it has a hook for
  -- every job it takes.
  pub Takes-proven :
      (setting cluster : String) (job : JobAccount) (binding : AggregateBinding)
      → resolve_allow_unproven r.hook_command setting cluster ≡ ok r.allow_unproven
      → needs_proof cluster ≡ true
      → Takes w unprefixed r job binding
      → has_hook r.hook_command ≡ true
  unfolding resolve_allow_unproven
  Takes-proven setting cluster job binding resolved needed takes =
      settle (has_hook r.hook_command) (str_eq setting "1") r.allow_unproven (rw needed at resolved)
        takes.provable
    where
      settle :
          (hook wanted unproven : Bool)
          → (if hook then ok false else if not wanted then ok false else err aggregation_error)
            ≡ ok unproven
          → (hook ≡ true) ⊎ (unproven ≡ true)
          → hook ≡ true
      settle true wanted unproven e h = refl
      settle false true unproven e h = absurd (cc)
      settle false false unproven e (inl h) = h
      settle false false unproven e (inr h) = absurd (cc)
