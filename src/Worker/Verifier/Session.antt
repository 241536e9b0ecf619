-- ===== src/Worker/Verifier/Session.antt =====
-- What the daemon sends: `ProtocolSession` of worker/worker_common/protocol.py, and `_challenge`.
use text.Mathlib.Text.{◌==◌ as str_eq}
use kswarm.Prelude.{Bool, true, false, ◌||◌, Option, none, some, if◌then◌else◌, String}
use kswarm.Prelude.Bytes.{Bytes}
use kswarm.Protocol.Accounts.{Pubkey, JobAccount}
use kswarm.Protocol.Instructions.Jobs.{submit_verifier_attestation_ix}
use kswarm.Protocol.Instructions.Settlement.{challenge_job_ix}
use kswarm.Worker.Action.{Action, pure, raise, ask, or_fail, attempt, emit, when, ◌>>=◌, ◌>>◌}
use kswarm.Worker.World.{Failure, rpc_error, other, failing, World}
use kswarm.Worker.Verifier.{Event, counted, attested, challenged, Verifier}

-- `CHALLENGE_NOT_ASSIGNED_CODES`
pub is_not_assigned : Failure → Bool
is_not_assigned (rpc_error code) =
    str_eq code "ChallengeRequiresAssignedVerifier" || str_eq code "VerifierNotAssigned"
is_not_assigned _ = false

module _ (w : World Event) (v : Verifier) where
  unfoldable pub submit_attestation :
      Pubkey → Bytes → String → Bytes → Action Event Failure (Unit {0})
  submit_attestation job_key result_bytes evidence_cid software_digest =
      let result_hash = w.env.sha256 result_bytes in
      do
        ix ← or_fail (
            failing (λ _. other)
              (submit_verifier_attestation_ix w.env v.proto v.wallet job_key result_hash
                evidence_cid software_digest))
        ask (λ log. w.send log ix)
        emit (attested job_key result_hash evidence_cid software_digest)

  unfoldable pub challenge_job : Pubkey → JobAccount → Action Event Failure (Unit {0})
  challenge_job job_key account = do
    ask (λ log. w.send log (challenge_job_ix w.env v.proto v.wallet job_key account))
    emit (challenged job_key account)

  unfoldable pub challenge_refreshed : Pubkey → Option JobAccount → Action Event Failure (Unit {0})
  unfolding challenge_job
  challenge_refreshed job_key none = pure tt
  challenge_refreshed job_key (some account) = do
    accepted ← attempt (challenge_job job_key account >> pure true) λ e.
        if is_not_assigned e
        then emit (counted "challenges_not_assigned") >> pure false
        else raise e
    when accepted (emit (counted "challenges_submitted"))

  -- `_challenge`
  unfoldable pub challenge : Pubkey → Action Event Failure (Unit {0})
  unfolding challenge_refreshed
  challenge job_key = do
    refreshed ← ask (λ log. w.fetch_job log job_key)
    challenge_refreshed job_key refreshed
