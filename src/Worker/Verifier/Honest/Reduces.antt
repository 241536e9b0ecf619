-- ===== src/Worker/Verifier/Honest/Reduces.antt =====
-- An aggregate job: what `_verify_and_attest_aggregate` of worker/verifier_worker/daemon.py adds to
-- the log, and the whole pass.
use kswarm.Prelude.{
  ◌≡◌, ◌≢◌, ◌∙◌, sym, ap, inl, inr, refl, ◌++◌, if◌then◌else◌, Bool, true, false, not, ◌==◌, ◌&&◌,
  &&_true, Option, none, some, List, [], ◌∷◌, Result, ok, err, All,
}
use kswarm.Prelude.Bytes.{Bytes, bytes_eq, bytes_eq→eq, bytes_eq_self}
use kswarm.Json.{Json}
use kswarm.Prelude.Int.{ℤ}
use kswarm.Aggregate.Journal.{AggregateJournal}
use kswarm.Protocol.Accounts.{Pubkey, JobAccount}
use kswarm.Worker.Action.{
  ask, or_fail, Logs, MayReturn, Logs-attempt, Logs-if, Logs-bind, Logs-when,
}
use kswarm.Worker.World.{branch_proof, zero_hash, failing, aggregate_failure, Failure, World}
use kswarm.Worker.Verifier.{
  Event, Verifier, AggregateFault, is_empty, matches_attestable_branch_job,
  matches_attestable_aggregate_job,
}
use kswarm.Worker.Verifier.Reduction.{
  compare_branch, compare_branches, attested_digest, aggregate_branches_match_chain,
  attest_reduction, attest_artifact, verify_and_attest_aggregate,
}
use kswarm.Worker.Verifier.Run.{run_job, run_jobs, run_once}
use kswarm.Worker.Verifier.Honest.{
  Names, IsListed, IsReduced, IsAggregateAttestation, aggregate, IsHonest,
}
use kswarm.Worker.Verifier.Honest.Quiet.{
  asks, gives, returns, counts, counts_then, submit_attestation-Logs, challenge-Logs,
}
use kswarm.Worker.Verifier.Honest.Attests.{verify_and_attest-Logs}

module _ (w : World Event) (v : Verifier) (is_past : ℤ → Bool) where
  compare_branch-Logs :
      (entry : Json) (job_key : Pubkey) (found : Option JobAccount)
      → Logs (IsHonest w v is_past) (compare_branch w v entry job_key found)
  unfolding compare_branch
  compare_branch-Logs entry job_key none = returns w v is_past _
  compare_branch-Logs entry job_key (some branch_job) =
      Logs-if _ (not (branch_job.terms.job_class == branch_proof)) (λ _. returns w v is_past _)
        λ _. Logs-bind _ (gives w v is_past _) λ _ _. Logs-bind _ (gives w v is_past _) λ _ _.
          Logs-bind _ (gives w v is_past _)
            λ _ _. Logs-bind _ (gives w v is_past _) λ _ _. returns w v is_past _

  compare_branches-Logs :
      (branches : List Json) → Logs (IsHonest w v is_past) (compare_branches w v branches)
  unfolding compare_branches
  compare_branches-Logs [] = returns w v is_past _
  compare_branches-Logs (entry ∷ rest) = Logs-bind _ (gives w v is_past _) λ _ _.
      Logs-bind _ (gives w v is_past _) λ _ _. Logs-bind _ (gives w v is_past _) λ job_key _.
        Logs-bind _ (asks w v is_past _) λ found _.
          Logs-bind _ (compare_branch-Logs entry job_key found)
            λ _ _. Logs-bind _ (compare_branches-Logs rest) λ _ _. returns w v is_past _

  aggregate_branches_match_chain-Logs :
      (artifact : Bytes) → Logs (IsHonest w v is_past) (aggregate_branches_match_chain w v artifact)
  unfolding aggregate_branches_match_chain
  aggregate_branches_match_chain-Logs artifact = Logs-bind _ (gives w v is_past _) λ _ _.
      Logs-bind _ (gives w v is_past _)
        λ _ _. Logs-bind _ (gives w v is_past _) λ branches _. compare_branches-Logs branches

  -- The guard of the challenge.
  differs : (a b : Bytes) (on : Bool) → (not (bytes_eq a b) && on) ≡ true → (a ≢ b) × (on ≡ true)
  differs a b on h =
      let (apart, enabled) = &&_true (not (bytes_eq a b)) on h in
      (λ e. let same : bytes_eq a b ≡ true = rw e (bytes_eq_self b) in absurd (cc), enabled)

  named :
      (job : JobAccount) (b : Bool)
      → bytes_eq job.terms.required_software_digest zero_hash ≡ b
      → Names v job (if b then v.software_digest else job.terms.required_software_digest)
  named job true e = inl (bytes_eq→eq _ _ e, refl)
  named job false e = inr (
    λ same.
        let equal : bytes_eq job.terms.required_software_digest zero_hash ≡ true =
          rw same (bytes_eq_self zero_hash) in
        absurd (cc),
    refl,
  )

  pub attested_digest-Names : (job : JobAccount) → Names v job (attested_digest w v job)
  unfolding attested_digest
  attested_digest-Names job = named job (bytes_eq job.terms.required_software_digest zero_hash) refl

  attest_reduction-Logs :
      (job_key : Pubkey) (job : JobAccount) (journal : AggregateJournal) (outputs : Bytes)
      (errors : List AggregateFault)
      → IsReduced w v is_past job_key job outputs
      → Logs (IsHonest w v is_past) (attest_reduction w v job_key job outputs journal errors)
  unfolding attest_reduction
  attest_reduction-Logs job_key job journal outputs errors known =
      let hash = w.env.sha256 outputs in
      let submitted = job.result.submitted_result_hash in
      let honest : IsAggregateAttestation w v is_past job_key hash (attested_digest w v job) =
        record {
          job = job;
          outputs = outputs;
          known = known;
          own_hash = refl;
          named_digest = attested_digest-Names job;
        } in
      Logs-bind _ (asks w v is_past _) λ cid _.
        Logs-bind _
          (submit_attestation-Logs w v is_past job_key outputs cid (attested_digest w v job)
            (inr honest))
          λ _ _. Logs-bind _ (counts w v is_past _) λ _ _.
            Logs-bind _
              (Logs-when _ (not (is_empty errors)) _ λ _. Logs-bind _ (counts w v is_past _) λ _ _.
                Logs-when _ (not (bytes_eq hash submitted) && v.challenge_on_mismatch) _ λ guard.
                  let (apart, on) = differs hash submitted v.challenge_on_mismatch guard in
                  challenge-Logs w v is_past job_key (aggregate job outputs known apart) on)
              λ _ _. returns w v is_past true

  succeeded :
      {X A : Type 0} (f : X → Failure) (r : Result X A) (a : A)
      → MayReturn {E = Event} (or_fail (failing f r)) a
      → r ≡ ok a
  unfolding or_fail
  succeeded f (ok b) a may = let e = may.returns in cc
  succeeded f (err x) a may = let e = may.returns in absurd (cc)

  verify_and_attest_aggregate-Logs :
      (job_key : Pubkey) (job : JobAccount)
      → IsListed w v is_past job_key job
      → matches_attestable_aggregate_job v is_past job ≡ true
      → Logs (IsHonest w v is_past) (verify_and_attest_aggregate w v job_key job)
  unfolding verify_and_attest_aggregate attest_artifact ask
  verify_and_attest_aggregate-Logs job_key job listed attestable =
      Logs-bind _ (asks w v is_past _) λ artifact asked.
        Logs-bind _ (gives w v is_past _) λ framed _.
          Logs-bind _ (gives w v is_past _) λ journal reduced.
            Logs-bind _ (gives w v is_past _) λ outputs committed.
              Logs-bind _ (gives w v is_past _) λ hash _.
                Logs-bind _ (aggregate_branches_match_chain-Logs artifact) λ errors _.
                  attest_reduction-Logs job_key job journal outputs _ (record {
                    listed = listed;
                    attestable = attestable;
                    fetched_at = asked.before;
                    artifact = artifact;
                    fetched = asked.returns;
                    journal = journal;
                    reduced = succeeded aggregate_failure _ journal reduced;
                    committed = succeeded aggregate_failure _ outputs committed;
                  })

  run_job-Logs :
      (job_key : Pubkey) (job : JobAccount)
      → IsListed w v is_past job_key job
      → Logs (IsHonest w v is_past) (run_job w v is_past job_key job)
  unfolding run_job
  run_job-Logs job_key job listed =
      Logs-if _ (matches_attestable_aggregate_job v is_past job)
        (λ attestable.
          Logs-attempt _ (verify_and_attest_aggregate-Logs job_key job listed attestable)
            λ e. counts_then w v is_past _ false)
        λ _.
          Logs-if _ (matches_attestable_branch_job v is_past job)
            (λ attestable.
              Logs-attempt _ (verify_and_attest-Logs w v is_past job_key job listed attestable)
                λ e. counts_then w v is_past _ false)
            λ _. returns w v is_past false

  shifted :
      {A : Type 0} (before : List A) (x : A) (rest : List A)
      → (before ++ (x ∷ [])) ++ rest ≡ before ++ (x ∷ rest)
  shifted [] x rest = refl
  shifted (b ∷ before) x rest = ap (b ∷◌) (shifted before x rest)

  -- The loop, over the jobs that are left of those that the cluster listed.
  run_jobs-Logs :
      (log : List Event) (jobs before left : List (Pubkey × JobAccount))
      → w.fetch_jobs log ≡ ok jobs
      → jobs ≡ before ++ left
      → Logs (IsHonest w v is_past) (run_jobs w v is_past left)
  unfolding run_jobs
  run_jobs-Logs log jobs before [] listed among = returns w v is_past 0
  run_jobs-Logs log jobs before ((job_key, job) ∷ left) listed among =
      Logs-bind _
        (run_job-Logs job_key job (record {
          listed_at = log;
          jobs = jobs;
          listed = listed;
          before = before;
          after = left;
          among = among;
        }))
        λ _ _.
          Logs-bind _
            (run_jobs-Logs log jobs (before ++ ((job_key, job) ∷ [])) left listed
              (among ∙ sym (shifted before (job_key, job) left)))
            λ _ _. returns w v is_past _

  -- Whatever the executor, IPFS and the cluster answer, a pass over the jobs keeps the log honest.
  -- Each attestation is for a job that the cluster listed under the logged key and that passes the
  -- filter of its class. On a branch job its hash is that of the verifier's own result for the
  -- input and the output that IPFS gave for the job's CIDs, it is the worker's hash only where the
  -- receipt has no fault, and its digest is the verifier's; on an aggregate job it is the hash of
  -- the outputs to which the artifact that IPFS gave for the job's CID reduces, with the job's
  -- required digest, or the verifier's where that is zero. Each challenge is enabled by the
  -- configuration, carries an account that the cluster gave for the key, and rests on a listed
  -- branch job whose verification did not match, or whose receipt has a fault while the hashes
  -- differ, or on a listed aggregate job whose hash differs from the submitted one.
  pub run_once-Honest :
      (log : List Event)
      → All (IsHonest w v is_past) log
      → All (IsHonest w v is_past) ((run_once w v is_past log).1)
  unfolding run_once ask
  run_once-Honest =
      (Logs-bind _ (asks w v is_past _)
        λ jobs asked. run_jobs-Logs asked.before jobs [] jobs asked.returns refl).at
