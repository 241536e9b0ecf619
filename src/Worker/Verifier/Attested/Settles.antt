-- ===== src/Worker/Verifier/Attested/Settles.antt =====
-- One round of `run_once` of worker/verifier_worker/daemon.py over an attestable aggregate job.
use kswarm.Prelude.{
  ◌≡◌, ◌≢◌, inl, inr, refl, Bool, Bool-cases, true, false, ◌++◌, List, [], ◌∷◌, String, ok,
  Result-cases, length, ◌<◌, ◌^◌,
}
use kswarm.Prelude.Bytes.{Bytes, bytes_eq, bytes_eq→eq, bytes_eq_self}
use kswarm.Prelude.Int.{ℤ}
use kswarm.Prelude.Text.{utf8}
use kswarm.Encoding.Cursor.{encode_string_lem}
use kswarm.Protocol.Accounts.{Pubkey, JobAccount}
use kswarm.Protocol.Addresses.{Instruction}
use kswarm.Protocol.Instructions.Jobs.{submit_verifier_attestation_ix}
use kswarm.Protocol.Instructions.Settlement.{challenge_job_ix}
use kswarm.Worker.Action.{pure, ask, or_fail, attempt, emit, ◌>>=◌}
use kswarm.Worker.World.{World}
use kswarm.Worker.Verifier.{
  Event, counted, challenged, Verifier, AggregateFault, aggregate_evidence,
}
use kswarm.Worker.Verifier.Session.{
  submit_attestation, challenge_job, challenge_refreshed, challenge,
}
use kswarm.Worker.Verifier.Reduction.{
  aggregate_branches_match_chain, own_faults, attested_digest, attest_reduction, attest_artifact,
  verify_and_attest_aggregate,
}
use kswarm.Worker.Verifier.Run.{run_job}
use kswarm.Worker.Verifier.Honest.{Names}
use kswarm.Worker.Verifier.Honest.Reduces.{attested_digest-Names}
use kswarm.Worker.Verifier.Attested.{
  AllSettled, IsAnswered, InAgreement, attested_log, Outcome, agreed, unchallenged, disputed,
}
use kswarm.Worker.Verifier.Attested.Compares.{
  Decides, append-nil, own_faults_sound, own_faults_complete, branches-Decides,
}

unequal : (a b : Bytes) → bytes_eq a b ≡ false → a ≢ b
unequal a b apart e = let same : bytes_eq a b ≡ true = rw e (bytes_eq_self b) in absurd (cc)

module _ (w : World Event) (v : Verifier) (is_past : ℤ → Bool) where
  -- The instruction is built for an evidence CID that fits its length field.
  encoded :
      (job_key : Pubkey) (hash digest : Bytes) (cid : String)
      → length (utf8 cid) < 256 ^ 4
      → (ix : Instruction) × (submit_verifier_attestation_ix w.env v.proto v.wallet job_key hash cid
            digest
          ≡ ok ix)
  unfolding submit_verifier_attestation_ix
  encoded job_key hash digest cid short =
      elim (Result-cases
        (submit_verifier_attestation_ix w.env v.proto v.wallet job_key hash cid digest)) [
          | inl (ix, e) ↦ (ix, e)
          | inr (x, e) ↦ let impossible = rw (encode_string_lem cid short) at e in absurd (cc)
        ]

  module _ (log : List Event) (job_key : Pubkey) (job : JobAccount)
      (h : IsAnswered w v is_past log job_key job) where
    chain-Decides :
        Decides
          (aggregate_branches_match_chain w v h.artifact)
          log
          (AllSettled w log h.branches h.entries)
    unfolding aggregate_branches_match_chain or_fail ◌>>=◌
    chain-Decides =
        let d = branches-Decides w v log h.branches h.entries in
        record {
          faults = d.faults;
          gives = rw (h.loaded, h.listed, h.elements, d.gives) refl;
          sound = d.sound;
          complete = d.complete;
        }

    -- All the reasons that the daemon finds.
    faults : List AggregateFault
    faults = own_faults w v job h.framed h.journal_hash h.outputs ++ chain-Decides.faults

    faults_sound : faults ≡ [] → InAgreement w v is_past log job_key job h
    unfolding faults
    faults_sound none_found =
        let (own, chain) = append-nil _ chain-Decides.faults none_found in
        (own_faults_sound w v job h.framed h.journal_hash h.outputs own, chain-Decides.sound chain)

    faults_complete : InAgreement w v is_past log job_key job h → faults ≡ []
    unfolding faults
    faults_complete (own, chain) =
        rw
          (
            own_faults_complete w v job h.framed h.journal_hash h.outputs own,
            chain-Decides.complete chain,
          )
          refl

    -- A round that ends with the attestation and what follows it.
    record Round (errors : List AggregateFault) : Type 0 where
      pub cid : String
      pub after : List Event
      pub published :
          v.add_json log (aggregate_evidence job_key job h.outputs errors h.journal) ≡ ok cid
      pub outcome : Outcome w v is_past log job_key job h cid (attested_digest w v job) errors after
      pub reaches :
          attest_reduction w v job_key job h.outputs h.journal errors log ≡ (ok true, after)

    attest_reduction-Round :
        (errors : List AggregateFault)
        → (errors ≡ [] → InAgreement w v is_past log job_key job h)
        → (InAgreement w v is_past log job_key job h → errors ≡ [])
        → Round errors
    unfolding attest_reduction submit_attestation challenge challenge_refreshed challenge_job pure
        ask or_fail attempt emit ◌>>=◌ attested_digest
    attest_reduction-Round [] sound complete =
        let (cid, published, short) =
          h.published (aggregate_evidence job_key job h.outputs [] h.journal) in
        let (ix, e) =
          encoded job_key (w.env.sha256 h.outputs) (attested_digest w v job) cid short in
        record {
          cid = cid;
          after = attested_log w v is_past log job_key job h cid (attested_digest w v job);
          published = published;
          outcome = agreed (sound refl) refl;
          reaches = rw (published, e, h.accepted log ix) refl;
        }
    attest_reduction-Round (fault ∷ more) sound complete =
        let (cid, published, short) =
          h.published (aggregate_evidence job_key job h.outputs (fault ∷ more) h.journal) in
        let digest = attested_digest w v job in
        let (ix, e) = encoded job_key (w.env.sha256 h.outputs) digest cid short in
        let submitted = job.result.submitted_result_hash in
        let mismatched =
          counted "aggregate_mismatches" ∷ attested_log w v is_past log job_key job h cid digest in
        let some_found : fault ∷ more ≢ [] = λ none_found. absurd (cc) in
        let apart : ¬ InAgreement w v is_past log job_key job h =
          λ agreement. let impossible = complete agreement in absurd (cc) in
        elim (Bool-cases (bytes_eq (w.env.sha256 h.outputs) submitted)) [
          | inl same ↦ record {
            cid = cid;
            after = mismatched;
            published = published;
            outcome = unchallenged apart some_found (inl (bytes_eq→eq _ _ same));
            reaches = rw (published, e, h.accepted log ix, same) refl;
          }
          | inr differs ↦ elim (Bool-cases v.challenge_on_mismatch) [
            | inl on ↦
                let (account, refreshed) = h.refreshed mismatched in
                record {
                  cid = cid;
                  after = counted "challenges_submitted" ∷ challenged job_key account ∷ mismatched;
                  published = published;
                  outcome = disputed apart some_found (unequal _ _ differs) on account refreshed;
                  reaches =
                      rw
                        (
                          published,
                          e,
                          h.accepted log ix,
                          differs,
                          on,
                          refreshed,
                          h.accepted mismatched
                              (challenge_job_ix w.env v.proto v.wallet job_key account),
                        )
                        refl;
                }
            | inr off ↦ record {
              cid = cid;
              after = mismatched;
              published = published;
              outcome = unchallenged apart some_found (inr off);
              reaches = rw (published, e, h.accepted log ix, differs, off) refl;
            }
          ]
        ]

    round : Round faults
    round = attest_reduction-Round faults faults_sound faults_complete

  -- A round over an attestable aggregate job, whose artifact IPFS gives and which reduces, whose
  -- branch entries can be read, where the evidence is published with a CID of less than 2^32
  -- bytes, the cluster accepts what is sent and gives an account for the job, returns true. The
  -- log gains one attestation, to the hash of the artifact's outputs, with the digest that the job
  -- requires, or the verifier's own where that is zero, and with the CID of the published
  -- evidence, and its metric. The evidence gives a reason exactly where, of the following,
  -- something disagrees. The log gains nothing else where the job's framed digest, expected
  -- journal hash and submitted hash, its receipt if it carries one, and the settled branch job of
  -- every entry agree with the artifact. Where they do not all agree, it also gains the mismatch
  -- metric, and, exactly where the submitted hash is another one and the verifier challenges, a
  -- challenge of the account that the cluster then gives, with its metric.
  pub run_job-attested :
      (log : List Event) (job_key : Pubkey) (job : JobAccount)
      (h : IsAnswered w v is_past log job_key job)
      → (cid : String) × (digest : Bytes) × (after : List Event) × (errors : List AggregateFault)
        × Names v job digest
        × (v.add_json log (aggregate_evidence job_key job h.outputs errors h.journal) ≡ ok cid)
        × Outcome w v is_past log job_key job h cid digest errors after
        × (run_job w v is_past job_key job log ≡ (ok true, after))
  unfolding run_job verify_and_attest_aggregate attest_artifact faults ask or_fail attempt ◌>>=◌
  run_job-attested log job_key job h =
      let r = round log job_key job h in
      (
        r.cid,
        attested_digest w v job,
        r.after,
        faults log job_key job h,
        attested_digest-Names w v is_past job,
        r.published,
        r.outcome,
        rw
            (
              h.attestable,
              h.fetched,
              h.framing,
              h.reduced,
              h.committed,
              h.hashed,
              (chain-Decides log job_key job h).gives,
              r.reaches,
            )
            refl,
      )
