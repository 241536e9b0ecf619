-- ===== src/Worker/Verifier/Attested.antt =====
-- What one round of `run_once` in worker/verifier_worker/daemon.py owes an attestable aggregate job,
-- when IPFS and the cluster answer, said without the daemon's comparisons. The rounds are in
-- Attested/Settles, the comparisons in Attested/Compares.
pub mod Compares
pub mod Settles
use kswarm.Prelude.{
  ◌≡◌, ◌≢◌, ◌⊎◌, Bool, true, false, Option, some, List, [], ◌∷◌, String, ok, All, length, ◌<◌, ◌^◌,
}
use kswarm.Prelude.Bytes.{Bytes}
use kswarm.Prelude.Int.{ℤ}
use kswarm.Prelude.Text.{utf8}
use kswarm.Json.{Json, str}
use kswarm.Bonsol.{framed_input_digest}
use kswarm.Aggregate.Receipt.{BranchReceipt, parse_branch_result_bytes}
use kswarm.Aggregate.Journal.{
  AggregateJournal, aggregate_journal, aggregate_committed_outputs, expected_journal_hash,
}
use kswarm.Protocol.Accounts.{Pubkey, JobAccount}
use kswarm.Protocol.Addresses.{Instruction}
use kswarm.Worker.World.{branch_proof, entry, as_list, World}
use kswarm.Worker.Verifier.{
  Event, counted, attested, challenged, AggregateFault, Evidence, Verifier,
  matches_attestable_aggregate_job,
}

module _ (w : World Event) where
  -- An entry of the artifact's `branches` that can be read, and the cluster's answer for its job.
  pub record Entry (log : List Event) (branch : Json) : Type 0 where
    pub job_text : String
    pub job_key : Pubkey
    pub found : Option JobAccount
    pub hex : String
    pub raw : Bytes
    pub receipt : BranchReceipt
    pub named : entry "job" branch ≡ ok (str job_text)
    pub parsed : w.parse_key job_text ≡ some job_key
    pub answered : w.fetch_job log job_key ≡ ok found
    pub carried : entry "result_bytes" branch ≡ ok (str hex)
    pub decoded : w.fromhex hex ≡ some raw
    pub received : parse_branch_result_bytes w.env.sha256 raw ≡ ok receipt

  -- The entry's receipt is the one that settled its branch job.
  abbrev pub IsSettled : (log : List Event) (branch : Json) → Entry log branch → Type 0
  IsSettled log branch e =
      (j : JobAccount) × (e.found ≡ some j)
      × (j.terms.job_class ≡ branch_proof)
      × (e.receipt.result_hash ≡ j.result.submitted_result_hash)

  abbrev pub AllSettled :
      (log : List Event) (branches : List Json) → All (Entry log) branches → Type 0
  AllSettled log [] entries = Unit
  AllSettled log (branch ∷ rest) entries =
      IsSettled log branch entries.0 × AllSettled log rest entries.1

  -- The job and its receipt carry the digests and the outputs that the artifact has.
  pub record Carries (job : JobAccount) (framed journal_hash outputs : Bytes) : Type 0 where
    pub input : framed ≡ job.result.input_bundle_hash
    pub expected : journal_hash ≡ job.result.expected_result_hash
    pub submitted : w.env.sha256 outputs ≡ job.result.submitted_result_hash
    pub bytes : (job.result.result_bytes ≡ []) ⊎ (job.result.result_bytes ≡ outputs)

module _ (w : World Event) (v : Verifier) (is_past : ℤ → Bool) where
  -- The job is attestable, its committed artifact reduces and its branch entries can be read; the
  -- evidence is published, whatever it is, and the cluster accepts what is sent.
  pub record IsAnswered (log : List Event) (job_key : Pubkey) (job : JobAccount) : Type 0 where
    pub attestable : matches_attestable_aggregate_job v is_past job ≡ true
    pub artifact : Bytes
    pub framed : Bytes
    pub outputs : Bytes
    pub journal_hash : Bytes
    pub journal : AggregateJournal
    pub document : Json
    pub found : Json
    pub branches : List Json
    pub fetched : w.cat_bytes log job.result.input_cid ≡ ok artifact
    pub framing : framed_input_digest w.env.sha256 artifact ≡ ok framed
    pub reduced : aggregate_journal w.env.sha256 w.loads artifact ≡ ok journal
    pub committed : aggregate_committed_outputs journal.reduction ≡ ok outputs
    pub hashed : expected_journal_hash w.env.sha256 journal ≡ ok journal_hash
    pub loaded : w.loads artifact ≡ some document
    pub listed : entry "branches" document ≡ ok found
    pub elements : as_list found ≡ ok branches
    pub entries : All (Entry w log) branches
    pub published :
        (evidence : Evidence)
        → (cid : String) × (v.add_json log evidence ≡ ok cid) × (length (utf8 cid) < 256 ^ 4)
    pub accepted : (log : List Event) (ix : Instruction) → w.send log ix ≡ ok tt
    pub refreshed :
        (log : List Event) → (account : JobAccount) × (w.fetch_job log job_key ≡ ok (some account))

  module _ (log : List Event) (job_key : Pubkey) (job : JobAccount)
      (h : IsAnswered log job_key job) where
    -- The job, its receipt and its branch jobs agree with the artifact.
    abbrev pub InAgreement : Type 0
    InAgreement =
        Carries w job h.framed h.journal_hash h.outputs × AllSettled w log h.branches h.entries

    -- The log after the attestation.
    abbrev pub attested_log : String → Bytes → List Event
    attested_log cid digest =
        counted "aggregate_attestations_submitted"
        ∷ attested job_key (w.env.sha256 h.outputs) cid digest
        ∷ log

    -- The reasons in the evidence, and the log after the round: the attestation alone where all agree, else also the mismatch, and the
    -- challenge of the account, as it then is, where the hashes differ and the verifier challenges.
    pub data Outcome (cid : String) (digest : Bytes) (errors : List AggregateFault)
        : List Event → Type 0 where
      agreed : InAgreement → errors ≡ [] → Outcome cid digest errors (attested_log cid digest)
      unchallenged :
          ¬ InAgreement
          → errors ≢ []
          → (w.env.sha256 h.outputs ≡ job.result.submitted_result_hash)
            ⊎ (v.challenge_on_mismatch ≡ false)
          → Outcome cid digest errors (counted "aggregate_mismatches" ∷ attested_log cid digest)
      disputed :
          ¬ InAgreement
          → errors ≢ []
          → w.env.sha256 h.outputs ≢ job.result.submitted_result_hash
          → v.challenge_on_mismatch ≡ true
          → (account : JobAccount)
          → w.fetch_job (counted "aggregate_mismatches" ∷ attested_log cid digest) job_key
            ≡ ok (some account)
          → Outcome cid digest errors (
              counted "challenges_submitted"
              ∷ challenged job_key account
              ∷ counted "aggregate_mismatches"
              ∷ attested_log cid digest)
