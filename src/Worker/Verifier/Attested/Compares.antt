-- ===== src/Worker/Verifier/Attested/Compares.antt =====
-- `_aggregate_branches_match_chain` and the comparisons of `_verify_and_attest_aggregate` of
-- worker/verifier_worker/daemon.py, against what they are to compare.
use kswarm.Prelude.{
  ◌≡◌, ◌⊎◌, inl, inr, refl, ◌∙◌, ap, Bool, Bool-cases, true, false, not, ◌&&◌, ◌==◌, ◌++◌, Option,
  none, some, List, [], ◌∷◌, ok, All, arith,
}
use kswarm.Prelude.Bytes.{Bytes, bytes_eq, bytes_eq→eq, bytes_eq_self}
use kswarm.Json.{Json}
use kswarm.Protocol.Accounts.{JobAccount}
use kswarm.Worker.Action.{Action, pure, ask, or_fail, ◌>>=◌}
use kswarm.Worker.World.{branch_proof, Failure, World}
use kswarm.Worker.Verifier.{
  Event, AggregateFault, other_framed_digest, other_journal_hash, other_submitted_hash,
  other_receipt_bytes, no_branch_job, not_a_branch_job, other_branch_receipt, Verifier, reason_if,
  is_empty,
}
use kswarm.Worker.Verifier.Reduction.{compare_branch, compare_branches, own_faults}
use kswarm.Worker.Verifier.Attested.{Entry, IsSettled, AllSettled, Carries}

-- A step that only reads, and finds nothing exactly where the statement holds.
pub record Decides (m : Action Event Failure (List AggregateFault)) (log : List Event) (P : Type 0)
    : Type 0 where
  pub faults : List AggregateFault
  pub gives : m log ≡ (ok faults, log)
  pub sound : faults ≡ [] → P
  pub complete : P → faults ≡ []

only : {A : Type 0} (found : Option A) (j k : A) → found ≡ some j → found ≡ some k → k ≡ j
only found j k e f = cc

same_bytes : (a b : Bytes) → a ≡ b → bytes_eq a b ≡ true
same_bytes a b e = rw e (bytes_eq_self b)

pub append-nil : {A : Type 0} (xs ys : List A) → xs ++ ys ≡ [] → (xs ≡ []) × (ys ≡ [])
append-nil [] ys e = (refl, e)
append-nil (x ∷ xs) ys e = absurd (cc)

reason_if-nil : {A : Type 0} (b : Bool) (reason : A) → reason_if b reason ≡ [] → b ≡ false
reason_if-nil true reason e = absurd (cc)
reason_if-nil false reason e = refl

-- A comparison that gave no reason.
equal : {A : Type 0} (a b : Bytes) (reason : A) → reason_if (not (bytes_eq a b)) reason ≡ [] → a ≡ b
equal a b reason e =
    let kept = reason_if-nil (not (bytes_eq a b)) reason e in bytes_eq→eq a b (ground (arith, kept))

equal-nil :
    {A : Type 0} (a b : Bytes) (reason : A) → a ≡ b → reason_if (not (bytes_eq a b)) reason ≡ []
equal-nil a b reason e = rw (same_bytes a b e) refl

module _ (receipt outputs : Bytes) where
  carried :
      {A : Type 0} (reason : A)
      → reason_if (not (is_empty receipt) && not (bytes_eq receipt outputs)) reason ≡ []
      → (receipt ≡ []) ⊎ (receipt ≡ outputs)
  carried reason e = by_test receipt (reason_if-nil _ reason e)
    where
      by_test :
          (receipt : Bytes)
          → (not (is_empty receipt) && not (bytes_eq receipt outputs)) ≡ false
          → (receipt ≡ []) ⊎ (receipt ≡ outputs)
      by_test [] kept = inl refl
      by_test (b ∷ bs) kept = inr (bytes_eq→eq (b ∷ bs) outputs (ground (arith, kept)))

  carried-nil :
      {A : Type 0} (reason : A)
      → (receipt ≡ []) ⊎ (receipt ≡ outputs)
      → reason_if (not (is_empty receipt) && not (bytes_eq receipt outputs)) reason ≡ []
  carried-nil reason (inl e) = rw e refl
  carried-nil reason (inr e) = elim (Bool-cases (is_empty receipt)) [
    | inl empty ↦ rw empty refl
    | inr some_bytes ↦ rw (some_bytes, same_bytes receipt outputs e) refl
  ]

module _ (w : World Event) (v : Verifier) where
  module _ (job : JobAccount) (framed journal_hash outputs : Bytes) where
    pub own_faults_sound :
        own_faults w v job framed journal_hash outputs ≡ []
        → Carries w job framed journal_hash outputs
    unfolding own_faults
    own_faults_sound e =
        let (input, e) = append-nil _ _ e in
        let (expected, e) = append-nil _ _ e in
        let (submitted, bytes) = append-nil _ _ e in
        record {
          input = equal _ _ _ input;
          expected = equal _ _ _ expected;
          submitted = equal _ _ _ submitted;
          bytes = carried _ _ _ bytes;
        }

    pub own_faults_complete :
        Carries w job framed journal_hash outputs
        → own_faults w v job framed journal_hash outputs ≡ []
    unfolding own_faults
    own_faults_complete c =
        rw
          (
            equal-nil {A = AggregateFault} _ _ other_framed_digest c.input,
            equal-nil {A = AggregateFault} _ _ other_journal_hash c.expected,
            equal-nil {A = AggregateFault} _ _ other_submitted_hash c.submitted,
            carried-nil _ _ other_receipt_bytes c.bytes,
          )
          refl

  module _ (log : List Event) (branch : Json) (e : Entry w log branch) where
    by_answer :
        (found : Option JobAccount)
        → e.found ≡ found
        → Decides (compare_branch w v branch e.job_key found) log (IsSettled w log branch e)
    unfolding compare_branch pure or_fail ◌>>=◌
    by_answer none same = record {
      faults = no_branch_job e.job_key ∷ [];
      gives = refl;
      sound = λ impossible. absurd (cc);
      complete = λ (j, found, _, _). absurd (cc);
    }
    by_answer (some j) same = elim (Bool-cases (j.terms.job_class == branch_proof)) [
      | inl is_branch ↦ record {
        faults =
            reason_if (not (bytes_eq e.receipt.result_hash j.result.submitted_result_hash))
              (other_branch_receipt e.job_key);
        gives = rw (is_branch, e.carried, e.decoded, e.received) refl;
        sound = λ kept. (j, same, ground (arith, is_branch), equal _ _ _ kept);
        complete = λ (k, found, _, hash).
            equal-nil _ _ _
              (hash ∙ ap (λ a. a.result.submitted_result_hash) (only e.found j k same found));
      }
      | inr other ↦ record {
        faults = not_a_branch_job e.job_key ∷ [];
        gives = rw other refl;
        sound = λ impossible. absurd (cc);
        complete = λ (k, found, class, _).
            let same_class : k.terms.job_class ≡ j.terms.job_class =
              ap (λ a. a.terms.job_class) (only e.found j k same found) in
            absurd (ground (arith, other, class, same_class));
      }
    ]

    entry-Decides :
        Decides (compare_branch w v branch e.job_key e.found) log (IsSettled w log branch e)
    entry-Decides = by_answer e.found refl

  pub branches-Decides :
      (log : List Event) (branches : List Json) (entries : All (Entry w log) branches)
      → Decides (compare_branches w v branches) log (AllSettled w log branches entries)
  unfolding compare_branches pure ask or_fail ◌>>=◌
  branches-Decides log [] entries = record {
    faults = [];
    gives = refl;
    sound = λ _. tt;
    complete = λ _. refl;
  }
  branches-Decides log (branch ∷ rest) (e, entries) =
      let d = entry-Decides log branch e in
      let ds = branches-Decides log rest entries in
      record {
        faults = d.faults ++ ds.faults;
        gives = rw (e.named, e.parsed, e.answered, d.gives, ds.gives) refl;
        sound = λ nil.
            let (first, others) = append-nil d.faults ds.faults nil in
            (d.sound first, ds.sound others);
        complete = λ (first, others). rw (d.complete first, ds.complete others) refl;
      }
