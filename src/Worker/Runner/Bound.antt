-- ===== src/Worker/Runner/Bound.antt =====
-- What worker/aggregator_runner/runner.py has checked when it goes on: of the committed artifact,
-- and of the execution that the hook reports.
use text.Mathlib.Text.{◌==◌ as str_eq}
use kswarm.Prelude.{
  ℕ, ◌≡◌, ◌≢◌, ◌≤◌, ◌<◌, ◌∙◌, sym, ap, List, refl, Bool, true, false, not, ◌||◌, ltb, ◌==◌, ◌++◌,
  length, String, Option, some, Result, ok, err, raise_if, arith, Ensures-bind, Ensures-of_Returns,
}
use kswarm.Prelude.Bytes.{Bytes, bytes_eq, bytes_eq→eq, bytes_eq_self}
use kswarm.Prelude.Text.{utf8}
use kswarm.Json.{Json, Fields, get, obj}
use kswarm.Bonsol.{framed_input_digest}
use kswarm.Aggregate.Journal.{aggregate_committed_outputs, aggregate_journal, expected_journal_hash}
use kswarm.Protocol.Accounts.{JobAccount}
use kswarm.Worker.Action.{MayReturn, MayReturn-bind, MayReturn-pure, ask, or_fail}
use kswarm.Worker.World.{Failure, hook_error, aggregation_error, failing, zero_hash, World}
use kswarm.Worker.Runner.{AggregateBinding, BonsolBinding, Event, HookRequest, Runner}
use kswarm.Worker.Runner.Hook.{
  hex_value, hex_digest, text_value, parse_fields, parse_hook_output, check_binding_against_job,
}
use kswarm.Worker.Runner.Bind.{refuse_if, bind_artifact, bind_committed_artifact}
use kswarm.Worker.Runner.Submit.{run_hook}

-- The hook's values agree with one another.
pub record IsConsistent (sha256 : Bytes → Bytes) (b : BonsolBinding) : Type 0 where
  pub id_short : length (utf8 b.execution_id) ≤ 32
  pub image_id : length b.image_id ≡ 32
  pub outputs_some : 0 < length b.committed_outputs
  pub outputs_short : length b.committed_outputs ≤ 512
  pub output_digest : sha256 b.committed_outputs ≡ b.output_digest
  pub journal_hash : sha256 (b.input_digest ++ b.committed_outputs) ≡ b.journal_hash

-- The execution is of the claim that the job was opened with.
pub record IsOfJob (job : JobAccount) (binding : AggregateBinding) (b : BonsolBinding)
    : Type 0 where
  pub outputs : b.committed_outputs ≡ binding.committed_outputs
  pub artifact : b.input_digest ≡ binding.journal.input_digest
  pub input : b.input_digest ≡ job.result.input_bundle_hash
  pub image : b.image_id ≡ job.terms.required_software_digest
  pub journal : b.journal_hash ≡ job.result.expected_result_hash

-- A test of the hook's that has not raised.
unraised : {u : Unit {0}} (b : Bool) → raise_if b hook_error ≡ ok u → b ≡ false
unraised true h = absurd (cc)
unraised false h = refl

same_when : (a b : Bytes) → not (bytes_eq a b) ≡ false → a ≡ b
same_when a b h = bytes_eq→eq a b (ground (arith, h))

equal_bytes : {u : Unit {0}} (a b : Bytes) → raise_if (not (bytes_eq a b)) hook_error ≡ ok u → a ≡ b
equal_bytes a b h = same_when a b (unraised (not (bytes_eq a b)) h)

within : {u : Unit {0}} (n bound : ℕ) → raise_if (ltb bound n) hook_error ≡ ok u → n ≤ bound
within n bound h = let kept = unraised (ltb bound n) h in ground (arith, kept)

counted_bytes :
    {u : Unit {0}} (n : ℕ)
    → raise_if ((n == 0) || ltb 512 n) hook_error ≡ ok u
    → (0 < n) × (n ≤ 512)
counted_bytes n h = let kept = unraised ((n == 0) || ltb 512 n) h in ground (arith, kept)

has_size : {u : Unit {0}} (n : ℕ) → raise_if (not (n == 32)) hook_error ≡ ok u → n ≡ 32
has_size n h = let kept = unraised (not (n == 32)) h in ground (arith, kept)

module _ (w : World Event) (unprefixed : String → String) where
  hex_digest-length :
      (payload : Fields) (name : String) (raw : Bytes)
      → hex_digest w unprefixed payload name ≡ ok raw
      → length raw ≡ 32
  unfolding hex_digest
  hex_digest-length payload name raw e =
      (Ensures-bind {P = λ raw. length raw ≡ 32} {m = hex_value w unprefixed (get payload name)}
          λ bytes _.
            Ensures-bind {m = raise_if (not (length bytes == 32)) hook_error}
              λ _ size. Ensures-of_Returns (ok bytes) (has_size (length bytes) size)).at
        raw e

  parse_fields-IsConsistent :
      (payload : Fields) (b : BonsolBinding)
      → parse_fields w unprefixed payload ≡ ok b
      → IsConsistent w.env.sha256 b
  unfolding parse_fields
  parse_fields-IsConsistent payload b e =
      (Ensures-bind {P = IsConsistent w.env.sha256}
          {m = text_value w unprefixed (get payload "execution_id")}
          λ id _. Ensures-bind {m = raise_if (str_eq id "") hook_error} λ _ _.
            Ensures-bind {m = raise_if (ltb 32 (length (utf8 id))) hook_error} λ _ id_short.
              Ensures-bind {m = hex_digest w unprefixed payload "image_id"} λ image image_e.
                Ensures-bind {m = hex_digest w unprefixed payload "input_digest"} λ input _.
                  Ensures-bind {m = hex_digest w unprefixed payload "output_digest"} λ output _.
                    Ensures-bind {m = hex_digest w unprefixed payload "journal_hash"} λ journal _.
                      Ensures-bind {m = hex_value w unprefixed (get payload "committed_outputs")}
                        λ outputs _.
                          Ensures-bind
                            {m = raise_if ((length outputs == 0) || ltb 512 (length outputs))
                              hook_error}
                            λ _ sized.
                              Ensures-bind
                                {m = raise_if (not (bytes_eq (w.env.sha256 outputs) output))
                                  hook_error}
                                λ _ same_output.
                                  Ensures-bind
                                    {m = raise_if
                                      (not (bytes_eq (w.env.sha256 (input ++ outputs)) journal))
                                      hook_error}
                                    λ _ same_journal. Ensures-of_Returns (ok _) (record {
                                      id_short = within (length (utf8 id)) 32 id_short;
                                      image_id = hex_digest-length payload "image_id" image image_e;
                                      outputs_some = (counted_bytes (length outputs) sized).0;
                                      outputs_short = (counted_bytes (length outputs) sized).1;
                                      output_digest =
                                          equal_bytes (w.env.sha256 outputs) output same_output;
                                      journal_hash =
                                          equal_bytes (w.env.sha256 (input ++ outputs)) journal
                                            same_journal;
                                    })).at
        b e

  parse_hook_output-IsConsistent :
      (stdout : Bytes) (b : BonsolBinding)
      → parse_hook_output w unprefixed stdout ≡ ok b
      → IsConsistent w.env.sha256 b
  unfolding parse_hook_output
  parse_hook_output-IsConsistent stdout b e = by_document (w.loads stdout) e
    where
      by_document :
          (d : Option Json)
          → (elim d as (λ _. Result Failure BonsolBinding) [
            | some (obj payload) ↦ parse_fields w unprefixed payload
            | _ ↦ err hook_error
          ])
            ≡ ok b
          → IsConsistent w.env.sha256 b
      by_document (some (obj payload)) e = parse_fields-IsConsistent payload b e
      by_document _ e = absurd (cc)

check_binding-IsOfJob :
    (execution : BonsolBinding) (job : JobAccount) (binding : AggregateBinding)
    → check_binding_against_job execution job binding ≡ ok tt
    → IsOfJob job binding execution
unfolding check_binding_against_job
check_binding-IsOfJob x job binding e =
    (Ensures-bind {P = λ _. IsOfJob job binding x}
        {m = raise_if (not (bytes_eq x.committed_outputs binding.committed_outputs)) hook_error}
        λ _ outputs.
          Ensures-bind
            {m = raise_if (not (bytes_eq x.input_digest binding.journal.input_digest)) hook_error}
            λ _ artifact.
              Ensures-bind
                {m = raise_if (not (bytes_eq x.input_digest job.result.input_bundle_hash))
                  hook_error}
                λ _ input.
                  Ensures-bind
                    {m = raise_if (not (bytes_eq x.image_id job.terms.required_software_digest))
                      hook_error}
                    λ _ image. record {
                      at = λ u journal. record {
                        outputs = equal_bytes _ _ outputs;
                        artifact = equal_bytes _ _ artifact;
                        input = equal_bytes _ _ input;
                        image = equal_bytes _ _ image;
                        journal =
                            equal_bytes x.journal_hash job.result.expected_result_hash journal;
                      };
                    }).at
      tt e

gave : {A : Type 0} (m : Result Failure A) {a : A} → MayReturn {E = Event} (or_fail m) a → m ≡ ok a
unfolding or_fail
gave m may = may.returns

unfailed :
    {X A : Type 0} (f : X → Failure) (m : Result X A) {a : A}
    → MayReturn {E = Event} (or_fail (failing f m)) a
    → m ≡ ok a
unfailed f (ok b) may = let e = gave (ok b) may in cc
unfailed f (err x) {a} may = let e = gave (err (f x)) may in absurd (cc)

unrefused : {u : Unit {0}} (b : Bool) → MayReturn {E = Event} (refuse_if b) u → b ≡ false
unrefused true may = let e = gave (err aggregation_error) may in absurd (cc)
unrefused false may = refl

-- The artifact is the one that the job was opened against, and its journal the one that it expects.
pub record IsBound (w : World Event) (job : JobAccount) (b : AggregateBinding) : Type 0 where
  pub framed : framed_input_digest w.env.sha256 b.artifact ≡ ok job.result.input_bundle_hash
  pub reduced : aggregate_journal w.env.sha256 w.loads b.artifact ≡ ok b.journal
  pub expected : expected_journal_hash w.env.sha256 b.journal ≡ ok job.result.expected_result_hash
  pub committed : aggregate_committed_outputs b.journal.reduction ≡ ok b.committed_outputs
  pub digest : job.terms.required_software_digest ≢ zero_hash

module _ (w : World Event) (r : Runner) where
  bind_artifact-IsBound :
      (job : JobAccount) (artifact : Bytes) (b : AggregateBinding)
      → MayReturn (bind_artifact w r job artifact) b
      → IsBound w job b
  unfolding bind_artifact
  bind_artifact-IsBound job artifact b may =
      let (digest, may_digest, may) = MayReturn-bind may in
      let (_, may_framed, may) = MayReturn-bind may in
      let (journal, may_journal, may) = MayReturn-bind may in
      let (hash, may_hash, may) = MayReturn-bind may in
      let (outputs, may_outputs, may) = MayReturn-bind may in
      let (_, may_expected, may) = MayReturn-bind may in
      let (_, may_zero, may) = MayReturn-bind may in
      let (_, _, may) = MayReturn-bind may in
      let (_, _, may) = MayReturn-bind may in
      let framed = same_when digest job.result.input_bundle_hash (unrefused _ may_framed) in
      let expected = same_when hash job.result.expected_result_hash (unrefused _ may_expected) in
      rw (MayReturn-pure may) (record {
        framed = unfailed _ _ may_digest ∙ ap ok framed;
        reduced = unfailed _ _ may_journal;
        expected = unfailed _ _ may_hash ∙ ap ok expected;
        committed = unfailed _ _ may_outputs;
        digest = λ e.
            let same : bytes_eq job.terms.required_software_digest zero_hash ≡ true =
              rw e (bytes_eq_self zero_hash) in
            let apart =
              unrefused (bytes_eq job.terms.required_software_digest zero_hash) may_zero in
            absurd (cc);
      })

  bind_artifact-artifact :
      (job : JobAccount) (artifact : Bytes) (b : AggregateBinding)
      → MayReturn (bind_artifact w r job artifact) b
      → b.artifact ≡ artifact
  unfolding bind_artifact
  bind_artifact-artifact job artifact b may =
      let (_, _, may) = MayReturn-bind may in
      let (_, _, may) = MayReturn-bind may in
      let (_, _, may) = MayReturn-bind may in
      let (_, _, may) = MayReturn-bind may in
      let (_, _, may) = MayReturn-bind may in
      let (_, _, may) = MayReturn-bind may in
      let (_, _, may) = MayReturn-bind may in
      let (_, _, may) = MayReturn-bind may in
      let (_, _, may) = MayReturn-bind may in ap (λ b. b.artifact) (MayReturn-pure may)

  -- The artifact is what IPFS gave for the job's CID.
  pub bind_committed_artifact-fetched :
      (job : JobAccount) (b : AggregateBinding)
      → MayReturn (bind_committed_artifact w r job) b
      → (log : List Event) × (w.cat_bytes log job.result.input_cid ≡ ok b.artifact)
  unfolding bind_committed_artifact ask
  bind_committed_artifact-fetched job b may =
      let (artifact, asked, rest) = MayReturn-bind may in
      (asked.before, asked.returns ∙ ap ok (sym (bind_artifact-artifact job artifact b rest)))

  pub bind_committed_artifact-IsBound :
      (job : JobAccount) (b : AggregateBinding)
      → MayReturn (bind_committed_artifact w r job) b
      → IsBound w job b
  unfolding bind_committed_artifact
  bind_committed_artifact-IsBound job b may =
      let (artifact, _, rest) = MayReturn-bind may in bind_artifact-IsBound job artifact b rest

  module _ (unprefixed : String → String) where
    pub run_hook-accepted :
        (command : String) (request : HookRequest) (job : JobAccount) (b : BonsolBinding)
        → MayReturn (run_hook w unprefixed r command request job) b
        → IsConsistent w.env.sha256 b × IsOfJob job request.binding b
    unfolding run_hook
    run_hook-accepted command request job b may =
        let (stdout, _, may) = MayReturn-bind may in
        let (execution, may_parsed, may) = MayReturn-bind may in
        let (_, may_checked, may) = MayReturn-bind may in
        rw (MayReturn-pure may) (
          parse_hook_output-IsConsistent w unprefixed stdout execution (gave _ may_parsed),
          check_binding-IsOfJob execution job request.binding (gave _ may_checked),
        )
