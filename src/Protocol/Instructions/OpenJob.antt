-- ===== src/Protocol/Instructions/OpenJob.antt =====
-- What the data of an `open_job` instruction of cli/kswarm_cli/protocol.py carries, against a reader of the
-- fields in their order: the on-chain program's view of it.
use mathlib.Core.List.{append-nil}
use kswarm.Prelude.{
  ℕ, ◌≡◌, refl, sym, ◌∙◌, [], ◌++◌, length, drop, drop-append, Result, ok, ◌>>=◌, Ensures,
  Ensures-bind, Ensures-of_Returns,
}
use kswarm.Prelude.Bytes.{Bytes}
use kswarm.Encoding.{Error, anchor_ix_discriminator, u8, u32, u64, read_u8, read_u32, read_u64}
use kswarm.Encoding.Cursor.{Reaches, reach_then, u8-IsRead, u32-IsRead, u64-IsRead}
use kswarm.Protocol.Accounts.{Pubkey}
use kswarm.Protocol.Addresses.{Env, Instruction, ProtocolAddresses, job_pda}
use kswarm.Protocol.Decode.{read_hash}
use kswarm.Protocol.Decode.Job.{read_hash-IsRead}
use kswarm.Protocol.Decode.Layout.{IsHash}
use kswarm.Protocol.Instructions.Jobs.{open_job_ix}

-- The terms a customer opens a job with.
pub record JobOffer : Type 0 where
  pub nonce : ℕ
  pub input_bundle_hash : Bytes
  pub expected_result_hash : Bytes
  pub reward_amount : ℕ
  pub required_stake : ℕ
  pub job_class : ℕ
  pub required_role : ℕ
  pub required_tier : ℕ
  pub required_capability : Bytes
  pub required_digest : Bytes
  pub claim_window_seconds : ℕ
  pub execution_window_seconds : ℕ
  pub challenge_window_seconds : ℕ
  pub challenge_bond : ℕ

-- The fields, in the order of the instruction's data.
pub read_offer : Bytes → ℕ → Result Error (JobOffer × ℕ)
read_offer input offset = do
  (nonce, offset) ← read_u64 input offset
  (input_bundle_hash, offset) ← read_hash input offset
  (expected_result_hash, offset) ← read_hash input offset
  (reward_amount, offset) ← read_u64 input offset
  (required_stake, offset) ← read_u64 input offset
  (job_class, offset) ← read_u8 input offset
  (required_role, offset) ← read_u8 input offset
  (required_tier, offset) ← read_u8 input offset
  (required_capability, offset) ← read_hash input offset
  (required_digest, offset) ← read_hash input offset
  (claim_window_seconds, offset) ← read_u32 input offset
  (execution_window_seconds, offset) ← read_u32 input offset
  (challenge_window_seconds, offset) ← read_u32 input offset
  (challenge_bond, offset) ← read_u64 input offset
  ok (
    record {
      nonce = nonce;
      input_bundle_hash = input_bundle_hash;
      expected_result_hash = expected_result_hash;
      reward_amount = reward_amount;
      required_stake = required_stake;
      job_class = job_class;
      required_role = required_role;
      required_tier = required_tier;
      required_capability = required_capability;
      required_digest = required_digest;
      claim_window_seconds = claim_window_seconds;
      execution_window_seconds = execution_window_seconds;
      challenge_window_seconds = challenge_window_seconds;
      challenge_bond = challenge_bond;
    },
    offset,
  )

abbrev pub offer_ix : Env → ProtocolAddresses → Pubkey → JobOffer → Result Error Instruction
offer_ix env proto customer t =
    open_job_ix env proto customer t.nonce t.input_bundle_hash t.expected_result_hash
      t.reward_amount t.required_stake t.job_class t.required_role t.required_tier
      t.required_capability t.required_digest t.claim_window_seconds t.execution_window_seconds
      t.challenge_window_seconds t.challenge_bond

module _ (env : Env) (proto : ProtocolAddresses) (customer : Pubkey) (t : JobOffer) where
  abbrev ReadsOffer : Instruction → Type 0
  ReadsOffer ix = Reaches (read_offer ix.data_bytes 8) t ix.data_bytes []

  read_back : (ix : Instruction) → ReadsOffer ix → Ensures {E = Error} ReadsOffer (ok ix)
  read_back ix h = Ensures-of_Returns (ok ix) h

  -- Where the tag has 8 bytes and the four hashes 32, the data of an open_job instruction that is
  -- built for an offer, read field by field behind the tag, gives back the offer with nothing left
  -- over.
  pub read_offer-open_job_ix :
      (ix : Instruction)
      → length (anchor_ix_discriminator env.sha256 "open_job") ≡ 8
      → IsHash t.input_bundle_hash
      → IsHash t.expected_result_hash
      → IsHash t.required_capability
      → IsHash t.required_digest
      → offer_ix env proto customer t ≡ ok ix
      → Reaches (read_offer ix.data_bytes 8) t ix.data_bytes []
  unfolding open_job_ix read_offer
  read_offer-open_job_ix ix size input_bundle_hash_ok expected_result_hash_ok required_capability_ok
        required_digest_ok e =
      (Ensures-bind {m = job_pda env proto.program_id customer t.nonce} λ job _.
          Ensures-bind {m = u64 t.nonce} λ nonce nonce_e.
            Ensures-bind {m = u64 t.reward_amount} λ reward_amount reward_amount_e.
              Ensures-bind {m = u64 t.required_stake} λ required_stake required_stake_e.
                Ensures-bind {m = u8 t.job_class} λ job_class job_class_e.
                  Ensures-bind {m = u8 t.required_role} λ required_role required_role_e.
                    Ensures-bind {m = u8 t.required_tier} λ required_tier required_tier_e.
                      Ensures-bind {m = u32 t.claim_window_seconds}
                        λ claim_window_seconds claim_window_seconds_e.
                          Ensures-bind {m = u32 t.execution_window_seconds}
                            λ execution_window_seconds execution_window_seconds_e.
                              Ensures-bind {m = u32 t.challenge_window_seconds}
                                λ challenge_window_seconds challenge_window_seconds_e.
                                  Ensures-bind {m = u64 t.challenge_bond}
                                    λ challenge_bond challenge_bond_e.
                                      let data' =
                                        anchor_ix_discriminator env.sha256 "open_job"
                                        ++ (nonce
                                            ++ (t.input_bundle_hash
                                                ++ (t.expected_result_hash
                                                    ++ (reward_amount
                                                        ++ (required_stake
                                                            ++ (job_class
                                                            ++ (required_role
                                                            ++ (required_tier
                                                            ++ (t.required_capability
                                                            ++ (t.required_digest
                                                            ++ (claim_window_seconds
                                                            ++ (execution_window_seconds
                                                            ++ (challenge_window_seconds
                                                            ++ (challenge_bond)))))))))))))) in
                                      let start : drop 8 data' ≡ (
                                          nonce
                                          ++ (t.input_bundle_hash
                                              ++ (t.expected_result_hash
                                                  ++ (reward_amount
                                                      ++ (required_stake
                                                          ++ (job_class
                                                            ++ (required_role
                                                            ++ (required_tier
                                                            ++ (t.required_capability
                                                            ++ (t.required_digest
                                                            ++ (claim_window_seconds
                                                            ++ (execution_window_seconds
                                                            ++ (challenge_window_seconds
                                                            ++ (challenge_bond)))))))))))))) =
                                        rw size at (
                                          drop-append
                                            (anchor_ix_discriminator env.sha256 "open_job")
                                            (nonce
                                              ++ (t.input_bundle_hash
                                                  ++ (t.expected_result_hash
                                                      ++ (reward_amount
                                                          ++ (required_stake
                                                            ++ (job_class
                                                            ++ (required_role
                                                            ++ (required_tier
                                                            ++ (t.required_capability
                                                            ++ (t.required_digest
                                                            ++ (claim_window_seconds
                                                            ++ (execution_window_seconds
                                                            ++ (challenge_window_seconds
                                                            ++ (challenge_bond))))))))))))))) in
                                      read_back
                                        (record {
                                          program_id = proto.program_id;
                                          data_bytes = data';
                                          accounts = _;
                                        })
                                        (reach_then _
                                          (u64-IsRead t.nonce nonce nonce_e data' 8 _ start)
                                          λ o d.
                                            reach_then _
                                              (read_hash-IsRead t.input_bundle_hash
                                                input_bundle_hash_ok data' o _ d)
                                              λ o d.
                                                reach_then _
                                                  (read_hash-IsRead t.expected_result_hash
                                                    expected_result_hash_ok data' o _ d)
                                                  λ o d.
                                                    reach_then _
                                                      (u64-IsRead t.reward_amount reward_amount
                                                        reward_amount_e data' o _ d)
                                                      λ o d.
                                                        reach_then _
                                                          (u64-IsRead t.required_stake
                                                            required_stake required_stake_e data' o
                                                            _ d)
                                                          λ o d.
                                                            reach_then _
                                                            (u8-IsRead t.job_class job_class
                                                            job_class_e data' o _ d)
                                                            λ o d.
                                                            reach_then _
                                                            (u8-IsRead t.required_role required_role
                                                            required_role_e data' o _ d)
                                                            λ o d.
                                                            reach_then _
                                                            (u8-IsRead t.required_tier required_tier
                                                            required_tier_e data' o _ d)
                                                            λ o d.
                                                            reach_then _
                                                            (read_hash-IsRead t.required_capability
                                                            required_capability_ok data' o _ d)
                                                            λ o d.
                                                            reach_then _
                                                            (read_hash-IsRead t.required_digest
                                                            required_digest_ok data' o _ d)
                                                            λ o d.
                                                            reach_then _
                                                            (u32-IsRead t.claim_window_seconds
                                                            claim_window_seconds
                                                            claim_window_seconds_e data' o _ d)
                                                            λ o d.
                                                            reach_then _
                                                            (u32-IsRead t.execution_window_seconds
                                                            execution_window_seconds
                                                            execution_window_seconds_e data' o _ d)
                                                            λ o d.
                                                            reach_then _
                                                            (u32-IsRead t.challenge_window_seconds
                                                            challenge_window_seconds
                                                            challenge_window_seconds_e data' o _ d)
                                                            λ o d.
                                                            reach_then _
                                                            (u64-IsRead t.challenge_bond
                                                            challenge_bond challenge_bond_e data' o
                                                            []
                                                            (d ∙ sym (append-nil challenge_bond)))
                                                            λ o d. record {
                                                            stop = o;
                                                            reads = refl;
                                                            left = d;
                                                            })).at
        ix e
