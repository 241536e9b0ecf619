-- ===== src/Protocol/Decode/Others.antt =====
-- Which accounts the decoders of cli/kswarm_cli/protocol.py refuse.
use kswarm.Prelude.{
  ◌≡◌, ◌≢◌, ◌∙◌, sym, refl, Bool-cases, inl, inr, Option, length, take, String, Result, ok, err,
  ◌>>=◌,
}
use kswarm.Prelude.Bytes.{Bytes, bytes_eq, bytes_eq→eq}
use kswarm.Encoding.Cursor.{discriminator_lengths}
use kswarm.Protocol.Accounts.{
  ProtocolConfigAccount, WorkerAccount, JobAccount, BonsolAggregateVerificationAccount,
}
use kswarm.Encoding.{Error, bad_discriminator, anchor_account_discriminator}
use kswarm.Protocol.Decode.{check_disc, decode_config, decode_worker, decode_job, decode_marker}

-- The account's bytes do not begin with the tag of the account type.
abbrev pub IsForeign : (Bytes → Bytes) → String → Bytes → Type 0
IsForeign sha256 name input =
    take (length (anchor_account_discriminator sha256 name)) input
    ≢ anchor_account_discriminator sha256 name

refused :
    (input expected : Bytes)
    → take (length expected) input ≢ expected
    → check_disc input expected ≡ err bad_discriminator
unfolding check_disc
refused input expected foreign =
    elim (Bool-cases (bytes_eq (take (length expected) input) expected)) [
      | inl same ↦ absurd (foreign (bytes_eq→eq _ _ same))
      | inr other ↦ rw other refl
    ]

-- The account types, by the names under which their tags are hashed.
pub data AccountKind : Type 0 where
  config worker job marker : AccountKind

abbrev pub name_of : AccountKind → String
name_of config = "ProtocolConfig"
name_of worker = "Worker"
name_of job = "Job"
name_of marker = "BonsolAggregateVerification"

abbrev pub IsRefused : (Bytes → Bytes) → (Bytes → Option String) → AccountKind → Bytes → Type 0
IsRefused sha256 decode config input = decode_config sha256 input ≡ err bad_discriminator
IsRefused sha256 decode worker input = decode_worker sha256 input ≡ err bad_discriminator
IsRefused sha256 decode job input = decode_job decode sha256 input ≡ err bad_discriminator
IsRefused sha256 decode marker input = decode_marker sha256 input ≡ err bad_discriminator

-- The bytes are decoded as an account of the kind.
abbrev pub IsDecoded : (Bytes → Bytes) → (Bytes → Option String) → AccountKind → Bytes → Type 0
IsDecoded sha256 decode config input =
    (a : ProtocolConfigAccount) × (decode_config sha256 input ≡ ok a)
IsDecoded sha256 decode worker input = (a : WorkerAccount) × (decode_worker sha256 input ≡ ok a)
IsDecoded sha256 decode job input = (a : JobAccount) × (decode_job decode sha256 input ≡ ok a)
IsDecoded sha256 decode marker input =
    (a : BonsolAggregateVerificationAccount) × (decode_marker sha256 input ≡ ok a)

abbrev pub tag_of : (Bytes → Bytes) → AccountKind → Bytes
tag_of sha256 kind = anchor_account_discriminator sha256 (name_of kind)

module _ (sha256 : Bytes → Bytes) (decode : Bytes → Option String) where
  -- A decoder that passes on what follows its check has found the tag.
  found_tag :
      {A : Type 0} (m : Result Error A) (input expected : Bytes) (a : A)
      → (check_disc input expected >>= λ _. m) ≡ ok a
      → take (length expected) input ≡ expected
  unfolding check_disc
  found_tag m input expected a e =
      elim (Bool-cases (bytes_eq (take (length expected) input) expected)) [
        | inl same ↦ bytes_eq→eq _ _ same
        | inr other ↦ let impossible = rw other at e in absurd (cc)
      ]

  decoded-tag :
      (kind : AccountKind) (input : Bytes)
      → IsDecoded sha256 decode kind input
      → take (length (tag_of sha256 kind)) input ≡ tag_of sha256 kind
  unfolding decode_config decode_worker decode_job decode_marker
  decoded-tag config input (a, e) = found_tag _ input _ a e
  decoded-tag worker input (a, e) = found_tag _ input _ a e
  decoded-tag job input (a, e) = found_tag _ input _ a e
  decoded-tag marker input (a, e) = found_tag _ input _ a e

  foreign-IsRefused :
      (kind : AccountKind) (input : Bytes)
      → IsForeign sha256 (name_of kind) input
      → IsRefused sha256 decode kind input
  unfolding decode_config decode_worker decode_job decode_marker
  foreign-IsRefused config input foreign = rw (refused input _ foreign) refl
  foreign-IsRefused worker input foreign = rw (refused input _ foreign) refl
  foreign-IsRefused job input foreign = rw (refused input _ foreign) refl
  foreign-IsRefused marker input foreign = rw (refused input _ foreign) refl

  -- Where SHA-256 gives 32 bytes and two account kinds have different tags, bytes that are decoded
  -- as an account of the one kind are refused by the decoder of the other, with the error of a
  -- wrong discriminator: for configurations, workers, jobs and markers.
  pub decoded_once :
      (kind other : AccountKind) (input : Bytes)
      → ((b : Bytes) → length (sha256 b) ≡ 32)
      → tag_of sha256 kind ≢ tag_of sha256 other
      → IsDecoded sha256 decode kind input
      → IsRefused sha256 decode other input
  decoded_once kind other input size apart decoded = foreign-IsRefused other input λ same.
      let one = (discriminator_lengths sha256 (name_of kind) size).1 in
      let two = (discriminator_lengths sha256 (name_of other) size).1 in
      let first : take 8 input ≡ tag_of sha256 kind = rw one at (decoded-tag kind input decoded) in
      let second : take 8 input ≡ tag_of sha256 other = rw two at same in
      absurd (apart (sym first ∙ second))
