-- ===== src/Bonsol/Examples.antt =====
-- Framings and journals of short inputs.
use kswarm.Prelude.{◌≡◌, refl, ◌⊎◌, [], ◌∷◌, ◌++◌, ok}
use kswarm.Prelude.Bytes.{Bytes}
use kswarm.Prelude.Digest.{Collision}
use kswarm.Prelude.Words.{le_bytes, pack}
use kswarm.Samples.{toy_sha256}
use kswarm.Bonsol.{framed_input, framed_input_digest, journal_hash}
use kswarm.Bonsol.Binding.{framed_input-injective, framed_input_digest-binds, journal_hash-binds}

abbrev payload : Bytes
payload = 7 ∷ 8 ∷ []

abbrev framed : Bytes
framed = 2 ∷ 0 ∷ 0 ∷ 0 ∷ 0 ∷ 0 ∷ 0 ∷ 0 ∷ 7 ∷ 8 ∷ []

payload-framed : framed_input payload ≡ ok framed
unfolding framed_input pack
payload-framed = refl

payload_digest : framed_input_digest toy_sha256 payload ≡ ok (toy_sha256 framed)
unfolding framed_input_digest pack
payload_digest = refl

framed_input-injective_example : payload ≡ payload
framed_input-injective_example =
    framed_input-injective payload payload framed payload-framed payload-framed

framed_input_digest-binds_example : (payload ≡ payload) ⊎ Collision toy_sha256
framed_input_digest-binds_example =
    framed_input_digest-binds toy_sha256 payload payload (toy_sha256 framed) payload_digest
      payload_digest

abbrev digest : Bytes
digest = le_bytes 32 5

journal : journal_hash toy_sha256 digest payload ≡ ok (toy_sha256 (digest ++ payload))
unfolding journal_hash le_bytes
journal = refl

journal_hash-binds_example : ((digest ≡ digest) × (payload ≡ payload)) ⊎ Collision toy_sha256
journal_hash-binds_example =
    journal_hash-binds toy_sha256 digest digest payload payload (toy_sha256 (digest ++ payload))
      journal journal
