-- ===== src/Bonsol/Binding.antt =====
-- What the framing and the journal rule of cli/kswarm_cli/bonsol.py bind.
use kswarm.Prelude.{◌≡◌, sym, ◌∙◌, ◌⊎◌, ◌++◌, length, ok, ap, >>=-eq-ok, arith, append-cancel}
use kswarm.Prelude.Bytes.{Bytes}
use kswarm.Prelude.Digest.{Collision, same_or_Collision, map_inl}
use kswarm.Prelude.Words.{le_bytes, pack, length-le_bytes}
use kswarm.Bonsol.{framed_input, framed_input_digest, journal_hash}

framed_eq :
    (payload framed : Bytes)
    → framed_input payload ≡ ok framed
    → framed ≡ le_bytes 8 (length payload) ++ payload
unfolding framed_input pack
framed_eq payload framed e = ground arith

pub framed_input-injective :
    (a b framed : Bytes) → framed_input a ≡ ok framed → framed_input b ≡ ok framed → a ≡ b
framed_input-injective a b framed ea eb =
    let same = sym (framed_eq a framed ea) ∙ framed_eq b framed eb in
    let sizes = length-le_bytes 8 (length a) ∙ sym (length-le_bytes 8 (length b)) in
    (append-cancel (le_bytes 8 (length a)) a (le_bytes 8 (length b)) b sizes same).1

module _ (sha256 : Bytes → Bytes) where
  digest_eq :
      (a digest : Bytes)
      → framed_input_digest sha256 a ≡ ok digest
      → (framed : Bytes) × (framed_input a ≡ ok framed) × (sha256 framed ≡ digest)
  unfolding framed_input_digest
  digest_eq a digest e =
      let (framed, run, same) =
        >>=-eq-ok (framed_input a) (λ framed. ok (sha256 framed)) digest e in
      (framed, run, ground arith)

  -- Two payloads with one framed input digest are equal, or two different byte strings with one
  -- SHA-256 are given.
  pub framed_input_digest-binds :
      (a b digest : Bytes)
      → framed_input_digest sha256 a ≡ ok digest
      → framed_input_digest sha256 b ≡ ok digest
      → (a ≡ b) ⊎ Collision sha256
  framed_input_digest-binds a b digest ea eb =
      let (x, rx, dx) = digest_eq a digest ea in
      let (y, ry, dy) = digest_eq b digest eb in
      map_inl (λ same. framed_input-injective a b x rx (ry ∙ ap ok (sym same)))
        (same_or_Collision sha256 x y (dx ∙ sym dy))

  journal_eq :
      (a x hash : Bytes)
      → journal_hash sha256 a x ≡ ok hash
      → (length a ≡ 32) × (sha256 (a ++ x) ≡ hash)
  unfolding journal_hash
  journal_eq a x hash e = ground arith

  -- Two pairs of an input digest and committed outputs with one journal hash are equal, or two
  -- different byte strings with one SHA-256 are given.
  pub journal_hash-binds :
      (a b x y hash : Bytes)
      → journal_hash sha256 a x ≡ ok hash
      → journal_hash sha256 b y ≡ ok hash
      → ((a ≡ b) × (x ≡ y)) ⊎ Collision sha256
  journal_hash-binds a b x y hash ea eb =
      let (la, ha) = journal_eq a x hash ea in
      let (lb, hb) = journal_eq b y hash eb in
      map_inl (append-cancel a x b y (la ∙ sym lb))
        (same_or_Collision sha256 (a ++ x) (b ++ y) (ha ∙ sym hb))
