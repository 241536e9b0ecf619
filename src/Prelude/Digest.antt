-- ===== src/Prelude/Digest.antt =====
-- What a digest binds: equal digests come from equal bytes, or they show a collision.
use mathlib.Core.Path.{◌≡◌}
use mathlib.Core.Logic.{◌≢◌, ◌⊎◌, inl, inr}
use kswarm.Prelude.Bytes.{Bytes, Bytes-discrete}

-- Two different byte strings with one hash.
abbrev pub Collision : (Bytes → Bytes) → Type 0
Collision sha256 = (a : Bytes) × (b : Bytes) × (a ≢ b) × (sha256 a ≡ sha256 b)

pub same_or_Collision :
    (sha256 : Bytes → Bytes) (a b : Bytes) → sha256 a ≡ sha256 b → (a ≡ b) ⊎ Collision sha256
same_or_Collision sha256 a b e = elim (Bytes-discrete a b) [
  | yes p ↦ inl p
  | no p ↦ inr (a, b, p, e)
]

pub both : {A B C : Type 0} → A ⊎ C → B ⊎ C → (A × B) ⊎ C
both (inl a) (inl b) = inl (a, b)
both (inl a) (inr c) = inr c
both (inr c) _ = inr c

pub map_inl : {A B C : Type 0} → (A → B) → A ⊎ C → B ⊎ C
map_inl f (inl a) = inl (f a)
map_inl f (inr c) = inr c
