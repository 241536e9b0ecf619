-- ===== src/Prelude/Words.antt =====
-- `struct.pack` and `struct.unpack_from` for the little-endian unsigned formats `<B`, `<H`, `<I` and
-- `<Q`, as widths 1, 2, 4 and 8; `none` is `struct.error`. Slices and indexing of `bytes`.
use Prim.Native.Nat.{ℕ, zero, suc, ◌+◌, ◌-◌, ◌*◌, ◌/◌, ◌%◌, ◌^◌, ◌<◌}
use mathlib.Core.Path.{◌≡◌, refl, sym, ap, ◌∙◌}
use mathlib.Core.List.{List, [], ◌∷◌, ◌++◌}
use mathlib.Core.Option.{Option, none, some}
use native.Mathlib.Omega.{arith}
use native.Mathlib.Nat.{pow-suc, zero-add}
use Prim.Native.Nat.add
use mathlib.Core.Bool.{true}
use kswarm.Prelude.Tests.{ltb, leb, lt→ltb, le→leb, if◌then◌else◌}
use kswarm.Prelude.Lists.{length, take, drop, get_elem?, length-append, take-append, drop-append}
use kswarm.Prelude.Bytes.{Bytes, IsBytes}

unfoldable pub le_bytes : ℕ → ℕ → Bytes
le_bytes zero v = []
le_bytes (suc w) v = (v % 256) ∷ le_bytes w (v / 256)

unfoldable pub le_value : Bytes → ℕ
le_value [] = 0
le_value (b ∷ bs) = b + 256 * le_value bs

unfoldable pub pack : ℕ → ℕ → Option Bytes
unfolding le_bytes
pack width v = if ltb v (256 ^ width) then some (le_bytes width v) else none

-- `data[offset : offset + size]`
abbrev pub slice : Bytes → ℕ → ℕ → Bytes
slice data' offset size = take size (drop offset data')

unfoldable pub unpack_from : ℕ → Bytes → ℕ → Option ℕ
unfolding le_value
unpack_from width data' offset =
    if leb (offset + width) (length data') then some (le_value (slice data' offset width)) else none

pub length-le_bytes : (w v : ℕ) → length (le_bytes w v) ≡ w
unfolding le_bytes
length-le_bytes zero v = refl
length-le_bytes (suc w) v = ap suc (length-le_bytes w (v / 256))

pub le_bytes-IsBytes : (w v : ℕ) → IsBytes (le_bytes w v)
unfolding le_bytes
le_bytes-IsBytes zero v = tt
le_bytes-IsBytes (suc w) v = (omega arith, le_bytes-IsBytes w (v / 256))

pub le_value-le_bytes : (w v : ℕ) → v < 256 ^ w → le_value (le_bytes w v) ≡ v
unfolding le_bytes le_value
le_value-le_bytes zero v h = omega arith
le_value-le_bytes (suc w) v h =
    let small : v < 256 ^ w * 256 = rw (pow-suc 256 w) at h in
    omega (arith, le_value-le_bytes w (v / 256) (omega arith))

pub le_value-lt : (bs : Bytes) → IsBytes bs → le_value bs < 256 ^ length bs
unfolding le_value
le_value-lt [] h = omega arith
le_value-lt (b ∷ bs) h = rw (pow-suc 256 (length bs)) (omega (arith, le_value-lt bs h.1, h.0))

pub le_bytes-le_value : (bs : Bytes) → IsBytes bs → le_bytes (length bs) (le_value bs) ≡ bs
unfolding le_bytes le_value
le_bytes-le_value [] h = refl
le_bytes-le_value (b ∷ bs) h =
    let low : (b + 256 * le_value bs) % 256 ≡ b = omega (arith, h.0) in
    let high : (b + 256 * le_value bs) / 256 ≡ le_value bs = omega (arith, h.0) in
    rw (low, high) (ap (◌∷◌ b) (le_bytes-le_value bs h.1))

drop-nil {ℓ} : {A : Type ℓ} (n : ℕ) → drop {A = A} n [] ≡ []
drop-nil zero = refl
drop-nil (suc n) = refl

pub pack_lem : (w v : ℕ) → v < 256 ^ w → pack w v ≡ some (le_bytes w v)
unfolding pack
pack_lem w v h = rw (lt→ltb _ _ h)

pub drop-drop {ℓ} : {A : Type ℓ} (n m : ℕ) (xs : List A) → drop (n + m) xs ≡ drop m (drop n xs)
drop-drop zero m xs = rw zero-add
drop-drop (suc n) m [] = rw add.suc (sym (drop-nil m))
drop-drop (suc n) m (x ∷ xs) = rw add.suc (drop-drop n m xs)

pub length-drop {ℓ} : {A : Type ℓ} (n : ℕ) (xs : List A) → length (drop n xs) ≡ length xs - n
length-drop zero xs = omega arith
length-drop (suc n) [] = omega arith
length-drop (suc n) (x ∷ xs) = omega (arith, length-drop n xs)

head_at :
    (xs : Bytes) (i : ℕ) {b : ℕ} {rest : Bytes} → drop i xs ≡ b ∷ rest → get_elem? xs i ≡ some b
head_at [] zero e = cc
head_at [] (suc i) e = cc
head_at (x ∷ xs) zero e = cc
head_at (x ∷ xs) (suc i) e = head_at xs i e

-- Reading where the cursor stands: `drop offset data` is what has not been read.
module _ (data' : Bytes) (offset : ℕ) where
  pub slice_at :
      (chunk rest : Bytes)
      → drop offset data' ≡ chunk ++ rest
      → (slice data' offset (length chunk) ≡ chunk) × (drop (offset + length chunk) data' ≡ rest)
  slice_at chunk rest e = (
    rw e (take-append chunk rest),
    drop-drop offset (length chunk) data' ∙ ap (drop (length chunk)) e ∙ drop-append chunk rest,
  )

  pub room_at :
      (chunk rest : Bytes)
      → drop offset data' ≡ chunk ++ rest
      → 0 < length chunk
      → offset + length chunk + length rest ≡ length data'
  room_at chunk rest e h =
      omega (arith, length-drop offset data', ap length e, length-append chunk rest)

  pub unpack_at :
      (w v : ℕ) (rest : Bytes)
      → drop offset data' ≡ le_bytes w v ++ rest
      → 0 < w
      → v < 256 ^ w
      → (unpack_from w data' offset ≡ some v) × (drop (offset + w) data' ≡ rest)
  unfolding unpack_from
  unpack_at w v rest e h fits =
      let size = length-le_bytes w v in
      let (here, after) = rw size at (slice_at (le_bytes w v) rest e) in
      let room : leb (offset + w) (length data') ≡ true =
        le→leb _ _ (omega (arith, room_at (le_bytes w v) rest e, size)) in
      (rw (room, here, le_value-le_bytes w v fits), after)

  pub byte_at :
      (b : ℕ) (rest : Bytes)
      → drop offset data' ≡ b ∷ rest
      → (get_elem? data' offset ≡ some b) × (drop (offset + 1) data' ≡ rest)
  byte_at b rest e = (head_at data' offset e, drop-drop offset 1 data' ∙ ap (drop 1) e)
