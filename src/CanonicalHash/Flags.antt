-- ===== src/CanonicalHash/Flags.antt =====
-- The flag byte of an MFB2 receipt: what the encoder sets is what the strict parser tests.
use Prim.Native.Nat.{bit_and}
use kswarm.Prelude.{◌<◌, ◌≡◌, refl, Bool, true, false, not, ◌&&◌, ltb, ◌==◌, arith, ltb→lt, &&_true}
use kswarm.Aggregate.Receipt.{has_flag}
use kswarm.CanonicalHash.{flags_of}

-- A check of both Booleans.
for_both : (Bool → Bool) → Bool
for_both p = p true && p false

for_both_sound : (p : Bool → Bool) → for_both p ≡ true → (b : Bool) → p b ≡ true
unfolding for_both
for_both_sound p h true = ground (arith, h)
for_both_sound p h false = ground (arith, h)

abbrev same : Bool → Bool → Bool
same true b = b
same false b = not b

same→eq : (a b : Bool) → same a b ≡ true → a ≡ b
same→eq true true h = refl
same→eq false false h = refl
same→eq true false h = cc
same→eq false true h = cc

check : Bool → Bool → Bool → Bool → Bool → Bool
check a b c d e =
    let flags = flags_of a b c d e in
    same (has_flag flags 1) a
    && (same (has_flag flags 2) b
        && (same (has_flag flags 4) c
            && (same (has_flag flags 8) d
                && (same (has_flag flags 16) e && (ltb flags 256 && bit_and flags 0xe0 == 0)))))

check_table :
    for_both (λ a. for_both (λ b. for_both (λ c. for_both (λ d. for_both (λ e. check a b c d e)))))
    ≡ true
unfolding for_both check flags_of
check_table = refl

check_all : (a b c d e : Bool) → check a b c d e ≡ true
check_all a b c d e =
    for_both_sound _
      (for_both_sound _ (for_both_sound _ (for_both_sound _ (for_both_sound _ check_table a) b) c)
        d)
      e

-- Each of the five tests finds its field, and no other bit is set.
pub flags_lem :
    (a b c d e : Bool)
    → (has_flag (flags_of a b c d e) 1 ≡ a)
      × (has_flag (flags_of a b c d e) 2 ≡ b)
      × (has_flag (flags_of a b c d e) 4 ≡ c)
      × (has_flag (flags_of a b c d e) 8 ≡ d)
      × (has_flag (flags_of a b c d e) 16 ≡ e)
      × (flags_of a b c d e < 256)
      × ((bit_and (flags_of a b c d e) 0xe0 == 0) ≡ true)
unfolding check
flags_lem a b c d e =
    let f = flags_of a b c d e in
    let p1 = &&_true (same (has_flag f 1) a) _ (check_all a b c d e) in
    let p2 = &&_true (same (has_flag f 2) b) _ p1.1 in
    let p3 = &&_true (same (has_flag f 4) c) _ p2.1 in
    let p4 = &&_true (same (has_flag f 8) d) _ p3.1 in
    let p5 = &&_true (same (has_flag f 16) e) _ p4.1 in
    let p6 = &&_true (ltb f 256) _ p5.1 in
    (
      same→eq _ _ p1.0,
      same→eq _ _ p2.0,
      same→eq _ _ p3.0,
      same→eq _ _ p4.0,
      same→eq _ _ p5.0,
      ltb→lt _ _ p6.0,
      p6.1,
    )
