-- ===== src/Protocol/Floors/Valid.antt =====
-- What `validate_stake_floors` accepts, `to_bytes` of cli/kswarm_cli/protocol.py can write.
use kswarm.Prelude.{ℕ, ◌^◌, ◌≡◌, ◌<◌, refl, ◌++◌, length, length-append, ok, arith}
use kswarm.Prelude.Bytes.{Bytes}
use kswarm.Prelude.Int.{ℤ, pos, negsuc}
use kswarm.Prelude.Words.{pack_lem, le_bytes, length-le_bytes}
use kswarm.Encoding.{u32, u64}
use kswarm.Protocol.Floors.{
  InitializeProtocolArgs, validate_stake_floors, to_bytes, unsigned, int_lt,
}

-- The floors of the three tiers, of the verifier, and the window.
abbrev pub AreFloors : InitializeProtocolArgs → ℕ → ℕ → ℕ → ℕ → ℕ → Type 0
AreFloors args one two three verifier window =
    (args.tier_one_stake_floor ≡ pos one)
    × (args.tier_two_stake_floor ≡ pos two)
    × (args.tier_three_stake_floor ≡ pos three)
    × (args.verifier_stake_floor ≡ pos verifier)
    × (args.min_challenge_window_seconds ≡ pos window)

abbrev pub AreValid : ℕ → ℕ → ℕ → ℕ → ℕ → Type 0
AreValid one two three verifier window =
    (0 < one)
    × (one < two)
    × (two < three)
    × (three < 256 ^ 8)
    × (0 < verifier)
    × (verifier < 256 ^ 8)
    × (0 < window)
    × (window < 256 ^ 4)

accepted :
    (a b c d e : ℤ) (args' : InitializeProtocolArgs)
    → let args : InitializeProtocolArgs = record {
      tier_one_stake_floor = a;
      tier_two_stake_floor = b;
      tier_three_stake_floor = c;
      verifier_stake_floor = d;
      min_challenge_window_seconds = e;
    } in
      validate_stake_floors args ≡ ok args'
      → (one : ℕ) × (two : ℕ) × (three : ℕ) × (verifier : ℕ) × (window : ℕ) × AreFloors args one two
          three verifier window
        × AreValid one two three verifier window
unfolding validate_stake_floors int_lt
accepted (pos a) (pos b) (pos c) (pos d) (pos e) args' h =
    (a, b, c, d, e, (refl, refl, refl, refl, refl), ground arith)
accepted (negsuc a) b c d e args' h = absurd (ground arith)
accepted (pos a) (negsuc b) c d e args' h = absurd (ground arith)
accepted (pos a) (pos b) (negsuc c) d e args' h = absurd (ground arith)
accepted (pos a) (pos b) (pos c) (negsuc d) e args' h = absurd (ground arith)
accepted (pos a) (pos b) (pos c) (pos d) (negsuc e) args' h = absurd (ground arith)

written :
    (a b c d e : ℕ)
    → AreValid a b c d e
    → (bytes : Bytes) × (to_bytes (record {
      tier_one_stake_floor = pos a;
      tier_two_stake_floor = pos b;
      tier_three_stake_floor = pos c;
      verifier_stake_floor = pos d;
      min_challenge_window_seconds = pos e;
    })
        ≡ ok bytes)
      × (length bytes ≡ 36)
unfolding to_bytes unsigned u64 u32
written a b c d e h = (
  le_bytes 8 a ++ (le_bytes 8 b ++ (le_bytes 8 c ++ (le_bytes 8 d ++ le_bytes 4 e))),
  rw
      (
        pack_lem 8 a (omega (arith, h)),
        pack_lem 8 b (omega (arith, h)),
        pack_lem 8 c (omega (arith, h)),
        pack_lem 8 d (omega (arith, h)),
        pack_lem 4 e (omega (arith, h)),
      )
      refl,
  omega (
    arith,
    length-append (le_bytes 8 a) (le_bytes 8 b ++ (le_bytes 8 c ++ (le_bytes 8 d ++ le_bytes 4 e))),
    length-append (le_bytes 8 b) (le_bytes 8 c ++ (le_bytes 8 d ++ le_bytes 4 e)),
    length-append (le_bytes 8 c) (le_bytes 8 d ++ le_bytes 4 e),
    length-append (le_bytes 8 d) (le_bytes 4 e),
    length-le_bytes 8 a,
    length-le_bytes 8 b,
    length-le_bytes 8 c,
    length-le_bytes 8 d,
    length-le_bytes 4 e,
  ),
)

-- Floors that validate_stake_floors accepts are naturals: the tiers rise strictly from above 0,
-- every floor is below 2^64 and the window below 2^32, each above 0; they are written, in 36
-- bytes.
pub validate_stake_floors_lem :
    (args args' : InitializeProtocolArgs)
    → validate_stake_floors args ≡ ok args'
    → (one : ℕ) × (two : ℕ) × (three : ℕ) × (verifier : ℕ) × (window : ℕ) × AreFloors args one two
        three verifier window
      × AreValid one two three verifier window
      × ((bytes : Bytes) × (to_bytes args ≡ ok bytes) × (length bytes ≡ 36))
unfolding to_bytes
validate_stake_floors_lem args args' h =
    let (a, b, c, d, e, same, valid) =
      accepted args.tier_one_stake_floor args.tier_two_stake_floor args.tier_three_stake_floor
        args.verifier_stake_floor args.min_challenge_window_seconds args' h in
    let (bytes, run, size) = written a b c d e valid in
    (a, b, c, d, e, same, valid, (bytes, rw (same.0, same.1, same.2, same.3, same.4) run, size))
