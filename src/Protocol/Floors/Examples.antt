-- ===== src/Protocol/Floors/Examples.antt =====
-- Floors in base units.
use kswarm.Prelude.{ℕ, ◌≡◌, refl, ok, length}
use kswarm.Prelude.Bytes.{Bytes}
use kswarm.Prelude.Int.{pos}
use kswarm.Protocol.Floors.{InitializeProtocolArgs, validate_stake_floors, to_bytes}
use kswarm.Protocol.Floors.Valid.{AreFloors, AreValid, validate_stake_floors_lem}

abbrev floors : InitializeProtocolArgs
floors = record {
  tier_one_stake_floor = pos 50000;
  tier_two_stake_floor = pos 250000;
  tier_three_stake_floor = pos 1000000;
  verifier_stake_floor = pos 100000;
  min_challenge_window_seconds = pos 14400;
}

floors-valid : validate_stake_floors floors ≡ ok floors
unfolding validate_stake_floors
floors-valid = refl

validate_stake_floors_lem_example :
    (one : ℕ) × (two : ℕ) × (three : ℕ) × (verifier : ℕ) × (window : ℕ) × AreFloors floors one two
      three verifier window
    × AreValid one two three verifier window
    × ((bytes : Bytes) × (to_bytes floors ≡ ok bytes) × (length bytes ≡ 36))
validate_stake_floors_lem_example = validate_stake_floors_lem floors floors floors-valid
