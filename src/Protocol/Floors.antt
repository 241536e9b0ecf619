-- ===== src/Protocol/Floors.antt =====
-- `InitializeProtocolArgs`, `validate_stake_floors` and `min_challenge_window_default` of
-- cli/kswarm_cli/protocol.py. Amounts are integers before they are validated.
pub mod Valid
mod Examples
use text.Mathlib.Text.{◌==◌ as str_eq}
use kswarm.Prelude.{
  ℕ, Bool, true, false, not, ◌&&◌, ◌++◌, ltb, leb, if◌then◌else◌, String, Result, ok, err, ◌>>=◌,
  ◌>>◌, raise_if,
}
use kswarm.Prelude.Bytes.{Bytes}
use kswarm.Prelude.Int.{ℤ, pos, negsuc}
use kswarm.Encoding

pub data Error : Type 0 where
  floors_not_increasing bad_verifier_floor does_not_fit bad_window : Error

pub record InitializeProtocolArgs : Type 0 where
  pub tier_one_stake_floor : ℤ
  pub tier_two_stake_floor : ℤ
  pub tier_three_stake_floor : ℤ
  pub verifier_stake_floor : ℤ
  pub min_challenge_window_seconds : ℤ

-- `struct.pack` of a negative number for an unsigned format raises.
unsigned : (ℕ → Result Encoding.Error Bytes) → ℤ → Result Encoding.Error Bytes
unsigned write (pos n) = write n
unsigned write (negsuc n) = err Encoding.struct_error

pub to_bytes : InitializeProtocolArgs → Result Encoding.Error Bytes
unfolding unsigned
to_bytes args = do
  one ← unsigned Encoding.u64 args.tier_one_stake_floor
  two ← unsigned Encoding.u64 args.tier_two_stake_floor
  three ← unsigned Encoding.u64 args.tier_three_stake_floor
  verifier ← unsigned Encoding.u64 args.verifier_stake_floor
  window ← unsigned Encoding.u32 args.min_challenge_window_seconds
  ok (one ++ (two ++ (three ++ (verifier ++ window))))

-- `a < b` on Python's integers.
int_lt : ℤ → ℤ → Bool
int_lt (pos a) (pos b) = ltb a b
int_lt (pos a) (negsuc b) = false
int_lt (negsuc a) (pos b) = true
int_lt (negsuc a) (negsuc b) = ltb b a

pub validate_stake_floors : InitializeProtocolArgs → Result Error InitializeProtocolArgs
unfolding int_lt
validate_stake_floors args = do
  raise_if
      (not (
        int_lt (pos 0) args.tier_one_stake_floor
        && (int_lt args.tier_one_stake_floor args.tier_two_stake_floor
            && int_lt args.tier_two_stake_floor args.tier_three_stake_floor)))
      floors_not_increasing
  raise_if (not (int_lt (pos 0) args.verifier_stake_floor)) bad_verifier_floor
  raise_if (int_lt (pos 0xffffffffffffffff) args.tier_three_stake_floor) does_not_fit
  raise_if (int_lt (pos 0xffffffffffffffff) args.verifier_stake_floor) does_not_fit
  raise_if
      (not (
        int_lt (pos 0) args.min_challenge_window_seconds
        && int_lt args.min_challenge_window_seconds (pos 0x100000000)))
      bad_window
  ok args

pub min_challenge_window_default : String → ℕ
min_challenge_window_default cluster_name =
    if str_eq cluster_name "local" then 5 else if str_eq cluster_name "devnet" then 14400 else 36000
