-- ===== src/Aggregate/Receipt/Accepted.antt =====
-- What the strict parser of cli/kswarm_cli/aggregate.py has checked when it accepts a receipt.
use kswarm.Prelude.{ℕ, ◌≤◌, ◌≡◌, Bool, true, false, Option, none, some, arith, Returns}
use kswarm.Prelude.Bytes.{Bytes}
use kswarm.Aggregate.Combiner.{bps_scale}
use kswarm.Aggregate.Receipt.{
  BranchReceipt, OutputKind, has_flag, read_bps, read_if, parse_body, parse_branch_result_bytes,
}

abbrev pub AtMost : ℕ → Option ℕ → Type 0
AtMost n none = Unit
AtMost n (some v) = v ≤ n

read_bps-le : (input : Bytes) (offset : ℕ) → Returns (λ a. a.0 ≤ bps_scale) (read_bps input offset)
unfolding read_bps
read_bps-le input offset = ground arith

read_if_bps-le :
    (b : Bool) (input : Bytes) (offset : ℕ)
    → Returns (λ a. AtMost bps_scale a.0) (read_if b read_bps input offset)
unfolding read_if
read_if_bps-le false input offset = tt
read_if_bps-le true input offset = ground (arith, read_bps-le input offset)

-- An accepted scalar lies in the basis-point range, and the result hash is the hash of the bytes.
abbrev pub IsAccepted : (Bytes → Bytes) → Bytes → BranchReceipt → Type 0
IsAccepted sha256 input r = AtMost bps_scale r.scalar_value_bps × (r.result_hash ≡ sha256 input)

module _ (sha256 : Bytes → Bytes) where
  parse_body-IsAccepted :
      (input : Bytes) (index : ℕ) (kind : OutputKind) (flags : ℕ)
      → Returns (IsAccepted sha256 input) (parse_body sha256 input index kind flags)
  unfolding parse_body
  parse_body-IsAccepted input index kind flags =
      ground (arith, read_if_bps-le (has_flag flags 1) input 11)

  pub parse-IsAccepted :
      (input : Bytes) → Returns (IsAccepted sha256 input) (parse_branch_result_bytes sha256 input)
  unfolding parse_branch_result_bytes
  parse-IsAccepted input = grind (arith, parse_body-IsAccepted)
