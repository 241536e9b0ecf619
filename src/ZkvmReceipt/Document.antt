-- ===== src/ZkvmReceipt/Document.antt =====
-- The document that the guest is shown: the output without the locator of its receipt.
use text.Mathlib.Text.{◌==◌ as str_eq}
use text.Mathlib.TextEquality.{eq_iff}
use kswarm.Prelude.{◌≡◌, refl, ap, none, String, if◌then◌else◌, Bool-cases, inl, inr, arith}
use kswarm.Json.{Fields, field, end, lookup}
use kswarm.ZkvmReceipt.{proof_document}

-- Under every key but zkvm_receipt_cid the proof document has what the output has, and under that
-- key it has nothing.
pub lookup-proof_document :
    (fields : Fields) (key : String)
    → lookup key (proof_document fields)
      ≡ (if str_eq key "zkvm_receipt_cid" then none else lookup key fields)
unfolding lookup proof_document
lookup-proof_document end key = elim (Bool-cases (str_eq key "zkvm_receipt_cid")) [
  | inl e ↦ rw e refl
  | inr e ↦ rw e refl
]
lookup-proof_document (field k v rest) key =
    let rest_lem = lookup-proof_document rest key in
    elim (Bool-cases (str_eq k key)) [
      | inl e ↦
          let same : str_eq k "zkvm_receipt_cid" ≡ str_eq key "zkvm_receipt_cid" =
            ap (λ x. str_eq x "zkvm_receipt_cid") ((eq_iff k key).0 e) in
          ground (arith, rest_lem, same, e)
      | inr e ↦ ground (arith, rest_lem, e)
    ]
