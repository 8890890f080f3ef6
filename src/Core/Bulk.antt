-- ===== src/Core/Bulk.antt =====
-- internal/service/core/bulk.go: validate every item first, then execute them independently.
pub mod Validate
pub mod Execute
pub mod Outcome
use Prim.Native.String.{◌++◌ as append}
use kafka3o_gateway.Prelude.{
  ℕ, suc, String, Bool, true, false, Option, none, some, List, [], ◌∷◌, length,
}
use kafka3o_gateway.Errors.{
  Err, Result, ok, err, policy, BulkItemResult, items, no_details, bulk_validation_failed,
  audit_unavailable,
}
use kafka3o_gateway.Errors.Text.{error_text, show_nat}
use kafka3o_gateway.Audit.Schema.{Event, succeeded, failed}
use kafka3o_gateway.Audit
use kafka3o_gateway.Audit.{Io, Sink}

pub record BulkSummary : Type 0 where
  pub total : ℕ
  pub succeeded : ℕ
  pub failed : ℕ

pub record BulkResult : Type 0 where
  pub items : List BulkItemResult
  pub summary : BulkSummary

abbrev pub failed_item : {P : Type 0} → ℕ → Err P → BulkItemResult
failed_item i e = record { index = i; outcome = failed; error = error_text e }

abbrev pub succeeded_item : ℕ → BulkItemResult
succeeded_item i = record { index = i; outcome = succeeded; error = "" }

module _ {P T : Type 0} (validate : T → Option (Err P)) where
  -- The loop of BulkValidate from index `i` on.
  pub validate_from : ℕ → List T → List BulkItemResult
  validate_from i [] = []
  validate_from i (x ∷ xs) =
      let rest = validate_from (suc i) xs in
      elim (validate x) [ some e ↦ failed_item i e ∷ rest | none ↦ rest ]

  -- BulkValidate: `ok` is false as soon as an item failed.
  unfoldable pub bulk_validate : List T → List BulkItemResult × Bool
  unfolding validate_from
  bulk_validate xs = elim (validate_from 0 xs) [ [] ↦ ([], true) | f ∷ fs ↦ (f ∷ fs, false) ]

-- One more item in front of what the loop does with the rest.
unfoldable pub add_item : {P : Type 0} → ℕ → Option (Err P) → BulkResult → BulkResult
add_item i (some e) r = record {
  items = failed_item i e ∷ r.items;
  summary = record r.summary { failed = suc r.summary.failed };
}
add_item i none r = record {
  items = succeeded_item i ∷ r.items;
  summary = record r.summary { succeeded = suc r.summary.succeeded };
}

module _ {P T W : Type 0} (execute : T → Io W (Option (Err P))) where
  -- The loop of BulkExecute from index `i` on, with the total that was counted before.
  unfoldable pub execute_from : ℕ → ℕ → List T → Io W BulkResult
  unfolding add_item
  execute_from total i [] w =
      (record { items = []; summary = record { total = total; succeeded = 0; failed = 0 } }, w)
  execute_from total i (x ∷ xs) w =
      let (e, w₁) = execute x w in
      let (rest, w₂) = execute_from total (suc i) xs w₁ in (add_item i e rest, w₂)

  -- BulkExecute
  unfoldable pub bulk_execute : List T → Io W BulkResult
  unfolding execute_from
  bulk_execute xs = execute_from (length xs) 0 xs

-- bulkValidationMessage
unfoldable pub bulk_validation_message : List BulkItemResult → String
bulk_validation_message [] = append (show_nat 0) " item(s) failed validation"
bulk_validation_message (f ∷ fs) =
    append (append (show_nat (length (f ∷ fs))) " item(s) failed validation")
      (append "; first: index " (append (show_nat f.index) (append ": " f.error)))

-- BULK_VALIDATION_FAILED with the failing items in its details
abbrev pub validation_error : {P : Type 0} → List BulkItemResult → Err P
validation_error f = policy (record {
  code = bulk_validation_failed;
  message = bulk_validation_message f;
  details = items f;
})

module _ {P T W : Type 0} (sinks : List (Sink P W)) (attempt : Event)
    (result_from : BulkSummary → W → Event × W) (validate : T → Option (Err P))
    (execute : T → Io W (Option (Err P))) where
  -- From the ATTEMPT event on.
  pub run_items : List T → Io W (Result P BulkResult)
  run_items xs w =
      let (refused, w₁) = Audit.attempt sinks attempt w in
      elim refused [
        | some e ↦ (
          err (
              policy (record {
                code = audit_unavailable;
                message = error_text e;
                details = no_details;
              })),
          w₁,
        )
        | none ↦
            let (r, w₂) = bulk_execute execute xs w₁ in
            let (ev, w₃) = result_from r.summary w₂ in (ok r, Audit.result sinks ev w₃)
      ]

  -- BulkRun; `result_from` reads the clock, so it is a stateful call.
  unfoldable pub bulk_run : List T → Io W (Result P BulkResult)
  unfolding run_items
  bulk_run xs w =
      let (f, valid) = bulk_validate validate xs in
      elim valid [ false ↦ (err (validation_error f), w) | true ↦ run_items xs w ]
