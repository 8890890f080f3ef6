-- ===== src/Core/Bulk/Outcome.antt =====
-- A bulk command's audit bracket: internal/service/core/bulk.go.
use kafka3o_gateway.Prelude.{◌≡◌, Option, none, some, List, All, arith}
use kafka3o_gateway.Errors.{Err, ok, err, policy, no_details, audit_unavailable}
use kafka3o_gateway.Errors.Text.{error_text}
use kafka3o_gateway.Audit.Schema.{Event}
use kafka3o_gateway.Audit
use kafka3o_gateway.Audit.{Io, Sink}
use kafka3o_gateway.Core.Bulk.{BulkSummary, bulk_execute, bulk_run}
use kafka3o_gateway.Core.Bulk.Validate.{IsAccepted, bulk_validate-ok}
use kafka3o_gateway.Core.Bulk.Execute.{executed, bulk_execute-executed}

module _ {P T W : Type 0} (sinks : List (Sink P W)) (attempt : Event)
    (result_from : BulkSummary → W → Event × W) (validate : T → Option (Err P))
    (execute : T → Io W (Option (Err P))) (xs : List T) (w : W)
    (valid : All (IsAccepted validate) xs) where
  -- If a sink refuses the ATTEMPT, nothing is executed.
  pub bulk_run-fail_closed :
      (e : Err P)
      → (Audit.attempt sinks attempt w).0 ≡ some e
      → bulk_run sinks attempt result_from validate execute xs w ≡ (
        err (
            policy
              (record { code = audit_unavailable; message = error_text e; details = no_details })),
        (Audit.attempt sinks attempt w).1,
      )
  unfolding bulk_run
  bulk_run-fail_closed e refused = ground (arith, (bulk_validate-ok validate xs).1 valid)

  -- With valid items, if the sinks accept the ATTEMPT, every item is executed in order, whatever the
  -- others returned, and then the one RESULT of the summary is written.
  pub bulk_run-executed :
      (Audit.attempt sinks attempt w).0 ≡ none
      → let w₁ = (Audit.attempt sinks attempt w).1 in
        let r = (bulk_execute execute xs w₁).0 in
        let w₂ = executed execute xs w₁ in
        bulk_run sinks attempt result_from validate execute xs w
        ≡ (ok r, Audit.result sinks (result_from r.summary w₂).0 (result_from r.summary w₂).1)
  unfolding bulk_run
  bulk_run-executed accepted = ground (
    arith,
    (bulk_validate-ok validate xs).1 valid,
    bulk_execute-executed execute xs (Audit.attempt sinks attempt w).1,
  )
