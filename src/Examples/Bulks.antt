-- ===== src/Examples/Bulks.antt =====
-- Bulk operations on numbers: an item is valid if it is positive, and executing one fails above 9.
use kafka3o_gateway.Prelude.{
  ℕ, zero, suc, ◌+◌, ltb, String, Option, none, some, [], ◌∷◌, ◌≡◌, refl, All, arith, if◌then◌else◌,
}
use kafka3o_gateway.Errors.{Err, other, ok, err}
use kafka3o_gateway.Audit.{Io}
use kafka3o_gateway.Audit
use kafka3o_gateway.Audit.Schema.{Event}
use kafka3o_gateway.Core.Bulk.{BulkSummary, bulk_validate, bulk_execute, bulk_run, validation_error}
use kafka3o_gateway.Core.Bulk.Validate.{IsAccepted, bulk_run-invalid}
use kafka3o_gateway.Core.Bulk.Execute.{IsComplete, executed, bulk_execute-IsComplete}
use kafka3o_gateway.Core.Bulk.Outcome.{bulk_run-executed}
use kafka3o_gateway.Examples.Data.{delete_event}

abbrev validate : ℕ → Option (Err String)
validate zero = some (other "empty")
validate (suc n) = none

abbrev execute : ℕ → Io ℕ (Option (Err String))
execute n w = (if ltb n 10 then none else some (other "too big"), w + n)

abbrev summarise : BulkSummary → ℕ → Event × ℕ
summarise summary w = (delete_event, w)

has_empty : ¬ All (IsAccepted validate) (1 ∷ 0 ∷ [])
has_empty h = ground (arith, h.1.0)

bulk_run-invalid_example :
    bulk_run [] delete_event summarise validate execute (1 ∷ 0 ∷ []) 7
    ≡ (err (validation_error (bulk_validate validate (1 ∷ 0 ∷ [])).0), 7)
bulk_run-invalid_example =
    bulk_run-invalid [] delete_event summarise validate execute (1 ∷ 0 ∷ []) 7 has_empty

bulk_execute-IsComplete_example : IsComplete 3 0 3 (bulk_execute execute (1 ∷ 20 ∷ 3 ∷ []) 0).0
bulk_execute-IsComplete_example = bulk_execute-IsComplete execute (1 ∷ 20 ∷ 3 ∷ []) 0

no_sinks : (Audit.attempt {P = String} {W = ℕ} [] delete_event 0).0 ≡ none
unfolding Audit.attempt
no_sinks = refl

bulk_run-executed_example :
    let w₁ = (Audit.attempt {P = String} {W = ℕ} [] delete_event 0).1 in
    let r = (bulk_execute execute (1 ∷ 20 ∷ 3 ∷ []) w₁).0 in
    let w₂ = executed execute (1 ∷ 20 ∷ 3 ∷ []) w₁ in
    bulk_run [] delete_event summarise validate execute (1 ∷ 20 ∷ 3 ∷ []) 0 ≡ (
      ok r,
      Audit.result {P = String} {W = ℕ} [] (summarise r.summary w₂).0 (summarise r.summary w₂).1,
    )
bulk_run-executed_example =
    bulk_run-executed [] delete_event summarise validate execute (1 ∷ 20 ∷ 3 ∷ []) 0
      (refl, (refl, (refl, tt))) no_sinks
