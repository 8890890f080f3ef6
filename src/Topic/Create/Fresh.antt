-- ===== src/Topic/Create/Fresh.antt =====
-- A bulk creation that meets a topic that exists creates nothing: internal/service/topic/create.go.
use kafka3o_gateway.Prelude.{◌≡◌, String, false, none, List, string_eq, All, All-map, arith}
use kafka3o_gateway.Prelude.Sort.{string_order}
use kafka3o_gateway.Prelude.Sort.Unique.{has}
use kafka3o_gateway.Errors.{ok, err}
use kafka3o_gateway.Command.{lookup_or_zero}
use kafka3o_gateway.Gates.{Caller}
use kafka3o_gateway.Core.Bulk.{bulk_validate, validation_error}
use kafka3o_gateway.Core.Bulk.Validate.{bulk_run-invalid}
use kafka3o_gateway.Core.Run.{check_audited}
use kafka3o_gateway.Topic.Service.{TopicService, TopicSummary}
use kafka3o_gateway.Topic.Events.{new_event, result_event, check_gate}
use kafka3o_gateway.Topic.Create.{CreateParams, names_of, validate_new, create_bulk, create_item}

-- The name is not among those of the topics.
abbrev pub IsNew : List TopicSummary → CreateParams → Type 0
IsNew existing p = has p.name (names_of existing) ≡ false

validate_new-IsNew :
    {P : Type 0} (quoted : String → String) (existing : List TopicSummary) (p : CreateParams)
    → validate_new {P = P} quoted (names_of existing) p ≡ none
    → IsNew existing p
unfolding validate_new
validate_new-IsNew quoted existing p h = ground arith

module _ {P W : Type 0} (s : TopicService P W) (quoted : String → String) (caller : Caller)
    (params : List CreateParams) (w : W) where
  -- If a name to create exists, a bulk creation that passes the gate creates and audits nothing: it
  -- returns the validation error in the state that the listing and the event's id and time left.
  pub create_bulk-existing :
      (existing : List TopicSummary)
      → s.runner.check caller (lookup_or_zero "T6") s.runner.policy ≡ none
      → (s.list_topics (new_event s caller "T6" "" w).1).0 ≡ ok existing
      → ¬ All (IsNew existing) params
      → create_bulk s quoted caller params w ≡ (
        err (
            validation_error
              (bulk_validate (validate_new {P = P} quoted (names_of existing)) params).0),
        (new_event s caller "T6" "" (s.list_topics (new_event s caller "T6" "" w).1).1).1,
      )
  unfolding create_bulk check_gate check_audited
  create_bulk-existing existing passes listed old =
      let (attempt, w₁) =
        new_event s caller "T6" "" (s.list_topics (new_event s caller "T6" "" w).1).1 in
      ground (
        arith,
        bulk_run-invalid s.sinks attempt (result_event s attempt)
            (validate_new quoted (names_of existing)) (create_item s) params w₁
            (λ h. old (All-map _ params (validate_new-IsNew quoted existing) h)),
      )
