-- ===== src/Message/Events.antt =====
-- internal/service/message/events.go: the audit events of the message commands and their gate.
use kafka3o_gateway.Prelude.{zero, suc, String, Option, none, some, ◌==◌, string_eq, if◌then◌else◌}
use kafka3o_gateway.Errors.{Err, kind_of}
use kafka3o_gateway.Errors.Text.{kind_string}
use kafka3o_gateway.Command.{lookup_or_zero}
use kafka3o_gateway.Gates.{Caller}
use kafka3o_gateway.Audit.Schema.{Event, Outcome}
use kafka3o_gateway.Audit
use kafka3o_gateway.Audit.{Io}
use kafka3o_gateway.Core.Run.{check_audited}
use kafka3o_gateway.Core.Bulk.{BulkSummary}
use kafka3o_gateway.Core.Events.{base_event}
use kafka3o_gateway.Core.Destructive.{result_event as event_at}
use kafka3o_gateway.Message.Service.{Service}

-- errCodeOf
unfoldable pub err_code_of : {P : Type 0} → Err P → String
err_code_of e = elim (kind_of e) [ some k ↦ kind_string k | none ↦ "INTERNAL" ]

module _ {P W : Type 0} (s : Service P W) where
  -- newEvent
  unfoldable pub new_event : Caller → String → String → Io W Event
  new_event = base_event "topic" s.new_event_id s.now

  -- resultEventOutcome, with the empty error code as `none`
  unfoldable pub result_event_outcome : Event → Outcome → Option String → Io W Event
  result_event_outcome attempt outcome err_code w =
      let (time, w') = s.now w in (event_at time attempt outcome err_code, w')

  -- checkGate
  unfoldable pub check_gate : Caller → String → String → Io W (Option (Err P))
  unfolding new_event
  check_gate caller command_id topic w =
      let (event, w₁) = new_event caller command_id topic w in
      check_audited s.runner s.sinks caller (lookup_or_zero command_id) event w₁

  -- auditBreakGlassRead
  unfoldable pub audit_break_glass_read : Caller → String → String → W → W
  unfolding new_event result_event_outcome
  audit_break_glass_read caller command_id topic w =
      let (attempt, w₁) = new_event caller command_id topic w in
      let (event, w₂) = result_event_outcome attempt Outcome.succeeded none w₁ in
      if caller.break_glass_reason == "" then w else Audit.result s.sinks event w₂

  -- resultEvent
  unfoldable pub result_event : Event → BulkSummary → Io W Event
  unfolding result_event_outcome
  result_event attempt summary w = elim summary.failed [
    | zero ↦ result_event_outcome attempt Outcome.succeeded none w
    | suc _ ↦ result_event_outcome attempt Outcome.failed none w
  ]
