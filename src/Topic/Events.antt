-- ===== src/Topic/Events.antt =====
-- internal/service/topic/events.go: the audit events of the topic commands and their gate.
use kafka3o_gateway.Prelude.{zero, suc, String, Option, none}
use kafka3o_gateway.Errors.{Err}
use kafka3o_gateway.Command.{lookup_or_zero}
use kafka3o_gateway.Gates.{Caller}
use kafka3o_gateway.Audit.Schema.{Event, Outcome}
use kafka3o_gateway.Audit.{Io}
use kafka3o_gateway.Core.Run.{check_audited}
use kafka3o_gateway.Core.Bulk.{BulkSummary}
use kafka3o_gateway.Core.Events.{base_event}
use kafka3o_gateway.Core.Destructive.{result_event as event_at, destructive_err_code}
use kafka3o_gateway.Topic.Service.{TopicService}

-- errCodeOf, which is destructiveErrCode again
unfoldable pub err_code_of : {P : Type 0} → Err P → String
err_code_of = destructive_err_code

module _ {P W : Type 0} (s : TopicService P W) where
  -- newEvent
  unfoldable pub new_event : Caller → String → String → Io W Event
  new_event = base_event "topic" s.new_event_id s.now

  -- resultEventOutcome, with the empty error code as `none`
  unfoldable pub result_event_outcome : Event → Outcome → Option String → Io W Event
  result_event_outcome attempt outcome err_code w =
      let (time, w') = s.now w in (event_at time attempt outcome err_code, w')

  -- resultEvent
  unfoldable pub result_event : Event → BulkSummary → Io W Event
  unfolding result_event_outcome
  result_event attempt summary = elim summary.failed [
    | zero ↦ result_event_outcome attempt Outcome.succeeded none
    | suc _ ↦ result_event_outcome attempt Outcome.failed none
  ]

  -- checkGate
  unfoldable pub check_gate : Caller → String → String → Io W (Option (Err P))
  unfolding new_event
  check_gate caller command_id topic w =
      let (event, w₁) = new_event caller command_id topic w in
      check_audited s.runner s.sinks caller (lookup_or_zero command_id) event w₁
