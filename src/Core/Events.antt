-- ===== src/Core/Events.antt =====
-- The base of every command's audit event, which the services' newEvent functions share:
-- internal/service/{message,topic,group}/events.go.
use kafka3o_gateway.Prelude.{String, ℤ, false, none, some, [], ◌==◌, string_eq, if◌then◌else◌}
use kafka3o_gateway.Command.{lookup_or_zero}
use kafka3o_gateway.Gates.{Caller}
use kafka3o_gateway.Audit.Schema.{Event, Phase, Severity, Outcome}
use kafka3o_gateway.Audit.{Io}

-- A target of the given kind and name; fields that newEvent does not set have Go's zero values.
abbrev pub base_event :
    {W : Type 0} → String → Io W String → Io W ℤ → Caller → String → String → Io W Event
base_event kind new_event_id now caller command_id name w =
    let desc = lookup_or_zero command_id in
    let (event_id, w₁) = new_event_id w in
    let (time, w₂) = now w₁ in
    (
      record {
        event_id = event_id;
        timestamp = time;
        request_id = caller.request_id;
        phase = Phase.attempt;
        severity = Severity.unset;
        command_id = desc.id;
        command_name = desc.name;
        target = record { kind = kind; name = name; partitions = [] };
        caller = record {
          key_id = caller.key_id;
          tier = caller.tier;
          client_ip = caller.client_ip;
        };
        dry_run = false;
        break_glass =
            if caller.break_glass_reason == "" then none else some caller.break_glass_reason;
        outcome = Outcome.undecided;
        error = none;
        duration_ms = none;
      },
      w₂,
    )
