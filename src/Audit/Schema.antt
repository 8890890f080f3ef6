-- ===== src/Audit/Schema.antt =====
-- internal/audit/event.go: the audit event and its severity.
use kafka3o_gateway.Prelude.{
  String, ℤ, Bool, true, false, ◌||◌, ◌&&◌, Option, List, ◌==◌, string_eq, if◌then◌else◌,
}

pub data Phase : Type 0 where
  attempt result : Phase

-- Severity of an event; an ATTEMPT carries Go's zero string, `unset`.
pub data Severity : Type 0 where
  unset info warn high : Severity

-- Outcome of a RESULT event; an ATTEMPT carries the zero string, `undecided`.
pub data Outcome : Type 0 where
  undecided succeeded failed rejected : Outcome

pub record Target : Type 0 where
  pub kind : String
  pub name : String
  pub partitions : List ℤ

-- The caller as the audit event names it.
pub record EventCaller : Type 0 where
  pub key_id : Option String
  pub tier : String
  pub client_ip : String

-- Times are nanoseconds since the epoch.
pub record Event : Type 0 where
  pub event_id : String
  pub timestamp : ℤ
  pub request_id : String
  pub phase : Phase
  pub severity : Severity
  pub command_id : String
  pub command_name : String
  pub target : Target
  pub caller : EventCaller
  pub dry_run : Bool
  pub break_glass : Option String
  pub outcome : Outcome
  pub error : Option String
  pub duration_ms : Option ℤ

unfoldable pub high_severity_command : String → Bool
high_severity_command i = i == "T7" || i == "T8" || i == "T11" || i == "T12" || i == "G5"

abbrev pub is_succeeded : Outcome → Bool
is_succeeded succeeded = true
is_succeeded _ = false

abbrev pub is_rejected_or_failed : Outcome → Bool
is_rejected_or_failed rejected = true
is_rejected_or_failed failed = true
is_rejected_or_failed _ = false

unfoldable pub severity_for : String → Outcome → Bool → Severity
severity_for command_id outcome break_glass =
    if break_glass
    then high
    else if is_rejected_or_failed outcome
    then warn
    else if is_succeeded outcome && high_severity_command command_id
    then high
    else info
