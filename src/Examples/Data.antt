-- ===== src/Examples/Data.antt =====
-- Test data: an encoding, records, scans and a caller.
use kafka3o_gateway.Prelude.{
  ℕ, ℤ, pos, ltb, String, Bool, true, false, Option, none, some, List, [], ◌∷◌, refl,
}
use kafka3o_gateway.Prelude.Map.{Map}
use kafka3o_gateway.Command.{Descriptor, Access}
use kafka3o_gateway.Gates.{Caller, Policy, check}
use kafka3o_gateway.Audit.Schema.{Event, Phase, Severity, Outcome}
use kafka3o_gateway.Audit.Recording.{RecordingSink}
use kafka3o_gateway.Core.Run.{Runner}
use kafka3o_gateway.Scan.Types.{KafkaRecord, Record, PartitionSpec, Spec, Text}
use kafka3o_gateway.Scan.Codec.{Encodings}
use kafka3o_gateway.Scan.Runner.{Poll}

abbrev first_is_ascii : List ℕ → Bool
first_is_ascii [] = true
first_is_ascii (b ∷ bs) = ltb b 128

abbrev unmark : Text → Option (List ℕ)
unmark [] = none
unmark (m ∷ b) = some b

-- Bytes are text if the first is ASCII; what is not text gets a mark in front.
abbrev pub marking : Encodings
marking = record {
  json_valid = λ b. false;
  utf8_valid = first_is_ascii;
  base64_encode = λ b. 61 ∷ b;
  base64_decode = unmark;
  base64_round_trip = λ b. refl;
}

abbrev pub kafka_record_at : ℕ → ℕ → KafkaRecord
kafka_record_at p o = record {
  topic = "orders";
  partition = pos p;
  offset = pos o;
  timestamp = pos o;
  key = none;
  value = some (118 ∷ []);
  headers = [];
}

-- What `marking` makes of it.
abbrev pub record_at : ℕ → ℕ → Record
record_at p o = record {
  topic = "orders";
  partition = pos p;
  offset = pos o;
  timestamp = pos o;
  key = [];
  key_encoding = "string";
  value = 118 ∷ [];
  value_encoding = "string";
  headers = [];
  size_bytes = 1;
}

abbrev pub window_to : ℕ → PartitionSpec
window_to o = record { start = pos 0; end_ = pos o }

-- Partition 0 from 0 to 2, at most `limit` messages.
abbrev pub spec_of : Bool → ℕ → Spec
spec_of latest limit = record {
  topic = "orders";
  partitions = (pos 0, window_to 2) ∷ [];
  latest = latest;
  max_messages = pos limit;
  max_scanned = pos 0;
  max_bytes = pos 0;
  max_time = pos 0;
  format = "";
}

abbrev pub start_cursor : Map ℤ ℤ
start_cursor = (pos 0, pos 0) ∷ []

abbrev pub poll_of : List KafkaRecord → Poll String
poll_of rs = record { records = rs; error = none; cancelled = false; expired = false }

abbrev pub cancelled_poll : Poll String
cancelled_poll = record { records = []; error = none; cancelled = true; expired = false }

abbrev pub two_records : List KafkaRecord
two_records = kafka_record_at 0 0 ∷ kafka_record_at 0 1 ∷ []

abbrev pub operator : Caller
operator = record {
  key_id = some "key-1";
  tier = "operator";
  break_glass_reason = "";
  request_id = "req-1";
  client_ip = "10.0.0.1";
  client = "http";
}

abbrev pub open_policy : Policy
open_policy = record {
  auth_enabled = true;
  read_only = false;
  data_plane_lock = false;
  disabled = [];
}

abbrev pub delete_topic : Descriptor
delete_topic = record {
  id = "T7";
  name = "Delete topic";
  access = Access.w;
  destructive = true;
  data_plane = false;
}

abbrev pub delete_event : Event
delete_event = record {
  event_id = "event-1";
  timestamp = pos 0;
  request_id = "req-1";
  phase = Phase.attempt;
  severity = Severity.unset;
  command_id = "T7";
  command_name = "Delete topic";
  target = record { kind = "topic"; name = "orders"; partitions = [] };
  caller = record { key_id = some "key-1"; tier = "operator"; client_ip = "10.0.0.1" };
  dry_run = false;
  break_glass = none;
  outcome = Outcome.undecided;
  error = none;
  duration_ms = none;
}

abbrev pub gated : {P : Type 0} → Runner P
gated = record { policy = open_policy; check = check }

abbrev pub empty_sink : RecordingSink
empty_sink = record {
  events = [];
  fail_next = record { on_attempt = false; on_result = false };
  fail_always = record { on_attempt = false; on_result = false };
}

abbrev pub failing_sink : RecordingSink
failing_sink = record empty_sink { fail_always = record { on_attempt = true; on_result = false } }
