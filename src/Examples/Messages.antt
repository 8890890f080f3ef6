-- ===== src/Examples/Messages.antt =====
-- The message service on a broker with one partition of two records.
use Prim.Native.Nat.{◌+◌}
use kafka3o_gateway.Prelude.{
  ℕ, ℤ, pos, negsuc, ◌≤ℤ◌, ◌<ℤ◌, String, Bool, true, false, Option, none, some, List, [], ◌∷◌, ◌≡◌,
  ◌⊎◌, refl, ap, length, take, map, All, arith, int_eq,
}
use kafka3o_gateway.Prelude.Map
use kafka3o_gateway.Prelude.Map.{Map}
use kafka3o_gateway.Errors.{Err, ok, err, other}
use kafka3o_gateway.Scan.Types.{Record, PartitionSpec, Stats}
use kafka3o_gateway.Scan.Matcher.{match_all}
use kafka3o_gateway.Scan.Runner.{Accumulator, hit_bound, Poll}
use kafka3o_gateway.Scan.Run.{Consumer, RunEnd}
use kafka3o_gateway.Message.Service.{Service, ProduceRequest, ProduceResult, Range, Bounds}
use kafka3o_gateway.Message.Bounds.{resolve_int_bound, resolve_max_time}
use kafka3o_gateway.Message.Bounds.Limits.{resolve_int_bound-negative, resolve_max_time-overflow}
use kafka3o_gateway.Message.Window.{From, beginning, WindowParams, resolve_windows}
use kafka3o_gateway.Message.Window.Snapshot.{IsSnapshot, resolve_windows-IsSnapshot}
use kafka3o_gateway.Message.Replay.{ReplayPlan, apply_replay}
use kafka3o_gateway.Message.Replay.Retry.{AnswersEach, IsRetryPoint, apply_replay-IsRetryPoint}
use kafka3o_gateway.Message.Events.{check_gate}
use kafka3o_gateway.Message.Read.{ReadParams, read}
use kafka3o_gateway.Message.Read.Limited.{read-IsLimited}
use kafka3o_gateway.Examples.Data.{
  operator, marking, record_at, window_to, spec_of, two_records, gated,
}

abbrev many : Accumulator
many = record { scanned = 500; matched = 500; skipped = 0; bytes = 0 }

resolve_int_bound-negative_example :
    (resolve_int_bound {P = String} "limit" (negsuc 0) (pos 5) (pos 10) ≡ ok (negsuc 0))
    × (hit_bound many (record (spec_of false 5) { max_messages = negsuc 0 })
        ≡ hit_bound many (record (spec_of false 5) { max_messages = pos 0 }))
resolve_int_bound-negative_example =
    resolve_int_bound-negative String "limit" (negsuc 0) (pos 5) (pos 10) (spec_of false 5) many
      (omega arith) (omega arith)

resolve_max_time-overflow_example :
    (d : ℤ) × (resolve_max_time {P = String}
        (pos 10000000000000)
        (pos 30000000000)
        (pos 120000000000)
      ≡ ok d)
    × (d <ℤ pos 0)
resolve_max_time-overflow_example =
    resolve_max_time-overflow String 10000000000000 (pos 30000000000) (pos 120000000000)
      (omega arith) (omega arith) (omega arith)

abbrev range_to : ℕ → Range
range_to n = record { default = pos n; ceiling = pos n }

abbrev bounds : Bounds
bounds = record {
  limit = range_to 10;
  max_scan = range_to 10;
  max_matches = range_to 10;
  max_bytes = range_to 10;
  max_time = range_to 10;
  regex_timeout = pos 1;
  max_bulk_body_bytes = pos 10;
  replay = range_to 10;
}

abbrev polls : List (Poll ReplayPlan)
polls = record { records = two_records; error = none; cancelled = false; expired = false } ∷ []

abbrev consumer : Consumer ReplayPlan
consumer = record { assign = λ topic partitions offsets. none; polls = λ topic offsets. polls }

abbrev accepted : ProduceRequest → ProduceResult ReplayPlan
accepted r = record { partition = pos 0; offset = pos 0; timestamp = r.timestamp; error = none }

abbrev refused : ProduceResult ReplayPlan
refused = record {
  partition = pos 0;
  offset = pos 0;
  timestamp = pos 0;
  error = some (other "refused");
}

-- The first record is taken, the others are refused.
abbrev first_only : List ProduceRequest → List (ProduceResult ReplayPlan)
first_only [] = []
first_only (r ∷ rs) = accepted r ∷ map (λ q. refused) rs

-- The state is the clock.
abbrev service : Service ReplayPlan ℕ
service = record {
  list_start_offsets = λ topic w. (ok ((pos 0, pos 0) ∷ []), w);
  list_end_offsets = λ topic w. (ok ((pos 0, pos 2) ∷ []), w);
  list_offsets_after_milli = λ topic t w. (ok [], w);
  describe_topics = λ topic w. (err (other "unknown"), w);
  produce = λ topic requests w. (ok (first_only requests), w);
  new_consumer = λ w. (ok consumer, w);
  bounds = bounds;
  now = λ w. (pos w, w + 1);
  sinks = [];
  new_event_id = λ w. ("event", w);
  runner = gated;
}

abbrev params : WindowParams
params = record { topic = "orders"; partitions = []; from = beginning; to = none }

resolve_windows-IsSnapshot_example :
    (ends : Map ℤ ℤ) × ((service.list_end_offsets "orders" 0).0 ≡ ok ends)
    × ((p : ℤ) (window : PartitionSpec)
        → Map.lookup p ((pos 0, window_to 2) ∷ []) ≡ some window
        → IsSnapshot params (pos 10) ends p window)
unfolding resolve_windows Map.insert kafka3o_gateway.Message.Window.resolve_from_offset Map.get_or
resolve_windows-IsSnapshot_example =
    resolve_windows-IsSnapshot service params (pos 10) 0 0 ((pos 0, window_to 2) ∷ []) refl

abbrev results : List (ProduceResult ReplayPlan)
results =
    record { partition = pos 0; offset = pos 0; timestamp = pos 0; error = none } ∷ refused ∷ []

abbrev items : List Record
items = record_at 0 0 ∷ record_at 0 1 ∷ []

abbrev start_cursor : Map ℤ ℤ
start_cursor = (pos 0, pos 0) ∷ []

abbrev replay_plan : ReplayPlan
replay_plan = record {
  source = record { topic = "orders"; partitions = []; from = beginning; to = none };
  target = record { topic = "copy"; preserve_partition = false };
  limit = pos 10;
  estimated_records = pos 2;
  source_partitions = 1;
  target_partitions = 1;
  windows = (pos 0, window_to 2) ∷ [];
}

length-map-refused :
    (rs : List ProduceRequest) → length (map (λ (q : ProduceRequest). refused) rs) ≡ length rs
length-map-refused [] = refl
length-map-refused (r ∷ rs) = ap ℕ.suc (length-map-refused rs)

length-first_only : (rs : List ProduceRequest) → length (first_only rs) ≡ length rs
length-first_only [] = refl
length-first_only (r ∷ rs) = ap ℕ.suc (length-map-refused rs)

service-AnswersEach : AnswersEach service
service-AnswersEach topic requests w rs h = ground (arith, h, length-first_only requests)

abbrev stats : Stats
stats = record {
  scanned = 2;
  matched = 2;
  skipped = 0;
  bytes = 2;
  elapsed_ms = pos 0;
  reached_end = true;
  stopped_by = none;
  continuation = (pos 0, pos 2) ∷ [];
}

abbrev ended : RunEnd ReplayPlan
ended = record { outcome = ok (stats, items); closed = true }

apply_replay-IsRetryPoint_example :
    IsRetryPoint marking
      (λ less rs. rs)
      service
      (apply_replay marking (λ less rs. rs) service replay_plan 0).0
      items
unfolding kafka3o_gateway.Scan.Run.run kafka3o_gateway.Scan.Runner.poll_loop
    kafka3o_gateway.Scan.Runner.windows_exhausted Map.get_or Map.insert
    kafka3o_gateway.Scan.Runner.evaluate_batch kafka3o_gateway.Scan.Runner.in_window Map.lookup
    hit_bound kafka3o_gateway.Scan.Runner.count_record match_all kafka3o_gateway.Prelude.Int.◌+ℤ◌
    kafka3o_gateway.Scan.Run.final_stats kafka3o_gateway.Scan.Run.drain
    kafka3o_gateway.Prelude.Int.◌-ℤ◌ kafka3o_gateway.Scan.Codec.decode
apply_replay-IsRetryPoint_example =
    apply_replay-IsRetryPoint marking (λ less rs. rs) service replay_plan 0 consumer ended stats
      items service-AnswersEach refl refl refl refl

abbrev read_params : ReadParams
read_params = record {
  topic = "orders";
  partitions = [];
  from = beginning;
  to = none;
  limit = pos 5;
  max_bytes = pos 0;
  max_time_ms = pos 0;
  format = "";
}

two_read :
    read marking (λ less rs. rs) service operator read_params 0 ≡ (some (ok (stats, items)), 3)
unfolding Map.get_or Map.insert Map.lookup check_gate hit_bound
    kafka3o_gateway.Audit.Schema.high_severity_command kafka3o_gateway.Audit.Schema.severity_for
    kafka3o_gateway.Audit.result kafka3o_gateway.Command.lookup
    kafka3o_gateway.Command.lookup_or_zero kafka3o_gateway.Command.table
    kafka3o_gateway.Core.Destructive.milliseconds_between
    kafka3o_gateway.Core.Destructive.result_event kafka3o_gateway.Core.Run.check_audited
    kafka3o_gateway.Core.Run.code_or_zero kafka3o_gateway.Core.Run.rejection
    kafka3o_gateway.Errors.Text.code_string kafka3o_gateway.Errors.code_of
    kafka3o_gateway.Gates.check kafka3o_gateway.Message.Bounds.duration_of_milli
    kafka3o_gateway.Message.Bounds.resolve_bytes_bound kafka3o_gateway.Message.Bounds.wrap_int64
    kafka3o_gateway.Message.Events.audit_break_glass_read kafka3o_gateway.Message.Events.new_event
    kafka3o_gateway.Message.Events.result_event_outcome kafka3o_gateway.Message.Read.finish_read
    kafka3o_gateway.Message.Read.plan_read kafka3o_gateway.Message.Read.run_scan
    kafka3o_gateway.Message.Window.list_to_offsets
    kafka3o_gateway.Message.Window.maybe_list_after_milli
    kafka3o_gateway.Message.Window.maybe_list_start
    kafka3o_gateway.Message.Window.resolve_from_offset
    kafka3o_gateway.Message.Window.resolve_to_offset kafka3o_gateway.Message.Window.window_end
    kafka3o_gateway.Message.Window.window_of kafka3o_gateway.Message.Window.windows_of
    kafka3o_gateway.Prelude.Int.◌+ℤ◌ kafka3o_gateway.Prelude.Int.◌-ℤ◌
    kafka3o_gateway.Scan.Codec.decode kafka3o_gateway.Scan.Codec.decode_bytes
    kafka3o_gateway.Scan.Codec.decode_header kafka3o_gateway.Scan.Codec.decode_header_value
    kafka3o_gateway.Scan.Run.continuation_of kafka3o_gateway.Scan.Run.drain
    kafka3o_gateway.Scan.Run.final_stats kafka3o_gateway.Scan.Run.finish_run
    kafka3o_gateway.Scan.Run.run kafka3o_gateway.Scan.Run.start_offsets
    kafka3o_gateway.Scan.Run.truncate kafka3o_gateway.Scan.Runner.count_record
    kafka3o_gateway.Scan.Runner.evaluate kafka3o_gateway.Scan.Runner.evaluate_batch
    kafka3o_gateway.Scan.Runner.in_window kafka3o_gateway.Scan.Runner.poll_loop
    kafka3o_gateway.Scan.Runner.poll_once kafka3o_gateway.Scan.Runner.windows_exhausted match_all
    read resolve_int_bound resolve_max_time resolve_windows
two_read = refl

read-IsLimited_example :
    ((check_gate service operator "M1" "orders" 0).0 ≡ none) × (pos (length items) ≤ℤ pos 10)
read-IsLimited_example =
    read-IsLimited marking (λ less rs. rs) service read_params operator 0 3 stats items
      (omega arith) (omega arith) (omega arith) two_read
