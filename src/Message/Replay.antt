-- ===== src/Message/Replay.antt =====
-- internal/service/message/replay.go: copy a range of one topic's records to another.
pub mod Account
pub mod Retry
use kafka3o_gateway.Prelude.{
  ℕ, suc, ◌≤◌, ℤ, pos, negsuc, ◌+ℤ◌, ◌-ℤ◌, ltb_ℤ, leb_ℤ, String, Bool, true, false, ◌&&◌, Option,
  none, some, List, [], ◌∷◌, length, int_eq, if◌then◌else◌,
}
use kafka3o_gateway.Prelude.Map
use kafka3o_gateway.Prelude.Map.{Map}
use kafka3o_gateway.Errors.{
  Err, Result, ok, err, ◌>>=◌, policy, replay_failed, partition_mismatch, progress, no_details,
}
use kafka3o_gateway.Errors.Text.{error_text}
use kafka3o_gateway.Command.{lookup_or_zero}
use kafka3o_gateway.Gates.{Caller}
use kafka3o_gateway.Audit.{Io}
use kafka3o_gateway.Core.Destructive.{DestructiveResult, destructive}
use kafka3o_gateway.Scan.Types.{KafkaHeader, Header, Record, PartitionSpec, Spec, Stats, Matcher}
use kafka3o_gateway.Scan.Run.{SortSlice}
use kafka3o_gateway.Scan.Codec.{Encodings, encode_value}
use kafka3o_gateway.Scan.Matcher.{match_all}
use kafka3o_gateway.Scan.Run.{start_offsets, RunEnd}
use kafka3o_gateway.Scan.Run
use kafka3o_gateway.Message.Service.{
  after_scan, Service, ◌>=>◌, ProduceRequest, ProduceResult, Topic,
}
use kafka3o_gateway.Message.Bounds.{resolve_int_bound}
use kafka3o_gateway.Message.Window.{From, latest, beginning, offset, timestamp, resolve_windows}
use kafka3o_gateway.Message.Events.{new_event}

pub record ReplaySource : Type 0 where
  pub topic : String
  pub partitions : List ℤ
  pub from : From
  pub to : Option From

pub record ReplayTarget : Type 0 where
  pub topic : String
  pub preserve_partition : Bool

pub record ReplayPlan : Type 0 where
  pub source : ReplaySource
  pub target : ReplayTarget
  pub limit : ℤ
  pub estimated_records : ℤ
  pub source_partitions : ℕ
  pub target_partitions : ℕ
  pub windows : Map ℤ PartitionSpec

-- ConfirmTarget
abbrev pub confirm_target : ReplayPlan → String
confirm_target p = p.target.topic

pub record ReplayResult : Type 0 where
  pub copied : ℕ
  pub cursor : Map ℤ ℤ
  pub reached_end : Bool

-- `estimated` after the loop over the windows.
unfoldable pub estimated_of : Map ℤ PartitionSpec → ℤ
estimated_of [] = pos 0
estimated_of ((p, w) ∷ ws) = (w.end_ -ℤ w.start) +ℤ estimated_of ws

-- `maxSourcePartition` after the loop; -1 for no window.
unfoldable pub max_source_partition : Map ℤ PartitionSpec → ℤ
max_source_partition [] = negsuc 0
max_source_partition ((p, w) ∷ ws) = let m = max_source_partition ws in if ltb_ℤ m p then p else m

-- PlanReplay from DescribeTopics' answer on.
unfoldable pub make_plan :
    ReplaySource → ReplayTarget → ℤ → Map ℤ PartitionSpec → Topic → Result ReplayPlan ReplayPlan
unfolding estimated_of max_source_partition
make_plan source target limit windows t =
    if target.preserve_partition && leb_ℤ (pos (length t.partitions)) (max_source_partition windows)
    then err (
        policy (record {
          code = partition_mismatch;
          message =
              "target does not have enough partitions to preserve the source's partition numbers";
          details = no_details;
        }))
    else ok (record {
      source = source;
      target = target;
      limit = limit;
      estimated_records = estimated_of windows;
      source_partitions = length windows;
      target_partitions = length t.partitions;
      windows = windows;
    })

replay_headers : {P : Type 0} → Encodings → List Header → Result P (List KafkaHeader)
replay_headers lib [] = ok []
replay_headers lib (h ∷ hs) = encode_value lib h.value h.value_encoding >>= λ v.
    replay_headers lib hs >>= λ rest. ok (record { key = h.key; value = v } ∷ rest)

-- replayProduceRequest
unfoldable pub replay_produce_request :
    {P : Type 0} → Encodings → Record → Bool → Result P ProduceRequest
unfolding replay_headers
replay_produce_request lib item preserve = encode_value lib item.key item.key_encoding >>= λ key.
    encode_value lib item.value item.value_encoding >>= λ value.
    replay_headers lib item.headers >>= λ headers. ok (record {
      key = key;
      value = value;
      headers = headers;
      partition = if preserve then some item.partition else none;
      timestamp = item.timestamp;
    })

-- The loop that builds the requests.
unfoldable pub replay_requests :
    {P : Type 0} → Encodings → List Record → Bool → Result P (List ProduceRequest)
replay_requests lib [] preserve = ok []
replay_requests lib (item ∷ items) preserve = replay_produce_request lib item preserve >>= λ req.
    replay_requests lib items preserve >>= λ rest. ok (req ∷ rest)

-- wrapReplayFailure
unfoldable pub wrap_replay_failure : {P : Type 0} → Err P → ℕ → Map ℤ ℤ → Err P
wrap_replay_failure cause copied cursor =
    policy (record {
      code = replay_failed;
      message = error_text cause;
      details = progress copied cursor;
    })

-- How ApplyReplay ends: it returns, it indexes past the items, or its scan is still polling.
pub data ReplayEnd (P : Type 0) : Type 0 where
  returned : Result P ReplayResult → ReplayEnd P
  out_of_range : ReplayEnd P
  polling : ReplayEnd P

-- The loop over the producer's results, up to the first one that failed.
unfoldable pub account :
    {P : Type 0} → Bool → List (ProduceResult P) → List Record → ℕ → Map ℤ ℤ → ReplayEnd P
account reached_end [] items copied cursor =
    returned (ok (record { copied = copied; cursor = cursor; reached_end = reached_end }))
account reached_end (r ∷ rs) [] copied cursor = elim r.error [
  | some e ↦ returned (err (wrap_replay_failure e copied cursor))
  | none ↦ out_of_range
]
account reached_end (r ∷ rs) (item ∷ items) copied cursor =
    let rest =
      account reached_end rs items (suc copied)
        (Map.insert item.partition (item.offset +ℤ pos 1) cursor) in
    elim r.error [ some e ↦ returned (err (wrap_replay_failure e copied cursor)) | none ↦ rest ]

abbrev pub is_latest : From → Bool
is_latest beginning = false
is_latest latest = true
is_latest (offset o) = false
is_latest (timestamp t) = false

abbrev pub replay_spec : ReplayPlan → Spec
replay_spec plan = record {
  topic = plan.source.topic;
  partitions = plan.windows;
  latest = is_latest plan.source.from;
  max_messages = plan.limit;
  max_scanned = pos 0;
  max_bytes = pos 0;
  max_time = pos 0;
  format = "";
}

module _ {W : Type 0} (lib : Encodings) (sort : SortSlice) (s : Service ReplayPlan W) where
  -- PlanReplay
  unfoldable pub plan_replay : ReplaySource → ReplayTarget → ℤ → Io W (Result ReplayPlan ReplayPlan)
  unfolding make_plan
  plan_replay source target limit =
      (λ w. (resolve_int_bound "limit" limit s.bounds.replay.default s.bounds.replay.ceiling, w))
      >=> λ bound.
          resolve_windows s
            (record {
              topic = source.topic;
              partitions = source.partitions;
              from = source.from;
              to = source.to;
            })
            bound
          >=> λ windows. s.describe_topics target.topic >=> λ t.
              λ w. (make_plan source target bound windows t, w)

  -- ApplyReplay from the scan's records on.
  unfoldable pub copy_items : ReplayPlan → Stats → List Record → Io W (ReplayEnd ReplayPlan)
  copy_items plan stats [] w = (
    returned (
        ok (record {
          copied = 0;
          cursor = start_offsets plan.windows;
          reached_end = stats.reached_end;
        })),
    w,
  )
  copy_items plan stats (item ∷ items) w =
      let cursor = start_offsets plan.windows in
      elim (replay_requests lib (item ∷ items) plan.target.preserve_partition) [
        | err e ↦ (returned (err (wrap_replay_failure e 0 cursor)), w)
        | ok requests ↦
            let (answer, w') = s.produce plan.target.topic requests w in
            elim answer [
              | err e ↦ (returned (err (wrap_replay_failure e 0 cursor)), w')
              | ok results ↦ (account stats.reached_end results (item ∷ items) 0 cursor, w')
            ]
      ]

  -- ApplyReplay; the scan reads the clock when it starts and when it ends.
  unfoldable pub apply_replay : ReplayPlan → Io W (ReplayEnd ReplayPlan)
  unfolding copy_items
  apply_replay plan w =
      let (made, w₁) = s.new_consumer w in
      let (start, w₂) = s.now w₁ in
      let (finish, w₃) = s.now w₂ in
      elim made [
        | err e ↦ (returned (err e), w₁)
        | ok consumer ↦ elim (Run.run lib sort (replay_spec plan) match_all start finish consumer) [
          | none ↦ (polling, w₂)
          | some ended ↦ elim ended.outcome [
            | err e ↦ (returned (err e), w₂)
            | ok (stats, items) ↦ copy_items plan stats items (after_scan (replay_spec plan) w₂ w₃)
          ]
        ]
      ]
