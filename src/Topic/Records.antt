-- ===== src/Topic/Records.antt =====
-- internal/service/topic/delete.go: delete the records below an offset, or all records of a topic.
pub mod Bounds
pub mod Purge
use kafka3o_gateway.Prelude.{
  ℤ, pos, ◌-ℤ◌, ltb_ℤ, String, Bool, true, false, not, Option, List, [], ◌∷◌, map, int_eq,
  if◌then◌else◌,
}
use kafka3o_gateway.Prelude.Machine.{wrap}
use kafka3o_gateway.Prelude.Map
use kafka3o_gateway.Prelude.Map.{Map}
use kafka3o_gateway.Prelude.Sort.{sort_by, int_order}
use kafka3o_gateway.Prelude.Sort.Unique.{has}
use kafka3o_gateway.Errors.{Err, Result, ok, err, ◌>>=◌, policy, validation, no_details}
use kafka3o_gateway.Command.{lookup_or_zero}
use kafka3o_gateway.Gates.{Caller}
use kafka3o_gateway.Audit.{Io}
use kafka3o_gateway.Core.Destructive.{DestructiveResult, destructive}
use kafka3o_gateway.Message.Service.{◌>=>◌, Topic, Partition}
use kafka3o_gateway.Topic.Service.{TopicService, PartitionLowWatermark, at_once}
use kafka3o_gateway.Topic.Events.{new_event}

pub record PartitionWatermark : Type 0 where
  pub id : ℤ
  pub low_watermark : ℤ

pub record PartitionDeleteRecordsDetail : Type 0 where
  pub partition : ℤ
  pub begin_offset : ℤ
  pub truncate_to : ℤ
  pub approx_records_affected : ℤ

pub record DeleteRecordsPlan : Type 0 where
  pub topic : String
  pub partitions : List PartitionDeleteRecordsDetail

pub record DeleteRecordsResult : Type 0 where
  pub partitions : List PartitionWatermark

abbrev refuse : {P A : Type 0} → String → Result P A
refuse message =
    err (policy (record { code = validation; message = message; details = no_details }))

-- The detail that the loop appends.
abbrev pub truncation_detail : Map ℤ ℤ → ℤ → ℤ → PartitionDeleteRecordsDetail
truncation_detail starts partition truncate_to =
    let b = Map.get_or (pos 0) partition starts in
    let affected = wrap (truncate_to -ℤ b) in
    record {
      partition = partition;
      begin_offset = b;
      truncate_to = truncate_to;
      approx_records_affected = if ltb_ℤ affected (pos 0) then pos 0 else affected;
    }

-- One turn of the loop over `offsets`.
unfoldable pub truncation :
    {P : Type 0} → List ℤ → Map ℤ ℤ → Map ℤ ℤ → ℤ → ℤ → Result P PartitionDeleteRecordsDetail
truncation ids starts ends partition truncate_to =
    if not (has partition ids)
    then refuse "unknown partition"
    else if ltb_ℤ (Map.get_or (pos 0) partition ends) truncate_to
    then refuse "truncateTo exceeds the partition's end offset"
    else ok (truncation_detail starts partition truncate_to)

-- The loop over `offsets`.
unfoldable pub truncations :
    {P : Type 0}
    → List ℤ
    → Map ℤ ℤ
    → Map ℤ ℤ
    → Map ℤ ℤ
    → Result P (List PartitionDeleteRecordsDetail)
unfolding truncation
truncations ids starts ends [] = ok []
truncations ids starts ends ((partition, truncate_to) ∷ rest) =
    let others = truncations ids starts ends rest in
    truncation ids starts ends partition truncate_to >>= λ d. others >>= λ ds. ok (d ∷ ds)

-- The offsets of PlanPurge: each partition's end.
abbrev pub id_of : Partition → ℤ
id_of p = p.id

abbrev pub partition_ids : Topic → List ℤ
partition_ids t = map id_of t.partitions

unfoldable pub end_of_each : Map ℤ ℤ → List Partition → Map ℤ ℤ
end_of_each ends ps = Map.insert_each id_of (λ p. Map.get_or (pos 0) p.id ends) ps []

-- `truncateTo` of ApplyDeleteRecords
abbrev pub truncated_partition : PartitionDeleteRecordsDetail → ℤ
truncated_partition d = d.partition

abbrev pub truncated_to : PartitionDeleteRecordsDetail → ℤ
truncated_to d = d.truncate_to

unfoldable pub truncate_map : List PartitionDeleteRecordsDetail → Map ℤ ℤ
truncate_map ds = Map.insert_each truncated_partition truncated_to ds []

abbrev pub watermark : PartitionLowWatermark → PartitionWatermark
watermark r = record { id = r.partition; low_watermark = r.low_watermark }

module _ {P W : Type 0} (s : TopicService P W) where
  -- PlanDeleteRecords: its end, from the start offsets on, and from the topic on
  unfoldable pub records_from_ends :
      String → Map ℤ ℤ → Topic → Map ℤ ℤ → Map ℤ ℤ → Io W (Result P DeleteRecordsPlan)
  unfolding truncations
  records_from_ends topic offsets t starts ends = at_once (
      truncations (partition_ids t) starts ends offsets >>= λ ds.
      ok (record { topic = topic; partitions = sort_by truncated_partition ds }))

  unfoldable pub records_from_starts :
      String → Map ℤ ℤ → Topic → Map ℤ ℤ → Io W (Result P DeleteRecordsPlan)
  unfolding records_from_ends
  records_from_starts topic offsets t starts =
      s.list_end_offsets topic >=> records_from_ends topic offsets t starts

  unfoldable pub records_from_topic : String → Map ℤ ℤ → Topic → Io W (Result P DeleteRecordsPlan)
  unfolding records_from_starts
  records_from_topic topic offsets t =
      s.list_start_offsets topic >=> records_from_starts topic offsets t

  -- PlanDeleteRecords
  unfoldable pub plan_delete_records : String → Map ℤ ℤ → Io W (Result P DeleteRecordsPlan)
  unfolding records_from_topic
  plan_delete_records topic offsets = s.describe_topics topic >=> records_from_topic topic offsets

  -- PlanPurge
  unfoldable pub plan_purge : String → Io W (Result P DeleteRecordsPlan)
  unfolding plan_delete_records end_of_each
  plan_purge topic = s.describe_topics topic >=> λ t.
      s.list_end_offsets topic >=> λ ends. plan_delete_records topic (end_of_each ends t.partitions)

  -- ApplyDeleteRecords
  unfoldable pub apply_delete_records : DeleteRecordsPlan → Io W (Result P DeleteRecordsResult)
  unfolding truncate_map
  apply_delete_records plan =
      s.delete_records plan.topic (truncate_map plan.partitions) >=> λ results. at_once (
        ok (record {
          partitions = sort_by (λ (r : PartitionWatermark). r.id) (map watermark results);
        }))

module _ {W : Type 0} (s : TopicService DeleteRecordsPlan W) where
  -- DeleteRecords
  unfoldable pub delete_records :
      Caller
      → String
      → Map ℤ ℤ
      → String
      → Bool
      → Io W
          (DestructiveResult DeleteRecordsPlan DeleteRecordsResult × Option (Err DeleteRecordsPlan))
  unfolding new_event plan_delete_records apply_delete_records
  delete_records caller topic offsets confirm dry_run w =
      let (attempt, w₁) = new_event s caller "T11" topic w in
      destructive s.now s.runner s.sinks (λ (p : DeleteRecordsPlan). p.topic)
        (plan_delete_records s topic offsets) (apply_delete_records s) caller (lookup_or_zero "T11")
        attempt confirm dry_run w₁

  -- Purge
  unfoldable pub purge :
      Caller
      → String
      → String
      → Bool
      → Io W
          (DestructiveResult DeleteRecordsPlan DeleteRecordsResult × Option (Err DeleteRecordsPlan))
  unfolding new_event plan_purge apply_delete_records
  purge caller topic confirm dry_run w =
      let (attempt, w₁) = new_event s caller "T12" topic w in
      destructive s.now s.runner s.sinks (λ (p : DeleteRecordsPlan). p.topic) (plan_purge s topic)
        (apply_delete_records s) caller (lookup_or_zero "T12") attempt confirm dry_run w₁
