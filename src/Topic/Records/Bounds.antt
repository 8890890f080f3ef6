-- ===== src/Topic/Records/Bounds.antt =====
-- A truncation that is planned stays within its partition: internal/service/topic/delete.go.
use kafka3o_gateway.Prelude.{
  ℤ, pos, ◌≤ℤ◌, ◌+ℤ◌, ◌-ℤ◌, if◌then◌else◌, ltb_ℤ, int_laws, ◌≡◌, refl, true, false, inl, inr,
  String, List, [], ◌∷◌, int_eq, All, arith,
}
use kafka3o_gateway.Prelude.Machine.{wrap, IsInt64, wrap-IsInt64}
use kafka3o_gateway.Prelude.Map
use kafka3o_gateway.Prelude.Map.{Map, keys}
use mathlib.Core.Path.{subst}
use kafka3o_gateway.Prelude.Sort.{sort_by, int_order}
use kafka3o_gateway.Prelude.Sort.Laws.{sort_by-All, Ascending, sort_by-Ascending}
use kafka3o_gateway.Prelude.Sort.Unique.{has}
use kafka3o_gateway.Errors.{ok, Result-cases}
use kafka3o_gateway.Message.Service.{Topic, >=>-ok}
use kafka3o_gateway.Topic.Service.{TopicService}
use kafka3o_gateway.Topic.Records.{
  PartitionDeleteRecordsDetail, DeleteRecordsPlan, truncated_partition, partition_ids,
  plan_delete_records, records_from_topic, records_from_starts, records_from_ends,
  truncation_detail, truncation, truncations,
}

-- A planned truncation: of a partition of the topic, to an offset that is not past its end.
pub record IsTruncation (ids : List ℤ) (starts ends : Map ℤ ℤ) (d : PartitionDeleteRecordsDetail)
    : Type 0 where
  pub exists : has d.partition ids ≡ true
  pub within : d.truncate_to ≤ℤ Map.get_or (pos 0) d.partition ends
  pub starts_at : d.begin_offset ≡ Map.get_or (pos 0) d.partition starts
  pub not_negative : pos 0 ≤ℤ d.approx_records_affected
  pub counts :
      d.begin_offset ≤ℤ d.truncate_to
      → IsInt64 (d.truncate_to -ℤ d.begin_offset)
      → d.begin_offset +ℤ d.approx_records_affected ≡ d.truncate_to
  pub counts_none :
      d.truncate_to ≤ℤ d.begin_offset
      → IsInt64 (d.truncate_to -ℤ d.begin_offset)
      → d.approx_records_affected ≡ pos 0

truncation_detail-IsTruncation :
    (ids : List ℤ) (starts ends : Map ℤ ℤ) (partition truncate_to : ℤ)
    → has partition ids ≡ true
    → ltb_ℤ (Map.get_or (pos 0) partition ends) truncate_to ≡ false
    → IsTruncation ids starts ends (truncation_detail starts partition truncate_to)
truncation_detail-IsTruncation ids starts ends partition truncate_to there inside = record {
  exists = there;
  within = ground arith;
  starts_at = refl;
  not_negative = at_least_0 (wrap (truncate_to -ℤ Map.get_or (pos 0) partition starts));
  counts = λ h small. rw (wrap-IsInt64 _ small) (grind int_laws);
  counts_none = λ h small. rw (wrap-IsInt64 _ small) (grind int_laws);
}
  where
    at_least_0 : (a : ℤ) → pos 0 ≤ℤ (if ltb_ℤ a (pos 0) then pos 0 else a)
    at_least_0 a = ground arith

module _ {P : Type 0} (ids : List ℤ) (starts ends : Map ℤ ℤ) where
  truncation-ok :
      (partition truncate_to : ℤ) (d : PartitionDeleteRecordsDetail)
      → truncation {P = P} ids starts ends partition truncate_to ≡ ok d
      → (has partition ids ≡ true)
        × (ltb_ℤ (Map.get_or (pos 0) partition ends) truncate_to ≡ false)
        × (truncation_detail starts partition truncate_to ≡ d)
  unfolding truncation
  truncation-ok partition truncate_to d h = ground arith

  truncations-IsTruncation :
      (offsets : Map ℤ ℤ) (ds : List PartitionDeleteRecordsDetail)
      → truncations {P = P} ids starts ends offsets ≡ ok ds
      → All (IsTruncation ids starts ends) ds
  unfolding truncations
  truncations-IsTruncation [] [] h = tt
  truncations-IsTruncation [] (d ∷ ds) h = ground arith
  truncations-IsTruncation ((p, to) ∷ rest) ds h =
      elim (Result-cases (truncation {P = P} ids starts ends p to)) [
        | inl (e, bad) ↦ ground arith
        | inr (d, fine) ↦ elim (Result-cases (truncations {P = P} ids starts ends rest)) [
          | inl (e, bad) ↦ ground arith
          | inr (others, fine_rest) ↦
              let (there, inside, same) = truncation-ok p to d fine in
              subst (All (IsTruncation ids starts ends)) (whole d others fine fine_rest) (
                subst (IsTruncation ids starts ends) same
                    (truncation_detail-IsTruncation ids starts ends p to there inside),
                truncations-IsTruncation rest others fine_rest,
              )
        ]
      ]
    where
      whole :
          (d : PartitionDeleteRecordsDetail) (others : List PartitionDeleteRecordsDetail)
          → truncation {P = P} ids starts ends p to ≡ ok d
          → truncations {P = P} ids starts ends rest ≡ ok others
          → d ∷ others ≡ ds
      whole d others fine fine_rest = ground arith

records_from_ends-ok :
    {P W : Type 0} (s : TopicService P W) (topic : String) (offsets : Map ℤ ℤ) (t : Topic)
    (starts ends : Map ℤ ℤ) (w w' : W) (plan : DeleteRecordsPlan)
    → records_from_ends s topic offsets t starts ends w ≡ (ok plan, w')
    → (ds : List PartitionDeleteRecordsDetail) × (truncations {P = P}
          (partition_ids t)
          starts
          ends
          offsets
        ≡ ok ds)
      × (record { topic = topic; partitions = sort_by truncated_partition ds } ≡ plan)
unfolding records_from_ends
records_from_ends-ok {P = P} s topic offsets t starts ends w w' plan h =
    elim (Result-cases (truncations {P = P} (partition_ids t) starts ends offsets)) [
      | inl (e, bad) ↦ ground arith
      | inr (ds, fine) ↦ (ds, fine, ground arith)
    ]

-- A plan to delete records: what was read, and that each of its truncations fits it.
pub record IsRecordsPlan {P W : Type 0} (s : TopicService P W) (topic : String) (w : W)
    (plan : DeleteRecordsPlan) : Type 0 where
  pub described : Topic
  pub starts : Map ℤ ℤ
  pub ends : Map ℤ ℤ
  pub before_starts : W
  pub before_ends : W
  pub topic_read : (s.describe_topics topic w).0 ≡ ok described
  pub starts_read : (s.list_start_offsets topic before_starts).0 ≡ ok starts
  pub ends_read : (s.list_end_offsets topic before_ends).0 ≡ ok ends
  pub fits : All (IsTruncation (partition_ids described) starts ends) plan.partitions
  pub ordered : Ascending truncated_partition plan.partitions

-- If a deletion of records is planned, each truncation names a partition that the topic has and an
-- offset that is not past its end, and they stand in order of partition. If that offset's distance from
-- the partition's start is an int64, the truncation's count of affected records is that distance, or 0
-- if the offset is not past the start.
pub plan_delete_records-IsRecordsPlan :
    {P W : Type 0} (s : TopicService P W) (topic : String) (offsets : Map ℤ ℤ) (w w' : W)
    (plan : DeleteRecordsPlan)
    → plan_delete_records s topic offsets w ≡ (ok plan, w')
    → IsRecordsPlan s topic w plan
unfolding plan_delete_records records_from_topic records_from_starts records_from_ends
plan_delete_records-IsRecordsPlan s topic offsets w w' plan h =
    let m = s.describe_topics topic in
    let (t, topic_read, from_starts) = >=>-ok m (records_from_topic s topic offsets) w w' plan h in
    let m' = s.list_start_offsets topic in
    let (starts, starts_read, from_ends) =
      >=>-ok m' (records_from_starts s topic offsets t) (m w).1 w' plan from_starts in
    let m'' = s.list_end_offsets topic in
    let (ends, ends_read, made) =
      >=>-ok m'' (records_from_ends s topic offsets t starts) (m' (m w).1).1 w' plan from_ends in
    let (ds, cut, same) =
      records_from_ends-ok s topic offsets t starts ends (m'' (m' (m w).1).1).1 w' plan made in
    subst (IsRecordsPlan s topic w) same (record {
      described = t;
      starts = starts;
      ends = ends;
      before_starts = (m w).1;
      before_ends = (m' (m w).1).1;
      topic_read = topic_read;
      starts_read = starts_read;
      ends_read = ends_read;
      fits =
          sort_by-All truncated_partition _ ds
            (truncations-IsTruncation (partition_ids t) starts ends offsets ds cut);
      ordered = sort_by-Ascending truncated_partition ds;
    })
