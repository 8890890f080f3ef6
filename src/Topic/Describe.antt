-- ===== src/Topic/Describe.antt =====
-- internal/service/topic/describe.go and size.go: one topic's partitions with their offsets, and
-- their sizes on disk.
use kafka3o_gateway.Prelude.{ℤ, pos, ◌+ℤ◌, ◌-ℤ◌, String, Bool, List, [], ◌∷◌, ◌++◌, map, int_eq}
use kafka3o_gateway.Prelude.Map
use kafka3o_gateway.Prelude.Map.{Map}
use kafka3o_gateway.Prelude.Sort.{sort_by, int_order}
use kafka3o_gateway.Errors.{Result, ok}
use kafka3o_gateway.Audit.{Io}
use kafka3o_gateway.Message.Service.{◌>=>◌, Topic, Partition}
use kafka3o_gateway.Topic.Service.{TopicService, ConfigEntry, LogDirReplica, at_once}

pub record PartitionDetail : Type 0 where
  pub id : ℤ
  pub leader : ℤ
  pub replicas : List ℤ
  pub isr : List ℤ
  pub begin_offset : ℤ
  pub end_offset : ℤ
  pub approx_count : ℤ

pub record Describe : Type 0 where
  pub name : String
  pub internal : Bool
  pub replication_factor : ℤ
  pub approx_message_count : ℤ
  pub partitions : List PartitionDetail
  pub configs : List ConfigEntry

-- One turn of the loop over the partitions.
abbrev pub partition_detail : Map ℤ ℤ → Map ℤ ℤ → Partition → PartitionDetail
partition_detail starts ends p =
    let b = Map.get_or (pos 0) p.id starts in
    let e = Map.get_or (pos 0) p.id ends in
    record {
      id = p.id;
      leader = p.leader;
      replicas = p.replicas;
      isr = p.isr;
      begin_offset = b;
      end_offset = e;
      approx_count = e -ℤ b;
    }

-- `approxTotal`
pub sum_approx : List PartitionDetail → ℤ
sum_approx [] = pos 0
sum_approx (d ∷ ds) = d.approx_count +ℤ sum_approx ds

unfoldable pub described : Topic → Map ℤ ℤ → Map ℤ ℤ → List ConfigEntry → Describe
unfolding sum_approx
described t starts ends configs =
    let details = map (partition_detail starts ends) t.partitions in
    record {
      name = t.name;
      internal = t.internal;
      replication_factor = t.replication_factor;
      approx_message_count = sum_approx details;
      partitions = sort_by (λ (d : PartitionDetail). d.id) details;
      configs = configs;
    }

pub record ReplicaSize : Type 0 where
  pub broker_id : ℤ
  pub log_dir : String
  pub bytes : ℤ

pub record PartitionSize : Type 0 where
  pub id : ℤ
  pub bytes : ℤ
  pub replicas : List ReplicaSize

pub record Size : Type 0 where
  pub topic : String
  pub total_bytes : ℤ
  pub partitions : List PartitionSize

-- The entries by partition: `byPartition[e.Partition] = append(byPartition[e.Partition], …)` for
-- each entry after those of `seen`.
pub by_partition : Map ℤ (List ReplicaSize) → List LogDirReplica → Map ℤ (List ReplicaSize)
by_partition seen [] = seen
by_partition seen (e ∷ es) =
    by_partition
      (Map.insert e.partition
        (Map.get_or [] e.partition seen
          ++ record { broker_id = e.broker_id; log_dir = e.log_dir; bytes = e.bytes } ∷ [])
        seen)
      es

pub sum_bytes : List ReplicaSize → ℤ
sum_bytes [] = pos 0
sum_bytes (r ∷ rs) = r.bytes +ℤ sum_bytes rs

-- The loop over the partitions: `total`, and `partitions` before its sort.
pub sizes_of : Map ℤ (List ReplicaSize) → ℤ × List PartitionSize
unfolding sum_bytes
sizes_of [] = (pos 0, [])
sizes_of ((id, replicas) ∷ rest) =
    let bytes = sum_bytes replicas in
    let (total, sizes) = sizes_of rest in
    (
      bytes +ℤ total,
      record {
        id = id;
        bytes = bytes;
        replicas = sort_by (λ (r : ReplicaSize). r.broker_id) replicas;
      }
          ∷ sizes,
    )

module _ {P W : Type 0} (s : TopicService P W) where
  -- Describe
  unfoldable pub describe : String → Io W (Result P Describe)
  unfolding described
  describe name = s.describe_topics name >=> λ t. s.list_start_offsets name >=> λ starts.
      s.list_end_offsets name >=> λ ends.
      s.describe_topic_configs name >=> λ configs. at_once (ok (described t starts ends configs))

  -- Size
  unfoldable pub size : String → Io W (Result P Size)
  unfolding by_partition sizes_of
  size name = s.describe_log_dirs name >=> λ entries.
      let (total, sizes) = sizes_of (by_partition [] entries) in
      at_once (
        ok (record {
          topic = name;
          total_bytes = total;
          partitions = sort_by (λ (p : PartitionSize). p.id) sizes;
        }))
