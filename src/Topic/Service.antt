-- ===== src/Topic/Service.antt =====
-- internal/service/topic/service.go: the calls of the admin port that the topic service makes, with
-- the types of internal/kafka/types.go that they exchange.
use kafka3o_gateway.Prelude.{ℤ, String, Bool, Option, none, some, List}
use kafka3o_gateway.Prelude.Map.{Map}
use kafka3o_gateway.Errors.{Err, Result, ok, err}
pub use kafka3o_gateway.Errors.{first_result}
use kafka3o_gateway.Audit.{Io, Sink}
use kafka3o_gateway.Core.Run.{Runner}
use kafka3o_gateway.Message.Service.{Topic}

pub record TopicSummary : Type 0 where
  pub name : String
  pub internal : Bool
  pub partition_count : ℤ
  pub replication_factor : ℤ

pub data ConfigSource : Type 0 where
  source_default source_static source_dynamic : ConfigSource

pub record ConfigEntry : Type 0 where
  pub name : String
  pub value : String
  pub source : ConfigSource
  pub is_sensitive : Bool
  pub is_read_only : Bool

-- A `nil` value resets the key.
pub record ConfigChange : Type 0 where
  pub name : String
  pub value : Option String

pub record TopicSpec : Type 0 where
  pub name : String
  pub partitions : ℤ
  pub replication_factor : ℤ
  pub configs : Map String String

pub record TopicCreateResult (P : Type 0) : Type 0 where
  pub name : String
  pub partitions : ℤ
  pub replication_factor : ℤ
  pub configs : List ConfigEntry
  pub error : Option (Err P)

pub record TopicDeleteResult (P : Type 0) : Type 0 where
  pub name : String
  pub error : Option (Err P)

pub record PartitionLowWatermark : Type 0 where
  pub partition : ℤ
  pub low_watermark : ℤ

pub record LogDirReplica : Type 0 where
  pub partition : ℤ
  pub broker_id : ℤ
  pub log_dir : String
  pub bytes : ℤ

-- The service over its admin client, auditor, clock and runner.
pub record TopicService (P W : Type 0) : Type 0 where
  pub list_topics : Io W (Result P (List TopicSummary))
  pub describe_topics : String → Io W (Result P Topic)
  pub describe_topic_configs : String → Io W (Result P (List ConfigEntry))
  pub describe_log_dirs : String → Io W (Result P (List LogDirReplica))
  pub list_start_offsets : String → Io W (Result P (Map ℤ ℤ))
  pub list_end_offsets : String → Io W (Result P (Map ℤ ℤ))
  pub list_offsets_after_milli : String → ℤ → Io W (Result P (Map ℤ ℤ))
  pub create_topics : List TopicSpec → Bool → Io W (Result P (List (TopicCreateResult P)))
  pub delete_topics : List String → Io W (Result P (List (TopicDeleteResult P)))
  pub delete_records : String → Map ℤ ℤ → Io W (Result P (List PartitionLowWatermark))
  pub incremental_alter_topic_configs : String → List ConfigChange → Io W (Option (Err P))
  pub create_partitions : String → ℤ → Io W (Option (Err P))
  pub sinks : List (Sink P W)
  pub new_event_id : Io W String
  pub now : Io W ℤ
  pub runner : Runner P

-- A call that returns at once, and one that answers with an error or with nothing.
abbrev pub at_once : {P W A : Type 0} → Result P A → Io W (Result P A)
at_once r w = (r, w)

abbrev pub unless_error : {P W A : Type 0} → A → Io W (Option (Err P)) → Io W (Result P A)
unless_error a m w = let (e, w') = m w in elim e [ some x ↦ (err x, w') | none ↦ (ok a, w') ]
