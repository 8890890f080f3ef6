-- ===== src/Topic/Alter.antt =====
-- internal/service/topic/destructive.go: change a topic's configuration, and add partitions to it.
use kafka3o_gateway.Prelude.{
  ℤ, pos, leb_ℤ, String, Bool, Option, none, some, List, [], ◌∷◌, ◌++◌, map, length, ◌==◌,
  string_eq, if◌then◌else◌,
}
use kafka3o_gateway.Prelude.Map.{Map}
use kafka3o_gateway.Prelude.Sort.{sort_by, string_order}
use kafka3o_gateway.Errors.{Err, Result, ok, err, policy, partition_mismatch, no_details}
use kafka3o_gateway.Command.{lookup_or_zero}
use kafka3o_gateway.Gates.{Caller}
use kafka3o_gateway.Audit.{Io}
use kafka3o_gateway.Core.Destructive.{DestructiveResult, destructive}
use kafka3o_gateway.Message.Service.{◌>=>◌}
use kafka3o_gateway.Topic.Service.{TopicService, ConfigEntry, ConfigChange, at_once, unless_error}
use kafka3o_gateway.Topic.Events.{new_event}

pub record ConfigChangeDetail : Type 0 where
  pub name : String
  pub from : String
  pub to : String

pub record AlterConfigPlan : Type 0 where
  pub topic : String
  pub changes : List ConfigChangeDetail

pub record AlterConfigResult : Type 0 where
  pub name : String
  pub configs : List ConfigEntry

pub record AddPartitionsPlan : Type 0 where
  pub topic : String
  pub from : ℤ
  pub to : ℤ
  pub warning : String

pub record AddPartitionsResult : Type 0 where
  pub name : String
  pub partition_count : ℤ

-- `byName[name].Value`: the last entry of that name, and the empty string where there is none.
pub current_value : String → String → List ConfigEntry → String
current_value name seen [] = seen
current_value name seen (c ∷ cs) = current_value name (if c.name == name then c.value else seen) cs

-- The changes of the plan: those of `set`, then the resets.
pub set_details : List ConfigEntry → Map String String → List ConfigChangeDetail
unfolding current_value
set_details current [] = []
set_details current ((name, value) ∷ rest) =
    record { name = name; from = current_value name "" current; to = value }
    ∷ set_details current rest

pub reset_details : List ConfigEntry → List String → List ConfigChangeDetail
unfolding current_value
reset_details current [] = []
reset_details current (name ∷ rest) =
    record { name = name; from = current_value name "" current; to = "" }
    ∷ reset_details current rest

unfoldable pub change_details :
    List ConfigEntry → Map String String → List String → List ConfigChangeDetail
unfolding set_details reset_details
change_details current set reset =
    sort_by (λ (c : ConfigChangeDetail). c.name)
      (set_details current set ++ reset_details current reset)

-- The changes that ApplyAlterConfig sends.
abbrev set_change : String × String → ConfigChange
set_change p = record { name = p.0; value = some p.1 }

abbrev reset_change : String → ConfigChange
reset_change name = record { name = name; value = none }

unfoldable pub config_changes : Map String String → List String → List ConfigChange
config_changes set reset = map set_change set ++ map reset_change reset

module _ {P W : Type 0} (s : TopicService P W) where
  -- PlanAlterConfig
  unfoldable pub plan_alter_config :
      String → Map String String → List String → Io W (Result P AlterConfigPlan)
  unfolding change_details
  plan_alter_config topic set reset = s.describe_topic_configs topic >=> λ current.
      at_once (ok (record { topic = topic; changes = change_details current set reset }))

  -- ApplyAlterConfig
  unfoldable pub apply_alter_config :
      AlterConfigPlan → Map String String → List String → Io W (Result P AlterConfigResult)
  unfolding config_changes
  apply_alter_config plan set reset =
      unless_error tt (s.incremental_alter_topic_configs plan.topic (config_changes set reset))
      >=> λ (_ : Unit {0}). s.describe_topic_configs plan.topic >=> λ configs.
          at_once (ok (record { name = plan.topic; configs = configs }))

  -- PlanAddPartitions
  unfoldable pub plan_add_partitions : String → ℤ → Io W (Result P AddPartitionsPlan)
  plan_add_partitions topic to = s.describe_topics topic >=> λ t.
      let from = pos (length t.partitions) in
      at_once (
        if leb_ℤ to from
        then err (
            policy (record {
              code = partition_mismatch;
              message = "partitions must be greater than the current count";
              details = no_details;
            }))
        else ok (record {
          topic = topic;
          from = from;
          to = to;
          warning = "key-to-partition mapping changes";
        }))

  -- ApplyAddPartitions
  unfoldable pub apply_add_partitions : AddPartitionsPlan → Io W (Result P AddPartitionsResult)
  apply_add_partitions plan =
      unless_error (record { name = plan.topic; partition_count = plan.to })
        (s.create_partitions plan.topic plan.to)

module _ {W : Type 0} where
  -- AlterConfig
  unfoldable pub alter_config :
      TopicService AlterConfigPlan W
      → Caller
      → String
      → Map String String
      → List String
      → String
      → Bool
      → Io W (DestructiveResult AlterConfigPlan AlterConfigResult × Option (Err AlterConfigPlan))
  unfolding new_event plan_alter_config apply_alter_config
  alter_config s caller topic set reset confirm dry_run w =
      let (attempt, w₁) = new_event s caller "T9" topic w in
      destructive s.now s.runner s.sinks (λ (p : AlterConfigPlan). p.topic)
        (plan_alter_config s topic set reset) (λ p. apply_alter_config s p set reset) caller
        (lookup_or_zero "T9") attempt confirm dry_run w₁

  -- AddPartitions
  unfoldable pub add_partitions :
      TopicService AddPartitionsPlan W
      → Caller
      → String
      → ℤ
      → String
      → Bool
      → Io W
          (DestructiveResult AddPartitionsPlan AddPartitionsResult × Option (Err AddPartitionsPlan))
  unfolding new_event plan_add_partitions apply_add_partitions
  add_partitions s caller topic to confirm dry_run w =
      let (attempt, w₁) = new_event s caller "T10" topic w in
      destructive s.now s.runner s.sinks (λ (p : AddPartitionsPlan). p.topic)
        (plan_add_partitions s topic to) (apply_add_partitions s) caller (lookup_or_zero "T10")
        attempt confirm dry_run w₁
