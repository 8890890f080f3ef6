-- ===== src/Group/Clone.antt =====
-- internal/service/group/destructive.go: copy the committed offsets of one group to another.
pub mod Exact
use kafka3o_gateway.Prelude.{
  ℤ, pos, String, Bool, true, false, Option, List, [], ◌∷◌, map, keep, string_eq, int_eq, pair_eq,
}
use kafka3o_gateway.Prelude.Map
use kafka3o_gateway.Prelude.Map.{Map, keys}
use kafka3o_gateway.Prelude.Sort.{sort_by, string_order, int_order, pair_order}
use kafka3o_gateway.Prelude.Sort.Unique.{itself, has}
use kafka3o_gateway.Errors.{Err, Result, ok}
use kafka3o_gateway.Command.{lookup_or_zero}
use kafka3o_gateway.Gates.{Caller}
use kafka3o_gateway.Audit.{Io}
use kafka3o_gateway.Core.Destructive.{DestructiveResult, destructive}
use kafka3o_gateway.Message.Service.{◌>=>◌}
use kafka3o_gateway.Topic.Service.{at_once, unless_error}
use kafka3o_gateway.Group.Service.{GroupService, TopicPartition, new_event}
use kafka3o_gateway.Group.Reset.{inactive_offsets}

pub record CloneOffsetDetail : Type 0 where
  pub topic : String
  pub partition : ℤ
  pub target_current : ℤ
  pub new_value : ℤ

pub record CloneOffsetsPlan : Type 0 where
  pub target : String
  pub offsets : List CloneOffsetDetail

pub record CloneOffsetsResult : Type 0 where
  pub target : String
  pub offsets : List CloneOffsetDetail

-- The loop's test: every partition without `topics`, else those of the named topics.
unfoldable pub in_scope : List String → TopicPartition → Bool
in_scope [] tp = true
in_scope (t ∷ ts) tp = has tp.0 (t ∷ ts)

abbrev pub clone_detail :
    Map TopicPartition ℤ → Map TopicPartition ℤ → TopicPartition → CloneOffsetDetail
clone_detail target_committed source_committed tp = record {
  topic = tp.0;
  partition = tp.1;
  target_current = Map.get_or (pos 0) tp target_committed;
  new_value = Map.get_or (pos 0) tp source_committed;
}

-- `details`
unfoldable pub clone_details :
    List String → Map TopicPartition ℤ → Map TopicPartition ℤ → List CloneOffsetDetail
unfolding in_scope
clone_details topics target_committed source_committed =
    map (clone_detail target_committed source_committed)
      (sort_by itself (keep (in_scope topics) (keys source_committed)))

-- `offsets` of ApplyCloneOffsets
abbrev pub clone_key : CloneOffsetDetail → TopicPartition
clone_key d = (d.topic, d.partition)

abbrev pub clone_value : CloneOffsetDetail → ℤ
clone_value d = d.new_value

unfoldable pub clone_offsets_map : List CloneOffsetDetail → Map TopicPartition ℤ
clone_offsets_map ds = Map.insert_each clone_key clone_value ds []

module _ {P W : Type 0} (s : GroupService P W) where
  -- PlanCloneOffsets from the source's offsets on, and from the target's state on
  unfoldable pub clone_plan :
      String
      → List String
      → Map TopicPartition ℤ
      → Map TopicPartition ℤ
      → Io W (Result P CloneOffsetsPlan)
  unfolding clone_details
  clone_plan target topics target_committed source_committed = at_once (
      ok (record {
        target = target;
        offsets = clone_details topics target_committed source_committed;
      }))

  unfoldable pub clone_from :
      String → String → List String → Map TopicPartition ℤ → Io W (Result P CloneOffsetsPlan)
  unfolding clone_plan
  clone_from target source topics target_committed =
      s.fetch_group_offsets source >=> clone_plan target topics target_committed

  -- PlanCloneOffsets
  unfoldable pub plan_clone_offsets :
      String → String → List String → Io W (Result P CloneOffsetsPlan)
  unfolding inactive_offsets clone_from
  plan_clone_offsets target source topics =
      inactive_offsets s target >=> clone_from target source topics

  -- ApplyCloneOffsets
  unfoldable pub apply_clone_offsets : CloneOffsetsPlan → Io W (Result P CloneOffsetsResult)
  unfolding clone_offsets_map
  apply_clone_offsets plan =
      unless_error (record { target = plan.target; offsets = plan.offsets })
        (s.commit_group_offsets plan.target (clone_offsets_map plan.offsets))

module _ {W : Type 0} where
  -- CloneOffsets
  unfoldable pub clone_offsets :
      GroupService CloneOffsetsPlan W
      → Caller
      → String
      → String
      → List String
      → String
      → Bool
      → Io W (DestructiveResult CloneOffsetsPlan CloneOffsetsResult × Option (Err CloneOffsetsPlan))
  unfolding new_event plan_clone_offsets apply_clone_offsets
  clone_offsets s caller target source topics confirm dry_run w =
      let (attempt, w₁) = new_event s caller "G7" target w in
      destructive s.now s.runner s.sinks (λ (p : CloneOffsetsPlan). p.target)
        (plan_clone_offsets s target source topics) (apply_clone_offsets s) caller
        (lookup_or_zero "G7") attempt confirm dry_run w₁
