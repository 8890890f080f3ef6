-- ===== src/Group/Reset.antt =====
-- internal/service/group/reset.go: reset the committed offsets of a group without members.
pub mod Inactive
use kafka3o_gateway.Prelude.{
  ℕ, zero, suc, ℤ, pos, String, Bool, true, false, Option, none, some, List, [], ◌∷◌, ◌++◌, map,
  ◌==◌, string_eq, int_eq, pair_eq, if◌then◌else◌,
}
use kafka3o_gateway.Prelude.Map
use kafka3o_gateway.Prelude.Map.{Map, keys}
use kafka3o_gateway.Prelude.Sort.{sort_by, string_order, int_order, pair_order}
use kafka3o_gateway.Prelude.Sort.Unique.{unseen}
use kafka3o_gateway.Errors.{Err, Kind, Result, ok, err, policy, validation, no_details}
use kafka3o_gateway.Command.{lookup_or_zero}
use kafka3o_gateway.Gates.{Caller}
use kafka3o_gateway.Audit.{Io}
use kafka3o_gateway.Core.Destructive.{DestructiveResult, destructive}
use kafka3o_gateway.Message.Service.{◌>=>◌}
use kafka3o_gateway.Topic.Service.{at_once, unless_error}
use kafka3o_gateway.Group.Service.{
  GroupService, TopicPartition, group_error, group_state, new_event,
}

-- ModeEarliest, ModeLatest, ModeOffset and ModeTimestamp
abbrev pub mode_earliest : String
mode_earliest = "earliest"

abbrev pub mode_latest : String
mode_latest = "latest"

abbrev pub mode_offset : String
mode_offset = "offset"

abbrev pub mode_timestamp : String
mode_timestamp = "timestamp"

pub record ResetTarget : Type 0 where
  pub mode : String
  pub offset : ℤ
  pub timestamp_ms : ℤ
  pub offsets : Map TopicPartition ℤ

pub record ResetOffsetDetail : Type 0 where
  pub topic : String
  pub partition : ℤ
  pub before : ℤ
  pub after : ℤ

pub record ResetPlan : Type 0 where
  pub group_id : String
  pub offsets : List ResetOffsetDetail

pub record ResetResult : Type 0 where
  pub group_id : String
  pub offsets : List ResetOffsetDetail

abbrev invalid : {P A : Type 0} → String → Result P A
invalid message =
    err (policy (record { code = validation; message = message; details = no_details }))

-- What follows groupState in PlanReset and PlanCloneOffsets: a group with members is refused, and a
-- missing group has no committed offsets.
unfoldable pub unless_active :
    {P W : Type 0} → GroupService P W → String → Bool × ℕ → Io W (Result P (Map TopicPartition ℤ))
unless_active s group_id (exists, suc _) = at_once (err (group_error Kind.group_active))
unless_active s group_id (true, zero) = s.fetch_group_offsets group_id
unless_active s group_id (false, zero) = at_once (ok [])

unfoldable pub inactive_offsets :
    {P W : Type 0} → GroupService P W → String → Io W (Result P (Map TopicPartition ℤ))
unfolding unless_active
inactive_offsets s group_id = group_state s group_id >=> unless_active s group_id

-- One topic's end offsets set to the target's offset.
unfoldable pub same_offset : ℤ → Map ℤ ℤ → Map ℤ ℤ
same_offset offset [] = []
same_offset offset ((p, _) ∷ rest) = (p, offset) ∷ same_offset offset rest

-- `after[…] = v` for each partition of one topic.
unfoldable pub insert_topic : String → Map ℤ ℤ → Map TopicPartition ℤ → Map TopicPartition ℤ
insert_topic topic [] after = after
insert_topic topic ((p, v) ∷ rest) after = insert_topic topic rest (Map.insert (topic, p) v after)

-- One turn of the loop that fills `details`.
unfoldable pub reset_detail :
    ResetTarget → Map TopicPartition ℤ → Map TopicPartition ℤ → TopicPartition → ResetOffsetDetail
reset_detail target committed after tp = record {
  topic = tp.0;
  partition = tp.1;
  before = Map.get_or (pos 0) tp committed;
  after = elim (Map.lookup tp after) [ some v ↦ v | none ↦ Map.get_or (pos 0) tp target.offsets ];
}

abbrev pub detail_key : ResetOffsetDetail → TopicPartition
detail_key d = (d.topic, d.partition)

-- `details` after its sort
unfoldable pub reset_details :
    ResetTarget
    → Map TopicPartition ℤ
    → Map TopicPartition ℤ
    → List TopicPartition
    → List ResetOffsetDetail
unfolding reset_detail
reset_details target committed after tps =
    sort_by detail_key (map (reset_detail target committed after) tps)

-- `offsets` of ApplyReset
abbrev pub detail_after : ResetOffsetDetail → ℤ
detail_after d = d.after

unfoldable pub reset_offsets : List ResetOffsetDetail → Map TopicPartition ℤ
reset_offsets ds = Map.insert_each detail_key detail_after ds []

abbrev pub topic_of : TopicPartition → String
topic_of tp = tp.0

module _ {P W : Type 0} (s : GroupService P W) where
  -- resolveScopeFromTopics
  unfoldable pub resolve_scope_from_topics : List String → Io W (Result P (List TopicPartition))
  resolve_scope_from_topics [] = at_once (ok [])
  resolve_scope_from_topics (topic ∷ topics) = s.list_end_offsets topic >=> λ ends.
      resolve_scope_from_topics topics >=> λ rest.
      at_once (ok (map (λ p. (topic, p)) (keys ends) ++ rest))

  -- resolveResetScope
  unfoldable pub resolve_reset_scope :
      ResetTarget → List String → Map TopicPartition ℤ → Io W (Result P (List TopicPartition))
  unfolding resolve_scope_from_topics
  resolve_reset_scope target topics committed = elim target.offsets [
    | _ ∷ _ ↦ at_once (ok (keys target.offsets))
    | [] ↦ elim topics [
      | t ∷ ts ↦ resolve_scope_from_topics (t ∷ ts)
      | [] ↦ elim committed [
        | c ∷ cs ↦ at_once (ok (keys (c ∷ cs)))
        | [] ↦ at_once (
            invalid
              "topics or an explicit offsets map is required to reset a group with no committed offsets")
      ]
    ]
  ]

  -- resolveResetTargetsForTopic
  unfoldable pub resolve_reset_targets_for_topic : String → ResetTarget → Io W (Result P (Map ℤ ℤ))
  unfolding same_offset
  resolve_reset_targets_for_topic topic target = elim target.offsets [
    | _ ∷ _ ↦ at_once (ok [])
    | [] ↦
        (if target.mode == mode_earliest
          then s.list_start_offsets topic
          else if target.mode == mode_latest
          then s.list_end_offsets topic
          else if target.mode == mode_offset
          then (s.list_end_offsets topic >=> λ ends. at_once (ok (same_offset target.offset ends)))
          else if target.mode == mode_timestamp
          then s.list_offsets_after_milli topic target.timestamp_ms
          else at_once (invalid "target.mode must be one of earliest, latest, offset, timestamp"))
  ]

  -- The loop over the topics of `byTopic`, which fills `after`.
  unfoldable pub resolve_after :
      ResetTarget → List String → Map TopicPartition ℤ → Io W (Result P (Map TopicPartition ℤ))
  unfolding resolve_reset_targets_for_topic insert_topic
  resolve_after target [] after = at_once (ok after)
  resolve_after target (topic ∷ topics) after =
      resolve_reset_targets_for_topic topic target >=> λ resolved.
      resolve_after target topics (insert_topic topic resolved after)

  -- PlanReset: its end, from the scope on, and from the group's state on
  unfoldable pub reset_plan :
      String
      → ResetTarget
      → Map TopicPartition ℤ
      → List TopicPartition
      → Map TopicPartition ℤ
      → Io W (Result P ResetPlan)
  unfolding reset_details
  reset_plan group_id target committed tps after =
      at_once
        (ok (record { group_id = group_id; offsets = reset_details target committed after tps }))

  unfoldable pub reset_scoped :
      String → ResetTarget → Map TopicPartition ℤ → List TopicPartition → Io W (Result P ResetPlan)
  unfolding resolve_after reset_plan
  reset_scoped group_id target committed tps =
      resolve_after target (unseen [] (map topic_of tps)) []
      >=> reset_plan group_id target committed tps

  unfoldable pub reset_inactive :
      String → ResetTarget → List String → Map TopicPartition ℤ → Io W (Result P ResetPlan)
  unfolding resolve_reset_scope reset_scoped
  reset_inactive group_id target topics committed =
      resolve_reset_scope target topics committed >=> reset_scoped group_id target committed

  -- PlanReset
  unfoldable pub plan_reset : String → ResetTarget → List String → Io W (Result P ResetPlan)
  unfolding inactive_offsets reset_inactive
  plan_reset group_id target topics =
      inactive_offsets s group_id >=> reset_inactive group_id target topics

  -- ApplyReset
  unfoldable pub apply_reset : ResetPlan → Io W (Result P ResetResult)
  unfolding reset_offsets
  apply_reset plan =
      unless_error (record { group_id = plan.group_id; offsets = plan.offsets })
        (s.commit_group_offsets plan.group_id (reset_offsets plan.offsets))

module _ {W : Type 0} where
  -- Reset
  unfoldable pub reset :
      GroupService ResetPlan W
      → Caller
      → String
      → ResetTarget
      → List String
      → String
      → Bool
      → Io W (DestructiveResult ResetPlan ResetResult × Option (Err ResetPlan))
  unfolding new_event plan_reset apply_reset
  reset s caller group_id target topics confirm dry_run w =
      let (attempt, w₁) = new_event s caller "G4" group_id w in
      destructive s.now s.runner s.sinks (λ (p : ResetPlan). p.group_id)
        (plan_reset s group_id target topics) (apply_reset s) caller (lookup_or_zero "G4") attempt
        confirm dry_run w₁
