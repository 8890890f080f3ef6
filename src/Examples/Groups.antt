-- ===== src/Examples/Groups.antt =====
-- The group service on a broker with an active and an empty group. The state is the clock.
use Prim.Native.Nat.{◌+◌}
use kafka3o_gateway.Prelude.{
  ℕ, ℤ, pos, String, Bool, true, false, Option, none, some, List, [], ◌∷◌, ◌≡◌, refl, int_eq,
  pair_eq, ◌==◌, string_eq, if◌then◌else◌,
}
use kafka3o_gateway.Prelude.Map.{Map}
use kafka3o_gateway.Prelude.Sort.{string_order, int_order, pair_order}
use kafka3o_gateway.Prelude.Sort.Unique.{has}
use kafka3o_gateway.Errors.{Kind, ok}
use kafka3o_gateway.Core.Destructive.{zero_result}
use kafka3o_gateway.Group.Service.{
  GroupService, ConsumerGroup, GroupMember, TopicPartition, group_error, new_event,
}
use kafka3o_gateway.Group.Reset.{ResetTarget, ResetPlan, reset, plan_reset}
use kafka3o_gateway.Group.Reset.Inactive.{IsExplicitReset, plan_reset-IsExplicitReset, reset-active}
use kafka3o_gateway.Group.Clone.{CloneOffsetsPlan, plan_clone_offsets}
use kafka3o_gateway.Group.Clone.Exact.{IsClone, plan_clone_offsets-IsClone}
use kafka3o_gateway.Examples.Data.{operator, gated}

abbrev member : GroupMember
member = record { member_id = "m-1"; client_id = "app"; host = "10.0.0.2"; assignments = [] }

abbrev group_of : List GroupMember → ConsumerGroup
group_of members = record {
  id = "group";
  state = "Stable";
  protocol_type = "consumer";
  coordinator_id = pos 1;
  members = members;
}

abbrev committed : Map TopicPartition ℤ
committed = (("orders", pos 0), pos 3) ∷ (("audit", pos 0), pos 1) ∷ []

-- Every group has the given members and has committed the same offsets.
abbrev service : {P : Type 0} → List GroupMember → GroupService P ℕ
service members = record {
  list_groups = λ states w. (ok [], w);
  describe_groups = λ ids w. (ok (group_of members ∷ []), w);
  fetch_group_offsets = λ id w. (ok committed, w);
  commit_group_offsets = λ id offsets w. (none, w);
  delete_groups = λ ids w. (ok [], w);
  leave_group = λ id members w. (ok [], w);
  list_start_offsets = λ topic w. (ok [], w);
  list_end_offsets = λ topic w. (ok ((pos 0, pos 9) ∷ []), w);
  list_offsets_after_milli = λ topic t w. (ok [], w);
  sinks = [];
  new_event_id = λ w. ("event", w);
  now = λ w. (pos w, w + 1);
  runner = gated;
}

abbrev target : ResetTarget
target = record {
  mode = "";
  offset = pos 0;
  timestamp_ms = pos 0;
  offsets = (("orders", pos 0), pos 5) ∷ [];
}

reset-active_example :
    reset (service (member ∷ [])) operator "group" target [] "group" false 0
    ≡ ((zero_result, some (group_error Kind.group_active)), 1)
unfolding new_event kafka3o_gateway.Gates.check kafka3o_gateway.Command.lookup_or_zero
reset-active_example =
    reset-active (service (member ∷ [])) operator "group" target [] "group" false 0
      (group_of (member ∷ [])) [] member [] refl refl refl

abbrev reset_planned : ResetPlan
reset_planned = record {
  group_id = "group";
  offsets = record { topic = "orders"; partition = pos 0; before = pos 3; after = pos 5 } ∷ [];
}

plan_reset-IsExplicitReset_example :
    IsExplicitReset (service {P = String} []) "group" target 0 reset_planned
unfolding plan_reset kafka3o_gateway.Group.Service.group_state
    kafka3o_gateway.Prelude.Sort.Unique.unseen kafka3o_gateway.Prelude.Sort.sort_by
    kafka3o_gateway.Prelude.Map.get_or kafka3o_gateway.Prelude.Map.lookup
plan_reset-IsExplicitReset_example =
    plan_reset-IsExplicitReset (service {P = String} []) "group" target (("orders", pos 0), pos 5)
      [] refl [] 0 0 reset_planned refl

abbrev clone_planned : CloneOffsetsPlan
clone_planned = record {
  target = "copy";
  offsets =
      record { topic = "orders"; partition = pos 0; target_current = pos 3; new_value = pos 3 }
      ∷ [];
}

plan_clone_offsets-IsClone_example :
    IsClone (service {P = String} []) "copy" "group" ("orders" ∷ []) 0 clone_planned
unfolding plan_clone_offsets kafka3o_gateway.Group.Service.group_state
    kafka3o_gateway.Prelude.Sort.sort_by kafka3o_gateway.Prelude.Lists.keep
    kafka3o_gateway.Prelude.Sort.Unique.has kafka3o_gateway.Prelude.Map.get_or
plan_clone_offsets-IsClone_example =
    plan_clone_offsets-IsClone (service {P = String} []) "copy" "group" ("orders" ∷ []) 0 0
      clone_planned refl

abbrev ends : Map String (Map ℤ ℤ)
ends = ("orders", (pos 0, pos 9) ∷ []) ∷ ("audit", (pos 0, pos 1) ∷ []) ∷ []
