-- ===== src/Group/Members.antt =====
-- internal/service/group/destructive.go: delete a group, and evict members from one.
use kafka3o_gateway.Prelude.{
  ℕ, zero, suc, String, Bool, true, false, Option, none, some, List, [], ◌∷◌, map, length,
  string_eq,
}
use kafka3o_gateway.Prelude.Sort.{sort_by, string_order}
use kafka3o_gateway.Prelude.Sort.Unique.{itself}
use kafka3o_gateway.Errors.{Err, Kind, Result, ok, err, ◌>>=◌}
use kafka3o_gateway.Command.{lookup_or_zero}
use kafka3o_gateway.Gates.{Caller}
use kafka3o_gateway.Audit.{Io}
use kafka3o_gateway.Core.Destructive.{DestructiveResult, destructive}
use kafka3o_gateway.Message.Service.{◌>=>◌}
use kafka3o_gateway.Topic.Service.{at_once, first_result}
use kafka3o_gateway.Group.Service.{
  GroupService, GroupDeleteResult, LeaveGroupResult, GroupMember, group_error, group_state,
  new_event,
}

pub record DeleteGroupPlan : Type 0 where
  pub group_id : String
  pub committed_offsets : ℕ

pub record DeleteGroupResult : Type 0 where
  pub deleted : String

pub record RemoveMembersPlan : Type 0 where
  pub group_id : String
  pub members : List String

pub record RemoveMembersResult : Type 0 where
  pub removed : List String

-- `results[0]` of DeleteGroups with its error
unfoldable pub deleted_group :
    {P : Type 0} → String → List (GroupDeleteResult P) → Result P DeleteGroupResult
deleted_group group_id results = first_result results >>= λ r. elim r.error [
  | some e ↦ err e
  | none ↦ ok (record { deleted = group_id })
]

-- `removed`: the members that left
unfoldable pub removed_members : {P : Type 0} → List (LeaveGroupResult P) → List String
removed_members [] = []
removed_members (r ∷ rs) =
    let rest = removed_members rs in elim r.error [ none ↦ r.member_id ∷ rest | some _ ↦ rest ]

abbrev pub member_id_of : GroupMember → String
member_id_of m = m.member_id

module _ {P W : Type 0} (s : GroupService P W) where
  -- PlanDeleteGroup
  unfoldable pub plan_delete_group : String → Io W (Result P DeleteGroupPlan)
  plan_delete_group group_id = group_state s group_id >=> λ state. elim state.0 [
    | false ↦ at_once (err (group_error Kind.not_found))
    | true ↦ elim state.1 [
      | suc _ ↦ at_once (err (group_error Kind.group_active))
      | zero ↦ s.fetch_group_offsets group_id >=> λ committed.
          at_once (ok (record { group_id = group_id; committed_offsets = length committed }))
    ]
  ]

  -- ApplyDeleteGroup
  unfoldable pub apply_delete_group : DeleteGroupPlan → Io W (Result P DeleteGroupResult)
  unfolding deleted_group
  apply_delete_group plan = s.delete_groups (plan.group_id ∷ []) >=> λ results.
      at_once (deleted_group plan.group_id results)

  -- PlanRemoveMembers
  unfoldable pub plan_remove_members : String → List String → Io W (Result P RemoveMembersPlan)
  plan_remove_members group_id (m ∷ ms) =
      at_once (ok (record { group_id = group_id; members = m ∷ ms }))
  plan_remove_members group_id [] = s.describe_groups (group_id ∷ []) >=> λ groups. at_once (
      first_result groups >>= λ g.
      ok (record { group_id = group_id; members = sort_by itself (map member_id_of g.members) }))

  -- ApplyRemoveMembers
  unfoldable pub apply_remove_members : RemoveMembersPlan → Io W (Result P RemoveMembersResult)
  unfolding removed_members
  apply_remove_members plan = s.leave_group plan.group_id plan.members >=> λ results.
      at_once (ok (record { removed = removed_members results }))

module _ {W : Type 0} where
  -- Delete
  unfoldable pub delete_group :
      GroupService DeleteGroupPlan W
      → Caller
      → String
      → String
      → Bool
      → Io W (DestructiveResult DeleteGroupPlan DeleteGroupResult × Option (Err DeleteGroupPlan))
  unfolding new_event plan_delete_group apply_delete_group
  delete_group s caller group_id confirm dry_run w =
      let (attempt, w₁) = new_event s caller "G5" group_id w in
      destructive s.now s.runner s.sinks (λ (p : DeleteGroupPlan). p.group_id)
        (plan_delete_group s group_id) (apply_delete_group s) caller (lookup_or_zero "G5") attempt
        confirm dry_run w₁

  -- RemoveMembers
  unfoldable pub remove_members :
      GroupService RemoveMembersPlan W
      → Caller
      → String
      → List String
      → String
      → Bool
      → Io W
          (DestructiveResult RemoveMembersPlan RemoveMembersResult × Option (Err RemoveMembersPlan))
  unfolding new_event plan_remove_members apply_remove_members
  remove_members s caller group_id members confirm dry_run w =
      let (attempt, w₁) = new_event s caller "G6" group_id w in
      destructive s.now s.runner s.sinks (λ (p : RemoveMembersPlan). p.group_id)
        (plan_remove_members s group_id members) (apply_remove_members s) caller
        (lookup_or_zero "G6") attempt confirm dry_run w₁
