-- ===== src/Group/Reset/Inactive.antt =====
-- Only a group without members is reset, and an explicit target is committed as it is:
-- internal/service/group/reset.go.
use kafka3o_gateway.Prelude.{
  ℕ, zero, suc, ℤ, pos, ◌≡◌, refl, ap, ◌∙◌, String, Bool, none, some, List, [], ◌∷◌, map, string_eq,
  int_eq, pair_eq, if◌then◌else◌, All-image, arith,
}
use kafka3o_gateway.Prelude.Map
use kafka3o_gateway.Prelude.Map.{Map, keys}
use kafka3o_gateway.Prelude.Filled.{
  lookup-some, lookup-only_keys, insert_each-lookup, map-inverse, sort_by-has_key, All-has,
}
use kafka3o_gateway.Prelude.Sort.{sort_by, string_order, int_order, pair_order}
use kafka3o_gateway.Prelude.Sort.Laws.{sort_by-All}
use kafka3o_gateway.Prelude.Sort.Unique.{has, unseen}
use mathlib.Core.Path.{subst}
use kafka3o_gateway.Errors.{Err, Result, Kind, ok, err}
use kafka3o_gateway.Topic.Service.{unless_error}
use kafka3o_gateway.Command.{lookup_or_zero}
use kafka3o_gateway.Core.Destructive.{zero_result}
use kafka3o_gateway.Core.Destructive.Steps.{destructive-plan_error}
use kafka3o_gateway.Gates.{Caller}
use kafka3o_gateway.Message.Service.{>=>-ok, ◌>=>◌}
use kafka3o_gateway.Group.Service.{
  new_event, GroupService, ConsumerGroup, GroupMember, TopicPartition, group_error, group_state,
  group_state_of,
}
use kafka3o_gateway.Group.Reset.{
  unless_active, inactive_offsets, ResetTarget, ResetPlan, reset_detail, reset_details, reset,
  reset_plan, reset_scoped, reset_inactive, detail_key, detail_after, reset_offsets, resolve_after,
  resolve_reset_targets_for_topic, resolve_reset_scope, plan_reset, apply_reset, insert_topic,
  topic_of,
}

module _ {P W : Type 0} (s : GroupService P W) where
  no_members :
      (group_id : String) (state : Bool × ℕ) (w w' : W) (committed : Map TopicPartition ℤ)
      → unless_active s group_id state w ≡ (ok committed, w')
      → state ≡ (state.0, 0)
  unfolding unless_active
  no_members group_id (exists, zero) w w' committed h = refl
  no_members group_id (exists, suc n) w w' committed h = ground arith

  -- Committed offsets are returned only for a group whose state counted no member.
  pub inactive_offsets-ok :
      (group_id : String) (w : W) (committed : Map TopicPartition ℤ)
      → (inactive_offsets s group_id w).0 ≡ ok committed
      → (exists : Bool) × ((group_state s group_id w).0 ≡ ok (exists, 0))
  unfolding inactive_offsets
  inactive_offsets-ok group_id w committed h =
      let m = group_state s group_id in
      let whole = (m >=> unless_active s group_id) w in
      let (state, described, rest) =
        >=>-ok m (unless_active s group_id) w whole.1 committed (λ i. (h i, whole.1)) in
      (state.0, described ∙ ap ok (no_members group_id state (m w).1 whole.1 committed rest))

  resolve_after-explicit :
      (target : ResetTarget) (tp : TopicPartition × ℤ) (tps : Map TopicPartition ℤ)
      → target.offsets ≡ tp ∷ tps
      → (topics : List String) (after : Map TopicPartition ℤ) (w : W)
      → resolve_after s target topics after w ≡ (ok after, w)
  unfolding resolve_after resolve_reset_targets_for_topic insert_topic
  resolve_after-explicit target tp tps explicit [] after w = refl
  resolve_after-explicit target tp tps explicit (topic ∷ topics) after w =
      ground (arith, resolve_after-explicit target tp tps explicit topics after w)

-- The details of an explicit target, whatever else was committed, are its offsets.
pub reset_details-exact :
    (target : ResetTarget) (committed : Map TopicPartition ℤ) (tp : TopicPartition)
    → Map.lookup tp (reset_offsets (reset_details target committed [] (keys target.offsets)))
      ≡ Map.lookup tp target.offsets
unfolding reset_details reset_offsets reset_detail Map.lookup
reset_details-exact target committed tp =
    let ks = keys target.offsets in
    let f = reset_detail target committed [] in
    insert_each-lookup detail_key detail_after target.offsets tp (sort_by detail_key (map f ks)) []
      (sort_by-All detail_key _ (map f ks)
        (All-image _ f ks (All-has _ ks (λ k there. lookup-some (pos 0) k target.offsets there))))
    ∙ ap (λ b. if b then Map.lookup tp target.offsets else none)
        (sort_by-has_key detail_key tp (map f ks)
          ∙ ap (has tp) (map-inverse detail_key f ks (λ k. refl)))
    ∙ lookup-only_keys (pos 0) tp target.offsets

-- One commit of these offsets is made, and nothing else: its error is the result, or else `value` is.
pub record Commits {P W A : Type 0} (s : GroupService P W) (group_id : String)
    (offsets : Map TopicPartition ℤ) (value : A) (w : W) (end : Result P A × W) : Type 0 where
  pub state : end.1 ≡ (s.commit_group_offsets group_id offsets w).1
  pub succeeds : (s.commit_group_offsets group_id offsets w).0 ≡ none → end.0 ≡ ok value
  pub fails : (e : Err P) → (s.commit_group_offsets group_id offsets w).0 ≡ some e → end.0 ≡ err e

pub unless_error-Commits :
    {P W A : Type 0} (s : GroupService P W) (group_id : String) (offsets : Map TopicPartition ℤ)
    (value : A) (w : W)
    → Commits s group_id offsets value w
        (unless_error value (s.commit_group_offsets group_id offsets) w)
unless_error-Commits s group_id offsets value w = record {
  state = ground arith;
  succeeds = λ h. ground arith;
  fails = λ e h. ground arith;
}

apply_reset-Commits :
    {P W : Type 0} (s : GroupService P W) (plan : ResetPlan) (w : W)
    → Commits s plan.group_id
        (reset_offsets plan.offsets)
        (record { group_id = plan.group_id; offsets = plan.offsets })
        w
        (apply_reset s plan w)
unfolding apply_reset
apply_reset-Commits s plan w =
    unless_error-Commits s plan.group_id (reset_offsets plan.offsets)
      (record { group_id = plan.group_id; offsets = plan.offsets }) w

-- The plan of an explicit target: applying it commits exactly the target's offsets.
pub record IsExplicitReset {P W : Type 0} (s : GroupService P W) (group_id : String)
    (target : ResetTarget) (w : W) (plan : ResetPlan) : Type 0 where
  pub known : Bool
  pub inactive : (group_state s group_id w).0 ≡ ok (known, 0)
  pub offsets : Map TopicPartition ℤ
  pub applied :
      (now : W)
      → Commits s group_id offsets
          (record { group_id = group_id; offsets = plan.offsets })
          now
          (apply_reset s plan now)
  pub exact : (tp : TopicPartition) → Map.lookup tp offsets ≡ Map.lookup tp target.offsets

module _ {P W : Type 0} (s : GroupService P W) (group_id : String) (target : ResetTarget)
    (tp : TopicPartition × ℤ) (tps : Map TopicPartition ℤ)
    (explicit : target.offsets ≡ tp ∷ tps) where
  planned :
      (topics : List String) (committed : Map TopicPartition ℤ) (w w' : W) (plan : ResetPlan)
      → reset_inactive s group_id target topics committed w ≡ (ok plan, w')
      → plan ≡ record {
        group_id = group_id;
        offsets = reset_details target committed [] (keys target.offsets);
      }
  unfolding reset_inactive resolve_reset_scope reset_scoped reset_plan
  planned topics committed w w' plan h = ground (
    arith,
    resolve_after-explicit s target tp tps explicit (unseen [] (map topic_of (keys target.offsets)))
        [] w,
    explicit,
  )

  -- If a reset to explicit offsets is planned, the group had no member, and applying the plan, whenever
  -- that is, makes one commit to the group: of exactly these offsets, and no others. It fails with that
  -- commit's error, and else reports the plan's offsets.
  pub plan_reset-IsExplicitReset :
      (topics : List String) (w w' : W) (plan : ResetPlan)
      → plan_reset s group_id target topics w ≡ (ok plan, w')
      → IsExplicitReset s group_id target w plan
  unfolding plan_reset
  plan_reset-IsExplicitReset topics w w' plan h =
      let m = inactive_offsets s group_id in
      let (committed, inactive, rest) =
        >=>-ok m (reset_inactive s group_id target topics) w w' plan h in
      let (known, state) = inactive_offsets-ok s group_id w committed inactive in
      let same = planned topics committed (m w).1 w' plan rest in
      record {
        known = known;
        inactive = state;
        offsets = reset_offsets plan.offsets;
        applied = λ now.
            subst
              (λ g.
                Commits s g (reset_offsets plan.offsets)
                  (record { group_id = g; offsets = plan.offsets }) now (apply_reset s plan now))
              (ap (λ (p : ResetPlan). p.group_id) same) (apply_reset-Commits s plan now);
        exact = λ k.
            ap (λ (p : ResetPlan). Map.lookup k (reset_offsets p.offsets)) same
            ∙ reset_details-exact target committed k;
      }

plan_reset-active :
    {P W : Type 0} (s : GroupService P W) (group_id : String) (target : ResetTarget)
    (topics : List String) (w : W) (g : ConsumerGroup) (gs : List ConsumerGroup) (m : GroupMember)
    (ms : List GroupMember)
    → (s.describe_groups (group_id ∷ []) w).0 ≡ ok (g ∷ gs)
    → g.members ≡ m ∷ ms
    → plan_reset s group_id target topics w
      ≡ (err (group_error Kind.group_active), (s.describe_groups (group_id ∷ []) w).1)
unfolding plan_reset inactive_offsets group_state group_state_of unless_active
plan_reset-active s group_id target topics w g gs m ms described active = ground arith

-- A group with a member is never reset: past the gate the command returns GROUP_ACTIVE in the state
-- that the look at the group left, whatever was asked, confirmed or chosen as a dry run.
pub reset-active :
    {W : Type 0} (s : GroupService ResetPlan W) (caller : Caller) (group_id : String)
    (target : ResetTarget) (topics : List String) (confirm : String) (dry_run : Bool) (w : W)
    (g : ConsumerGroup) (gs : List ConsumerGroup) (m : GroupMember) (ms : List GroupMember)
    → s.runner.check caller (lookup_or_zero "G4") s.runner.policy ≡ none
    → (s.describe_groups (group_id ∷ []) (new_event s caller "G4" group_id w).1).0 ≡ ok (g ∷ gs)
    → g.members ≡ m ∷ ms
    → reset s caller group_id target topics confirm dry_run w ≡ (
      (zero_result, some (group_error Kind.group_active)),
      (s.describe_groups (group_id ∷ []) (new_event s caller "G4" group_id w).1).1,
    )
unfolding reset
reset-active s caller group_id target topics confirm dry_run w g gs m ms passes described active =
    let (event, w₁) = new_event s caller "G4" group_id w in
    let refused = plan_reset-active s group_id target topics w₁ g gs m ms described active in
    destructive-plan_error s.now s.runner s.sinks (λ (p : ResetPlan). p.group_id)
      (plan_reset s group_id target topics) (apply_reset s) caller (lookup_or_zero "G4") event
      confirm dry_run w₁ (group_error Kind.group_active) passes (λ i. (refused i).0)
    ∙ λ i. ((zero_result, some (group_error Kind.group_active)), (refused i).1)
