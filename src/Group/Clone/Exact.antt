-- ===== src/Group/Clone/Exact.antt =====
-- Cloning commits the source's offsets as they are: internal/service/group/destructive.go.
use kafka3o_gateway.Prelude.{
  ℤ, pos, ◌≡◌, refl, ap, ◌∙◌, String, Bool, true, false, Option, none, List, [], map, keep,
  string_eq, int_eq, pair_eq, if◌then◌else◌, All-image, arith,
}
use mathlib.Core.Path.{subst}
use kafka3o_gateway.Prelude.Map
use kafka3o_gateway.Prelude.Map.{Map, keys}
use kafka3o_gateway.Prelude.Filled.{
  lookup-some, lookup-only_keys, insert_each-lookup, map-inverse, keep-has, All-has,
}
use kafka3o_gateway.Prelude.Sort.{sort_by, string_order, int_order, pair_order}
use kafka3o_gateway.Prelude.Sort.Unique.{itself, has, sort_by-has}
use kafka3o_gateway.Errors.{ok}
use kafka3o_gateway.Message.Service.{>=>-ok}
use kafka3o_gateway.Group.Service.{GroupService, TopicPartition, group_state}
use kafka3o_gateway.Group.Reset.{inactive_offsets}
use kafka3o_gateway.Group.Reset.Inactive.{inactive_offsets-ok, Commits, unless_error-Commits}
use kafka3o_gateway.Group.Clone.{
  in_scope, clone_detail, clone_details, clone_key, clone_value, clone_offsets_map,
  plan_clone_offsets, clone_plan, clone_from, apply_clone_offsets, CloneOffsetsPlan,
}

settle :
    (scope there : Bool) (found : Option ℤ)
    → (if there then found else none) ≡ found
    → (if (if scope then there else false) then found else none) ≡ (if scope then found else none)
settle scope there found h = ground arith

module _ (topics : List String) (target_committed source_committed : Map TopicPartition ℤ) where
  abbrev cloned : List TopicPartition
  cloned = sort_by itself (keep (in_scope topics) (keys source_committed))

  cloned-has :
      (tp : TopicPartition)
      → has tp cloned ≡ (if in_scope topics tp then has tp (keys source_committed) else false)
  cloned-has tp =
      sort_by-has tp (keep (in_scope topics) (keys source_committed))
      ∙ keep-has (in_scope topics) tp (keys source_committed)

  cloned-in : (tp : TopicPartition) → has tp cloned ≡ true → has tp (keys source_committed) ≡ true
  cloned-in tp h = ground (arith, cloned-has tp)

  pub clone_details-exact :
      (tp : TopicPartition)
      → Map.lookup tp (clone_offsets_map (clone_details topics target_committed source_committed))
        ≡ (if in_scope topics tp then Map.lookup tp source_committed else none)
  unfolding clone_details clone_offsets_map Map.lookup
  clone_details-exact tp =
      insert_each-lookup clone_key clone_value source_committed tp
        (map (clone_detail target_committed source_committed) cloned) []
        (All-image _ (clone_detail target_committed source_committed) cloned (
          All-has _ cloned (λ k there. lookup-some (pos 0) k source_committed (cloned-in k there))))
      ∙ ap (λ ks. if has tp ks then Map.lookup tp source_committed else none)
          (map-inverse clone_key (clone_detail target_committed source_committed) cloned
            (λ k. refl))
      ∙ ap (λ b. if b then Map.lookup tp source_committed else none) (cloned-has tp)
      ∙ settle (in_scope topics tp) (has tp (keys source_committed))
          (Map.lookup tp source_committed) (lookup-only_keys (pos 0) tp source_committed)

apply_clone_offsets-Commits :
    {P W : Type 0} (s : GroupService P W) (plan : CloneOffsetsPlan) (w : W)
    → Commits s plan.target
        (clone_offsets_map plan.offsets)
        (record { target = plan.target; offsets = plan.offsets })
        w
        (apply_clone_offsets s plan w)
unfolding apply_clone_offsets
apply_clone_offsets-Commits s plan w =
    unless_error-Commits s plan.target (clone_offsets_map plan.offsets)
      (record { target = plan.target; offsets = plan.offsets }) w

-- A plan of a clone copies what the source had committed when the plan read it, and the target had
-- no member.
pub record IsClone {P W : Type 0} (s : GroupService P W) (target source : String)
    (topics : List String) (w : W) (plan : CloneOffsetsPlan) : Type 0 where
  pub target_exists : Bool
  pub target_inactive : (group_state s target w).0 ≡ ok (target_exists, 0)
  pub between : W
  pub source_committed : Map TopicPartition ℤ
  pub fetched : (s.fetch_group_offsets source between).0 ≡ ok source_committed
  pub offsets : Map TopicPartition ℤ
  pub applied :
      (now : W)
      → Commits s target offsets
          (record { target = target; offsets = plan.offsets })
          now
          (apply_clone_offsets s plan now)
  pub exact :
      (tp : TopicPartition)
      → Map.lookup tp offsets
        ≡ (if in_scope topics tp then Map.lookup tp source_committed else none)

planned :
    {P W : Type 0} (s : GroupService P W) (target : String) (topics : List String)
    (target_committed source_committed : Map TopicPartition ℤ) (w w' : W) (plan : CloneOffsetsPlan)
    → clone_plan s target topics target_committed source_committed w ≡ (ok plan, w')
    → plan
      ≡ record { target = target; offsets = clone_details topics target_committed source_committed }
unfolding clone_plan
planned s target topics target_committed source_committed w w' plan h = ground arith

-- If a clone is planned, the target had no member, and applying the plan, whenever that is, makes one
-- commit to the target: of exactly the source's offsets in the named topics, and no others. It fails
-- with that commit's error, and else reports the plan's offsets.
pub plan_clone_offsets-IsClone :
    {P W : Type 0} (s : GroupService P W) (target source : String) (topics : List String) (w w' : W)
    (plan : CloneOffsetsPlan)
    → plan_clone_offsets s target source topics w ≡ (ok plan, w')
    → IsClone s target source topics w plan
unfolding plan_clone_offsets clone_from
plan_clone_offsets-IsClone s target source topics w w' plan h =
    let m = inactive_offsets s target in
    let (at_target, inactive, rest) = >=>-ok m (clone_from s target source topics) w w' plan h in
    let (at_source, fetched, made) =
      >=>-ok (s.fetch_group_offsets source) (clone_plan s target topics at_target) (m w).1 w' plan
        rest in
    let (there, state) = inactive_offsets-ok s target w at_target inactive in
    let same = planned s target topics at_target at_source _ w' plan made in
    record {
      target_exists = there;
      target_inactive = state;
      between = (m w).1;
      source_committed = at_source;
      fetched = fetched;
      offsets = clone_offsets_map plan.offsets;
      applied = λ now.
          subst
            (λ t.
              Commits s t (clone_offsets_map plan.offsets)
                (record { target = t; offsets = plan.offsets }) now
                (apply_clone_offsets s plan now))
            (ap (λ (p : CloneOffsetsPlan). p.target) same) (apply_clone_offsets-Commits s plan now);
      exact = λ tp.
          ap (λ (p : CloneOffsetsPlan). Map.lookup tp (clone_offsets_map p.offsets)) same
          ∙ clone_details-exact topics at_target at_source tp;
    }
