-- ===== src/Topic/Delete.antt =====
-- internal/service/topic/delete.go: delete one topic, or all that a list or a pattern names.
pub mod Targets
use kafka3o_gateway.Prelude.{
  ℕ, suc, ℤ, String, Bool, Option, none, some, List, [], ◌∷◌, map, keep, length, ◌==◌, string_eq,
  if◌then◌else◌,
}
use kafka3o_gateway.Prelude.Sort.{sort_by, string_order}
use kafka3o_gateway.Prelude.Sort.Unique.{itself, unseen}
use kafka3o_gateway.Errors.{
  Err, Result, ok, err, ◌>>=◌, policy, invalid_regex, validation, no_details,
}
use kafka3o_gateway.Errors.Text.{error_text}
use kafka3o_gateway.Command.{lookup_or_zero}
use kafka3o_gateway.Gates.{Caller}
use kafka3o_gateway.Audit.{Io}
use kafka3o_gateway.Core.Token.{token}
use kafka3o_gateway.Core.Bulk.{BulkResult, BulkSummary, add_item}
use kafka3o_gateway.Core.Destructive.{DestructiveResult, destructive}
use kafka3o_gateway.Message.Service.{◌>=>◌}
use kafka3o_gateway.Topic.Service.{
  TopicService, TopicSummary, TopicDeleteResult, first_result, at_once,
}
use kafka3o_gateway.Topic.Events.{new_event}
use kafka3o_gateway.Topic.Create.{names_of}
use kafka3o_gateway.Topic.Describe.{describe}

pub record DeleteTopicPlan : Type 0 where
  pub topic : String
  pub partitions : ℕ
  pub approx_messages : ℤ

pub record DeleteTopicResult : Type 0 where
  pub deleted : String

pub record BulkDeletePlan : Type 0 where
  pub topics : List String
  pub plan_token : String

-- `results[0]` of DeleteTopics with its error
unfoldable pub deleted_topic :
    {P : Type 0} → String → Result P (List (TopicDeleteResult P)) → Result P DeleteTopicResult
deleted_topic topic answer = answer >>= λ results. first_result results >>= λ r. elim r.error [
  | some e ↦ err e
  | none ↦ ok (record { deleted = topic })
]

module _ {P W : Type 0} (s : TopicService P W) where
  -- PlanDelete
  unfoldable pub plan_delete : String → Io W (Result P DeleteTopicPlan)
  plan_delete topic = describe s topic >=> λ d. at_once (
      ok (record {
        topic = d.name;
        partitions = length d.partitions;
        approx_messages = d.approx_message_count;
      }))

  -- ApplyDelete
  unfoldable pub apply_delete : DeleteTopicPlan → Io W (Result P DeleteTopicResult)
  unfolding deleted_topic
  apply_delete plan w =
      let (answer, w') = s.delete_topics (plan.topic ∷ []) w in
      (deleted_topic plan.topic answer, w')

-- resolveBulkDeleteTargets without a pattern
unfoldable pub listed_targets : {P : Type 0} → List String → Result P (List String)
listed_targets [] = err (
    policy (record {
      code = validation;
      message = "topics or pattern is required";
      details = no_details;
    }))
listed_targets (t ∷ ts) = ok (sort_by itself (unseen [] (t ∷ ts)))

-- One result of DeleteTopics for each topic, as the items of a bulk result from index `i` on.
pub deleted_items : {P : Type 0} → ℕ → ℕ → List (TopicDeleteResult P) → BulkResult
unfolding add_item
deleted_items total i [] = record {
  items = [];
  summary = record { total = total; succeeded = 0; failed = 0 };
}
deleted_items total i (r ∷ rs) = add_item i r.error (deleted_items total (suc i) rs)

module _ {P W : Type 0} (compile : String → Result P (String → Bool)) (digest : String → String)
    (s : TopicService P W) where
  -- resolveBulkDeleteTargets; a listing that the error of the pattern makes needless is not made.
  unfoldable pub resolve_bulk_delete_targets : List String → String → Io W (Result P (List String))
  unfolding listed_targets
  resolve_bulk_delete_targets topics pattern w =
      let (answer, w') = s.list_topics w in
      if pattern == "" then (listed_targets topics, w) else elim (compile pattern) [
        | err e ↦ (
          err (
              policy
                (record { code = invalid_regex; message = error_text e; details = no_details })),
          w,
        )
        | ok re ↦ (answer >>= λ all. ok (sort_by itself (keep re (names_of all))), w')
      ]

  -- PlanBulkDelete
  unfoldable pub plan_bulk_delete : List String → String → Io W (Result P BulkDeletePlan)
  unfolding resolve_bulk_delete_targets
  plan_bulk_delete topics pattern = resolve_bulk_delete_targets topics pattern >=> λ resolved.
      at_once (ok (record { topics = resolved; plan_token = token digest "T8" resolved }))

  -- ApplyBulkDelete
  unfoldable pub apply_bulk_delete : BulkDeletePlan → Io W (Result P BulkResult)
  unfolding deleted_items
  apply_bulk_delete plan = s.delete_topics plan.topics >=> λ results.
      at_once (ok (deleted_items (length results) 0 results))

module _ {W : Type 0} where
  -- Delete
  unfoldable pub delete :
      TopicService DeleteTopicPlan W
      → Caller
      → String
      → String
      → Bool
      → Io W (DestructiveResult DeleteTopicPlan DeleteTopicResult × Option (Err DeleteTopicPlan))
  unfolding new_event plan_delete apply_delete
  delete s caller topic confirm dry_run w =
      let (attempt, w₁) = new_event s caller "T7" topic w in
      destructive s.now s.runner s.sinks (λ (p : DeleteTopicPlan). p.topic) (plan_delete s topic)
        (apply_delete s) caller (lookup_or_zero "T7") attempt confirm dry_run w₁

  -- BulkDelete
  unfoldable pub bulk_delete :
      (String → Result BulkDeletePlan (String → Bool))
      → (String → String)
      → TopicService BulkDeletePlan W
      → Caller
      → List String
      → String
      → String
      → Bool
      → Io W (DestructiveResult BulkDeletePlan BulkResult × Option (Err BulkDeletePlan))
  unfolding new_event plan_bulk_delete apply_bulk_delete
  bulk_delete compile digest s caller topics pattern confirm dry_run w =
      let (attempt, w₁) = new_event s caller "T8" "" w in
      destructive s.now s.runner s.sinks (λ (p : BulkDeletePlan). p.plan_token)
        (plan_bulk_delete compile digest s topics pattern) (apply_bulk_delete compile digest s)
        caller (lookup_or_zero "T8") attempt confirm dry_run w₁
