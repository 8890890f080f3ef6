-- ===== src/Examples/Topics.antt =====
-- The topic service on a broker with one topic of two partitions. The state is the clock.
use Prim.Native.Nat.{◌+◌}
use kafka3o_gateway.Prelude.{
  ℕ, ℤ, pos, negsuc, String, Bool, true, false, Option, none, some, List, [], ◌∷◌, ◌≡◌, refl, arith,
  string_eq, int_eq,
}
use kafka3o_gateway.Prelude.Map
use kafka3o_gateway.Prelude.Map.{Map}
use kafka3o_gateway.Prelude.Sort.{string_order, int_order, sort_by}
use kafka3o_gateway.Prelude.Sort.Unique.{has, unseen}
use kafka3o_gateway.Errors.{Result, ok, err, other}
use kafka3o_gateway.Core.Token.{token}
use kafka3o_gateway.Core.Paging.{page_rows}
use kafka3o_gateway.Core.Paging.Laws.{first_pages, first_pages-all, page_rows-negative}
use kafka3o_gateway.Message.Service.{Topic, Partition}
use kafka3o_gateway.Topic.Service.{TopicService, TopicSummary}
use kafka3o_gateway.Topic.Delete.{BulkDeletePlan, plan_bulk_delete}
use kafka3o_gateway.Topic.Delete.Targets.{
  IsCanonical, plan_bulk_delete-same, plan_bulk_delete-IsCanonical,
}
use kafka3o_gateway.Topic.Records.{DeleteRecordsPlan, plan_delete_records}
use kafka3o_gateway.Topic.Records.Bounds.{IsRecordsPlan, plan_delete_records-IsRecordsPlan}
use kafka3o_gateway.Examples.Data.{gated}

abbrev partition_at : ℕ → Partition
partition_at n = record {
  id = pos n;
  leader = pos 1;
  replicas = [];
  isr = [];
  begin_offset = pos 0;
  end_offset = pos 10;
}

abbrev orders : Topic
orders = record {
  name = "orders";
  internal = false;
  replication_factor = pos 1;
  partitions = partition_at 0 ∷ partition_at 1 ∷ [];
}

abbrev summary : TopicSummary
summary = record {
  name = "orders";
  internal = false;
  partition_count = pos 2;
  replication_factor = pos 1;
}

abbrev starts : Map ℤ ℤ
starts = (pos 0, pos 2) ∷ (pos 1, pos 0) ∷ []

abbrev ends : Map ℤ ℤ
ends = (pos 0, pos 10) ∷ (pos 1, pos 4) ∷ []

abbrev service : {P : Type 0} → TopicService P ℕ
service = record {
  list_topics = λ w. (ok (summary ∷ []), w);
  describe_topics = λ topic w. (ok orders, w);
  describe_topic_configs = λ topic w. (ok [], w);
  describe_log_dirs = λ topic w. (ok [], w);
  list_start_offsets = λ topic w. (ok starts, w);
  list_end_offsets = λ topic w. (ok ends, w);
  list_offsets_after_milli = λ topic t w. (ok starts, w);
  create_topics = λ specs only w. (ok [], w);
  delete_topics = λ names w. (ok [], w);
  delete_records = λ topic offsets w. (ok [], w);
  incremental_alter_topic_configs = λ topic changes w. (none, w);
  create_partitions = λ topic count w. (none, w);
  sinks = [];
  new_event_id = λ w. ("event", w);
  now = λ w. (pos w, w + 1);
  runner = gated;
}

abbrev rows : List ℕ
rows = 1 ∷ 2 ∷ 3 ∷ []

first_pages-all_example : first_pages (pos 2) rows 2 ≡ some rows
first_pages-all_example = first_pages-all 2 2 rows (omega arith) (omega arith) (omega arith)

page_rows-negative_example : page_rows (pos 1) (negsuc 4) rows ≡ none
page_rows-negative_example = page_rows-negative 4 1 (2 ∷ 3 ∷ []) (omega arith)

-- A hash that changes nothing, and a pattern that never compiles.
abbrev digest : String → String
digest s = s

abbrev compile : String → Result BulkDeletePlan (String → Bool)
compile pattern = err (other "no pattern")

same_members : (a : String) → has a ("b" ∷ "a" ∷ "b" ∷ []) ≡ has a ("a" ∷ "b" ∷ [])
unfolding has
same_members a = ground arith

plan_bulk_delete-same_example :
    plan_bulk_delete compile digest service ("b" ∷ "a" ∷ "b" ∷ []) "" 0
    ≡ plan_bulk_delete compile digest service ("a" ∷ "b" ∷ []) "" 0
plan_bulk_delete-same_example =
    plan_bulk_delete-same compile digest service "b" "a" ("a" ∷ "b" ∷ []) ("b" ∷ []) 0 same_members

abbrev planned : BulkDeletePlan
planned = record { topics = "a" ∷ "b" ∷ []; plan_token = token digest "T8" ("a" ∷ "b" ∷ []) }

plan_bulk_delete-IsCanonical_example : IsCanonical digest ("b" ∷ "a" ∷ "b" ∷ []) planned
unfolding plan_bulk_delete sort_by unseen
plan_bulk_delete-IsCanonical_example =
    plan_bulk_delete-IsCanonical compile digest service "b" ("a" ∷ "b" ∷ []) 0 0 planned refl

abbrev truncated : DeleteRecordsPlan
truncated = record {
  topic = "orders";
  partitions =
      record {
        partition = pos 0;
        begin_offset = pos 2;
        truncate_to = pos 7;
        approx_records_affected = pos 5;
      }
      ∷ [];
}

plan_delete_records-IsRecordsPlan_example :
    IsRecordsPlan (service {P = String}) "orders" 0 truncated
unfolding plan_delete_records has kafka3o_gateway.Prelude.Machine.wrap Map.get_or sort_by
    kafka3o_gateway.Prelude.Int.◌-ℤ◌
plan_delete_records-IsRecordsPlan_example =
    plan_delete_records-IsRecordsPlan (service {P = String}) "orders" ((pos 0, pos 7) ∷ []) 0 0
      truncated refl
