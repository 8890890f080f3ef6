-- ===== src/Topic/Listing.antt =====
-- internal/service/topic/service.go: List. `compile` is regexp.Compile, with what the compiled
-- expression matches.
use kafka3o_gateway.Prelude.{
  ℤ, String, Bool, true, not, ◌&&◌, Option, none, some, List, map, keep, length, ◌==◌, string_eq,
  if◌then◌else◌,
}
use kafka3o_gateway.Prelude.Sort.{sort_by, string_order}
use kafka3o_gateway.Errors.{Result, ok, err, policy, invalid_regex, no_details}
use kafka3o_gateway.Errors.Text.{error_text}
use kafka3o_gateway.Audit.{Io}
use kafka3o_gateway.Core.Paging.{ListPage, page_rows}
use kafka3o_gateway.Topic.Service.{TopicService, TopicSummary}

pub record ListItem : Type 0 where
  pub name : String
  pub internal : Bool
  pub partition_count : ℤ
  pub replication_factor : ℤ

pub record ListParams : Type 0 where
  pub pattern : String
  pub include_internal : Bool
  pub page : ℤ
  pub page_size : ℤ

-- The pattern, compiled only if there is one; the empty pattern is `none`.
unfoldable pub compile_pattern :
    {P : Type 0} → (String → Result P (String → Bool)) → String → Result P (Option (String → Bool))
compile_pattern compile pattern = if pattern == "" then ok none else elim (compile pattern) [
  | ok re ↦ ok (some re)
  | err e ↦
      err (policy (record { code = invalid_regex; message = error_text e; details = no_details }))
]

-- The condition under which the loop keeps a topic.
unfoldable pub is_listed : ListParams → Option (String → Bool) → TopicSummary → Bool
is_listed params pattern t =
    not (not params.include_internal && t.internal)
    && elim pattern [ none ↦ true | some re ↦ re t.name ]

-- `matched` after its sort
unfoldable pub matched_topics :
    ListParams → Option (String → Bool) → List TopicSummary → List TopicSummary
unfolding is_listed
matched_topics params pattern topics =
    sort_by (λ (t : TopicSummary). t.name) (keep (is_listed params pattern) topics)

abbrev pub list_item : TopicSummary → ListItem
list_item t = record {
  name = t.name;
  internal = t.internal;
  partition_count = t.partition_count;
  replication_factor = t.replication_factor;
}

-- The answer to the topics of the port; `none` is a panic.
unfoldable pub list_answer :
    ListParams → Option (String → Bool) → List TopicSummary → Option (List ListItem × ListPage)
unfolding matched_topics
list_answer params pattern topics =
    let matched = matched_topics params pattern topics in
    let page : ListPage = record {
      page = params.page;
      page_size = params.page_size;
      total = length matched;
    } in
    elim (page_rows params.page params.page_size matched) [
      | none ↦ none
      | some rows ↦ some (map list_item rows, page)
    ]

module _ {P W : Type 0} (s : TopicService P W) where
  -- List; `none` is a panic.
  unfoldable pub list_topics_page :
      (String → Result P (String → Bool))
      → ListParams
      → Io W (Option (Result P (List ListItem × ListPage)))
  unfolding compile_pattern list_answer
  list_topics_page compile params w = elim (compile_pattern compile params.pattern) [
    | err e ↦ (some (err e), w)
    | ok pattern ↦
        let (topics, w₁) = s.list_topics w in
        elim topics [
          | err e ↦ (some (err e), w₁)
          | ok all ↦ elim (list_answer params pattern all) [
            | none ↦ (none, w₁)
            | some answer ↦ (some (ok answer), w₁)
          ]
        ]
  ]
