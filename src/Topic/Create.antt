-- ===== src/Topic/Create.antt =====
-- internal/service/topic/create.go: create one topic, or many after checking that none exists.
pub mod Fresh
use Prim.Native.String.{◌++◌ as append}
use kafka3o_gateway.Prelude.{
  ℤ, String, Bool, true, false, Option, none, some, List, [], ◌∷◌, map, string_eq, if◌then◌else◌,
}
use kafka3o_gateway.Prelude.Map.{Map}
use kafka3o_gateway.Prelude.Sort.{string_order}
use kafka3o_gateway.Prelude.Sort.Unique.{has}
use kafka3o_gateway.Errors.{
  Err, Result, ok, err, ◌>>=◌, other, policy, audit_unavailable, no_details,
}
use kafka3o_gateway.Errors.Text.{error_text}
use kafka3o_gateway.Gates.{Caller}
use kafka3o_gateway.Audit.Schema.{succeeded, failed}
use kafka3o_gateway.Audit
use kafka3o_gateway.Audit.{Io}
use kafka3o_gateway.Core.Bulk.{BulkResult, bulk_run}
use kafka3o_gateway.Topic.Service.{
  TopicService, TopicSummary, TopicSpec, TopicCreateResult, ConfigEntry, first_result,
}
use kafka3o_gateway.Topic.Events.{
  new_event, result_event, result_event_outcome, check_gate, err_code_of,
}

pub record CreateParams : Type 0 where
  pub name : String
  pub partitions : ℤ
  pub replication_factor : ℤ
  pub configs : Map String String

pub record CreateResult : Type 0 where
  pub name : String
  pub partitions : ℤ
  pub replication_factor : ℤ
  pub configs : List ConfigEntry

abbrev pub topic_spec : CreateParams → TopicSpec
topic_spec p = record {
  name = p.name;
  partitions = p.partitions;
  replication_factor = p.replication_factor;
  configs = p.configs;
}

-- toCreateResult
abbrev pub to_create_result : {P : Type 0} → TopicCreateResult P → CreateResult
to_create_result r = record {
  name = r.name;
  partitions = r.partitions;
  replication_factor = r.replication_factor;
  configs = r.configs;
}

-- `results[0]` with its error
unfoldable pub created :
    {P : Type 0} → Result P (List (TopicCreateResult P)) → Result P CreateResult
created answer = answer >>= λ results.
    first_result results >>= λ r. elim r.error [ some e ↦ err e | none ↦ ok (to_create_result r) ]

-- The names of `existingNames`
abbrev pub names_of : List TopicSummary → List String
names_of = map (λ (t : TopicSummary). t.name)

-- The validation of CreateBulk; `quoted` is the name as `%q` prints it.
unfoldable pub validate_new :
    {P : Type 0} → (String → String) → List String → CreateParams → Option (Err P)
validate_new quoted existing p =
    if has p.name existing
    then some (other (append "topic " (append (quoted p.name) " already exists")))
    else none

module _ {P W : Type 0} (s : TopicService P W) where
  -- createOne
  unfoldable pub create_one : TopicSpec → Bool → Io W (Result P CreateResult)
  unfolding created
  create_one spec validate_only w =
      let (answer, w') = s.create_topics (spec ∷ []) validate_only w in (created answer, w')

  -- The dry run of Create: the broker validates and one RESULT is written.
  unfoldable pub create_dry_run : Caller → CreateParams → Io W (Result P (CreateResult × Bool))
  unfolding create_one new_event result_event_outcome
  create_dry_run caller params w =
      let (answer, w₁) = create_one (topic_spec params) true w in
      elim answer [
        | err e ↦ (err e, w₁)
        | ok r ↦
            let (attempt, w₂) = new_event s caller "T5" params.name w₁ in
            let (event, w₃) =
              result_event_outcome s (record attempt { dry_run = true }) succeeded none w₂ in
            (ok (r, true), Audit.result s.sinks event w₃)
      ]

  -- Create after the gate without a dry run: ATTEMPT, createOne, RESULT.
  unfoldable pub create_audited : Caller → CreateParams → Io W (Result P (CreateResult × Bool))
  unfolding create_one new_event result_event_outcome err_code_of
  create_audited caller params w =
      let (attempt, w₁) = new_event s caller "T5" params.name w in
      let (refused, w₂) = Audit.attempt s.sinks attempt w₁ in
      let (answer, w₃) = create_one (topic_spec params) false w₂ in
      elim refused [
        | some e ↦ (
          err (
              policy (record {
                code = audit_unavailable;
                message = error_text e;
                details = no_details;
              })),
          w₂,
        )
        | none ↦ elim answer [
          | err e ↦
              let (event, w₄) = result_event_outcome s attempt failed (some (err_code_of e)) w₃ in
              (err e, Audit.result s.sinks event w₄)
          | ok r ↦
              let (event, w₄) = result_event_outcome s attempt succeeded none w₃ in
              (ok (r, false), Audit.result s.sinks event w₄)
        ]
      ]

  -- Create; the Boolean of its answer is isDryRun.
  unfoldable pub create : Caller → CreateParams → Bool → Io W (Result P (CreateResult × Bool))
  unfolding check_gate create_dry_run create_audited
  create caller params dry_run w =
      let (rejected, w₁) = check_gate s caller "T5" params.name w in
      elim rejected [
        | some e ↦ (err e, w₁)
        | none ↦
            (if dry_run then create_dry_run caller params w₁ else create_audited caller params w₁)
      ]

  -- The execution of one item of CreateBulk.
  unfoldable pub create_item : CreateParams → Io W (Option (Err P))
  unfolding created
  create_item p w =
      let (answer, w') = s.create_topics (topic_spec p ∷ []) false w in
      elim (created answer) [ err e ↦ (some e, w') | ok r ↦ (none, w') ]

  -- CreateBulk
  unfoldable pub create_bulk :
      (String → String) → Caller → List CreateParams → Io W (Result P BulkResult)
  unfolding check_gate new_event result_event create_item validate_new
  create_bulk quoted caller params w =
      let (rejected, w₁) = check_gate s caller "T6" "" w in
      let (topics, w₂) = s.list_topics w₁ in
      elim rejected [
        | some e ↦ (err e, w₁)
        | none ↦ elim topics [
          | err e ↦ (err e, w₂)
          | ok existing ↦
              let (attempt, w₃) = new_event s caller "T6" "" w₂ in
              bulk_run s.sinks attempt (result_event s attempt)
                (validate_new quoted (names_of existing)) create_item params w₃
        ]
      ]
