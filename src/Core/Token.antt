-- ===== src/Core/Token.antt =====
-- internal/service/core/plantoken.go: the plan token of a command with many targets. SHA-256 in
-- hexadecimal is the parameter `digest`.
use Prim.Native.String.{◌++◌ as append}
use kafka3o_gateway.Prelude.{String, ◌≡◌, ap, List, [], ◌∷◌, string_eq, sym, ◌∙◌}
use kafka3o_gateway.Prelude.Sort.{sort_by, string_order}
use kafka3o_gateway.Prelude.Sort.Laws.{sort_by-Ascending}
use kafka3o_gateway.Prelude.Sort.Unique.{
  itself, compact, has, compact-has, sort_by-has, compact-Increasing, Increasing, Increasing-unique,
}

-- strings.Join with "\n" as the separator
pub join_lines : List String → String
join_lines [] = ""
join_lines (t ∷ ts) =
    let rest = join_lines ts in elim ts [ [] ↦ t | _ ∷ _ ↦ append t (append "\n" rest) ]

-- The sorted targets, each once.
unfoldable pub unique_targets : List String → List String
unique_targets targets = compact (sort_by itself targets)

-- Token
unfoldable pub token : (String → String) → String → List String → String
unfolding unique_targets join_lines
token digest command_id targets =
    digest (append command_id (append "\n" (join_lines (unique_targets targets))))

pub unique_targets-Increasing : (targets : List String) → Increasing (unique_targets targets)
unfolding unique_targets
unique_targets-Increasing targets =
    compact-Increasing (sort_by itself targets) (sort_by-Ascending itself targets)

pub unique_targets-has :
    (a : String) (targets : List String) → has a (unique_targets targets) ≡ has a targets
unfolding unique_targets
unique_targets-has a targets = compact-has a (sort_by itself targets) ∙ sort_by-has a targets

-- Lists with the same members, in any order and with any repetition, have the same targets.
pub unique_targets-same :
    (xs ys : List String)
    → ((a : String) → has a xs ≡ has a ys)
    → unique_targets xs ≡ unique_targets ys
unique_targets-same xs ys same =
    Increasing-unique (unique_targets xs) (unique_targets ys) (unique_targets-Increasing xs)
      (unique_targets-Increasing ys)
      (λ a. unique_targets-has a xs ∙ same a ∙ sym (unique_targets-has a ys))

-- The token depends only on which targets there are.
pub token-same :
    (digest : String → String) (command_id : String) (xs ys : List String)
    → ((a : String) → has a xs ≡ has a ys)
    → token digest command_id xs ≡ token digest command_id ys
unfolding token
token-same digest command_id xs ys same =
    ap (λ ts. digest (append command_id (append "\n" (join_lines ts))))
      (unique_targets-same xs ys same)
