-- ===== src/Group/Listing.antt =====
-- internal/service/group/service.go: List.
use kafka3o_gateway.Prelude.{
  ℤ, String, Option, none, some, List, [], ◌∷◌, map, length, ◌==◌, string_eq, if◌then◌else◌,
}
use kafka3o_gateway.Prelude.Sort.{sort_by, string_order}
use kafka3o_gateway.Errors.{Result, ok, err}
use kafka3o_gateway.Audit.{Io}
use kafka3o_gateway.Core.Paging.{ListPage, page_rows}
use kafka3o_gateway.Group.Service.{GroupService, GroupSummary}

-- group.ListItem
pub record GroupListItem : Type 0 where
  pub id : String
  pub state : String
  pub protocol_type : String
  pub member_count : ℤ

-- group.ListParams
pub record GroupListParams : Type 0 where
  pub state : String
  pub page : ℤ
  pub page_size : ℤ

abbrev pub group_list_item : GroupSummary → GroupListItem
group_list_item g = record {
  id = g.id;
  state = g.state;
  protocol_type = g.protocol_type;
  member_count = g.member_count;
}

-- The answer to the groups of the port; `none` is a panic.
unfoldable pub group_list_answer :
    GroupListParams → List GroupSummary → Option (List GroupListItem × ListPage)
group_list_answer params groups =
    let sorted = sort_by (λ (g : GroupSummary). g.id) groups in
    let page : ListPage = record {
      page = params.page;
      page_size = params.page_size;
      total = length sorted;
    } in
    elim (page_rows params.page params.page_size sorted) [
      | none ↦ none
      | some rows ↦ some (map group_list_item rows, page)
    ]

module _ {P W : Type 0} (s : GroupService P W) where
  -- List; `none` is a panic.
  unfoldable pub list_groups_page :
      GroupListParams → Io W (Option (Result P (List GroupListItem × ListPage)))
  unfolding group_list_answer
  list_groups_page params w =
      let (groups, w') = s.list_groups (if params.state == "" then [] else params.state ∷ []) w in
      elim groups [
        | err e ↦ (some (err e), w')
        | ok all ↦ elim (group_list_answer params all) [
          | none ↦ (none, w')
          | some answer ↦ (some (ok answer), w')
        ]
      ]
