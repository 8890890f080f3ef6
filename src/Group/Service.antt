-- ===== src/Group/Service.antt =====
-- internal/service/group/{service,events}.go: the calls of the admin port that the group service
-- makes, the base of its audit events, and the state of a group.
use kafka3o_gateway.Prelude.{
  ℕ, ℤ, pos, String, Bool, true, false, Option, none, some, List, [], ◌∷◌, length, string_eq,
  int_eq,
}
use kafka3o_gateway.Prelude.Map.{Map}
use kafka3o_gateway.Prelude.Sort.{pair_order, string_order, int_order}
use kafka3o_gateway.Errors.{Err, Kind, kafka, Result, ok, err, ◌>>=◌, kind_of}
use kafka3o_gateway.Gates.{Caller}
use kafka3o_gateway.Audit.Schema.{Event}
use kafka3o_gateway.Audit.{Io, Sink}
use kafka3o_gateway.Core.Run.{Runner}
use kafka3o_gateway.Core.Events.{base_event}
use kafka3o_gateway.Topic.Service.{first_result}

-- TopicPartition: the topic and the partition
abbrev pub TopicPartition : Type 0
TopicPartition = String × ℤ

pub record GroupMember : Type 0 where
  pub member_id : String
  pub client_id : String
  pub host : String
  pub assignments : List TopicPartition

-- kafka.Group
pub record ConsumerGroup : Type 0 where
  pub id : String
  pub state : String
  pub protocol_type : String
  pub coordinator_id : ℤ
  pub members : List GroupMember

pub record GroupSummary : Type 0 where
  pub id : String
  pub state : String
  pub protocol_type : String
  pub member_count : ℤ

-- GroupDeleteResult, of one group
pub record GroupDeleteResult (P : Type 0) : Type 0 where
  pub id : String
  pub error : Option (Err P)

-- LeaveGroupResult, of one member
pub record LeaveGroupResult (P : Type 0) : Type 0 where
  pub member_id : String
  pub error : Option (Err P)

pub record GroupService (P W : Type 0) : Type 0 where
  pub list_groups : List String → Io W (Result P (List GroupSummary))
  pub describe_groups : List String → Io W (Result P (List ConsumerGroup))
  pub fetch_group_offsets : String → Io W (Result P (Map TopicPartition ℤ))
  pub commit_group_offsets : String → Map TopicPartition ℤ → Io W (Option (Err P))
  pub delete_groups : List String → Io W (Result P (List (GroupDeleteResult P)))
  pub leave_group : String → List String → Io W (Result P (List (LeaveGroupResult P)))
  pub list_start_offsets : String → Io W (Result P (Map ℤ ℤ))
  pub list_end_offsets : String → Io W (Result P (Map ℤ ℤ))
  pub list_offsets_after_milli : String → ℤ → Io W (Result P (Map ℤ ℤ))
  pub sinks : List (Sink P W)
  pub new_event_id : Io W String
  pub now : Io W ℤ
  pub runner : Runner P

-- &kafka.Error{Kind: kind, Resource: "group"}
abbrev pub group_error : {P : Type 0} → Kind → Err P
group_error kind =
    kafka (record { kind = kind; resource = "group"; kafka_code = pos 0; kafka_name = "" })

-- kafka.IsKind(err, kafka.KindNotFound)
unfoldable pub is_not_found : {P : Type 0} → Err P → Bool
is_not_found e = elim (kind_of e) [ some Kind.not_found ↦ true | some _ ↦ false | none ↦ false ]

-- What groupState makes of the described groups: whether the group exists, and its member count.
unfoldable pub group_state_of : {P : Type 0} → Result P (List ConsumerGroup) → Result P (Bool × ℕ)
unfolding is_not_found
group_state_of (ok groups) = first_result groups >>= λ g. ok (true, length g.members)
group_state_of (err e) = elim (is_not_found e) [ true ↦ ok (false, 0) | false ↦ err e ]

module _ {P W : Type 0} (s : GroupService P W) where
  -- newEvent
  unfoldable pub new_event : Caller → String → String → Io W Event
  new_event = base_event "group" s.new_event_id s.now

  -- groupState
  unfoldable pub group_state : String → Io W (Result P (Bool × ℕ))
  unfolding group_state_of
  group_state group_id w =
      let (answer, w') = s.describe_groups (group_id ∷ []) w in (group_state_of answer, w')
