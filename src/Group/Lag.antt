-- ===== src/Group/Lag.antt =====
-- internal/service/group/service.go: Describe and ConsumersOfTopic, with the lag of each partition.
pub mod Total
use kafka3o_gateway.Prelude.{
  ℤ, pos, ◌+ℤ◌, ◌-ℤ◌, ltb_ℤ, String, Option, none, some, List, [], ◌∷◌, map, int_eq, string_eq,
  if◌then◌else◌, pair_eq,
}
use kafka3o_gateway.Prelude.Map
use kafka3o_gateway.Prelude.Map.{Map, keys}
use kafka3o_gateway.Prelude.Sort.{sort_by, string_order, int_order, pair_order}
use kafka3o_gateway.Prelude.Sort.Unique.{itself}
use kafka3o_gateway.Errors.{Result, ok, err}
use kafka3o_gateway.Audit.{Io}
use kafka3o_gateway.Message.Service.{◌>=>◌}
use kafka3o_gateway.Topic.Service.{at_once, first_result}
use kafka3o_gateway.Group.Service.{GroupService, TopicPartition, ConsumerGroup, GroupMember}

pub record MemberDetail : Type 0 where
  pub member_id : String
  pub client_id : String
  pub host : String
  pub assignments : List TopicPartition

pub record OffsetDetail : Type 0 where
  pub topic : String
  pub partition : ℤ
  pub committed : ℤ
  pub end : ℤ
  pub lag : ℤ

-- group.Describe
pub record GroupDescription : Type 0 where
  pub id : String
  pub state : String
  pub protocol_type : String
  pub coordinator_id : ℤ
  pub members : List MemberDetail
  pub offsets : List OffsetDetail
  pub total_lag : ℤ

pub record TopicGroupPartition : Type 0 where
  pub partition : ℤ
  pub committed : ℤ
  pub end : ℤ
  pub lag : ℤ

pub record TopicGroup : Type 0 where
  pub group_id : String
  pub state : String
  pub total_lag : ℤ
  pub partitions : List TopicGroupPartition

-- `max(end-committed, 0)`
unfoldable pub lag_of : ℤ → ℤ → ℤ
lag_of end committed =
    let behind = end -ℤ committed in if ltb_ℤ behind (pos 0) then pos 0 else behind

-- One turn of the loop over the sorted partitions.
unfoldable pub offset_detail :
    Map String (Map ℤ ℤ) → Map TopicPartition ℤ → TopicPartition → OffsetDetail
unfolding lag_of
offset_detail ends committed tp =
    let end = Map.get_or (pos 0) tp.1 (Map.get_or [] tp.0 ends) in
    let at = Map.get_or (pos 0) tp committed in
    record { topic = tp.0; partition = tp.1; committed = at; end = end; lag = lag_of end at }

unfoldable pub sum_lags : List OffsetDetail → ℤ
sum_lags [] = pos 0
sum_lags (d ∷ ds) = d.lag +ℤ sum_lags ds

unfoldable pub offset_details : Map String (Map ℤ ℤ) → Map TopicPartition ℤ → List OffsetDetail × ℤ
unfolding offset_detail sum_lags
offset_details ends committed =
    let details = map (offset_detail ends committed) (sort_by itself (keys committed)) in
    (details, sum_lags details)

abbrev pub member_detail : GroupMember → MemberDetail
member_detail m = record {
  member_id = m.member_id;
  client_id = m.client_id;
  host = m.host;
  assignments = m.assignments;
}

-- The loop of ConsumersOfTopic over the topic's end offsets: the partitions with a committed
-- offset, and `totalLag`.
unfoldable pub topic_partitions :
    String → Map TopicPartition ℤ → Map ℤ ℤ → List TopicGroupPartition × ℤ
unfolding lag_of
topic_partitions topic committed [] = ([], pos 0)
topic_partitions topic committed ((p, end) ∷ rest) =
    let (others, total) = topic_partitions topic committed rest in
    elim (Map.lookup (topic, p) committed) [
      | none ↦ (others, total)
      | some at ↦ (
        record { partition = p; committed = at; end = end; lag = lag_of end at } ∷ others,
        lag_of end at +ℤ total,
      )
    ]

-- One turn of its loop over the groups, in front of the groups that follow.
unfoldable pub add_group :
    String → Map ℤ ℤ → ConsumerGroup → Map TopicPartition ℤ → List TopicGroup → List TopicGroup
unfolding topic_partitions
add_group topic ends g committed others =
    let (partitions, total) = topic_partitions topic committed ends in
    elim partitions [
      | [] ↦ others
      | p ∷ ps ↦
          record {
            group_id = g.id;
            state = g.state;
            total_lag = total;
            partitions = sort_by (λ (t : TopicGroupPartition). t.partition) (p ∷ ps);
          }
          ∷ others
    ]

module _ {P W : Type 0} (s : GroupService P W) where
  -- `endByTopic`: one listing for each topic that has none yet.
  pub end_by_topic :
      Map String (Map ℤ ℤ) → List TopicPartition → Io W (Result P (Map String (Map ℤ ℤ)))
  end_by_topic ends [] w = (ok ends, w)
  end_by_topic ends (tp ∷ tps) w =
      let (listed, w₁) = s.list_end_offsets tp.0 w in
      let known = end_by_topic ends tps w in
      elim (Map.lookup tp.0 ends) [
        | some _ ↦ known
        | none ↦ elim listed [
          | err e ↦ (err e, w₁)
          | ok found ↦ end_by_topic (Map.insert tp.0 found ends) tps w₁
        ]
      ]

  -- resolveOffsetDetails
  unfoldable pub resolve_offset_details :
      Map TopicPartition ℤ → Io W (Result P (List OffsetDetail × ℤ))
  unfolding end_by_topic offset_details
  resolve_offset_details committed =
      end_by_topic [] (keys committed) >=> λ ends. at_once (ok (offset_details ends committed))

  -- Describe
  unfoldable pub describe_group : String → Io W (Result P GroupDescription)
  unfolding resolve_offset_details
  describe_group group_id = s.describe_groups (group_id ∷ []) >=> λ groups.
      at_once (first_result groups) >=> λ g. s.fetch_group_offsets group_id >=> λ committed.
      resolve_offset_details committed >=> λ details. at_once (
        ok (record {
          id = g.id;
          state = g.state;
          protocol_type = g.protocol_type;
          coordinator_id = g.coordinator_id;
          members = map member_detail g.members;
          offsets = details.0;
          total_lag = details.1;
        }))

  -- The loop of ConsumersOfTopic over the groups.
  pub consumers_among : String → Map ℤ ℤ → List ConsumerGroup → Io W (Result P (List TopicGroup))
  unfolding add_group
  consumers_among topic ends [] w = (ok [], w)
  consumers_among topic ends (g ∷ gs) w =
      let (fetched, w₁) = s.fetch_group_offsets g.id w in
      let (rest, w₂) = consumers_among topic ends gs w₁ in
      elim fetched [
        | err e ↦ (err e, w₁)
        | ok committed ↦ elim rest [
          | err e ↦ (err e, w₂)
          | ok others ↦ (ok (add_group topic ends g committed others), w₂)
        ]
      ]

  -- ConsumersOfTopic
  unfoldable pub consumers_of_topic : String → Io W (Result P (List TopicGroup))
  unfolding consumers_among
  consumers_of_topic topic = s.list_end_offsets topic >=> λ ends. s.describe_groups [] >=> λ groups.
      consumers_among topic ends groups >=> λ out.
      at_once (ok (sort_by (λ (t : TopicGroup). t.group_id) out))
