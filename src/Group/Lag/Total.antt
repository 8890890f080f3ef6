-- ===== src/Group/Lag/Total.antt =====
-- A lag is never negative, and a group has none exactly when it caught up everywhere:
-- internal/service/group/service.go.
use kafka3o_gateway.Prelude.{ℤ, pos, ◌≤ℤ◌, ◌+ℤ◌, some, ◌≡◌, [], int_eq, pair_eq, string_eq, String}
use kafka3o_gateway.Prelude.Map
use kafka3o_gateway.Prelude.Map.{Map}
use kafka3o_gateway.Prelude.Sort.{string_order, int_order, pair_order}
use kafka3o_gateway.Group.Service.{TopicPartition}
use kafka3o_gateway.Group.Lag.{OffsetDetail}

-- The detail has the offset that the group committed and the end that was listed for the partition, 0
-- if none was; the lag is what is missing to the end, and 0 at or past it.
pub record IsLag (ends : Map String (Map ℤ ℤ)) (committed : Map TopicPartition ℤ) (d : OffsetDetail)
    : Type 0 where
  pub was_committed : Map.lookup (d.topic, d.partition) committed ≡ some d.committed
  pub was_listed : d.end ≡ Map.get_or (pos 0) d.partition (Map.get_or [] d.topic ends)
  pub not_negative : pos 0 ≤ℤ d.lag
  pub behind : d.committed ≤ℤ d.end → d.committed +ℤ d.lag ≡ d.end
  pub ahead : d.end ≤ℤ d.committed → d.lag ≡ pos 0

-- The partition of a detail.
abbrev pub detail_of : OffsetDetail → TopicPartition
detail_of d = (d.topic, d.partition)

abbrev pub CaughtUp : OffsetDetail → Type 0
CaughtUp d = d.end ≤ℤ d.committed
