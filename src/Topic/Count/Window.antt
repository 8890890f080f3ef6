-- ===== src/Topic/Count/Window.antt =====
-- What the count of a window promises: internal/service/topic/count.go.
use kafka3o_gateway.Prelude.{ℤ, pos, ◌≤ℤ◌, ◌+ℤ◌, ◌≡◌, Option, some, int_eq}
use kafka3o_gateway.Prelude.Map
use kafka3o_gateway.Prelude.Map.{Map}
use kafka3o_gateway.Prelude.Sort.{int_order}
use kafka3o_gateway.Topic.Count.{PartitionCount}

-- Where the window of a partition ends: at the offset found for its last time, but not past the end
-- where that is known, and not before its first offset.
pub record IsLast (from wanted : ℤ) (known : Option ℤ) (to : ℤ) : Type 0 where
  pub empty : wanted ≤ℤ from → to ≡ from
  pub reaches : from ≤ℤ wanted → ((end : ℤ) → known ≡ some end → wanted ≤ℤ end) → to ≡ wanted
  pub cut : (end : ℤ) → known ≡ some end → from ≤ℤ end → end ≤ℤ wanted → to ≡ end
  pub past : (end : ℤ) → known ≡ some end → end ≤ℤ from → to ≡ from

-- The count of one partition: not negative, from its first offset to its last one.
pub record IsWindow (froms tos ends : Map ℤ ℤ) (c : PartitionCount) : Type 0 where
  pub starts : c.from_offset ≡ Map.get_or (pos 0) c.id froms
  pub counts : c.from_offset +ℤ c.count ≡ c.to_offset
  pub not_negative : pos 0 ≤ℤ c.count
  pub last : IsLast c.from_offset (Map.get_or (pos 0) c.id tos) (Map.lookup c.id ends) c.to_offset

abbrev pub counted_id : PartitionCount → ℤ
counted_id c = c.id
