-- ===== src/Topic/Count.antt =====
-- internal/service/topic/count.go: the messages of a topic in a window of time.
pub mod Window
use kafka3o_gateway.Prelude.{
  ℤ, pos, ◌+ℤ◌, ◌-ℤ◌, ltb_ℤ, String, Option, none, some, List, [], ◌∷◌, map, int_eq, if◌then◌else◌,
}
use kafka3o_gateway.Prelude.Map
use kafka3o_gateway.Prelude.Map.{Map, keys}
use kafka3o_gateway.Prelude.Sort.{sort_by, int_order}
use kafka3o_gateway.Prelude.Sort.Unique.{itself}
use kafka3o_gateway.Errors.{Result, ok}
use kafka3o_gateway.Audit.{Io}
use kafka3o_gateway.Message.Service.{◌>=>◌}
use kafka3o_gateway.Topic.Service.{TopicService, at_once}

pub record PartitionCount : Type 0 where
  pub id : ℤ
  pub from_offset : ℤ
  pub to_offset : ℤ
  pub count : ℤ

pub record Count : Type 0 where
  pub topic : String
  pub from_milli : ℤ
  pub to_milli : ℤ
  pub total : ℤ
  pub partitions : List PartitionCount

-- `to`, cut at the partition's end where it is known, and not below `from`.
abbrev cut_at : ℤ → Option ℤ → ℤ
cut_at wanted none = wanted
cut_at wanted (some e) = if ltb_ℤ e wanted then e else wanted

unfoldable pub clamped : ℤ → ℤ → Option ℤ → ℤ
clamped from wanted known = let cut = cut_at wanted known in if ltb_ℤ cut from then from else cut

-- One turn of the loop over the ids.
unfoldable pub count_partition : Map ℤ ℤ → Map ℤ ℤ → Map ℤ ℤ → ℤ → PartitionCount
unfolding clamped
count_partition froms tos ends id =
    let from = Map.get_or (pos 0) id froms in
    let to = clamped from (Map.get_or (pos 0) id tos) (Map.lookup id ends) in
    record { id = id; from_offset = from; to_offset = to; count = to -ℤ from }

-- `total`
unfoldable pub sum_counts : List PartitionCount → ℤ
sum_counts [] = pos 0
sum_counts (c ∷ cs) = c.count +ℤ sum_counts cs

unfoldable pub counted : String → ℤ → ℤ → Map ℤ ℤ → Map ℤ ℤ → Map ℤ ℤ → Count
unfolding count_partition sum_counts
counted name from_milli to_milli froms tos ends =
    let counts = map (count_partition froms tos ends) (sort_by itself (keys froms)) in
    record {
      topic = name;
      from_milli = from_milli;
      to_milli = to_milli;
      total = sum_counts counts;
      partitions = counts;
    }

module _ {P W : Type 0} (s : TopicService P W) where
  -- CountInWindow
  unfoldable pub count_in_window : String → ℤ → ℤ → Io W (Result P Count)
  unfolding counted
  count_in_window name from_milli to_milli = s.list_offsets_after_milli name from_milli >=> λ froms.
      s.list_offsets_after_milli name to_milli >=> λ tos. s.list_end_offsets name >=> λ ends.
      at_once (ok (counted name from_milli to_milli froms tos ends))
