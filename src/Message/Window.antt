-- ===== src/Message/Window.antt =====
-- internal/service/message/{read,window}.go: where a scan starts and ends in each partition.
pub mod Snapshot
use kafka3o_gateway.Prelude.{
  ℤ, pos, ◌-ℤ◌, ltb_ℤ, String, Option, none, some, List, [], ◌∷◌, map, int_eq, if◌then◌else◌,
}
use kafka3o_gateway.Prelude.Machine.{wrap}
use kafka3o_gateway.Prelude.Map
use kafka3o_gateway.Prelude.Map.{Map}
use kafka3o_gateway.Errors.{Result, ok, err}
use kafka3o_gateway.Audit.{Io}
use kafka3o_gateway.Scan.Types.{PartitionSpec}
use kafka3o_gateway.Message.Service.{Service, ◌>=>◌}

-- FromKind and the value that comes with it: From's `Offset` and `TimeMilli` have a meaning for one
-- kind each.
pub data From : Type 0 where
  beginning latest : From
  offset timestamp : ℤ → From

pub record WindowParams : Type 0 where
  pub topic : String
  pub partitions : List ℤ
  pub from : From
  pub to : Option From

-- resolveFromOffset
unfoldable pub resolve_from_offset : From → ℤ → Map ℤ ℤ → Map ℤ ℤ → ℤ → ℤ → ℤ
resolve_from_offset beginning part begin timestamp_offsets end_ limit =
    Map.get_or (pos 0) part begin
resolve_from_offset latest part begin timestamp_offsets end_ limit =
    let start = wrap (end_ -ℤ limit) in
    let b = Map.get_or (pos 0) part begin in if ltb_ℤ start b then b else start
resolve_from_offset (offset o) part begin timestamp_offsets end_ limit = o
resolve_from_offset (timestamp t) part begin timestamp_offsets end_ limit =
    Map.get_or (pos 0) part timestamp_offsets

-- resolveToOffset
unfoldable pub resolve_to_offset : From → ℤ → Map ℤ ℤ → ℤ → ℤ
resolve_to_offset beginning part timestamp_offsets end_ = end_
resolve_to_offset latest part timestamp_offsets end_ = end_
resolve_to_offset (offset o) part timestamp_offsets end_ = o
resolve_to_offset (timestamp t) part timestamp_offsets end_ =
    Map.get_or (pos 0) part timestamp_offsets

-- The end of one partition's window: `to` where it is before the end snapshot.
unfoldable pub window_end : Option From → ℤ → Map ℤ ℤ → ℤ → ℤ
unfolding resolve_to_offset
window_end none part to_offsets end_ = end_
window_end (some to) part to_offsets end_ =
    let t = resolve_to_offset to part to_offsets end_ in if ltb_ℤ t end_ then t else end_

-- The body of resolveWindows' loop.
unfoldable pub window_of :
    From → Option From → Map ℤ ℤ → Map ℤ ℤ → Map ℤ ℤ → Map ℤ ℤ → ℤ → ℤ → PartitionSpec
unfolding window_end
window_of from to ends begins from_offsets to_offsets limit part =
    let end_ = Map.get_or (pos 0) part ends in
    record {
      start = resolve_from_offset from part begins from_offsets end_ limit;
      end_ = window_end to part to_offsets end_;
    }

-- The loop of resolveWindows, which gives each partition of the list its window.
unfoldable pub windows_of : (ℤ → PartitionSpec) → List ℤ → Map ℤ PartitionSpec
windows_of f [] = []
windows_of f (p ∷ ps) = Map.insert p (f p) (windows_of f ps)

-- No partition named means every partition that has an end offset.
abbrev pub partitions_in_scope : List ℤ → Map ℤ ℤ → List ℤ
partitions_in_scope [] ends = map (λ x. x.0) ends
partitions_in_scope (p ∷ ps) ends = p ∷ ps

module _ {P W : Type 0} (s : Service P W) where
  -- maybeListStart
  unfoldable pub maybe_list_start : String → From → Io W (Result P (Map ℤ ℤ))
  maybe_list_start topic beginning w = s.list_start_offsets topic w
  maybe_list_start topic latest w = s.list_start_offsets topic w
  maybe_list_start topic (offset o) w = (ok [], w)
  maybe_list_start topic (timestamp t) w = (ok [], w)

  -- maybeListAfterMilli
  unfoldable pub maybe_list_after_milli : String → From → Io W (Result P (Map ℤ ℤ))
  maybe_list_after_milli topic beginning w = (ok [], w)
  maybe_list_after_milli topic latest w = (ok [], w)
  maybe_list_after_milli topic (offset o) w = (ok [], w)
  maybe_list_after_milli topic (timestamp t) w = s.list_offsets_after_milli topic t w

  -- The upper bound's call, made only if there is one.
  unfoldable pub list_to_offsets : String → Option From → Io W (Result P (Map ℤ ℤ))
  unfolding maybe_list_after_milli
  list_to_offsets topic none w = (ok [], w)
  list_to_offsets topic (some to) w = maybe_list_after_milli topic to w

  -- resolveWindows
  unfoldable pub resolve_windows : WindowParams → ℤ → Io W (Result P (Map ℤ PartitionSpec))
  unfolding maybe_list_start maybe_list_after_milli list_to_offsets windows_of window_of
  resolve_windows wp limit = s.list_end_offsets wp.topic >=> λ ends.
      maybe_list_start wp.topic wp.from >=> λ begins.
      maybe_list_after_milli wp.topic wp.from >=> λ from_offsets.
      list_to_offsets wp.topic wp.to >=> λ to_offsets. λ w. (
        ok (
            windows_of (window_of wp.from wp.to ends begins from_offsets to_offsets limit)
              (partitions_in_scope wp.partitions ends)),
        w,
      )
