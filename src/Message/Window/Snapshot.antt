-- ===== src/Message/Window/Snapshot.antt =====
-- The windows stay in the end snapshot: internal/service/message/window.go.
use mathlib.Core.List.{Memᴰ}
use mathlib.Core.Path.{subst}
use kafka3o_gateway.Prelude.{
  ℤ, pos, ◌+ℤ◌, ◌-ℤ◌, ◌≤ℤ◌, ◌≡◌, Option, none, some, Bool-cases, inl, inr, List, [], ◌∷◌, int_eq,
  eqb_ℤ_iff, ◌==◌, arith, -ℤ_parts, +ℤ_parts, sym, ap, ◌∙◌,
}
use kafka3o_gateway.Prelude.Machine.{IsInt64, wrap-IsInt64}
use kafka3o_gateway.Prelude.Map
use kafka3o_gateway.Prelude.Map.{Map}
use kafka3o_gateway.Errors.{Result, ok}
use kafka3o_gateway.Audit.{Io}
use kafka3o_gateway.Scan.Types.{PartitionSpec}
use kafka3o_gateway.Message.Service.{Service, ◌>=>◌, >=>-ok}
use kafka3o_gateway.Message.Window.{
  From, latest, WindowParams, resolve_from_offset, window_end, window_of, windows_of,
  partitions_in_scope, resolve_windows, maybe_list_start, maybe_list_after_milli, list_to_offsets,
}

windows_of-lookup :
    (f : ℤ → PartitionSpec) (ps : List ℤ) (p : ℤ) (window : PartitionSpec)
    → Map.lookup p (windows_of f ps) ≡ some window
    → (window ≡ f p) × Memᴰ p ps
unfolding windows_of Map.lookup
windows_of-lookup f [] p window h = ground arith
windows_of-lookup f (q ∷ ps) p window h = elim (Bool-cases (q == p)) [
  | inl same ↦
      let e = (eqb_ℤ_iff q p).0 same in
      let found : window ≡ f q = ground (arith, Map.lookup-insert q p (f q) (windows_of f ps)) in
      (found ∙ ap f e, Memᴰ.head (sym e))
  | inr other ↦
      let rest =
        windows_of-lookup f ps p window
          (ground (arith, Map.lookup-insert q p (f q) (windows_of f ps))) in
      (rest.0, Memᴰ.tail rest.1)
]

-- In a window: at most the end snapshot, and for a latest scan at most `limit` offsets, from the
-- first offset on, if what lies before them is an int64.
pub record IsSnapshot (wp : WindowParams) (limit : ℤ) (ends : Map ℤ ℤ) (p : ℤ)
    (window : PartitionSpec) : Type 0 where
  pub scoped : Memᴰ p (partitions_in_scope wp.partitions ends)
  pub before_end : window.end_ ≤ℤ Map.get_or (pos 0) p ends
  pub sized :
      wp.from ≡ latest
      → IsInt64 (Map.get_or (pos 0) p ends -ℤ limit)
      → window.end_ ≤ℤ window.start +ℤ limit

window_end-snapshot :
    (to : Option From) (p : ℤ) (offsets : Map ℤ ℤ) (end_ : ℤ) → window_end to p offsets end_ ≤ℤ end_
unfolding window_end
window_end-snapshot none p offsets end_ = omega arith
window_end-snapshot (some to) p offsets end_ = ground arith

resolve_from_offset-latest :
    (p : ℤ) (begins offsets : Map ℤ ℤ) (end_ limit : ℤ)
    → IsInt64 (end_ -ℤ limit)
    → end_ ≤ℤ resolve_from_offset latest p begins offsets end_ limit +ℤ limit
unfolding resolve_from_offset
resolve_from_offset-latest p begins offsets end_ limit small = rw (wrap-IsInt64 _ small) ground (
  arith,
  -ℤ_parts end_ limit,
  +ℤ_parts (end_ -ℤ limit) limit,
  +ℤ_parts (Map.get_or (pos 0) p begins) limit,
)

window_of-IsSnapshot :
    (wp : WindowParams) (ends begins from_offsets to_offsets : Map ℤ ℤ) (limit p : ℤ)
    → Memᴰ p (partitions_in_scope wp.partitions ends)
    → IsSnapshot wp limit ends p
        (window_of wp.from wp.to ends begins from_offsets to_offsets limit p)
unfolding window_of
window_of-IsSnapshot wp ends begins from_offsets to_offsets limit p scoped =
    let before = window_end-snapshot wp.to p to_offsets (Map.get_or (pos 0) p ends) in
    record {
      scoped = scoped;
      before_end = before;
      sized = λ e small.
          let sized =
            resolve_from_offset-latest p begins from_offsets (Map.get_or (pos 0) p ends) limit
              small in
          rw e (omega (arith, before, sized));
    }

module _ {P W : Type 0} (s : Service P W) (wp : WindowParams) (limit : ℤ) where
  -- resolveWindows from the loop, and from each of its calls, on.
  abbrev Windows : Type 0
  Windows = Io W (Result P (Map ℤ PartitionSpec))

  abbrev from_loop : Map ℤ ℤ → Map ℤ ℤ → Map ℤ ℤ → Map ℤ ℤ → Windows
  from_loop ends begins froms tos w = (
    ok (
        windows_of (window_of wp.from wp.to ends begins froms tos limit)
          (partitions_in_scope wp.partitions ends)),
    w,
  )

  abbrev from_to : Map ℤ ℤ → Map ℤ ℤ → Map ℤ ℤ → Windows
  from_to ends begins froms = list_to_offsets s wp.topic wp.to >=> from_loop ends begins froms

  abbrev from_after_milli : Map ℤ ℤ → Map ℤ ℤ → Windows
  from_after_milli ends begins = maybe_list_after_milli s wp.topic wp.from >=> from_to ends begins

  abbrev from_start : Map ℤ ℤ → Windows
  from_start ends = maybe_list_start s wp.topic wp.from >=> from_after_milli ends

  -- Each window that is resolved belongs to a partition in scope and ends at the latest at the end
  -- offset that was read first. A latest scan's window holds at most `limit` offsets if the end less
  -- the limit is an int64, as it is for every limit from 0 on.
  pub resolve_windows-IsSnapshot :
      (w w' : W) (windows : Map ℤ PartitionSpec)
      → resolve_windows s wp limit w ≡ (ok windows, w')
      → (ends : Map ℤ ℤ) × ((s.list_end_offsets wp.topic w).0 ≡ ok ends)
        × ((p : ℤ) (window : PartitionSpec)
            → Map.lookup p windows ≡ some window
            → IsSnapshot wp limit ends p window)
  unfolding resolve_windows
  resolve_windows-IsSnapshot w w' windows h =
      let (ends, listed, h₁) = >=>-ok (s.list_end_offsets wp.topic) from_start w w' windows h in
      let (begins, _, h₂) =
        >=>-ok (maybe_list_start s wp.topic wp.from) (from_after_milli ends) _ w' windows h₁ in
      let (froms, _, h₃) =
        >=>-ok (maybe_list_after_milli s wp.topic wp.from) (from_to ends begins) _ w' windows h₂ in
      let (tos, _, h₄) =
        >=>-ok (list_to_offsets s wp.topic wp.to) (from_loop ends begins froms) _ w' windows h₃ in
      let f = window_of wp.from wp.to ends begins froms tos limit in
      let same : windows_of f (partitions_in_scope wp.partitions ends) ≡ windows =
        ground (arith, h₄) in
      (
        ends,
        listed,
        λ p window found.
            let (here, scoped) =
              windows_of-lookup f (partitions_in_scope wp.partitions ends) p window
                (ap (Map.lookup p) same ∙ found) in
            subst (IsSnapshot wp limit ends p) (sym here)
              (window_of-IsSnapshot wp ends begins froms tos limit p scoped),
      )
