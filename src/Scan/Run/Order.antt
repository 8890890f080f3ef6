-- ===== src/Scan/Run/Order.antt =====
-- The order and the place of what a scan returns: internal/scan/runner.go, Run.
use kafka3o_gateway.Prelude.{
  ℤ, pos, ◌≤ℤ◌, ◌<ℤ◌, int_eq, All-map, ◌≡◌, refl, false, some, Option-cases, inl, inr, List, [],
  ◌∷◌, All, arith,
}
use mathlib.Core.Path.{subst}
use kafka3o_gateway.Prelude.Map
use kafka3o_gateway.Prelude.Map.{Map}
use kafka3o_gateway.Errors.{ok}
use kafka3o_gateway.Scan.Types.{Record, PartitionSpec, Spec, Stats, Matcher}
use kafka3o_gateway.Scan.Run.{SortSlice}
use kafka3o_gateway.Scan.Codec.{Encodings}
use kafka3o_gateway.Scan.Runner.{LoopEnd, poll_loop}
use kafka3o_gateway.Scan.Runner.Resume.{fresh, at_cursor}
use kafka3o_gateway.Scan.Runner.Window.{
  Increasing, IsInside, poll_loop-Increasing, poll_loop-IsInside,
}
use kafka3o_gateway.Scan.Run.{Consumer, start_offsets, drain, finish_run, RunEnd, run}

-- In the window that the spec gives its partition, from the window's start to before its end.
pub record InWindow (spec : Spec) (r : Record) : Type 0 where
  pub window : PartitionSpec
  pub scoped : Map.lookup r.partition spec.partitions ≡ some window
  pub from_start : window.start ≤ℤ r.offset
  pub before_end : r.offset <ℤ window.end_

pub start_offsets-cursor :
    (ws : Map ℤ PartitionSpec) (p : ℤ) (window : PartitionSpec)
    → Map.lookup p ws ≡ some window
    → at_cursor (start_offsets ws) p ≡ window.start
unfolding Map.lookup start_offsets
start_offsets-cursor [] p window h = cc
start_offsets-cursor ((q, ps) ∷ ws) p window h = ground (
  arith,
  Map.get_or-insert (pos 0) q p ps.start (start_offsets ws),
  start_offsets-cursor ws p window,
)

pub InWindow-IsInside :
    (spec : Spec) (r : Record) → IsInside spec (start_offsets spec.partitions) r → InWindow spec r
InWindow-IsInside spec r h =
    let started = start_offsets-cursor spec.partitions r.partition h.window h.scoped in
    record {
      window = h.window;
      scoped = h.scoped;
      from_start = subst (λ x. x ≤ℤ r.offset) started h.from_start;
      before_end = h.before_end;
    }

-- Increasing offsets in each partition, in the windows.
abbrev pub IsOrdered : Spec → List Record → Type 0
IsOrdered spec items = Increasing items × All (InWindow spec) items

module _ {P : Type 0} (lib : Encodings) (sort : SortSlice) (spec : Spec) (matcher : Matcher)
    (start finish : ℤ) where
  finish_run-emitted :
      (e : LoopEnd P) (stats : Stats) (items : List Record)
      → spec.latest ≡ false
      → finish_run lib sort spec matcher start finish e ≡ ok (stats, items)
      → e.state.emitted ≡ items
  unfolding finish_run drain
  finish_run-emitted e stats items forward h = ground arith

  run-IsOrdered_of :
      (ps : Map ℤ PartitionSpec) (consumer : Consumer P) (r : RunEnd P) (stats : Stats)
      (items : List Record)
      → spec.partitions ≡ ps
      → spec.latest ≡ false
      → run lib sort spec matcher start finish consumer ≡ some r
      → r.outcome ≡ ok (stats, items)
      → IsOrdered spec items
  unfolding run
  run-IsOrdered_of [] consumer r stats items empty forward ran done =
      let none_ : [] ≡ items = ground arith in subst (IsOrdered spec) none_ (tt, tt)
  run-IsOrdered_of (w ∷ ws) consumer r stats items some_ forward ran done =
      let cursor = start_offsets spec.partitions in
      let polls = consumer.polls spec.topic cursor in
      elim (Option-cases (poll_loop lib spec matcher polls (fresh cursor))) [
        | inl polling ↦ ground arith
        | inr (e, ended) ↦
            subst (IsOrdered spec) (finish_run-emitted e stats items forward (ground arith)) (
              poll_loop-Increasing lib spec matcher polls cursor e ended,
              All-map _ _ (InWindow-IsInside spec)
                  (poll_loop-IsInside lib spec matcher polls cursor e ended),
            )
      ]

  -- What a forward scan returns strictly increases in offset within each partition, and lies in the
  -- window that its spec gives the partition: from the window's start on and before its end.
  pub run-IsOrdered :
      (consumer : Consumer P) (r : RunEnd P) (stats : Stats) (items : List Record)
      → spec.latest ≡ false
      → run lib sort spec matcher start finish consumer ≡ some r
      → r.outcome ≡ ok (stats, items)
      → IsOrdered spec items
  run-IsOrdered consumer r stats items =
      run-IsOrdered_of spec.partitions consumer r stats items refl
