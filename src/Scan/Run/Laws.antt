-- ===== src/Scan/Run/Laws.antt =====
-- What a finished scan reports: internal/scan/runner.go.
use kafka3o_gateway.Prelude.{
  ℤ, pos, pos_part, ◌≤ℤ◌, ◌<ℤ◌, ◌≡◌, ◌≢◌, ◌↔◌, map, refl, true, none, some, Option-cases, inl, inr,
  List, [], ◌∷◌, arith, length, length-take, int_eq, eqb_ℤ_iff, if◌then◌else◌,
}
use kafka3o_gateway.Prelude.Map
use kafka3o_gateway.Prelude.Map.{Map, get_or-insert}
use kafka3o_gateway.Errors.{ok}
use kafka3o_gateway.Scan.Types.{Record, PartitionSpec, Spec, Stats, Matcher}
use kafka3o_gateway.Scan.Run.{SortSlice, newer}
use kafka3o_gateway.Scan.Codec.{Encodings}
use kafka3o_gateway.Scan.Runner.{zero_accumulator, LoopEnd, poll_loop}
use kafka3o_gateway.Scan.Runner.Step.{hit_bound-zero}
use kafka3o_gateway.Scan.Runner.Counts.{
  IsCounted, IsWithin, poll_loop-IsWithin, poll_loop-IsCounted,
}
use kafka3o_gateway.Scan.Runner.Resume.{fresh}
use kafka3o_gateway.Scan.Run.{
  Consumer, start_offsets, continuation_of, truncate, drain, final_stats, finish_run, RunEnd, run,
}

length-truncate : (m : ℤ) (rs : List Record) → pos 0 <ℤ m → pos (length (truncate m rs)) ≤ℤ m
unfolding truncate
length-truncate m rs h = ground (arith, length-take (pos_part m) rs)

-- What the caller may rely on: as many matches as records, no more than the limit, and no more
-- scanned than the scan limit.
pub record IsReport (spec : Spec) (stats : Stats) (items : List Record) : Type 0 where
  pub matched : length items ≡ stats.matched
  pub limited : pos 0 <ℤ spec.max_messages → pos (length items) ≤ℤ spec.max_messages
  pub scanned : pos 0 <ℤ spec.max_scanned → pos stats.scanned ≤ℤ spec.max_scanned

fresh-IsWithin : (spec : Spec) → IsWithin spec zero_accumulator
fresh-IsWithin spec = ground arith

module _ {P : Type 0} (lib : Encodings) (sort : SortSlice) (spec : Spec) (matcher : Matcher)
    (start finish : ℤ) where
  finish_run-IsReport :
      (e : LoopEnd P) (stats : Stats) (items : List Record)
      → IsCounted e.state
      → IsWithin spec e.state.acc
      → finish_run lib sort spec matcher start finish e ≡ ok (stats, items)
      → IsReport spec stats items
  unfolding finish_run drain final_stats
  finish_run-IsReport e stats items c w h =
      ground (arith, length-truncate spec.max_messages (sort newer e.state.emitted))

  run-IsReport_of :
      (ps : Map ℤ PartitionSpec) (consumer : Consumer P) (r : RunEnd P) (stats : Stats)
      (items : List Record)
      → spec.partitions ≡ ps
      → run lib sort spec matcher start finish consumer ≡ some r
      → r.outcome ≡ ok (stats, items)
      → IsReport spec stats items
  unfolding run final_stats
  run-IsReport_of [] consumer r stats items empty ran done = ground arith
  run-IsReport_of (w ∷ ws) consumer r stats items some_ ran done =
      let cursor = start_offsets spec.partitions in
      elim (Option-cases
        (poll_loop lib spec matcher (consumer.polls spec.topic cursor) (fresh cursor))) [
          | inl polling ↦ ground arith
          | inr (e, ended) ↦
              finish_run-IsReport e stats items
                (poll_loop-IsCounted lib spec matcher (consumer.polls spec.topic cursor)
                  (fresh cursor) e (omega arith) ended)
                (poll_loop-IsWithin lib spec matcher (consumer.polls spec.topic cursor)
                  (fresh cursor) e (hit_bound-zero spec) (fresh-IsWithin spec) ended)
                (ground arith)
        ]

  -- A scan that returns reports as many matches as it emitted records; a positive `MaxMessages` bounds
  -- them, for a latest scan too, and a positive `MaxScanned` bounds the records evaluated.
  pub run-IsReport :
      (consumer : Consumer P) (r : RunEnd P) (stats : Stats) (items : List Record)
      → run lib sort spec matcher start finish consumer ≡ some r
      → r.outcome ≡ ok (stats, items)
      → IsReport spec stats items
  run-IsReport consumer r stats items = run-IsReport_of spec.partitions consumer r stats items refl

  run-closed_of :
      (ps : Map ℤ PartitionSpec) (consumer : Consumer P) (r : RunEnd P)
      → spec.partitions ≡ ps
      → run lib sort spec matcher start finish consumer ≡ some r
      → (r.closed ≡ true) ↔ (
          (spec.partitions ≢ [])
          × (consumer.assign spec.topic
                (map (λ x. x.0) spec.partitions)
                (start_offsets spec.partitions)
              ≡ none))
  unfolding run
  run-closed_of [] consumer r empty ran = (λ c. ground arith, λ h. absurd (h.0 empty))
  run-closed_of (w ∷ ws) consumer r some_ ran =
      (λ c. ((λ e. ground arith), ground arith), λ h. ground (arith, h.1))

  -- Run closes the consumer exactly when it had partitions to scan and could assign them: a scan of no
  -- partitions, or one whose Assign fails, returns with the consumer open.
  pub run-closed :
      (consumer : Consumer P) (r : RunEnd P)
      → run lib sort spec matcher start finish consumer ≡ some r
      → (r.closed ≡ true) ↔ (
          (spec.partitions ≢ [])
          × (consumer.assign spec.topic
                (map (λ x. x.0) spec.partitions)
                (start_offsets spec.partitions)
              ≡ none))
  run-closed consumer r = run-closed_of spec.partitions consumer r refl

-- Each partition in scope has a start and a continuation.
pub start_offsets-lookup :
    (ws : Map ℤ PartitionSpec) (p : ℤ) (window : PartitionSpec)
    → Map.lookup p ws ≡ some window
    → Map.lookup p (start_offsets ws) ≡ some window.start
unfolding Map.lookup start_offsets
start_offsets-lookup [] p window h = cc
start_offsets-lookup ((q, ps) ∷ ws) p window h =
    ground
      (arith, Map.lookup-insert q p ps.start (start_offsets ws), start_offsets-lookup ws p window)

continuation_of-lookup :
    (spec : Spec) (cursor : Map ℤ ℤ) (ws : Map ℤ PartitionSpec) (p : ℤ) (window : PartitionSpec)
    → Map.lookup p ws ≡ some window
    → Map.lookup p (continuation_of spec cursor ws)
      ≡ some (if spec.latest then window.start else Map.get_or (pos 0) p cursor)
unfolding Map.lookup continuation_of
continuation_of-lookup spec cursor [] p window h = cc
continuation_of-lookup spec cursor ((q, ps) ∷ ws) p window h = ground (
  arith,
  eqb_ℤ_iff q p,
  Map.lookup-insert q p (if spec.latest then ps.start else Map.get_or (pos 0) q cursor)
      (continuation_of spec cursor ws),
  continuation_of-lookup spec cursor ws p window,
)
