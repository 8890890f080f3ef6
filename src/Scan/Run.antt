-- ===== src/Scan/Run.antt =====
-- internal/scan/runner.go, Run: the whole scan around the poll loop.
pub mod Laws
pub mod Latest
pub mod Order
pub mod Place
use kafka3o_gateway.Prelude.{
  ℕ, ℤ, pos, ◌-ℤ◌, div_trunc, pos_part, ltb_ℤ, String, Bool, true, false, ◌&&◌, Option, none, some,
  List, [], ◌∷◌, map, length, take, if◌then◌else◌, int_eq,
}
use kafka3o_gateway.Prelude.Map
use kafka3o_gateway.Prelude.Map.{Map}
use kafka3o_gateway.Errors.{Err, Result, ok, err}
use kafka3o_gateway.Scan.Types.{Record, PartitionSpec, Spec, StoppedBy, Stats, Matcher}
use kafka3o_gateway.Scan.Codec.{Encodings}
use kafka3o_gateway.Scan.Runner.{Accumulator, zero_accumulator, ScanState, Poll, LoopEnd, poll_loop}

-- kafka.Consumer for one scan: Assign's error, and what Poll answers after an assignment.
pub record Consumer (P : Type 0) : Type 0 where
  pub assign : String → List ℤ → Map ℤ ℤ → Option (Err P)
  pub polls : String → Map ℤ ℤ → List (Poll P)

-- `cursor[p] = ps.Start` for each partition, also `startOffsets`
unfoldable pub start_offsets : Map ℤ PartitionSpec → Map ℤ ℤ
start_offsets [] = []
start_offsets ((p, ps) ∷ rest) = Map.insert p ps.start (start_offsets rest)

-- The loop of finalStats.
unfoldable pub continuation_of : Spec → Map ℤ ℤ → Map ℤ PartitionSpec → Map ℤ ℤ
continuation_of spec cursor [] = []
continuation_of spec cursor ((p, ps) ∷ rest) =
    Map.insert p (if spec.latest then ps.start else Map.get_or (pos 0) p cursor)
      (continuation_of spec cursor rest)

-- finalStats
unfoldable pub final_stats : Spec → Map ℤ ℤ → Bool → Option StoppedBy → ℤ → Accumulator → Stats
unfolding continuation_of
final_stats spec cursor reached_end stopped_by elapsed_ms acc = record {
  scanned = acc.scanned;
  matched = acc.matched;
  skipped = acc.skipped;
  bytes = acc.bytes;
  elapsed_ms = elapsed_ms;
  reached_end = if spec.latest then true else reached_end;
  stopped_by = if spec.latest then none else stopped_by;
  continuation = continuation_of spec cursor spec.partitions;
}

-- sort.Slice, given the test that `less` makes of two elements.
abbrev pub SortSlice : Type 0
SortSlice = (Record → Record → Bool) → List Record → List Record

-- The `less` of drain: Timestamp.After.
abbrev pub newer : Record → Record → Bool
newer a b = ltb_ℤ b.timestamp a.timestamp

-- A latest scan keeps the newest `MaxMessages` of its buffer, if that bound is set.
unfoldable pub truncate : ℤ → List Record → List Record
truncate max_messages buffer =
    if ltb_ℤ (pos 0) max_messages && ltb_ℤ max_messages (pos (length buffer))
    then take (pos_part max_messages) buffer
    else buffer

-- emitter's drain
unfoldable pub drain : SortSlice → Spec → ScanState → ScanState
unfolding truncate
drain sort spec st =
    let kept = truncate spec.max_messages (sort newer st.emitted) in
    if spec.latest
    then record st { emitted = kept; acc = record st.acc { matched = length kept } }
    else st

-- What Run returned, and whether it closed the consumer.
pub record RunEnd (P : Type 0) : Type 0 where
  pub outcome : Result P (Stats × List Record)
  pub closed : Bool

module _ {P : Type 0} (lib : Encodings) (sort : SortSlice) (spec : Spec) (matcher : Matcher)
    (start finish : ℤ) where
  -- From the end of the poll loop on; `start` and `finish` are the clock's two readings.
  unfoldable pub finish_run : LoopEnd P → Result P (Stats × List Record)
  finish_run e =
      let st = drain sort spec e.state in
      let elapsed = div_trunc (finish -ℤ start) 1000000 in
      elim e.error [
        | some x ↦ err x
        | none ↦
            ok (final_stats spec st.cursor e.reached_end e.stopped_by elapsed st.acc, st.emitted)
      ]

  -- Run; `none` while the loop is still polling.
  unfoldable pub run : Consumer P → Option (RunEnd P)
  unfolding finish_run start_offsets
  run consumer =
      let cursor = start_offsets spec.partitions in
      let assigned = consumer.assign spec.topic (map (λ x. x.0) spec.partitions) cursor in
      let loop =
        poll_loop lib spec matcher (consumer.polls spec.topic cursor)
          (record { cursor = cursor; acc = zero_accumulator; emitted = [] }) in
      elim spec.partitions [
        | [] ↦ some (record {
          outcome = ok (final_stats spec cursor true none (pos 0) zero_accumulator, []);
          closed = false;
        })
        | _ ∷ _ ↦ elim assigned [
          | some x ↦ some (record { outcome = err x; closed = false })
          | none ↦ elim loop [
            | none ↦ none
            | some e ↦ some (record { outcome = finish_run e; closed = true })
          ]
        ]
      ]
