-- ===== src/Scan/Runner.antt =====
-- internal/scan/runner.go: one bounded scan. What the consumer delivers is the sequence of its Poll
-- answers; the poll loop recurs on it, and `none` says that the loop is still polling when it ends.
pub mod Step
pub mod Counts
pub mod Window
pub mod Resume
pub mod Ending
pub mod Holes
use kafka3o_gateway.Prelude.{
  ℕ, suc, ◌+◌, ℤ, pos, ◌+ℤ◌, pos_part, ltb_ℤ, leb_ℤ, String, Bool, true, false, not, ◌&&◌, ◌||◌,
  Option, none, some, List, [], ◌∷◌, ◌++◌, map, length, take, if◌then◌else◌, int_eq, eqb_ℤ, ltb,
}
use kafka3o_gateway.Prelude.Map
use kafka3o_gateway.Prelude.Map.{Map}
use kafka3o_gateway.Errors.{Err, Result, ok, err}
use kafka3o_gateway.Scan.Types.{
  KafkaRecord, Record, PartitionSpec, Spec, StoppedBy, max_messages, max_bytes, max_time, Stats,
  Matcher, contents,
}
use kafka3o_gateway.Scan.Codec.{Encodings, decode}

pub record Accumulator : Type 0 where
  pub scanned : ℕ
  pub matched : ℕ
  pub skipped : ℕ
  pub bytes : ℕ

abbrev pub zero_accumulator : Accumulator
zero_accumulator = record { scanned = 0; matched = 0; skipped = 0; bytes = 0 }

-- What the poll loop changes: the cursors, the counts, and the records that `emit` collected. Every
-- caller's `emit` appends to a slice, as the buffer of a latest scan does.
pub record ScanState : Type 0 where
  pub cursor : Map ℤ ℤ
  pub acc : Accumulator
  pub emitted : List Record

-- hitBound
unfoldable pub hit_bound : Accumulator → Spec → Option StoppedBy
hit_bound acc spec =
    if not spec.latest
      && (ltb_ℤ (pos 0) spec.max_messages && leb_ℤ spec.max_messages (pos acc.matched))
    then some max_messages
    else if ltb_ℤ (pos 0) spec.max_scanned && leb_ℤ spec.max_scanned (pos acc.scanned)
    then some max_messages
    else if ltb_ℤ (pos 0) spec.max_bytes && leb_ℤ spec.max_bytes (pos acc.bytes)
    then some max_bytes
    else none

-- windowsExhausted
unfoldable pub windows_exhausted : Map ℤ PartitionSpec → Map ℤ ℤ → Bool
windows_exhausted [] cursor = true
windows_exhausted ((p, ps) ∷ rest) cursor =
    if ltb_ℤ (Map.get_or (pos 0) p cursor) ps.end_ then false else windows_exhausted rest cursor

pub record Evaluated : Type 0 where
  pub counted : Bool
  pub bound : Option StoppedBy
  pub state : ScanState

-- One answer of Poll: the records or the error, and whether the request's context had been
-- cancelled and the deadline of `maxTime` had passed when the loop looked at the context after it.
pub record Poll (P : Type 0) : Type 0 where
  pub records : List KafkaRecord
  pub error : Option (Err P)
  pub cancelled : Bool
  pub expired : Bool

-- pollCtx.Err() != nil; the deadline exists only if `maxTime` is positive.
abbrev pub context_done : {P : Type 0} → Spec → Poll P → Bool
context_done spec p = p.cancelled || (ltb_ℤ (pos 0) spec.max_time && p.expired)

pub record LoopEnd (P : Type 0) : Type 0 where
  pub state : ScanState
  pub reached_end : Bool
  pub stopped_by : Option StoppedBy
  pub error : Option (Err P)

pub data Polled (P : Type 0) : Type 0 where
  stop : LoopEnd P → Polled P
  again : ScanState → Polled P

-- Is the record in its partition's window and not yet read?
unfoldable pub in_window : Spec → KafkaRecord → Map ℤ ℤ → Bool
in_window spec r cursor = elim (Map.lookup r.partition spec.partitions) [
  | none ↦ false
  | some window ↦
      not (ltb_ℤ r.offset (Map.get_or (pos 0) r.partition cursor) || leb_ℤ window.end_ r.offset)
]

module _ (lib : Encodings) (spec : Spec) (matcher : Matcher) where
  -- The counted part of `evaluate`.
  unfoldable pub count_record : KafkaRecord → ScanState → ScanState
  count_record r st =
      let decoded = decode lib r spec.format in
      let result = matcher decoded in
      let acc = record st.acc {
        scanned = suc st.acc.scanned;
        bytes = st.acc.bytes + (length (contents r.key) + length (contents r.value));
      } in
      let cursor = Map.insert r.partition (r.offset +ℤ pos 1) st.cursor in
      if result.skipped
      then record {
        cursor = cursor;
        acc = record acc { skipped = suc acc.skipped };
        emitted = st.emitted;
      }
      else if result.matches
      then record {
        cursor = cursor;
        acc = record acc { matched = suc acc.matched };
        emitted = st.emitted ++ decoded ∷ [];
      }
      else record { cursor = cursor; acc = acc; emitted = st.emitted }

  -- evaluate
  unfoldable pub evaluate : KafkaRecord → ScanState → Evaluated
  evaluate r st =
      if in_window spec r st.cursor
      then (let st' = count_record r st in
          record { counted = true; bound = hit_bound st'.acc spec; state = st' })
      else record { counted = false; bound = none; state = st }

  -- The loop over one poll's records: the bound that stopped it, if any.
  unfoldable pub evaluate_batch : List KafkaRecord → ScanState → Option StoppedBy × ScanState
  unfolding evaluate
  evaluate_batch [] st = (none, st)
  evaluate_batch (r ∷ rs) st =
      let e = evaluate r st in
      let rest = evaluate_batch rs e.state in
      if e.counted then elim e.bound [ some b ↦ (some b, e.state) | none ↦ rest ] else rest

  module _ {P : Type 0} where
    -- The body of pollLoop after the check of the windows.
    unfoldable pub poll_once : Poll P → ScanState → Polled P
    poll_once p st = elim p.error [
      | some e ↦
          (if context_done spec p
            then stop (record {
              state = st;
              reached_end = false;
              stopped_by = some max_time;
              error = none;
            })
            else stop
                (record { state = st; reached_end = false; stopped_by = none; error = some e }))
      | none ↦
          let (bound, st') = evaluate_batch p.records st in
          elim bound [
            | some b ↦
                stop
                  (record { state = st'; reached_end = false; stopped_by = some b; error = none })
            | none ↦ elim p.records [
              | [] ↦
                  (if context_done spec p
                    then stop (record {
                      state = st';
                      reached_end = false;
                      stopped_by = some max_time;
                      error = none;
                    })
                    else again st')
              | _ ∷ _ ↦ again st'
            ]
          ]
    ]

    -- pollLoop
    unfoldable pub poll_loop : List (Poll P) → ScanState → Option (LoopEnd P)
    unfolding poll_once
    poll_loop [] st =
        if windows_exhausted spec.partitions st.cursor
        then some (record { state = st; reached_end = true; stopped_by = none; error = none })
        else none
    poll_loop (p ∷ ps) st =
        let next : Option (LoopEnd P) = elim (poll_once p st) [
          | stop e ↦ some e
          | again st' ↦ poll_loop ps st'
        ] in
        if windows_exhausted spec.partitions st.cursor
        then some (record { state = st; reached_end = true; stopped_by = none; error = none })
        else next
