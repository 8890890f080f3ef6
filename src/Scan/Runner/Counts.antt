-- ===== src/Scan/Runner/Counts.antt =====
-- What a scan counts and how far the bounds let it go: internal/scan/runner.go.
use kafka3o_gateway.Prelude.{
  ◌+◌, ◌≤◌, pos, ◌≤ℤ◌, ◌<ℤ◌, ◌≡◌, false, none, some, Option-cases, Bool-cases, inl, inr, List, [],
  ◌∷◌, length, length-append, arith,
}
use mathlib.Core.Path.{subst}
use kafka3o_gateway.Scan.Types.{KafkaRecord, Spec, Matcher}
use kafka3o_gateway.Scan.Codec.{Encodings, decode}
use kafka3o_gateway.Scan.Runner.{
  Accumulator, ScanState, hit_bound, count_record, in_window, windows_exhausted, evaluate_batch,
  Poll, LoopEnd, poll_once, poll_loop, stop, again,
}
use kafka3o_gateway.Scan.Runner.Step.{
  scan_all_induction, poll_loop-IsProgress, poll_once-stop_state, poll_once-again_state,
  Polled-cases, evaluate_batch-skip, evaluate_batch-bound, evaluate_batch-count,
}

-- The counts agree with each other and with the records that were emitted.
pub record IsCounted (st : ScanState) : Type 0 where
  pub emitted_all : length st.emitted ≡ st.acc.matched
  pub within : st.acc.matched + st.acc.skipped ≤ st.acc.scanned

-- The counts pass no bound that is set.
pub record IsWithin (spec : Spec) (acc : Accumulator) : Type 0 where
  pub messages :
      spec.latest ≡ false → pos 0 <ℤ spec.max_messages → pos acc.matched ≤ℤ spec.max_messages
  pub scanned : pos 0 <ℤ spec.max_scanned → pos acc.scanned ≤ℤ spec.max_scanned

module _ (lib : Encodings) (spec : Spec) (matcher : Matcher) where
  count_record-IsCounted :
      (r : KafkaRecord) (st : ScanState)
      → IsCounted st
      → IsCounted (count_record lib spec matcher r st)
  unfolding count_record
  count_record-IsCounted r st h =
      ground (arith, length-append st.emitted (decode lib r spec.format ∷ []))

  -- One more counted record passes no bound, if none was hit before it.
  count_record-IsWithin :
      (r : KafkaRecord) (st : ScanState)
      → hit_bound st.acc spec ≡ none
      → IsWithin spec st.acc
      → IsWithin spec (count_record lib spec matcher r st).acc
  unfolding count_record hit_bound
  count_record-IsWithin r st free h = ground arith

  -- The state that a batch leaves, and that it hit no bound if it ran to its end.
  abbrev Bounded : List KafkaRecord → ScanState → Type 0
  Bounded rs st =
      IsWithin spec (evaluate_batch lib spec matcher rs st).1.acc
      × ((evaluate_batch lib spec matcher rs st).0 ≡ none
          → hit_bound (evaluate_batch lib spec matcher rs st).1.acc spec ≡ none)

  evaluate_batch-IsWithin :
      (rs : List KafkaRecord) (st : ScanState)
      → hit_bound st.acc spec ≡ none
      → IsWithin spec st.acc
      → Bounded rs st
  unfolding evaluate_batch
  evaluate_batch-IsWithin [] st free h = (h, λ _. free)
  evaluate_batch-IsWithin (r ∷ rs) st free h = elim (Bool-cases (in_window spec r st.cursor)) [
    | inr outside ↦
        rw (evaluate_batch-skip lib spec matcher r rs st outside)
          (evaluate_batch-IsWithin rs st free h)
    | inl inside ↦
        let next = count_record-IsWithin r st free h in
        elim (Option-cases (hit_bound (count_record lib spec matcher r st).acc spec)) [
          | inr (b, hit) ↦
              rw (evaluate_batch-bound lib spec matcher r rs st b inside hit) (next, λ e. cc)
          | inl more ↦
              rw (evaluate_batch-count lib spec matcher r rs st inside more)
                (evaluate_batch-IsWithin rs (count_record lib spec matcher r st) more next)
        ]
  ]

  abbrev Free : ScanState → Type 0
  Free st = (hit_bound st.acc spec ≡ none) × IsWithin spec st.acc

  module _ {P : Type 0} where
    poll_once-IsWithin :
        (p : Poll P) (st : ScanState) (e : LoopEnd P)
        → Free st
        → poll_once lib spec matcher p st ≡ stop e
        → IsWithin spec e.state.acc
    poll_once-IsWithin p st e h q = elim (poll_once-stop_state lib spec matcher p st e q) [
      | inl same ↦ rw same h.1
      | inr batch ↦ rw batch (evaluate_batch-IsWithin p.records st h.0 h.1).0
    ]

    poll_once-Free :
        (p : Poll P) (st st' : ScanState)
        → Free st
        → poll_once lib spec matcher p st ≡ again st'
        → Free st'
    poll_once-Free p st st' h q =
        let (ran, same) = poll_once-again_state lib spec matcher p st st' q in
        let batch = evaluate_batch-IsWithin p.records st h.0 h.1 in rw same (batch.1 ran, batch.0)

    -- However a loop ends that starts within its bounds and has hit none, it has passed no positive
    -- bound: not `maxMessages` by the matches of a scan that is not a latest one, nor `maxScanned` by
    -- the records evaluated.
    pub poll_loop-IsWithin :
        (ps : List (Poll P)) (st : ScanState) (e : LoopEnd P)
        → hit_bound st.acc spec ≡ none
        → IsWithin spec st.acc
        → poll_loop lib spec matcher ps st ≡ some e
        → IsWithin spec e.state.acc
    unfolding poll_loop
    poll_loop-IsWithin [] st e free h q = ground arith
    poll_loop-IsWithin (p ∷ ps) st e free h q =
        elim (Bool-cases (windows_exhausted spec.partitions st.cursor)) [
          | inl done ↦ ground arith
          | inr open_ ↦ elim (Polled-cases lib spec matcher (poll_once lib spec matcher p st)) [
            | inl (e', stopped) ↦
                let same : e'.state ≡ e.state = ground arith in
                subst (λ (x : ScanState). IsWithin spec x.acc) same
                  (poll_once-IsWithin p st e' (free, h) stopped)
            | inr (st', going) ↦
                let next = poll_once-Free p st st' (free, h) going in
                poll_loop-IsWithin ps st' e next.0 next.1 (ground arith)
          ]
        ]

    -- The counts of a finished scan agree: every match was emitted, and the matches and the skipped
    -- records are among the scanned ones.
    pub poll_loop-IsCounted :
        (ps : List (Poll P)) (st : ScanState) (e : LoopEnd P)
        → IsCounted st
        → poll_loop lib spec matcher ps st ≡ some e
        → IsCounted e.state
    poll_loop-IsCounted ps st e h q =
        let done = poll_loop-IsProgress lib spec matcher ps st e q in
        rw (done.scanned) (
          scan_all_induction lib spec matcher IsCounted (λ r s _ c. count_record-IsCounted r s c)
            done.processed st h)
