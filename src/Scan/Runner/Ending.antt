-- ===== src/Scan/Runner/Ending.antt =====
-- How a scan ends: internal/scan/runner.go.
use mathlib.Core.Path.{subst}
use kafka3o_gateway.Prelude.{
  ◌≡◌, ◌≢◌, ◌∙◌, true, false, none, some, Bool-cases, inl, inr, ◌⊎◌, List, [], ◌∷◌, ◌++◌, arith,
  int_eq,
}
use kafka3o_gateway.Scan.Types.{Spec, Matcher}
use kafka3o_gateway.Scan.Codec.{Encodings}
use kafka3o_gateway.Scan.Runner.{
  ScanState, Poll, LoopEnd, stop, again, context_done, windows_exhausted, poll_once, poll_loop,
}
use kafka3o_gateway.Scan.Runner.Step.{Polled-cases}

-- What the three results of a finished loop mean.
pub record IsEnded {P : Type 0} (spec : Spec) (e : LoopEnd P) : Type 0 where
  pub exhausted : e.reached_end ≡ true → windows_exhausted spec.partitions e.state.cursor ≡ true
  pub clean : e.reached_end ≡ true → (e.stopped_by ≡ none) × (e.error ≡ none)
  pub stopped : e.reached_end ≡ false → (e.stopped_by ≢ none) ⊎ (e.error ≢ none)

module _ (lib : Encodings) (spec : Spec) (matcher : Matcher) {P : Type 0} where
  poll_once-IsEnded :
      (p : Poll P) (st : ScanState) (e : LoopEnd P)
      → poll_once lib spec matcher p st ≡ stop e
      → IsEnded spec e
  unfolding poll_once
  poll_once-IsEnded p st e h = ground arith

  -- A finished loop says that it reached the end only if each cursor has reached its window's end, and
  -- then reports neither a bound nor an error; otherwise it reports one.
  pub poll_loop-IsEnded :
      (ps : List (Poll P)) (st : ScanState) (e : LoopEnd P)
      → poll_loop lib spec matcher ps st ≡ some e
      → IsEnded spec e
  unfolding poll_loop
  poll_loop-IsEnded [] st e h = ground arith
  poll_loop-IsEnded (p ∷ ps) st e h =
      elim (Bool-cases (windows_exhausted spec.partitions st.cursor)) [
        | inl done ↦ ground arith
        | inr open_ ↦ elim (Polled-cases lib spec matcher (poll_once lib spec matcher p st)) [
          | inl (e', stopped) ↦
              let same : e' ≡ e = ground arith in
              subst (IsEnded spec) same (poll_once-IsEnded p st e' stopped)
          | inr (st', going) ↦ poll_loop-IsEnded ps st' e (ground arith)
        ]
      ]

  abbrev ended_at : ScanState → LoopEnd P
  ended_at st = record { state = st; reached_end = true; stopped_by = none; error = none }

  poll_loop-done :
      (ps : List (Poll P)) (st : ScanState)
      → windows_exhausted spec.partitions st.cursor ≡ true
      → poll_loop lib spec matcher ps st ≡ some (ended_at st)
  unfolding poll_loop
  poll_loop-done [] st h = ground arith
  poll_loop-done (p ∷ ps) st h = ground arith

  poll_loop-stop :
      (p : Poll P) (ps : List (Poll P)) (st : ScanState) (e : LoopEnd P)
      → windows_exhausted spec.partitions st.cursor ≡ false
      → poll_once lib spec matcher p st ≡ stop e
      → poll_loop lib spec matcher (p ∷ ps) st ≡ some e
  unfolding poll_loop
  poll_loop-stop p ps st e open_ h = ground arith

  pub poll_loop-again :
      (p : Poll P) (ps : List (Poll P)) (st st' : ScanState)
      → windows_exhausted spec.partitions st.cursor ≡ false
      → poll_once lib spec matcher p st ≡ again st'
      → poll_loop lib spec matcher (p ∷ ps) st ≡ poll_loop lib spec matcher ps st'
  unfolding poll_loop
  poll_loop-again p ps st st' open_ h = ground arith

  -- A poll that ends the loop if the loop gets to it: an error, or no record when the context is done.
  abbrev pub IsFinal : Poll P → Type 0
  IsFinal p = (p.error ≢ none) ⊎ ((p.records ≡ []) × (context_done spec p ≡ true))

  poll_once-IsFinal :
      (p : Poll P) (st : ScanState)
      → IsFinal p
      → (e : LoopEnd P) × (poll_once lib spec matcher p st ≡ stop e)
  unfolding poll_once
  poll_once-IsFinal p st h =
      elim (Polled-cases lib spec matcher (poll_once lib spec matcher p st)) [
        | inl found ↦ found
        | inr (st', going) ↦ ground arith
      ]

  -- The loop ends: once Poll fails, or answers with nothing after the deadline or a cancellation, it
  -- has returned.
  pub poll_loop-ends :
      (before : List (Poll P)) (p : Poll P) (after : List (Poll P)) (st : ScanState)
      → IsFinal p
      → (e : LoopEnd P) × (poll_loop lib spec matcher (before ++ p ∷ after) st ≡ some e)
  unfolding poll_loop
  poll_loop-ends [] p after st h = elim (Bool-cases (windows_exhausted spec.partitions st.cursor)) [
    | inl done ↦ (ended_at st, poll_loop-done (p ∷ after) st done)
    | inr open_ ↦
        let (e, stopped) = poll_once-IsFinal p st h in
        (e, poll_loop-stop p after st e open_ stopped)
  ]
  poll_loop-ends (q ∷ before) p after st h =
      elim (Bool-cases (windows_exhausted spec.partitions st.cursor)) [
        | inl done ↦ (ended_at st, poll_loop-done (q ∷ before ++ p ∷ after) st done)
        | inr open_ ↦ elim (Polled-cases lib spec matcher (poll_once lib spec matcher q st)) [
          | inl (e, stopped) ↦ (e, poll_loop-stop q (before ++ p ∷ after) st e open_ stopped)
          | inr (st', going) ↦
              let (e, later) = poll_loop-ends before p after st' h in
              (e, poll_loop-again q (before ++ p ∷ after) st st' open_ going ∙ later)
        ]
      ]
