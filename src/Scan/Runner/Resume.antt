-- ===== src/Scan/Runner/Resume.antt =====
-- The continuation leaves no gap and makes no overlap: internal/scan/runner.go.
use kafka3o_gateway.Prelude.{
  ℤ, pos, ◌+ℤ◌, ◌≤ℤ◌, ◌≡◌, refl, sym, ap, ◌∙◌, true, false, none, some, Bool-cases, inl, inr, List,
  [], ◌∷◌, ◌++◌, All, arith, if◌then◌else◌, int_eq, eqb_ℤ_iff, ◌==◌, +ℤ_parts,
}
use mathlib.Core.List.{append_assoc, append-nil}
use kafka3o_gateway.Prelude.Map
use kafka3o_gateway.Prelude.Map.{Map, get_or-insert}
use kafka3o_gateway.Scan.Types.{KafkaRecord, Spec, Matcher}
use kafka3o_gateway.Scan.Codec.{Encodings}
use kafka3o_gateway.Scan.Runner.{
  Accumulator, hit_bound, ScanState, zero_accumulator, count_record, in_window, evaluate_batch,
  Poll, LoopEnd, poll_loop,
}
use kafka3o_gateway.Scan.Runner.Step.{
  advance, scan_all, scan_all-append, delivered, poll_loop-IsProgress,
}

-- Where a scan stands in a partition.
abbrev pub at_cursor : Map ℤ ℤ → ℤ → ℤ
at_cursor cursor p = Map.get_or (pos 0) p cursor

-- A record that the scan will not count again: it has been read, or it is outside every window.
abbrev pub IsStale : Spec → Map ℤ ℤ → KafkaRecord → Type 0
IsStale spec cursor r = in_window spec r cursor ≡ false

-- No cursor of the first lies beyond the second's.
abbrev pub IsBehind : Map ℤ ℤ → Map ℤ ℤ → Type 0
IsBehind c c' = (p : ℤ) → at_cursor c p ≤ℤ at_cursor c' p

IsStale-behind :
    (spec : Spec) (r : KafkaRecord) (c c' : Map ℤ ℤ)
    → IsBehind c c'
    → IsStale spec c r
    → IsStale spec c' r
unfolding in_window
IsStale-behind spec r c c' behind h = ground (arith, behind r.partition)

-- A scan that begins at the cursors `c`.
abbrev pub fresh : Map ℤ ℤ → ScanState
fresh c = record { cursor = c; acc = zero_accumulator; emitted = [] }

module _ (lib : Encodings) (spec : Spec) (matcher : Matcher) where
  count_record-cursor :
      (r : KafkaRecord) (st : ScanState)
      → (count_record lib spec matcher r st).cursor
        ≡ Map.insert r.partition (r.offset +ℤ pos 1) st.cursor
  unfolding count_record
  count_record-cursor r st = ground arith

  pub at_cursor-count_record :
      (r : KafkaRecord) (st : ScanState) (p : ℤ)
      → at_cursor (count_record lib spec matcher r st).cursor p
        ≡ (if r.partition == p then r.offset +ℤ pos 1 else at_cursor st.cursor p)
  at_cursor-count_record r st p =
      ap (λ c. at_cursor c p) (count_record-cursor r st)
      ∙ get_or-insert (pos 0) r.partition p (r.offset +ℤ pos 1) st.cursor

  pub count_record-IsBehind :
      (r : KafkaRecord) (st : ScanState)
      → in_window spec r st.cursor ≡ true
      → IsBehind st.cursor (count_record lib spec matcher r st).cursor
  unfolding in_window
  count_record-IsBehind r st inside p =
      rw (at_cursor-count_record r st p)
        (ground (arith, +ℤ_parts r.offset (pos 1), eqb_ℤ_iff r.partition p))

  count_record-IsStale :
      (r : KafkaRecord) (st : ScanState)
      → IsStale spec (count_record lib spec matcher r st).cursor r
  unfolding in_window
  count_record-IsStale r st = ground (
    arith,
    at_cursor-count_record r st r.partition,
    +ℤ_parts r.offset (pos 1),
    eqb_ℤ_iff r.partition r.partition,
  )

  advance-IsBehind :
      (r : KafkaRecord) (st : ScanState) → IsBehind st.cursor (advance lib spec matcher r st).cursor
  unfolding advance
  advance-IsBehind r st = elim (Bool-cases (in_window spec r st.cursor)) [
    | inl inside ↦ rw (inside, advance) (count_record-IsBehind r st inside)
    | inr outside ↦ rw (outside, advance) (λ p. omega arith)
  ]

  advance-IsStale :
      (r : KafkaRecord) (st : ScanState) → IsStale spec (advance lib spec matcher r st).cursor r
  unfolding advance
  advance-IsStale r st = elim (Bool-cases (in_window spec r st.cursor)) [
    | inl inside ↦ rw (inside, advance) (count_record-IsStale r st)
    | inr outside ↦ rw (outside, advance) outside
  ]

  -- Cursors never move back.
  pub scan_all-IsBehind :
      (rs : List KafkaRecord) (st : ScanState)
      → IsBehind st.cursor (scan_all lib spec matcher rs st).cursor
  unfolding scan_all
  scan_all-IsBehind [] st p = omega arith
  scan_all-IsBehind (r ∷ rs) st p =
      omega (arith, advance-IsBehind r st p, scan_all-IsBehind rs (advance lib spec matcher r st) p)

  -- What has been scanned will not be counted again.
  scan_all-IsStale :
      (rs : List KafkaRecord) (st : ScanState)
      → All (IsStale spec (scan_all lib spec matcher rs st).cursor) rs
  unfolding scan_all
  scan_all-IsStale [] st = tt
  scan_all-IsStale (r ∷ rs) st =
      let next = advance lib spec matcher r st in
      (
        IsStale-behind spec r next.cursor _ (scan_all-IsBehind rs next) (advance-IsStale r st),
        scan_all-IsStale rs next,
      )

  scan_all-skip :
      (rs : List KafkaRecord) (st : ScanState)
      → All (IsStale spec st.cursor) rs
      → scan_all lib spec matcher rs st ≡ st
  unfolding scan_all
  scan_all-skip [] st h = refl
  scan_all-skip (r ∷ rs) st h = rw (scan_all, h.0) (scan_all-skip rs st h.1)

  advance-fresh :
      (r : KafkaRecord) (st : ScanState)
      → ((advance lib spec matcher r st).cursor
          ≡ (advance lib spec matcher r (fresh st.cursor)).cursor)
        × ((advance lib spec matcher r st).emitted
            ≡ st.emitted ++ (advance lib spec matcher r (fresh st.cursor)).emitted)
  unfolding advance count_record
  advance-fresh r st = ground (arith, append-nil st.emitted)

  -- What a scan emits depends on its cursors alone.
  scan_all-fresh :
      (rs : List KafkaRecord) (st : ScanState)
      → (scan_all lib spec matcher rs st).emitted
        ≡ st.emitted ++ (scan_all lib spec matcher rs (fresh st.cursor)).emitted
  unfolding scan_all
  scan_all-fresh [] st = sym (append-nil st.emitted)
  scan_all-fresh (r ∷ rs) st =
      let next = advance lib spec matcher r st in
      let base = advance lib spec matcher r (fresh st.cursor) in
      let same = advance-fresh r st in
      scan_all-fresh rs next
      ∙ ap (λ l. l ++ (scan_all lib spec matcher rs (fresh next.cursor)).emitted) same.1
      ∙ append_assoc st.emitted base.emitted _
      ∙ ap (λ c. st.emitted ++ (base.emitted ++ (scan_all lib spec matcher rs (fresh c)).emitted))
          same.0
      ∙ ap (λ l. st.emitted ++ l) (sym (scan_all-fresh rs base))

  -- A scan of a first part, then a scan of the whole from where it stopped.
  scan_all-resume :
      (done rest : List KafkaRecord) (c : Map ℤ ℤ)
      → let st = scan_all lib spec matcher done (fresh c) in
        (scan_all lib spec matcher (done ++ rest) (fresh c)).emitted
        ≡ st.emitted ++ (scan_all lib spec matcher (done ++ rest) (fresh st.cursor)).emitted
  scan_all-resume done rest c =
      let st = scan_all lib spec matcher done (fresh c) in
      ap (λ s. s.emitted) (scan_all-append lib spec matcher done rest (fresh c))
      ∙ scan_all-fresh rest st
      ∙ ap (λ s. st.emitted ++ (scan_all lib spec matcher rest s).emitted)
          (sym (scan_all-skip done (fresh st.cursor) (scan_all-IsStale done (fresh c))))
      ∙ ap (λ s. st.emitted ++ s.emitted)
          (sym (scan_all-append lib spec matcher done rest (fresh st.cursor)))

-- The same scan with no bounds.
abbrev pub unbounded : Spec → Spec
unbounded spec = record spec { max_messages = pos 0; max_scanned = pos 0; max_bytes = pos 0 }

hit_bound-unbounded : (acc : Accumulator) (spec : Spec) → hit_bound acc (unbounded spec) ≡ none
unfolding hit_bound
hit_bound-unbounded acc spec = ground arith

module _ (lib : Encodings) (spec : Spec) (matcher : Matcher) where
  in_window-unbounded :
      (r : KafkaRecord) (c : Map ℤ ℤ) → in_window (unbounded spec) r c ≡ in_window spec r c
  unfolding in_window
  in_window-unbounded r c = refl

  count_record-unbounded :
      (r : KafkaRecord) (st : ScanState)
      → count_record lib (unbounded spec) matcher r st ≡ count_record lib spec matcher r st
  unfolding count_record
  count_record-unbounded r st = refl

  pub evaluate_batch-unbounded :
      (rs : List KafkaRecord) (st : ScanState)
      → evaluate_batch lib (unbounded spec) matcher rs st ≡ (none, scan_all lib spec matcher rs st)
  unfolding evaluate_batch scan_all
  evaluate_batch-unbounded [] st = refl
  evaluate_batch-unbounded (r ∷ rs) st = ground (
    arith,
    in_window-unbounded r st.cursor,
    count_record-unbounded r st,
    hit_bound-unbounded (count_record lib spec matcher r st).acc spec,
    evaluate_batch-unbounded rs st,
    evaluate_batch-unbounded rs (count_record lib spec matcher r st),
  )

  module _ {P : Type 0} where
    -- Resuming a bounded scan from its final cursors: whatever stopped it, a scan without bounds of the
    -- same records from there (the records already seen included, and any that follow) emits exactly
    -- the records that an uninterrupted scan would have emitted after those already emitted.
    pub poll_loop-resume :
        (ps : List (Poll P)) (more : List KafkaRecord) (c : Map ℤ ℤ) (e : LoopEnd P)
        → poll_loop lib spec matcher ps (fresh c) ≡ some e
        → let all = delivered ps ++ more in
          (evaluate_batch lib (unbounded spec) matcher all (fresh c)).1.emitted
          ≡ e.state.emitted
            ++ (evaluate_batch lib (unbounded spec) matcher all (fresh e.state.cursor)).1.emitted
    poll_loop-resume ps more c e h =
        let done = poll_loop-IsProgress lib spec matcher ps (fresh c) e h in
        let whole = ap (λ l. l ++ more) done.split ∙ append_assoc done.processed done.rest more in
        simp (evaluate_batch-unbounded, whole, done.scanned)
          (scan_all-resume lib spec matcher done.processed (done.rest ++ more) c)
