-- ===== src/Scan/Runner/Holes.antt =====
-- Which scans never reach the end of a window: internal/scan/runner.go.
use mathlib.Core.Path.{subst}
use mathlib.Core.List.{Memᴰ}
use kafka3o_gateway.Prelude.{
  ℤ, pos, ◌+ℤ◌, ◌≤ℤ◌, ◌<ℤ◌, ◌≡◌, refl, sym, ◌∙◌, true, false, none, some, Option-cases, Bool-cases,
  inl, inr, ◌⊎◌, List, [], ◌∷◌, ◌++◌, All, arith, int_eq, eqb_ℤ_iff, ◌==◌, +ℤ_parts, eq_of_parts,
}
use kafka3o_gateway.Prelude.Map
use kafka3o_gateway.Prelude.Map.{Map}
use kafka3o_gateway.Scan.Types.{KafkaRecord, PartitionSpec, Spec, Matcher}
use kafka3o_gateway.Scan.Codec.{Encodings}
use kafka3o_gateway.Scan.Runner.{
  ScanState, in_window, Poll, LoopEnd, again, context_done, windows_exhausted, poll_once, poll_loop,
}
use kafka3o_gateway.Scan.Runner.Step.{advance, scan_all, delivered, poll_loop-IsProgress}
use kafka3o_gateway.Scan.Runner.Ending.{poll_loop-IsEnded, poll_loop-again}
use kafka3o_gateway.Scan.Runner.Resume.{
  at_cursor, fresh, at_cursor-count_record, unbounded, evaluate_batch-unbounded,
}

-- Exhausted windows: each cursor has reached its partition's end.
exhausted-end :
    (ws : Map ℤ PartitionSpec) (cursor : Map ℤ ℤ) (p : ℤ) (window : PartitionSpec)
    → windows_exhausted ws cursor ≡ true
    → Map.lookup p ws ≡ some window
    → window.end_ ≤ℤ at_cursor cursor p
unfolding windows_exhausted Map.lookup
exhausted-end [] cursor p window h found = cc
exhausted-end ((q, ps) ∷ ws) cursor p window h found = elim (Bool-cases (q == p)) [
  | inl same ↦
      let e : ps ≡ window = ground arith in
      let k : q ≡ p = (eqb_ℤ_iff q p).0 same in
      let behind : ps.end_ ≤ℤ at_cursor cursor q = ground arith in
      subst (λ x. x.end_ ≤ℤ at_cursor cursor p) e
        (subst (λ x. ps.end_ ≤ℤ at_cursor cursor x) k behind)
  | inr other ↦ exhausted-end ws cursor p window (ground arith) (ground arith)
]

-- A delivered record that takes its partition's cursor to `o`, from before `end_`.
pub record Reaches (rs : List KafkaRecord) (p o end_ : ℤ) : Type 0 where
  pub last : KafkaRecord
  pub member : Memᴰ last rs
  pub here : last.partition ≡ p
  pub next : last.offset +ℤ pos 1 ≡ o
  pub before_end : last.offset <ℤ end_

Reaches-tail :
    (r : KafkaRecord) (rs : List KafkaRecord) (p o end_ : ℤ)
    → Reaches rs p o end_
    → Reaches (r ∷ rs) p o end_
Reaches-tail r rs p o end_ h = record {
  last = h.last;
  member = Memᴰ.tail h.member;
  here = h.here;
  next = h.next;
  before_end = h.before_end;
}

Memᴰ-append : {r : KafkaRecord} (xs ys : List KafkaRecord) → Memᴰ r xs → Memᴰ r (xs ++ ys)
Memᴰ-append [] ys m = elim m [ ]
Memᴰ-append (x ∷ xs) ys (Memᴰ.head e) = Memᴰ.head e
Memᴰ-append (x ∷ xs) ys (Memᴰ.tail m) = Memᴰ.tail (Memᴰ-append xs ys m)

module _ (lib : Encodings) (spec : Spec) (matcher : Matcher) (p : ℤ) (window : PartitionSpec)
    (scoped : Map.lookup p spec.partitions ≡ some window) where
  advance-cursor :
      (r : KafkaRecord) (st : ScanState)
      → (at_cursor (advance lib spec matcher r st).cursor p ≡ at_cursor st.cursor p)
        ⊎ ((r.partition ≡ p)
            × (r.offset +ℤ pos 1 ≡ at_cursor (advance lib spec matcher r st).cursor p)
            × (r.offset <ℤ window.end_))
  unfolding advance in_window
  advance-cursor r st = elim (Bool-cases (in_window spec r st.cursor)) [
    | inr outside ↦ inl (rw (outside, advance) refl)
    | inl inside ↦ elim (Bool-cases (r.partition == p)) [
      | inr other ↦
          inl
            (rw (inside, advance) (at_cursor-count_record lib spec matcher r st p ∙ rw other refl))
      | inl same ↦
          let k = (eqb_ℤ_iff r.partition p).0 same in
          let found : Map.lookup r.partition spec.partitions ≡ some window = rw k scoped in
          inr (
            k,
            rw (inside, advance)
                (sym (at_cursor-count_record lib spec matcher r st p ∙ rw same refl)),
            ground arith,
          )
    ]
  ]

  scan_all-cursor :
      (rs : List KafkaRecord) (st : ScanState)
      → (at_cursor (scan_all lib spec matcher rs st).cursor p ≡ at_cursor st.cursor p)
        ⊎ Reaches rs p (at_cursor (scan_all lib spec matcher rs st).cursor p) window.end_
  unfolding scan_all
  scan_all-cursor [] st = inl refl
  scan_all-cursor (r ∷ rs) st = elim (scan_all-cursor rs (advance lib spec matcher r st)) [
    | inr later ↦ inr (Reaches-tail r rs p _ window.end_ later)
    | inl kept ↦ elim (advance-cursor r st) [
      | inl still ↦ inl (kept ∙ still)
      | inr (here, next, before_end) ↦ inr (record {
        last = r;
        member = Memᴰ.head refl;
        here = here;
        next = next ∙ sym kept;
        before_end = before_end;
      })
    ]
  ]

  -- A scan reports the end of a window that was not empty only if it was given the record just before
  -- the end: an offset before the end that no record has (a transaction marker, a compacted record)
  -- keeps it polling.
  pub reached_end-Reaches :
      {P : Type 0} (ps : List (Poll P)) (c : Map ℤ ℤ) (e : LoopEnd P)
      → poll_loop lib spec matcher ps (fresh c) ≡ some e
      → e.reached_end ≡ true
      → at_cursor c p <ℤ window.end_
      → Reaches (delivered ps) p window.end_ window.end_
  reached_end-Reaches ps c e h reached below =
      let done = poll_loop-IsProgress lib spec matcher ps (fresh c) e h in
      let there =
        exhausted-end spec.partitions e.state.cursor p window
          ((poll_loop-IsEnded lib spec matcher ps (fresh c) e h).exhausted reached) scoped in
      let there' = subst (λ s. window.end_ ≤ℤ at_cursor s.cursor p) done.scanned there in
      elim (scan_all-cursor done.processed (fresh c)) [
        | inl kept ↦
            let stuck : window.end_ ≤ℤ at_cursor c p = subst (λ x. window.end_ ≤ℤ x) kept there' in
            absurd (omega arith)
        | inr reaches ↦
            let past : window.end_ ≤ℤ (reaches.last.offset +ℤ pos 1) =
              subst (λ x. window.end_ ≤ℤ x) (sym reaches.next) there' in
            record {
              last = reaches.last;
              member =
                  subst (λ l. Memᴰ reaches.last l) (sym done.split)
                    (Memᴰ-append done.processed done.rest reaches.member);
              here = reaches.here;
              next =
                  eq_of_parts (reaches.last.offset +ℤ pos 1) window.end_
                    (omega (arith, past, reaches.before_end, +ℤ_parts reaches.last.offset (pos 1)));
              before_end = reaches.before_end;
            }
      ]

-- A poll that brings neither an error nor the end of the context.
abbrev pub IsQuiet : {P : Type 0} → Spec → Poll P → Type 0
IsQuiet spec p = (p.error ≡ none) × (context_done spec p ≡ false)

module _ (lib : Encodings) (spec : Spec) (matcher : Matcher) {P : Type 0} where
  poll_once-IsQuiet :
      (p : Poll P) (st : ScanState)
      → IsQuiet spec p
      → (st' : ScanState) × (poll_once lib (unbounded spec) matcher p st ≡ again st')
  unfolding poll_once
  poll_once-IsQuiet p st h = (
    scan_all lib spec matcher p.records st,
    ground (arith, evaluate_batch-unbounded lib spec matcher p.records st),
  )

  poll_loop-IsQuiet :
      (ps : List (Poll P)) (st : ScanState) (e : LoopEnd P)
      → All (IsQuiet spec) ps
      → poll_loop lib (unbounded spec) matcher ps st ≡ some e
      → e.reached_end ≡ true
  unfolding poll_loop
  poll_loop-IsQuiet [] st e h q = ground arith
  poll_loop-IsQuiet (p ∷ ps) st e h q =
      elim (Bool-cases (windows_exhausted spec.partitions st.cursor)) [
        | inl done ↦ ground arith
        | inr open_ ↦
            let (st', going) = poll_once-IsQuiet p st h.0 in
            poll_loop-IsQuiet ps st' e h.1
              (sym (poll_loop-again lib (unbounded spec) matcher p ps st st' open_ going) ∙ q)
      ]

  -- A scan without bounds, over polls that neither fail nor meet a deadline or a cancellation, keeps
  -- polling for ever if no record is delivered at the offset just before the end of a window that was
  -- not empty.
  pub poll_loop-hole :
      (p : ℤ) (window : PartitionSpec) (ps : List (Poll P)) (c : Map ℤ ℤ)
      → Map.lookup p spec.partitions ≡ some window
      → at_cursor c p <ℤ window.end_
      → All (IsQuiet spec) ps
      → ¬ Reaches (delivered ps) p window.end_ window.end_
      → poll_loop lib (unbounded spec) matcher ps (fresh c) ≡ none
  poll_loop-hole p window ps c scoped below quiet hole =
      elim (Option-cases (poll_loop lib (unbounded spec) matcher ps (fresh c))) [
        | inl polling ↦ polling
        | inr (e, ended) ↦ absurd (
            hole (
              reached_end-Reaches lib (unbounded spec) matcher p window scoped ps c e ended
                (poll_loop-IsQuiet ps (fresh c) e quiet ended) below))
      ]
