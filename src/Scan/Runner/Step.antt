-- ===== src/Scan/Runner/Step.antt =====
-- Induction over the records that a scan evaluates: internal/scan/runner.go.
use kafka3o_gateway.Prelude.{
  ◌≡◌, refl, ap, sym, ◌∙◌, true, false, none, some, Option-cases, Bool-cases, inl, inr, List, [],
  ◌∷◌, arith, if◌then◌else◌, ◌++◌, ◌⊎◌,
}
use mathlib.Core.List.{append_assoc}
use kafka3o_gateway.Scan.Types.{KafkaRecord, Spec, Matcher, StoppedBy}
use kafka3o_gateway.Scan.Codec.{Encodings}
use kafka3o_gateway.Scan.Runner.{
  ScanState, hit_bound, windows_exhausted, count_record, in_window, evaluate_batch, Poll, LoopEnd,
  stop, again, poll_once, poll_loop, zero_accumulator, Polled,
}

-- A scan that has counted nothing has hit no bound.
pub hit_bound-zero : (spec : Spec) → hit_bound zero_accumulator spec ≡ none
unfolding hit_bound
hit_bound-zero spec = ground arith

-- Everything that a sequence of polls delivers.
abbrev pub delivered : {P : Type 0} → List (Poll P) → List KafkaRecord
delivered [] = []
delivered (p ∷ ps) = p.records ++ delivered ps

module _ (lib : Encodings) (spec : Spec) (matcher : Matcher) where
  abbrev pub Unbounded : ScanState → Type 0
  Unbounded st = hit_bound st.acc spec ≡ none

  -- The three ways of a batch to go on.
  pub evaluate_batch-skip :
      (r : KafkaRecord) (rs : List KafkaRecord) (st : ScanState)
      → in_window spec r st.cursor ≡ false
      → evaluate_batch lib spec matcher (r ∷ rs) st ≡ evaluate_batch lib spec matcher rs st
  unfolding evaluate_batch
  evaluate_batch-skip r rs st outside = ground arith

  pub evaluate_batch-bound :
      (r : KafkaRecord) (rs : List KafkaRecord) (st : ScanState) (b : StoppedBy)
      → in_window spec r st.cursor ≡ true
      → hit_bound (count_record lib spec matcher r st).acc spec ≡ some b
      → evaluate_batch lib spec matcher (r ∷ rs) st ≡ (some b, count_record lib spec matcher r st)
  unfolding evaluate_batch
  evaluate_batch-bound r rs st b inside hit = ground arith

  pub evaluate_batch-count :
      (r : KafkaRecord) (rs : List KafkaRecord) (st : ScanState)
      → in_window spec r st.cursor ≡ true
      → hit_bound (count_record lib spec matcher r st).acc spec ≡ none
      → evaluate_batch lib spec matcher (r ∷ rs) st
        ≡ evaluate_batch lib spec matcher rs (count_record lib spec matcher r st)
  unfolding evaluate_batch
  evaluate_batch-count r rs st inside free = ground arith

  -- The scan of a list of records with no bound in the way.
  unfoldable pub advance : KafkaRecord → ScanState → ScanState
  advance r st = if in_window spec r st.cursor then count_record lib spec matcher r st else st

  unfoldable pub scan_all : List KafkaRecord → ScanState → ScanState
  unfolding advance
  scan_all [] st = st
  scan_all (r ∷ rs) st = scan_all rs (advance r st)

  -- What every counted record keeps, a scan keeps.
  pub scan_all_induction :
      (I : ScanState → Type 0)
      → ((r : KafkaRecord) (st : ScanState)
          → in_window spec r st.cursor ≡ true
          → I st
          → I (count_record lib spec matcher r st))
      → (rs : List KafkaRecord) (st : ScanState) → I st
      → I (scan_all rs st)
  unfolding scan_all
  scan_all_induction I keep [] st h = h
  scan_all_induction I keep (r ∷ rs) st h = elim (Bool-cases (in_window spec r st.cursor)) [
    | inl inside ↦
        scan_all_induction I keep rs (advance r st) (rw (inside, advance) (keep r st inside h))
    | inr outside ↦ scan_all_induction I keep rs (advance r st) (rw (outside, advance) h)
  ]

  -- A batch, whether or not a bound stops it, has scanned a first part of its records.
  pub record IsProgress (rs : List KafkaRecord) (st st' : ScanState) : Type 0 where
    pub processed : List KafkaRecord
    pub rest : List KafkaRecord
    pub split : rs ≡ processed ++ rest
    pub scanned : st' ≡ scan_all processed st

  IsProgress-cons :
      (r : KafkaRecord) (rs : List KafkaRecord) (st st' : ScanState)
      → IsProgress rs (advance r st) st'
      → IsProgress (r ∷ rs) st st'
  unfolding scan_all
  IsProgress-cons r rs st st' h = record {
    processed = r ∷ h.processed;
    rest = h.rest;
    split = ap (λ l. r ∷ l) h.split;
    scanned = h.scanned;
  }

  pub evaluate_batch-IsProgress :
      (rs : List KafkaRecord) (st : ScanState)
      → IsProgress rs st (evaluate_batch lib spec matcher rs st).1
  unfolding evaluate_batch scan_all
  evaluate_batch-IsProgress [] st = record {
    processed = [];
    rest = [];
    split = refl;
    scanned = refl;
  }
  evaluate_batch-IsProgress (r ∷ rs) st = elim (Bool-cases (in_window spec r st.cursor)) [
    | inr outside ↦
        rw (evaluate_batch-skip r rs st outside)
          (IsProgress-cons r rs st _ (rw (outside, advance) (evaluate_batch-IsProgress rs st)))
    | inl inside ↦ elim (Option-cases (hit_bound (count_record lib spec matcher r st).acc spec)) [
      | inr (b, hit) ↦ rw (evaluate_batch-bound r rs st b inside hit) (record {
        processed = r ∷ [];
        rest = rs;
        split = refl;
        scanned = rw (inside, scan_all) refl;
      })
      | inl free ↦ rw (evaluate_batch-count r rs st inside free) (
          IsProgress-cons r rs st _ (
            rw (inside, advance)
              (evaluate_batch-IsProgress rs (count_record lib spec matcher r st))))
    ]
  ]

  pub scan_all-append :
      (xs ys : List KafkaRecord) (st : ScanState)
      → scan_all (xs ++ ys) st ≡ scan_all ys (scan_all xs st)
  unfolding scan_all
  scan_all-append [] ys st = refl
  scan_all-append (x ∷ xs) ys st = scan_all-append xs ys (advance x st)

  -- A batch that no bound stopped has scanned all of its records.
  pub evaluate_batch-all :
      (rs : List KafkaRecord) (st : ScanState)
      → (evaluate_batch lib spec matcher rs st).0 ≡ none
      → (evaluate_batch lib spec matcher rs st).1 ≡ scan_all rs st
  unfolding evaluate_batch scan_all
  evaluate_batch-all [] st h = refl
  evaluate_batch-all (r ∷ rs) st h = elim (Bool-cases (in_window spec r st.cursor)) [
    | inr outside ↦ ground (arith, evaluate_batch-all rs st)
    | inl inside ↦ ground (arith, evaluate_batch-all rs (count_record lib spec matcher r st))
  ]

  module _ {P : Type 0} where
    -- A poll either stops the loop in a state that its records lead to, or has them all scanned.
    pub poll_once-stop :
        (p : Poll P) (st : ScanState) (e : LoopEnd P)
        → poll_once lib spec matcher p st ≡ stop e
        → IsProgress p.records st e.state
    unfolding poll_once
    poll_once-stop p st e h = elim (Option-cases p.error) [
      | inr (x, failed) ↦ record {
        processed = [];
        rest = p.records;
        split = refl;
        scanned = unfold scan_all in ground arith;
      }
      | inl fine ↦
          let done = evaluate_batch-IsProgress p.records st in
          record {
            processed = done.processed;
            rest = done.rest;
            split = done.split;
            scanned = ground arith;
          }
    ]

    pub poll_once-again :
        (p : Poll P) (st st' : ScanState)
        → poll_once lib spec matcher p st ≡ again st'
        → st' ≡ scan_all p.records st
    unfolding poll_once
    poll_once-again p st st' h = ground (arith, evaluate_batch-all p.records st)

    pub poll_once-stop_state :
        (p : Poll P) (st : ScanState) (e : LoopEnd P)
        → poll_once lib spec matcher p st ≡ stop e
        → (e.state ≡ st) ⊎ (e.state ≡ (evaluate_batch lib spec matcher p.records st).1)
    unfolding poll_once
    poll_once-stop_state p st e h = ground arith

    pub poll_once-again_state :
        (p : Poll P) (st st' : ScanState)
        → poll_once lib spec matcher p st ≡ again st'
        → ((evaluate_batch lib spec matcher p.records st).0 ≡ none)
          × (st' ≡ (evaluate_batch lib spec matcher p.records st).1)
    unfolding poll_once
    poll_once-again_state p st st' h = ground arith

    pub Polled-cases :
        (m : Polled P) → ((e : LoopEnd P) × (m ≡ stop e)) ⊎ ((st : ScanState) × (m ≡ again st))
    Polled-cases (stop e) = inl (e, refl)
    Polled-cases (again st) = inr (st, refl)

    -- The loop has scanned a first part of what the polls delivered, in order.
    pub poll_loop-IsProgress :
        (ps : List (Poll P)) (st : ScanState) (e : LoopEnd P)
        → poll_loop lib spec matcher ps st ≡ some e
        → IsProgress (delivered ps) st e.state
    unfolding poll_loop
    poll_loop-IsProgress [] st e h = record {
      processed = [];
      rest = [];
      split = refl;
      scanned = unfold scan_all in ground arith;
    }
    poll_loop-IsProgress (p ∷ ps) st e h =
        elim (Bool-cases (windows_exhausted spec.partitions st.cursor)) [
          | inl done ↦ record {
            processed = [];
            rest = delivered (p ∷ ps);
            split = refl;
            scanned = unfold scan_all in ground arith;
          }
          | inr open_ ↦ elim (Polled-cases (poll_once lib spec matcher p st)) [
            | inl (e', stopped) ↦
                let now = poll_once-stop p st e' stopped in
                record {
                  processed = now.processed;
                  rest = now.rest ++ delivered ps;
                  split =
                      ap (λ l. l ++ delivered ps) now.split
                      ∙ append_assoc now.processed now.rest (delivered ps);
                  scanned = ground (arith, now.scanned);
                }
            | inr (st', going) ↦
                let later = poll_loop-IsProgress ps st' e (ground arith) in
                record {
                  processed = p.records ++ later.processed;
                  rest = later.rest;
                  split =
                      ap (λ l. p.records ++ l) later.split
                      ∙ sym (append_assoc p.records later.processed later.rest);
                  scanned =
                      later.scanned
                      ∙ ap (scan_all later.processed) (poll_once-again p st st' going)
                      ∙ sym (scan_all-append p.records later.processed st);
                }
          ]
        ]
