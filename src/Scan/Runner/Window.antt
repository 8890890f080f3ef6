-- ===== src/Scan/Runner/Window.antt =====
-- What a scan emits lies in its windows and is emitted once: internal/scan/runner.go.
use kafka3o_gateway.Prelude.{
  ℤ, pos, ◌≤ℤ◌, ◌<ℤ◌, ◌≡◌, refl, true, some, Option-cases, inl, inr, List, [], ◌∷◌, ◌++◌, ◌⊎◌, All,
  All-append, All-map, arith, int_eq, eqb_ℤ_iff, +ℤ_parts,
}
use mathlib.Core.Path.{subst}
use kafka3o_gateway.Prelude.Map
use kafka3o_gateway.Prelude.Map.{Map}
use kafka3o_gateway.Scan.Types.{KafkaRecord, Record, PartitionSpec, Spec, Matcher}
use kafka3o_gateway.Scan.Codec.{Encodings, decode}
use kafka3o_gateway.Scan.Runner.{ScanState, count_record, in_window, Poll, LoopEnd, poll_loop}
use kafka3o_gateway.Scan.Runner.Step.{scan_all_induction, poll_loop-IsProgress}
use kafka3o_gateway.Scan.Runner.Resume.{
  at_cursor, IsBehind, fresh, at_cursor-count_record, count_record-IsBehind,
}

-- Later in the same partition.
abbrev pub Follows : Record → Record → Type 0
Follows a b = a.partition ≡ b.partition → a.offset <ℤ b.offset

-- The offsets of each partition strictly increase, so no record occurs twice.
abbrev pub Increasing : List Record → Type 0
Increasing [] = Unit
Increasing (a ∷ rs) = All (Follows a) rs × Increasing rs

-- Read already: before the cursor of its partition.
abbrev pub Behind : Map ℤ ℤ → Record → Type 0
Behind c r = r.offset <ℤ at_cursor c r.partition

-- In its partition's window, and not before where the scan began.
pub record IsInside (spec : Spec) (c : Map ℤ ℤ) (r : Record) : Type 0 where
  pub window : PartitionSpec
  pub scoped : Map.lookup r.partition spec.partitions ≡ some window
  pub from_start : at_cursor c r.partition ≤ℤ r.offset
  pub before_end : r.offset <ℤ window.end_

record IsTidy (spec : Spec) (c : Map ℤ ℤ) (st : ScanState) : Type 0 where
  started : IsBehind c st.cursor
  increasing : Increasing st.emitted
  behind : All (Behind st.cursor) st.emitted
  inside : All (IsInside spec c) st.emitted

Increasing-snoc :
    (rs : List Record) (r : Record)
    → Increasing rs
    → All (λ a. Follows a r) rs
    → Increasing (rs ++ r ∷ [])
Increasing-snoc [] r h k = (tt, tt)
Increasing-snoc (a ∷ rs) r h k =
    (All-append (Follows a) rs (r ∷ []) h.0 (k.0, tt), Increasing-snoc rs r h.1 k.1)

module _ (lib : Encodings) (spec : Spec) (matcher : Matcher) where
  -- The record is emitted, or nothing is.
  emission :
      (r : KafkaRecord) (st : ScanState)
      → ((count_record lib spec matcher r st).emitted ≡ st.emitted ++ decode lib r spec.format ∷ [])
        ⊎ ((count_record lib spec matcher r st).emitted ≡ st.emitted)
  unfolding count_record
  emission r st = ground arith

  decode-place :
      (r : KafkaRecord)
      → ((decode lib r spec.format).partition ≡ r.partition)
        × ((decode lib r spec.format).offset ≡ r.offset)
  unfolding decode
  decode-place r = (refl, refl)

  in_window-IsInside :
      (c : Map ℤ ℤ) (r : KafkaRecord) (st : ScanState)
      → IsBehind c st.cursor
      → in_window spec r st.cursor ≡ true
      → IsInside spec c (decode lib r spec.format)
  unfolding in_window decode
  in_window-IsInside c r st h inside =
      elim (Option-cases (Map.lookup r.partition spec.partitions)) [
        | inl missing ↦ ground arith
        | inr (window, found) ↦ record {
          window = window;
          scoped = found;
          from_start = ground (arith, h r.partition);
          before_end = ground arith;
        }
      ]

  Follows-Behind :
      (r : KafkaRecord) (st : ScanState) (a : Record)
      → in_window spec r st.cursor ≡ true
      → Behind st.cursor a
      → Follows a (decode lib r spec.format)
  unfolding in_window decode
  Follows-Behind r st a inside h same =
      let here : a.offset <ℤ at_cursor st.cursor r.partition =
        subst (λ p. a.offset <ℤ at_cursor st.cursor p) same h in
      ground arith

  Behind-self :
      (r : KafkaRecord) (st : ScanState)
      → Behind (count_record lib spec matcher r st).cursor (decode lib r spec.format)
  unfolding decode
  Behind-self r st = ground (
    arith,
    at_cursor-count_record lib spec matcher r st r.partition,
    +ℤ_parts r.offset (pos 1),
    eqb_ℤ_iff r.partition r.partition,
  )

  Behind-step :
      (r : KafkaRecord) (st : ScanState) (a : Record)
      → in_window spec r st.cursor ≡ true
      → Behind st.cursor a
      → Behind (count_record lib spec matcher r st).cursor a
  Behind-step r st a inside h =
      omega (arith, count_record-IsBehind lib spec matcher r st inside a.partition)

  count_record-IsTidy :
      (c : Map ℤ ℤ) (r : KafkaRecord) (st : ScanState)
      → in_window spec r st.cursor ≡ true
      → IsTidy spec c st
      → IsTidy spec c (count_record lib spec matcher r st)
  count_record-IsTidy c r st inside h = elim (emission r st) [
    | inl emits ↦ record {
      started = started';
      increasing = rw emits (
          Increasing-snoc st.emitted _ h.increasing
            (All-map _ st.emitted (λ a b. Follows-Behind r st a inside b) h.behind));
      behind = rw emits (All-append _ st.emitted _ behind' (Behind-self r st, tt));
      inside =
          rw emits
            (All-append _ st.emitted _ h.inside (in_window-IsInside c r st h.started inside, tt));
    }
    | inr silent ↦ record {
      started = started';
      increasing = rw silent h.increasing;
      behind = rw silent behind';
      inside = rw silent h.inside;
    }
  ]
    where
      started' : IsBehind c (count_record lib spec matcher r st).cursor
      started' p = omega (arith, h.started p, count_record-IsBehind lib spec matcher r st inside p)

      behind' : All (Behind (count_record lib spec matcher r st).cursor) st.emitted
      behind' = All-map _ st.emitted (λ a b. Behind-step r st a inside b) h.behind

  fresh-IsTidy : (c : Map ℤ ℤ) → IsTidy spec c (fresh c)
  fresh-IsTidy c = record { started = λ p. omega arith; increasing = tt; behind = tt; inside = tt }

  module _ {P : Type 0} (ps : List (Poll P)) (c : Map ℤ ℤ) (e : LoopEnd P)
      (ended : poll_loop lib spec matcher ps (fresh c) ≡ some e) where
    poll_loop-IsTidy : IsTidy spec c e.state
    poll_loop-IsTidy =
        let done = poll_loop-IsProgress lib spec matcher ps (fresh c) e ended in
        rw done.scanned (
          scan_all_induction lib spec matcher (IsTidy spec c) (λ r st. count_record-IsTidy c r st)
            done.processed (fresh c) (fresh-IsTidy c))

    -- In each partition the emitted offsets strictly increase, whatever the polls repeat or reorder:
    -- no record is emitted twice.
    pub poll_loop-Increasing : Increasing e.state.emitted
    poll_loop-Increasing = poll_loop-IsTidy.increasing

    -- Every emitted record lies in its partition's window, at or after the cursor that the scan began
    -- at and before the end snapshot.
    pub poll_loop-IsInside : All (IsInside spec c) e.state.emitted
    poll_loop-IsInside = poll_loop-IsTidy.inside
