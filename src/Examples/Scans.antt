-- ===== src/Examples/Scans.antt =====
-- The poll loop on small scans.
use mathlib.Core.Path.{◌≡◌}
use mathlib.Core.List.{Memᴰ}
use kafka3o_gateway.Prelude.{
  ℕ, ℤ, pos, ◌≤ℤ◌, ◌<ℤ◌, String, Bool, true, false, Option, none, some, List, [], ◌∷◌, ◌++◌, refl,
  sym, ap, ◌∙◌, ◌+ℤ◌, All, inl, inr, arith, int_eq,
}
use kafka3o_gateway.Prelude.Map
use kafka3o_gateway.Scan.Types.{KafkaRecord, max_messages}
use kafka3o_gateway.Scan.Matcher.{match_all}
use kafka3o_gateway.Scan.Runner.{evaluate_batch, LoopEnd, ScanState, poll_loop, hit_bound}
use kafka3o_gateway.Scan.Runner.Step.{delivered}
use kafka3o_gateway.Scan.Runner.Resume.{fresh, unbounded, poll_loop-resume}
use kafka3o_gateway.Scan.Runner.Counts.{IsWithin, poll_loop-IsWithin}
use kafka3o_gateway.Scan.Runner.Window.{
  Increasing, IsInside, poll_loop-Increasing, poll_loop-IsInside,
}
use kafka3o_gateway.Scan.Runner.Ending.{poll_loop-ends}
use kafka3o_gateway.Scan.Runner.Holes.{Reaches, poll_loop-hole}
use kafka3o_gateway.Examples.Data.{
  marking, kafka_record_at, record_at, window_to, spec_of, start_cursor, poll_of, cancelled_poll,
  two_records,
}

-- The whole window.
abbrev whole : LoopEnd String
whole = record {
  state = record {
    cursor = (pos 0, pos 2) ∷ [];
    acc = record { scanned = 2; matched = 2; skipped = 0; bytes = 2 };
    emitted = record_at 0 0 ∷ record_at 0 1 ∷ [];
  };
  reached_end = true;
  stopped_by = none;
  error = none;
}

-- One message.
abbrev one : LoopEnd String
one = record {
  state = record {
    cursor = (pos 0, pos 1) ∷ [];
    acc = record { scanned = 1; matched = 1; skipped = 0; bytes = 1 };
    emitted = record_at 0 0 ∷ [];
  };
  reached_end = false;
  stopped_by = some max_messages;
  error = none;
}

whole-run :
    poll_loop marking (spec_of false 0) match_all (poll_of two_records ∷ []) (fresh start_cursor)
    ≡ some whole
unfolding poll_loop match_all kafka3o_gateway.Scan.Runner.windows_exhausted Map.get_or
    evaluate_batch kafka3o_gateway.Scan.Runner.in_window Map.lookup hit_bound
    kafka3o_gateway.Scan.Runner.count_record Map.insert kafka3o_gateway.Prelude.Int.◌+ℤ◌
    kafka3o_gateway.Scan.Codec.decode
whole-run = refl

one-run :
    poll_loop marking (spec_of false 1) match_all (poll_of two_records ∷ []) (fresh start_cursor)
    ≡ some one
unfolding poll_loop match_all kafka3o_gateway.Scan.Runner.windows_exhausted Map.get_or
    evaluate_batch kafka3o_gateway.Scan.Runner.in_window Map.lookup hit_bound
    kafka3o_gateway.Scan.Runner.count_record Map.insert kafka3o_gateway.Scan.Codec.decode
    kafka3o_gateway.Prelude.Int.◌+ℤ◌
one-run = refl

poll_loop-IsInside_example : All (IsInside (spec_of false 0) start_cursor) whole.state.emitted
poll_loop-IsInside_example =
    poll_loop-IsInside marking (spec_of false 0) match_all (poll_of two_records ∷ []) start_cursor
      whole whole-run

poll_loop-Increasing_example : Increasing whole.state.emitted
poll_loop-Increasing_example =
    poll_loop-Increasing marking (spec_of false 0) match_all (poll_of two_records ∷ []) start_cursor
      whole whole-run

poll_loop-IsWithin_example : IsWithin (spec_of false 1) one.state.acc
unfolding hit_bound
poll_loop-IsWithin_example =
    poll_loop-IsWithin marking (spec_of false 1) match_all (poll_of two_records ∷ [])
      (fresh start_cursor) one refl
      (record { messages = λ a b. omega arith; scanned = λ a. omega arith }) one-run

poll_loop-ends_example :
    (e : LoopEnd String) × (poll_loop marking
        (spec_of false 0)
        match_all
        (poll_of (kafka_record_at 0 0 ∷ []) ∷ cancelled_poll ∷ [])
        (fresh start_cursor)
      ≡ some e)
poll_loop-ends_example =
    poll_loop-ends marking (spec_of false 0) match_all (poll_of (kafka_record_at 0 0 ∷ []) ∷ [])
      cancelled_poll [] (fresh start_cursor) (inr (refl, refl))

poll_loop-resume_example :
    (evaluate_batch marking
      (unbounded (spec_of false 1))
      match_all
      (delivered (poll_of two_records ∷ []) ++ [])
      (fresh start_cursor)).1.emitted
    ≡ one.state.emitted
      ++ (evaluate_batch marking
          (unbounded (spec_of false 1))
          match_all
          (delivered (poll_of two_records ∷ []) ++ [])
          (fresh one.state.cursor)).1.emitted
poll_loop-resume_example =
    poll_loop-resume marking (spec_of false 1) match_all (poll_of two_records ∷ []) [] start_cursor
      one one-run

-- Offset 1 is a hole.
only_first : ¬ Reaches (delivered (poll_of (kafka_record_at 0 0 ∷ []) ∷ [])) (pos 0) (pos 2) (pos 2)
unfolding kafka3o_gateway.Prelude.Int.◌+ℤ◌
only_first h = elim h.member [
  | Memᴰ.head e ↦
      let one_is_two : (pos 0 +ℤ pos 1) ≡ pos 2 =
        sym (ap (λ (r : KafkaRecord). r.offset +ℤ pos 1) e) ∙ h.next in
      ground arith
  | Memᴰ.tail m ↦ elim m [ ]
]

poll_loop-hole_example :
    poll_loop marking
      (unbounded (spec_of false 0))
      match_all
      (poll_of (kafka_record_at 0 0 ∷ []) ∷ [])
      (fresh start_cursor)
    ≡ none
unfolding Map.lookup Map.get_or
poll_loop-hole_example =
    poll_loop-hole marking (spec_of false 0) match_all (pos 0) (window_to 2)
      (poll_of (kafka_record_at 0 0 ∷ []) ∷ []) start_cursor refl (omega arith) ((refl, refl), tt)
      only_first
