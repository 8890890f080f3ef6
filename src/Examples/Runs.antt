-- ===== src/Examples/Runs.antt =====
-- Whole scans, the codec and the gates on small inputs.
use kafka3o_gateway.Prelude.{
  ℕ, ℤ, pos, String, Bool, true, false, Option, none, some, List, [], ◌∷◌, ◌≡◌, ◌≢◌, ◌↔◌, refl, map,
  length, All, arith,
}
use kafka3o_gateway.Prelude.Map.{Map}
use kafka3o_gateway.Errors.{ok}
use kafka3o_gateway.Gates.{check}
use kafka3o_gateway.Gates.Laws.{IsAllowed, check-IsAllowed}
use kafka3o_gateway.Scan.Types.{Record, Stats, contents}
use kafka3o_gateway.Scan.Codec.{decode_bytes}
use kafka3o_gateway.Scan.Codec.RoundTrip.{encode_wire, encode_value-decode_bytes}
use kafka3o_gateway.Scan.Matcher.{match_all}
use kafka3o_gateway.Scan.Runner.{ScanState}
use kafka3o_gateway.Scan.Run.{SortSlice, Consumer, RunEnd, run, start_offsets, drain}
use kafka3o_gateway.Scan.Run.Laws.{IsReport, run-IsReport}
use kafka3o_gateway.Scan.Run.Latest.{IsNewest, drain-IsNewest}
use kafka3o_gateway.Scan.Run.Place.{IsPlaced, run-IsPlaced}
use kafka3o_gateway.Examples.Sorting.{insertion_sort, insertion_sort-IsSortSlice}
use kafka3o_gateway.Examples.Data.{
  marking, record_at, spec_of, poll_of, two_records, operator, open_policy, delete_topic,
}

abbrev consumer : Consumer String
consumer = record {
  assign = λ topic partitions offsets. none;
  polls = λ topic offsets. poll_of two_records ∷ [];
}

abbrev scanned : List Record
scanned = record_at 0 0 ∷ record_at 0 1 ∷ []

abbrev stats : Stats
stats = record {
  scanned = 2;
  matched = 2;
  skipped = 0;
  bytes = 2;
  elapsed_ms = pos 3;
  reached_end = true;
  stopped_by = none;
  continuation = (pos 0, pos 2) ∷ [];
}

abbrev ended : RunEnd String
ended = record { outcome = ok (stats, scanned); closed = true }

whole_run :
    run marking insertion_sort (spec_of false 5) match_all (pos 0) (pos 3000000) consumer
    ≡ some ended
unfolding run kafka3o_gateway.Scan.Runner.poll_loop kafka3o_gateway.Scan.Runner.windows_exhausted
    kafka3o_gateway.Prelude.Map.get_or kafka3o_gateway.Prelude.Map.insert
    kafka3o_gateway.Scan.Runner.evaluate_batch kafka3o_gateway.Scan.Runner.in_window
    kafka3o_gateway.Prelude.Map.lookup kafka3o_gateway.Scan.Runner.hit_bound
    kafka3o_gateway.Scan.Runner.count_record match_all kafka3o_gateway.Prelude.Int.◌+ℤ◌
    kafka3o_gateway.Scan.Run.final_stats drain kafka3o_gateway.Prelude.Int.◌-ℤ◌
    kafka3o_gateway.Scan.Codec.decode
whole_run = refl

run-IsReport_example : IsReport (spec_of false 5) stats scanned
run-IsReport_example =
    run-IsReport marking insertion_sort (spec_of false 5) match_all (pos 0) (pos 3000000) consumer
      ended stats scanned whole_run refl

run-IsPlaced_example : IsPlaced (spec_of false 5) scanned
run-IsPlaced_example =
    run-IsPlaced marking insertion_sort (spec_of false 5) match_all (pos 0) (pos 3000000) consumer
      ended stats scanned insertion_sort-IsSortSlice whole_run refl

encode_value-decode_bytes_example :
    encode_wire marking {P = String} (decode_bytes marking (some (200 ∷ [])) "")
    ≡ ok (some (contents (some (200 ∷ []))))
encode_value-decode_bytes_example = encode_value-decode_bytes marking (some (200 ∷ [])) ""

check-IsAllowed_example :
    (check {P = String} operator delete_topic open_policy ≡ none)
    ↔ IsAllowed operator delete_topic open_policy
check-IsAllowed_example = check-IsAllowed operator delete_topic open_policy

-- Two records were gathered, one may be kept: the newer.
abbrev gathered : ScanState
gathered = record {
  cursor = (pos 0, pos 2) ∷ [];
  acc = record { scanned = 2; matched = 2; skipped = 0; bytes = 2 };
  emitted = scanned;
}

keeps_newest : (drain insertion_sort (spec_of true 1) gathered).emitted ≡ record_at 0 1 ∷ []
unfolding drain insertion_sort kafka3o_gateway.Scan.Run.truncate
keeps_newest = refl

drain-IsNewest_example :
    IsNewest (pos 1) scanned (drain insertion_sort (spec_of true 1) gathered).emitted
    × ((drain insertion_sort (spec_of true 1) gathered).acc.matched
        ≡ length (drain insertion_sort (spec_of true 1) gathered).emitted)
drain-IsNewest_example =
    drain-IsNewest insertion_sort (spec_of true 1) gathered insertion_sort-IsSortSlice refl
