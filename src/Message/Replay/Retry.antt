-- ===== src/Message/Replay/Retry.antt =====
-- A replay can be retried from the cursors that it reports: internal/service/message/replay.go,
-- ApplyReplay, with the scan of internal/scan/runner.go.
use Prim.Native.Nat.{◌≤◌, ◌+◌}
use mathlib.Core.Path.{subst}
use kafka3o_gateway.Prelude.{
  sym, All-map, ◌≤ℤ◌, int_eq, ℕ, ℤ, ◌≡◌, refl, ap, ◌∙◌, Bool, false, Option, none, some, inl, inr,
  List, [], ◌∷◌, length, take, drop, All, arith, String,
}
use kafka3o_gateway.Prelude.Map.{Map}
use kafka3o_gateway.Errors.{
  Err, ok, err, Result-cases, policy, kafka, kafka_caused, wrapped, other, Details, progress,
  no_details, plan, items,
}
use kafka3o_gateway.Scan.Types.{Record, Spec, Stats}
use kafka3o_gateway.Scan.Run.{SortSlice}
use kafka3o_gateway.Scan.Codec.{Encodings}
use kafka3o_gateway.Scan.Matcher.{match_all}
use kafka3o_gateway.Scan.Runner.Window.{Behind}
use kafka3o_gateway.Scan.Run.{Consumer, start_offsets, RunEnd, run}
use kafka3o_gateway.Scan.Run.Order.{InWindow, start_offsets-cursor, run-IsOrdered}
use kafka3o_gateway.Message.Service.{after_scan, Service, ProduceRequest, ProduceResult}
use kafka3o_gateway.Message.Replay.{
  ReplayPlan, ReplayEnd, returned, out_of_range, polling, account, wrap_replay_failure, copy_items,
  apply_replay, replay_spec, replay_requests, is_latest, replay_produce_request,
}
use kafka3o_gateway.Message.Replay.Account.{
  advance_past, account-IsFirstFailure, Ahead, advance_past-split,
}

-- The count and the cursors that a finished replay reports, in its result or in its error's details.
abbrev pub reported_details : Details ReplayPlan → Option (ℕ × Map ℤ ℤ)
reported_details (progress n c) = some (n, c)
reported_details no_details = none
reported_details (plan p) = none
reported_details (items xs) = none

abbrev pub reported : ReplayEnd ReplayPlan → Option (ℕ × Map ℤ ℤ)
reported (returned (ok r)) = some (r.copied, r.cursor)
reported (returned (err (policy e))) = reported_details e.details
reported (returned (err (kafka e))) = none
reported (returned (err (kafka_caused e c))) = none
reported (returned (err (wrapped t e))) = none
reported (returned (err (other t))) = none
reported out_of_range = none
reported polling = none

-- kafka.Producer: one result per record.
abbrev pub AnswersEach : {W : Type 0} → Service ReplayPlan W → Type 0
AnswersEach {W = W} s =
    (topic : String) (requests : List ProduceRequest) (w : W)
    (results : List (ProduceResult ReplayPlan))
    → (s.produce topic requests w).0 ≡ ok results
    → length results ≡ length requests

zero_plus : (n : ℕ) → 0 + n ≡ n
zero_plus n = omega arith

length-replay_requests :
    (lib : Encodings) (rs : List Record) (preserve : Bool) (requests : List ProduceRequest)
    → replay_requests {P = ReplayPlan} lib rs preserve ≡ ok requests
    → length requests ≡ length rs
unfolding replay_requests
length-replay_requests lib [] preserve requests h = ground arith
length-replay_requests lib (r ∷ rs) preserve requests h =
    elim (Result-cases (replay_produce_request {P = ReplayPlan} lib r preserve)) [
      | inl (e, failed) ↦ ground arith
      | inr (q, made) ↦ elim (Result-cases (replay_requests {P = ReplayPlan} lib rs preserve)) [
        | inl (e, failed) ↦ ground arith
        | inr (qs, rest) ↦
            let n = length-replay_requests lib rs preserve qs rest in ground (arith, n)
      ]
    ]

module _ {W : Type 0} (lib : Encodings) (sort : SortSlice) (s : Service ReplayPlan W) where
  module _ (p : ReplayPlan) (stats : Stats) (r : Record) (rs : List Record) (w : W) where
    copy_items-unencodable :
        (e : Err ReplayPlan)
        → replay_requests lib (r ∷ rs) p.target.preserve_partition ≡ err e
        → (copy_items lib sort s p stats (r ∷ rs) w).0
          ≡ returned (err (wrap_replay_failure e 0 (start_offsets p.windows)))
    unfolding copy_items
    copy_items-unencodable e failed = ground arith

    copy_items-unproduced :
        (requests : List ProduceRequest) (e : Err ReplayPlan)
        → replay_requests {P = ReplayPlan} lib (r ∷ rs) p.target.preserve_partition ≡ ok requests
        → (s.produce p.target.topic requests w).0 ≡ err e
        → (copy_items lib sort s p stats (r ∷ rs) w).0
          ≡ returned (err (wrap_replay_failure e 0 (start_offsets p.windows)))
    unfolding copy_items
    copy_items-unproduced requests e made failed = ground arith

    copy_items-produced :
        (requests : List ProduceRequest) (results : List (ProduceResult ReplayPlan))
        → replay_requests {P = ReplayPlan} lib (r ∷ rs) p.target.preserve_partition ≡ ok requests
        → (s.produce p.target.topic requests w).0 ≡ ok results
        → (copy_items lib sort s p stats (r ∷ rs) w).0
          ≡ account stats.reached_end results (r ∷ rs) 0 (start_offsets p.windows)
    unfolding copy_items
    copy_items-produced requests results made done = ground arith

  -- Whatever happens after the scan, a report says how many of its records were copied, and its
  -- cursors are past these.
  copy_items-reported :
      (p : ReplayPlan) (stats : Stats) (rs : List Record) (w : W)
      → AnswersEach s
      → (n : ℕ) × (reported (copy_items lib sort s p stats rs w).0
          ≡ some (n, advance_past (take n rs) (start_offsets p.windows)))
  unfolding copy_items wrap_replay_failure
  copy_items-reported p stats [] w each = (0, refl)
  copy_items-reported p stats (r ∷ rs) w each =
      elim (Result-cases
        (replay_requests {P = ReplayPlan} lib (r ∷ rs) p.target.preserve_partition)) [
          | inl (e, failed) ↦ (0, ap reported (copy_items-unencodable p stats r rs w e failed))
          | inr (requests, made) ↦ elim (Result-cases (s.produce p.target.topic requests w).0) [
            | inl (e, failed) ↦
                (0, ap reported (copy_items-unproduced p stats r rs w requests e made failed))
            | inr (results, done) ↦
                let fits : length results ≤ length (r ∷ rs) =
                  omega (
                    arith,
                    each _ _ _ _ done,
                    length-replay_requests lib (r ∷ rs) _ requests made,
                  ) in
                elim (account-IsFirstFailure ReplayPlan stats.reached_end results (r ∷ rs) 0
                  (start_offsets p.windows) fits) [
                    | inl (all, same) ↦ (
                      length results,
                      ap reported
                            (copy_items-produced p stats r rs w requests results made done ∙ same)
                          ∙ ap
                              (λ k. some (
                                k,
                                advance_past (take (length results) (r ∷ rs))
                                    (start_offsets p.windows),
                              ))
                              (zero_plus (length results)),
                    )
                    | inr (m, e, f, same) ↦ (
                      m,
                      ap reported
                            (copy_items-produced p stats r rs w requests results made done ∙ same)
                          ∙ ap
                              (λ k.
                                some (k, advance_past (take m (r ∷ rs)) (start_offsets p.windows)))
                              (zero_plus m),
                    )
                  ]
          ]
        ]

  InWindow-Ahead :
      (spec : Spec) (rs : List Record)
      → All (InWindow spec) rs
      → All (Ahead (start_offsets spec.partitions)) rs
  InWindow-Ahead spec rs h =
      All-map _ rs
        (λ r k.
          subst (λ x. x ≤ℤ r.offset)
            (sym (start_offsets-cursor spec.partitions r.partition k.window k.scoped)) k.from_start)
        h

  -- How a scan's records are split at a point that a replay reports: those that were copied are
  -- behind the cursors, and those that are left are not.
  pub record IsRetryPoint (end_ : ReplayEnd ReplayPlan) (scanned : List Record) : Type 0 where
    pub count : ℕ
    pub cursor : Map ℤ ℤ
    pub says : reported end_ ≡ some (count, cursor)
    pub copied : All (Behind cursor) (take count scanned)
    pub left : All (Ahead cursor) (drop count scanned)

  module _ (p : ReplayPlan) (w : W) (consumer : Consumer ReplayPlan) (ended : RunEnd ReplayPlan)
      (stats : Stats) (scanned : List Record) where
    abbrev pub scan_of : Option (RunEnd ReplayPlan)
    scan_of =
        let w₁ = (s.new_consumer w).1 in
        let w₂ = (s.now w₁).1 in
        run lib sort (replay_spec p) match_all (s.now w₁).0 (s.now w₂).0 consumer

    apply_replay-copy_items :
        (s.new_consumer w).0 ≡ ok consumer
        → scan_of ≡ some ended
        → ended.outcome ≡ ok (stats, scanned)
        → (w' : W) × ((apply_replay lib sort s p w).0
            ≡ (copy_items lib sort s p stats scanned w').0)
    unfolding apply_replay
    apply_replay-copy_items made ran done =
        let w₁ = (s.new_consumer w).1 in
        (after_scan (replay_spec p) (s.now w₁).1 (s.now (s.now w₁).1).1, ground arith)

    -- Once its scan has succeeded, a forward replay reports a point to go on from, whether the copy
    -- succeeds, fails before the first record or in the middle of the batch: every scanned record that
    -- it counts as copied is before the reported cursor of its partition, and none of the others is.
    pub apply_replay-IsRetryPoint :
        AnswersEach s
        → is_latest p.source.from ≡ false
        → (s.new_consumer w).0 ≡ ok consumer
        → scan_of ≡ some ended
        → ended.outcome ≡ ok (stats, scanned)
        → IsRetryPoint (apply_replay lib sort s p w).0 scanned
    apply_replay-IsRetryPoint each forward made ran done =
        let (w', same) = apply_replay-copy_items made ran done in
        let (n, says) = copy_items-reported p stats scanned w' each in
        let ordered =
          run-IsOrdered lib sort (replay_spec p) match_all _ _ consumer ended stats scanned forward
            ran done in
        let split =
          advance_past-split n scanned (start_offsets p.windows) ordered.0
            (InWindow-Ahead (replay_spec p) scanned ordered.1) in
        record {
          count = n;
          cursor = advance_past (take n scanned) (start_offsets p.windows);
          says = ap reported same ∙ says;
          copied = split.0;
          left = split.1;
        }
