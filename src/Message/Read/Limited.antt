-- ===== src/Message/Read/Limited.antt =====
-- What the reading commands promise about their size: internal/service/message/{read,bounds}.go with
-- internal/scan/runner.go.
use kafka3o_gateway.Prelude.Map.{Map}
use kafka3o_gateway.Audit.{Io}
use kafka3o_gateway.Message.Window.{resolve_windows}
use kafka3o_gateway.Prelude.{
  ap, ◌∙◌, String, ℤ, pos, ◌≤ℤ◌, ◌<ℤ◌, ◌≡◌, none, some, Option-cases, inl, inr, List, length, arith,
}
use kafka3o_gateway.Errors.{Result, ok, Result-cases}
use kafka3o_gateway.Gates.{Caller}
use kafka3o_gateway.Scan.Types.{PartitionSpec, Record, Spec, Stats, Matcher}
use kafka3o_gateway.Scan.Run.{SortSlice}
use kafka3o_gateway.Scan.Codec.{Encodings}
use kafka3o_gateway.Scan.Matcher.{match_all}
use kafka3o_gateway.Scan.Run
use kafka3o_gateway.Scan.Run.Laws.{IsReport, run-IsReport}
use kafka3o_gateway.Message.Service.{Service, ◌>=>◌, >=>-ok}
use kafka3o_gateway.Message.Bounds.{resolve_int_bound, resolve_bytes_bound, resolve_max_time}
use kafka3o_gateway.Message.Bounds.Limits.{resolve_int_bound-within}
use kafka3o_gateway.Message.Events.{check_gate}
use kafka3o_gateway.Message.Read.{
  ReadParams, run_scan, finish_read, plan_read, read, now_or_never, from_latest,
}

module _ {P W : Type 0} (lib : Encodings) (sort : SortSlice) (s : Service P W) where
  run_scan-IsReport :
      (spec : Spec) (matcher : Matcher) (w w' : W) (stats : Stats) (items : List Record)
      → run_scan lib sort s spec matcher w ≡ (some (ok (stats, items)), w')
      → IsReport spec stats items
  unfolding run_scan
  run_scan-IsReport spec matcher w w' stats items h = elim (Result-cases (s.new_consumer w).0) [
    | inl (e, failed) ↦ ground arith
    | inr (consumer, made) ↦
        let w₁ = (s.new_consumer w).1 in
        let start = (s.now w₁).0 in
        let finish = (s.now (s.now w₁).1).0 in
        elim (Option-cases (Run.run lib sort spec matcher start finish consumer)) [
          | inl polling ↦ ground arith
          | inr (ended, ran) ↦ elim (Result-cases ended.outcome) [
            | inl (e, failed) ↦ ground arith
            | inr (r, done) ↦
                let same : r ≡ (stats, items) = ground arith in
                run-IsReport lib sort spec matcher start finish consumer ended stats items ran
                  (rw same at done)
          ]
        ]
  ]

  finish_read-IsReport :
      (caller : Caller) (command_id topic : String) (spec : Spec) (matcher : Matcher) (w w' : W)
      (stats : Stats) (items : List Record)
      → finish_read lib sort s caller command_id topic spec matcher w
        ≡ (some (ok (stats, items)), w')
      → IsReport spec stats items
  unfolding finish_read
  finish_read-IsReport caller command_id topic spec matcher w w' stats items h =
      elim (Option-cases (run_scan lib sort s spec matcher w).0) [
        | inl polling ↦ ground arith
        | inr (r, ran) ↦ elim (Result-cases r) [
          | inl (e, failed) ↦ ground arith
          | inr (x, done) ↦
              run_scan-IsReport spec matcher w (run_scan lib sort s spec matcher w).1 stats items
                (ground arith)
        ]
      ]

  -- plan_read from each of its calls on.
  module _ (p : ReadParams) where
    abbrev from_spec : ℤ → ℤ → ℤ → Map ℤ PartitionSpec → Io W (Result P Spec)
    from_spec limit max_bytes max_time windows = now_or_never (
        ok (record {
          topic = p.topic;
          partitions = windows;
          latest = from_latest p.from;
          max_messages = limit;
          max_scanned = pos 0;
          max_bytes = max_bytes;
          max_time = max_time;
          format = p.format;
        }))

    abbrev from_windows : ℤ → ℤ → ℤ → Io W (Result P Spec)
    from_windows limit max_bytes max_time =
        resolve_windows s
          (record { topic = p.topic; partitions = p.partitions; from = p.from; to = p.to }) limit
        >=> from_spec limit max_bytes max_time

    abbrev from_time : ℤ → ℤ → Io W (Result P Spec)
    from_time limit max_bytes =
        now_or_never
          (resolve_max_time p.max_time_ms s.bounds.max_time.default s.bounds.max_time.ceiling)
        >=> from_windows limit max_bytes

    abbrev from_bytes : ℤ → Io W (Result P Spec)
    from_bytes limit =
        now_or_never (
          resolve_bytes_bound "maxBytes" p.max_bytes s.bounds.max_bytes.default
            s.bounds.max_bytes.ceiling)
        >=> from_time limit

    plan_read-limit :
        (w w' : W) (spec : Spec)
        → plan_read lib sort s p w ≡ (ok spec, w')
        → resolve_int_bound {P = P} "limit" p.limit s.bounds.limit.default s.bounds.limit.ceiling
          ≡ ok spec.max_messages
    unfolding plan_read
    plan_read-limit w w' spec h =
        let (limit, found, h₁) =
          >=>-ok
            (now_or_never
              (resolve_int_bound "limit" p.limit s.bounds.limit.default s.bounds.limit.ceiling))
            from_bytes w w' spec h in
        let (bytes, _, h₂) =
          >=>-ok
            (now_or_never (
              resolve_bytes_bound "maxBytes" p.max_bytes s.bounds.max_bytes.default
                s.bounds.max_bytes.ceiling))
            (from_time limit) w w' spec h₁ in
        let (time, _, h₃) =
          >=>-ok
            (now_or_never
              (resolve_max_time p.max_time_ms s.bounds.max_time.default s.bounds.max_time.ceiling))
            (from_windows limit bytes) w w' spec h₂ in
        let (windows, _, h₄) =
          >=>-ok
            (resolve_windows s
              (record { topic = p.topic; partitions = p.partitions; from = p.from; to = p.to })
              limit)
            (from_spec limit bytes time) w w' spec h₃ in
        let same : limit ≡ spec.max_messages = ground (arith, h₄) in found ∙ ap ok same

    -- A read that succeeds passed the gate and, for a limit that is not negative under a sound
    -- configuration, returns at most the configured ceiling of records.
    pub read-IsLimited :
        (caller : Caller) (w w' : W) (stats : Stats) (items : List Record)
        → pos 0 ≤ℤ p.limit
        → pos 0 <ℤ s.bounds.limit.default
        → s.bounds.limit.default ≤ℤ s.bounds.limit.ceiling
        → read lib sort s caller p w ≡ (some (ok (stats, items)), w')
        → ((check_gate s caller "M1" p.topic w).0 ≡ none)
          × (pos (length items) ≤ℤ s.bounds.limit.ceiling)
    unfolding read
    read-IsLimited caller w w' stats items asked positive fits h =
        elim (Option-cases (check_gate s caller "M1" p.topic w).0) [
          | inr (e, refused) ↦ ground arith
          | inl passes ↦
              let w₁ = (check_gate s caller "M1" p.topic w).1 in
              elim (Result-cases (plan_read lib sort s p w₁).0) [
                | inl (e, failed) ↦ ground arith
                | inr (spec, planned) ↦
                    let w₂ = (plan_read lib sort s p w₁).1 in
                    let report =
                      finish_read-IsReport caller "M1" p.topic spec match_all w₂ w' stats items
                        (ground arith) in
                    let limit = plan_read-limit w₁ w₂ spec (ground arith) in
                    let within =
                      resolve_int_bound-within P "limit" p.limit s.bounds.limit.default
                        s.bounds.limit.ceiling spec.max_messages positive fits limit in
                    (passes, ground (arith, within.0, within.1, report.limited))
              ]
        ]
