-- ===== src/Message/Read.antt =====
-- internal/service/message/{read,search,get}.go and runScan of window.go: the reading commands.
pub mod Limited
use kafka3o_gateway.Prelude.{
  ℤ, pos, ltb_ℤ, String, Bool, true, false, Option, none, some, List, [], ◌∷◌, if◌then◌else◌,
}
use kafka3o_gateway.Prelude.Map.{Map}
use kafka3o_gateway.Errors.{
  Err, Result, ok, err, policy, invalid_regex, no_details, kafka, Kind, KafkaError,
}
use kafka3o_gateway.Errors.Text.{error_text}
use kafka3o_gateway.Gates.{Caller}
use kafka3o_gateway.Audit.{Io}
use kafka3o_gateway.Scan.Types.{KafkaRecord, Record, PartitionSpec, Spec, Stats, Matcher}
use kafka3o_gateway.Scan.Run.{SortSlice}
use kafka3o_gateway.Scan.Codec.{Encodings, decode}
use kafka3o_gateway.Scan.Matcher.{match_all, Regex, RegexField, new_regex_matcher}
use kafka3o_gateway.Scan.Runner.{Poll}
use kafka3o_gateway.Scan.Run
use kafka3o_gateway.Scan.Run.{Consumer}
use kafka3o_gateway.Message.Service.{Service, ◌>=>◌, after_scan}
use kafka3o_gateway.Message.Bounds.{resolve_int_bound, resolve_bytes_bound, resolve_max_time}
use kafka3o_gateway.Message.Window.{From, beginning, latest, offset, timestamp, resolve_windows}
use kafka3o_gateway.Message.Events.{check_gate, audit_break_glass_read}

pub record ReadParams : Type 0 where
  pub topic : String
  pub partitions : List ℤ
  pub from : From
  pub to : Option From
  pub limit : ℤ
  pub max_bytes : ℤ
  pub max_time_ms : ℤ
  pub format : String

pub record SearchParams : Type 0 where
  pub topic : String
  pub partitions : List ℤ
  pub from : From
  pub to : Option From
  pub regex : String
  pub fields : List RegexField
  pub case_insensitive : Bool
  pub max_scan : ℤ
  pub max_matches : ℤ
  pub max_bytes : ℤ
  pub max_time_ms : ℤ
  pub format : String

-- ReadResult: the statistics and the items.
abbrev pub ReadResult : Type 0
ReadResult = Stats × List Record

abbrev pub from_latest : From → Bool
from_latest beginning = false
from_latest latest = true
from_latest (offset o) = false
from_latest (timestamp t) = false

-- A call that returns at once.
abbrev pub now_or_never : {P W A : Type 0} → Result P A → Io W (Result P A)
now_or_never r w = (r, w)

abbrev not_found_message : KafkaError
not_found_message = record {
  kind = Kind.not_found;
  resource = "message";
  kafka_code = pos 0;
  kafka_name = "";
}

module _ {P W : Type 0} (lib : Encodings) (sort : SortSlice) (s : Service P W) where
  -- runScan; `none` while its scan is still polling.
  unfoldable pub run_scan : Spec → Matcher → Io W (Option (Result P ReadResult))
  run_scan spec matcher w =
      let (made, w₁) = s.new_consumer w in
      let (start, w₂) = s.now w₁ in
      let (finish, w₃) = s.now w₂ in
      elim made [
        | err e ↦ (some (err e), w₁)
        | ok consumer ↦ elim (Run.run lib sort spec matcher start finish consumer) [
          | none ↦ (none, w₂)
          | some ended ↦ elim ended.outcome [
            | err e ↦ (some (err e), w₂)
            | ok r ↦ (some (ok r), after_scan spec w₂ w₃)
          ]
        ]
      ]

  -- A scan and, if it succeeds, its break-glass audit: the end of Read and of Search.
  unfoldable pub finish_read :
      Caller → String → String → Spec → Matcher → Io W (Option (Result P ReadResult))
  unfolding run_scan
  finish_read caller command_id topic spec matcher w =
      let (answer, w') = run_scan spec matcher w in
      elim answer [
        | none ↦ (none, w')
        | some (err e) ↦ (some (err e), w')
        | some (ok r) ↦ (some (ok r), audit_break_glass_read s caller command_id topic w')
      ]

  -- Read from the gate to the scan's spec.
  unfoldable pub plan_read : ReadParams → Io W (Result P Spec)
  plan_read p =
      now_or_never (resolve_int_bound "limit" p.limit s.bounds.limit.default s.bounds.limit.ceiling)
      >=> λ limit.
          now_or_never (
            resolve_bytes_bound "maxBytes" p.max_bytes s.bounds.max_bytes.default
              s.bounds.max_bytes.ceiling)
          >=> λ max_bytes.
              now_or_never
                (resolve_max_time p.max_time_ms s.bounds.max_time.default s.bounds.max_time.ceiling)
              >=> λ max_time.
                  resolve_windows s
                    (record {
                      topic = p.topic;
                      partitions = p.partitions;
                      from = p.from;
                      to = p.to;
                    })
                    limit
                  >=> λ windows. now_or_never (
                      ok (record {
                        topic = p.topic;
                        partitions = windows;
                        latest = from_latest p.from;
                        max_messages = limit;
                        max_scanned = pos 0;
                        max_bytes = max_bytes;
                        max_time = max_time;
                        format = p.format;
                      }))

  -- Read
  unfoldable pub read : Caller → ReadParams → Io W (Option (Result P ReadResult))
  unfolding plan_read finish_read
  read caller p w =
      let (rejected, w₁) = check_gate s caller "M1" p.topic w in
      let (planned, w₂) = plan_read p w₁ in
      elim rejected [
        | some e ↦ (some (err e), w₁)
        | none ↦ elim planned [
          | err e ↦ (some (err e), w₂)
          | ok spec ↦ finish_read caller "M1" p.topic spec match_all w₂
        ]
      ]

  -- InvalidRegex with the compiler's text
  abbrev regex_error : {A : Type 0} → Result P A → Result P A
  regex_error (ok a) = ok a
  regex_error (err e) =
      err (policy (record { code = invalid_regex; message = error_text e; details = no_details }))

  -- Search from the gate to the scan's spec, with resolveScanBounds in its place; `compile` is
  -- regexp.Compile.
  unfoldable pub plan_search :
      (String → Result P Regex) → SearchParams → Io W (Result P (Spec × Matcher))
  plan_search compile p =
      now_or_never
        (resolve_int_bound "maxScan" p.max_scan s.bounds.max_scan.default s.bounds.max_scan.ceiling)
      >=> λ max_scan.
          now_or_never (
            resolve_int_bound "maxMatches" p.max_matches s.bounds.max_matches.default
              s.bounds.max_matches.ceiling)
          >=> λ max_matches.
              now_or_never (
                resolve_bytes_bound "maxBytes" p.max_bytes s.bounds.max_bytes.default
                  s.bounds.max_bytes.ceiling)
              >=> λ max_bytes.
                  now_or_never (
                    resolve_max_time p.max_time_ms s.bounds.max_time.default
                      s.bounds.max_time.ceiling)
                  >=> λ max_time.
                      now_or_never (
                        regex_error (
                          new_regex_matcher compile p.regex p.fields p.case_insensitive
                            s.bounds.regex_timeout))
                      >=> λ matcher.
                          resolve_windows s
                            (record {
                              topic = p.topic;
                              partitions = p.partitions;
                              from = p.from;
                              to = p.to;
                            })
                            max_matches
                          >=> λ windows. now_or_never (
                              ok (
                                record {
                                  topic = p.topic;
                                  partitions = windows;
                                  latest = from_latest p.from;
                                  max_messages = max_matches;
                                  max_scanned = max_scan;
                                  max_bytes = max_bytes;
                                  max_time = max_time;
                                  format = p.format;
                                },
                                matcher,
                              ))

  -- Search
  unfoldable pub search :
      (String → Result P Regex) → Caller → SearchParams → Io W (Option (Result P ReadResult))
  unfolding plan_search finish_read
  search compile caller p w =
      let (rejected, w₁) = check_gate s caller "M3" p.topic w in
      let (planned, w₂) = plan_search compile p w₁ in
      elim rejected [
        | some e ↦ (some (err e), w₁)
        | none ↦ elim planned [
          | err e ↦ (some (err e), w₂)
          | ok (spec, matcher) ↦ finish_read caller "M3" p.topic spec matcher w₂
        ]
      ]

  -- What Get makes of its one poll.
  unfoldable pub fetched : ℤ → Poll P → Result P KafkaRecord
  fetched o p = elim p.error [
    | some e ↦ err e
    | none ↦ elim p.records [
      | [] ↦ err (kafka not_found_message)
      | r ∷ rs ↦ (if ltb_ℤ o r.offset then err (kafka not_found_message) else ok r)
    ]
  ]

  -- Get; `none` while its one poll has not returned.
  unfoldable pub get : Caller → String → ℤ → ℤ → Io W (Option (Result P Record))
  unfolding fetched
  get caller topic partition o w =
      let (rejected, w₁) = check_gate s caller "M2" topic w in
      let (made, w₂) = s.new_consumer w₁ in
      let start : Map ℤ ℤ = (partition, o) ∷ [] in
      elim rejected [
        | some e ↦ (some (err e), w₁)
        | none ↦ elim made [
          | err e ↦ (some (err e), w₂)
          | ok consumer ↦ elim (consumer.assign topic (partition ∷ []) start) [
            | some e ↦ (some (err e), w₂)
            | none ↦ elim (consumer.polls topic start) [
              | [] ↦ (none, w₂)
              | p ∷ ps ↦ elim (fetched o p) [
                | err e ↦ (some (err e), w₂)
                | ok r ↦
                    (some (ok (decode lib r "")), audit_break_glass_read s caller "M2" topic w₂)
              ]
            ]
          ]
        ]
      ]
