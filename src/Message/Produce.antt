-- ===== src/Message/Produce.antt =====
-- internal/service/message/produce.go: validate and write records to a topic.
pub mod Aligned
pub mod Encodes
use Prim.Native.String.{◌++◌ as append}
use kafka3o_gateway.Prelude.{
  ℕ, zero, suc, ◌+◌, ◌*◌, ◌/◌, ℤ, pos, negsuc, ltb_ℤ, leb_ℤ, String, Bool, true, false, ◌||◌,
  Option, none, some, List, [], ◌∷◌, map, length, if◌then◌else◌,
}
use kafka3o_gateway.Errors.{Err, Result, ok, err, wrapped, other, BulkItemResult}
use kafka3o_gateway.Errors.Text.{show_int}
use kafka3o_gateway.Gates.{Caller}
use kafka3o_gateway.Audit.Schema.{Event, Outcome, succeeded}
use kafka3o_gateway.Audit.{Io, Sink}
use kafka3o_gateway.Core.Bulk.{BulkSummary, BulkResult, bulk_run}
use kafka3o_gateway.Scan.Types.{Text, Bytes, KafkaHeader}
use kafka3o_gateway.Scan.Codec.{Encodings, encode_value}
use kafka3o_gateway.Message.Service.{Service, ProduceRequest, ProduceResult, Topic}
use kafka3o_gateway.Message.Events.{check_gate, new_event, result_event}

pub record ProduceHeader : Type 0 where
  pub key : String
  pub value : Text
  pub value_encoding : String

pub record ProduceItem : Type 0 where
  pub key : Text
  pub key_encoding : String
  pub value : Text
  pub value_encoding : String
  pub headers : List ProduceHeader
  pub partition : Option ℤ
  pub timestamp_ms : Option ℤ

pub record ProduceItemResult : Type 0 where
  pub index : ℕ
  pub outcome : Outcome
  pub partition : ℤ
  pub offset : ℤ
  pub timestamp_ms : ℤ
  pub error : String

-- message.ProduceResult: the items and their summary.
pub record ProduceReport : Type 0 where
  pub items : List ProduceItemResult
  pub summary : BulkSummary

-- Go's zero time, the first moment of the year 1.
abbrev pub zero_time : ℤ
zero_time = negsuc 62135596799999999999

-- time.UnixMilli and its method UnixMilli, which rounds down
unfoldable pub unix_milli : ℤ → ℤ
unix_milli (pos n) = pos (n / 1000000)
unix_milli (negsuc n) = negsuc (n / 1000000)

unfoldable pub time_of_milli : ℤ → ℤ
time_of_milli (pos n) = pos (n * 1000000)
time_of_milli (negsuc n) = negsuc (n * 1000000 + 999999)

-- Whether a given partition lies outside the topic's.
abbrev out_of_range : Option ℤ → ℤ → Bool
out_of_range none count = false
out_of_range (some p) count = ltb_ℤ p (pos 0) || leb_ℤ count p

abbrev range_text : Option ℤ → ℤ → String
range_text none count = ""
range_text (some p) count =
    append (append "partition " (show_int p))
      (append " out of range [0," (append (show_int count) ")"))

-- The error of an encoding, behind a prefix.
abbrev pub prefixed : {P A : Type 0} → String → Result P A → Option (Err P)
prefixed prefix (ok a) = none
prefixed prefix (err e) = some (wrapped prefix e)

-- `if err := …; err != nil { return err }` of two validations
abbrev pub or_else : {P : Type 0} → Option (Err P) → Option (Err P) → Option (Err P)
or_else (some e) rest = some e
or_else none rest = rest

module _ {P : Type 0} (lib : Encodings) (quoted : String → String) where
  -- The loop over the headers; `quoted` is a key as `%q` prints it.
  unfoldable pub validate_headers : List ProduceHeader → Option (Err P)
  validate_headers [] = none
  validate_headers (h ∷ hs) =
      or_else
        (prefixed (append "invalid header " (append (quoted h.key) ": "))
          (encode_value lib h.value h.value_encoding))
        (validate_headers hs)

  unfoldable pub validate_partition : Option ℤ → ℤ → Option (Err P)
  validate_partition p count =
      if out_of_range p count then some (other (range_text p count)) else none

  -- validateProduceItem
  unfoldable pub validate_produce_item : ℤ → ProduceItem → Option (Err P)
  unfolding validate_headers validate_partition
  validate_produce_item count item =
      or_else (prefixed "invalid key: " (encode_value lib item.key item.key_encoding)) (
        or_else (prefixed "invalid value: " (encode_value lib item.value item.value_encoding))
          (or_else (validate_headers item.headers) (validate_partition item.partition count)))

-- `v, _ := scan.EncodeValue(…)`: nil where it fails.
abbrev pub encoded : Encodings → Text → String → Bytes
encoded lib value encoding =
    let answer : Result (Unit {0}) Bytes = encode_value lib value encoding in
    elim answer [ ok b ↦ b | err _ ↦ none ]

abbrev pub header_of : Encodings → ProduceHeader → KafkaHeader
header_of lib h = record { key = h.key; value = encoded lib h.value h.value_encoding }

-- toProduceRequest
unfoldable pub to_produce_request : Encodings → ProduceItem → ProduceRequest
unfolding time_of_milli
to_produce_request lib item = record {
  key = encoded lib item.key item.key_encoding;
  value = encoded lib item.value item.value_encoding;
  headers = map (header_of lib) item.headers;
  partition = item.partition;
  timestamp = elim item.timestamp_ms [ none ↦ zero_time | some ms ↦ time_of_milli ms ];
}

-- The variables that the execution closes over: `next`, and the array `produced`.
pub record Captured (P : Type 0) : Type 0 where
  pub next : ℕ
  pub produced : List (ProduceResult P)

abbrev pub zero_produced : {P : Type 0} → ProduceResult P
zero_produced = record { partition = pos 0; offset = pos 0; timestamp = zero_time; error = none }

-- `produced[i] = r`
unfoldable pub set_at {ℓ} : {A : Type ℓ} → ℕ → A → List A → List A
set_at i r [] = []
set_at zero r (x ∷ xs) = r ∷ xs
set_at (suc i) r (x ∷ xs) = x ∷ set_at i r xs

-- `produced[i]`
unfoldable pub produced_at : {P : Type 0} → ℕ → List (ProduceResult P) → ProduceResult P
produced_at i [] = zero_produced
produced_at zero (r ∷ rs) = r
produced_at (suc i) (r ∷ rs) = produced_at i rs

-- One entry of toProduceResult, from the bulk item and the result of its index.
unfoldable pub item_result : {P : Type 0} → BulkItemResult → ProduceResult P → ProduceItemResult
unfolding unix_milli
item_result r p = elim r.outcome [
  | succeeded ↦ record {
    index = r.index;
    outcome = r.outcome;
    partition = p.partition;
    offset = p.offset;
    timestamp_ms = unix_milli p.timestamp;
    error = r.error;
  }
  | _ ↦ record {
    index = r.index;
    outcome = r.outcome;
    partition = pos 0;
    offset = pos 0;
    timestamp_ms = pos 0;
    error = r.error;
  }
]

-- The loop of toProduceResult from index `i` on.
unfoldable pub item_results :
    {P : Type 0} → ℕ → List (ProduceResult P) → List BulkItemResult → List ProduceItemResult
unfolding item_result produced_at
item_results i produced [] = []
item_results i produced (r ∷ rs) =
    item_result r (produced_at i produced) ∷ item_results (suc i) produced rs

-- A call, a sink and a state that leave the captured variables alone.
abbrev pub beside : {W C A : Type 0} → Io W A → Io (W × C) A
beside m s = let (a, w) = m s.0 in (a, (w, s.1))

abbrev pub sink_beside : {P W C : Type 0} → Sink P W → Sink P (W × C)
sink_beside sink ev s = let (e, w) = sink ev s.0 in (e, (w, s.1))

-- toProduceResult
unfoldable pub to_produce_result :
    {P : Type 0} → List (ProduceResult P) → BulkResult → ProduceReport
unfolding item_results
to_produce_result produced br = record {
  items = item_results 0 produced br.items;
  summary = br.summary;
}

-- `make([]kafka.ProduceResult, n)`
unfoldable pub no_results : {P : Type 0} → ℕ → List (ProduceResult P)
no_results zero = []
no_results (suc n) = zero_produced ∷ no_results n

-- What one item of the execution makes of the producer's answer: its error, and the slot's value.
unfoldable pub executed_item :
    {P : Type 0} → Result P (List (ProduceResult P)) → Option (Err P) × Option (ProduceResult P)
executed_item (err e) = (some e, none)
executed_item (ok []) = (some (other "index out of range"), none)
executed_item (ok (r ∷ rs)) = (r.error, some r)

abbrev pub store :
    {P : Type 0} → ℕ → Option (ProduceResult P) → List (ProduceResult P) → List (ProduceResult P)
store i none produced = produced
store i (some r) produced = set_at i r produced

module _ {P W : Type 0} (lib : Encodings) (s : Service P W) (topic : String) where
  -- The execution of one item.
  unfoldable pub produce_item : ProduceItem → Io (W × Captured P) (Option (Err P))
  unfolding to_produce_request executed_item set_at
  produce_item item (w, c) =
      let (answer, w') = s.produce topic (to_produce_request lib item ∷ []) w in
      let (e, slot) = executed_item answer in
      (e, (w', record { next = suc c.next; produced = store c.next slot c.produced }))

module _ {P W : Type 0} (lib : Encodings) (quoted : String → String) (s : Service P W) where
  -- partitionCount
  unfoldable pub partition_count : String → Io W (Result P ℤ)
  partition_count topic w =
      let (answer, w') = s.describe_topics topic w in
      elim answer [ err e ↦ (err e, w') | ok t ↦ (ok (pos (length t.partitions)), w') ]

  -- produce from the ATTEMPT's event on
  unfoldable pub produce_items :
      Event → ℤ → String → List ProduceItem → Io W (Result P ProduceReport)
  unfolding produce_item to_produce_result no_results
  produce_items attempt count topic items w =
      let start : Captured P = record { next = 0; produced = no_results (length items) } in
      let (answer, s') =
        bulk_run (map sink_beside s.sinks) attempt
          (λ summary. beside (result_event s attempt summary))
          (validate_produce_item lib quoted count) (produce_item lib s topic) items (w, start) in
      elim answer [
        | err e ↦ (err e, s'.0)
        | ok br ↦ (ok (to_produce_result s'.1.produced br), s'.0)
      ]

  -- produce
  unfoldable pub produce_checked :
      Caller → String → String → List ProduceItem → Io W (Result P ProduceReport)
  unfolding partition_count produce_items new_event
  produce_checked caller command_id topic items w =
      let (counted, w₁) = partition_count topic w in
      elim counted [
        | err e ↦ (err e, w₁)
        | ok count ↦
            let (attempt, w₂) = new_event s caller command_id topic w₁ in
            produce_items attempt count topic items w₂
      ]

  -- Produce
  unfoldable pub produce : Caller → String → List ProduceItem → Io W (Result P ProduceReport)
  unfolding check_gate produce_checked
  produce caller topic items w =
      let (rejected, w₁) = check_gate s caller "M5" topic w in
      elim rejected [ some e ↦ (err e, w₁) | none ↦ produce_checked caller "M5" topic items w₁ ]
