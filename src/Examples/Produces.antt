-- ===== src/Examples/Produces.antt =====
-- Producing two records to a topic of one partition; the producer takes the first only.
use Prim.Native.Nat.{◌+◌}
use kafka3o_gateway.Prelude.{
  ℕ, pos, String, none, some, [], ◌∷◌, ◌≡◌, ◌↔◌, refl, eqb, if◌then◌else◌,
}
use kafka3o_gateway.Errors.{ok, err, other}
use kafka3o_gateway.Audit
use kafka3o_gateway.Core.Bulk.{BulkSummary}
use kafka3o_gateway.Message.Service.{Service, ProduceResult, Range}
use kafka3o_gateway.Message.Produce.{ProduceItem, validate_produce_item, produce_items}
use kafka3o_gateway.Message.Produce.Encodes.{IsWritable, validate_produce_item-IsWritable}
use kafka3o_gateway.Message.Produce.Aligned.{answers, reports_of, produce_items-IsAligned}
use kafka3o_gateway.Examples.Data.{marking, gated, delete_event}

abbrev item : ProduceItem
item = record {
  key = 107 ∷ [];
  key_encoding = "";
  value = 118 ∷ [];
  value_encoding = "string";
  headers = [];
  partition = some (pos 0);
  timestamp_ms = none;
}

validate_produce_item-IsWritable_example :
    (validate_produce_item {P = String} marking (λ key. key) (pos 1) item ≡ none)
    ↔ IsWritable marking (pos 1) item
validate_produce_item-IsWritable_example =
    validate_produce_item-IsWritable marking (λ key. key) (pos 1) item

abbrev range_to : ℕ → Range
range_to n = record { default = pos n; ceiling = pos n }

abbrev produced : ℕ → ProduceResult String
produced w = record {
  partition = pos 0;
  offset = pos w;
  timestamp = pos 5000000;
  error = if eqb w 0 then none else some (other "refused");
}

-- The state counts the calls of the producer.
abbrev service : Service String ℕ
service = record {
  list_start_offsets = λ topic w. (ok [], w);
  list_end_offsets = λ topic w. (ok [], w);
  list_offsets_after_milli = λ topic t w. (ok [], w);
  describe_topics = λ topic w. (err (other "unknown"), w);
  produce = λ topic requests w. (ok (produced w ∷ []), w + 1);
  new_consumer = λ w. (err (other "none"), w);
  bounds = record {
    limit = range_to 10;
    max_scan = range_to 10;
    max_matches = range_to 10;
    max_bytes = range_to 10;
    max_time = range_to 10;
    regex_timeout = pos 1;
    max_bulk_body_bytes = pos 10;
    replay = range_to 10;
  };
  now = λ w. (pos 0, w);
  sinks = [];
  new_event_id = λ w. ("event", w);
  runner = gated;
}

produce_items-IsAligned_example :
    (summary : BulkSummary) × ((produce_items marking
        (λ key. key)
        service
        delete_event
        (pos 1)
        "orders"
        (item ∷ item ∷ [])
        0).0
      ≡ ok (record {
        items = reports_of 0 (answers marking service "orders" (item ∷ item ∷ []) 0).0;
        summary = summary;
      }))
unfolding Audit.attempt validate_produce_item kafka3o_gateway.Scan.Codec.encode_value
produce_items-IsAligned_example =
    produce_items-IsAligned marking (λ key. key) service delete_event (pos 1) "orders"
      (item ∷ item ∷ []) 0 (refl, (refl, tt)) refl
