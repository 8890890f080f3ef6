-- ===== src/Scan/Types.antt =====
-- The data of a scan: internal/kafka/types.go (Record, Header), internal/scan/{spec,stats,matcher}.go
-- and the record types of internal/scan/decode.go. Integers are unbounded and times are nanoseconds;
-- `Text` is a Go string's bytes, and `Bytes` a Go byte slice, whose nil is `none`.
use kafka3o_gateway.Prelude.{ℕ, ℤ, String, Bool, Option, none, some, List, []}
use kafka3o_gateway.Prelude.Map.{Map}

abbrev pub Text : Type 0
Text = List ℕ

abbrev pub Bytes : Type 0
Bytes = Option (List ℕ)

-- A slice's bytes; nil has none.
abbrev pub contents : Bytes → List ℕ
contents none = []
contents (some b) = b

pub record KafkaHeader : Type 0 where
  pub key : String
  pub value : Bytes

pub record KafkaRecord : Type 0 where
  pub topic : String
  pub partition : ℤ
  pub offset : ℤ
  pub timestamp : ℤ
  pub key : Bytes
  pub value : Bytes
  pub headers : List KafkaHeader

pub record Header : Type 0 where
  pub key : String
  pub value : Text
  pub value_encoding : String

pub record Record : Type 0 where
  pub topic : String
  pub partition : ℤ
  pub offset : ℤ
  pub timestamp : ℤ
  pub key : Text
  pub key_encoding : String
  pub value : Text
  pub value_encoding : String
  pub headers : List Header
  pub size_bytes : ℕ

-- Read from `start` (inclusive) to `end_` (exclusive).
pub record PartitionSpec : Type 0 where
  pub start : ℤ
  pub end_ : ℤ

-- A bound that is not positive is no bound.
pub record Spec : Type 0 where
  pub topic : String
  pub partitions : Map ℤ PartitionSpec
  pub latest : Bool
  pub max_messages : ℤ
  pub max_scanned : ℤ
  pub max_bytes : ℤ
  pub max_time : ℤ
  pub format : String

-- The constants of `StoppedBy`; the empty string is `none`.
pub data StoppedBy : Type 0 where
  max_messages max_bytes max_time : StoppedBy

pub record Stats : Type 0 where
  pub scanned : ℕ
  pub matched : ℕ
  pub skipped : ℕ
  pub bytes : ℕ
  pub elapsed_ms : ℤ
  pub reached_end : Bool
  pub stopped_by : Option StoppedBy
  pub continuation : Map ℤ ℤ

pub record MatchResult : Type 0 where
  pub matches : Bool
  pub skipped : Bool

abbrev pub Matcher : Type 0
Matcher = Record → MatchResult
