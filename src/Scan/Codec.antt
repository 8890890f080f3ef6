-- ===== src/Scan/Codec.antt =====
-- internal/scan/{decode,encode}.go: raw bytes to wire text and back. The standard library's
-- validators and its base64 codec are parameters.
pub mod RoundTrip
use Prim.Native.String.{◌++◌ as append}
use kafka3o_gateway.Prelude.{
  ℕ, ◌+◌, ◌≡◌, String, Bool, true, false, ◌||◌, Option, none, some, List, map, length, ◌==◌,
  string_eq, if◌then◌else◌,
}
use kafka3o_gateway.Errors.{Err, Result, ok, err, wrapped, other}
use kafka3o_gateway.Scan.Types.{Text, Bytes, contents, KafkaHeader, KafkaRecord, Header, Record}

-- json.Valid, utf8.Valid and base64.StdEncoding; a failed decoding is `none`. The laws are those
-- that the packages document.
pub record Encodings : Type 0 where
  pub json_valid : List ℕ → Bool
  pub utf8_valid : List ℕ → Bool
  pub base64_encode : List ℕ → Text
  pub base64_decode : Text → Option (List ℕ)
  pub base64_round_trip : (b : List ℕ) → base64_decode (base64_encode b) ≡ some b

abbrev pub encoding_json : String
encoding_json = "json"

abbrev pub encoding_string : String
encoding_string = "string"

abbrev pub encoding_base64 : String
encoding_base64 = "base64"

module _ (lib : Encodings) where
  open lib use {json_valid, utf8_valid, base64_encode, base64_decode}

  -- autoDecode
  auto_decode : List ℕ → Text × String
  auto_decode b =
      if json_valid b
      then (b, encoding_json)
      else if utf8_valid b
      then (b, encoding_string)
      else (base64_encode b, encoding_base64)

  -- decodeBytes
  unfoldable pub decode_bytes : Bytes → String → Text × String
  unfolding auto_decode
  decode_bytes bytes format =
      let b = contents bytes in
      if format == encoding_base64
      then (base64_encode b, encoding_base64)
      else if format == encoding_json
      then (if json_valid b then (b, encoding_json) else auto_decode b)
      else if format == encoding_string
      then (if utf8_valid b then (b, encoding_string) else auto_decode b)
      else auto_decode b

  -- decodeHeaderValue
  unfoldable pub decode_header_value : Bytes → Text × String
  decode_header_value bytes =
      let b = contents bytes in
      if utf8_valid b then (b, encoding_string) else (base64_encode b, encoding_base64)

  unfoldable pub decode_header : KafkaHeader → Header
  unfolding decode_header_value
  decode_header h =
      let (v, e) = decode_header_value h.value in
      record { key = h.key; value = v; value_encoding = e }

  -- Decode
  unfoldable pub decode : KafkaRecord → String → Record
  unfolding decode_header decode_bytes
  decode r format =
      let (k, ke) = decode_bytes r.key format in
      let (v, ve) = decode_bytes r.value format in
      record {
        topic = r.topic;
        partition = r.partition;
        offset = r.offset;
        timestamp = r.timestamp;
        key = k;
        key_encoding = ke;
        value = v;
        value_encoding = ve;
        headers = map decode_header r.headers;
        size_bytes = length (contents r.key) + length (contents r.value);
      }

  -- EncodeValue; what it returns is never nil. Its errors' texts leave out the position that base64's
  -- error names and the escapes of `%q`.
  unfoldable pub encode_value : {P : Type 0} → Text → String → Result P Bytes
  encode_value value encoding =
      if encoding == "" || (encoding == encoding_string || encoding == encoding_json)
      then ok (some value)
      else if encoding == encoding_base64
      then elim (base64_decode value) [
        | some b ↦ ok (some b)
        | none ↦ err (wrapped "invalid base64 value: " (other "illegal base64 data"))
      ]
      else err (
          other (append "invalid encoding \"" (append encoding "\": want json, string, or base64")))
