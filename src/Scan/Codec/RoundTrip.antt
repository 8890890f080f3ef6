-- ===== src/Scan/Codec/RoundTrip.antt =====
-- Encoding undoes decoding, but for nil: internal/scan/{decode,encode}.go.
use kafka3o_gateway.Prelude.{String, ℕ, List, ◌⊎◌, ◌≡◌, refl, ap, ◌∙◌, inl, inr, some, arith}
use kafka3o_gateway.Errors.{Result, ok}
use kafka3o_gateway.Scan.Types.{Text, Bytes, contents}
use kafka3o_gateway.Scan.Codec.{
  Encodings, encoding_json, encoding_string, encoding_base64, decode_bytes, decode_header_value,
  encode_value,
}

module _ (lib : Encodings) where
  -- What a decoder may answer for the bytes `b`.
  abbrev IsWire : List ℕ → Text × String → Type 0
  IsWire b w =
      (w ≡ (b, encoding_json))
      ⊎ ((w ≡ (b, encoding_string)) ⊎ (w ≡ (lib.base64_encode b, encoding_base64)))

  decode_bytes-IsWire :
      (bytes : Bytes) (format : String) → IsWire (contents bytes) (decode_bytes lib bytes format)
  unfolding decode_bytes
  decode_bytes-IsWire bytes format = ground arith

  decode_header_value-IsWire :
      (bytes : Bytes) → IsWire (contents bytes) (decode_header_value lib bytes)
  unfolding decode_header_value
  decode_header_value-IsWire bytes = ground arith

  module _ {P : Type 0} where
    abbrev pub encode_wire : Text × String → Result P Bytes
    encode_wire w = encode_value lib w.0 w.1

    encode_value-IsWire :
        (b : List ℕ) (w : Text × String) → IsWire b w → encode_wire w ≡ ok (some b)
    unfolding encode_value
    encode_value-IsWire b w (inl json) = ap encode_wire json
    encode_value-IsWire b w (inr (inl string)) = ap encode_wire string
    encode_value-IsWire b w (inr (inr base64)) =
        ap encode_wire base64 ∙ rw (lib.base64_round_trip b) refl

    -- Encoding what `decodeBytes` returned, under any requested format, gives the bytes back; the nil
    -- slice comes back as an empty one.
    pub encode_value-decode_bytes :
        (bytes : Bytes) (format : String)
        → encode_wire (decode_bytes lib bytes format) ≡ ok (some (contents bytes))
    encode_value-decode_bytes bytes format =
        encode_value-IsWire (contents bytes) _ (decode_bytes-IsWire bytes format)

    pub encode_value-decode_header_value :
        (bytes : Bytes) → encode_wire (decode_header_value lib bytes) ≡ ok (some (contents bytes))
    encode_value-decode_header_value bytes =
        encode_value-IsWire (contents bytes) _ (decode_header_value-IsWire bytes)
