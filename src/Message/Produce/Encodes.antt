-- ===== src/Message/Produce/Encodes.antt =====
-- Validation passes exactly the items whose request carries what they say:
-- internal/service/message/produce.go.
use Prim.Native.String.{◌++◌ as append}
use kafka3o_gateway.Prelude.{
  ℕ, ℤ, pos, ◌≤ℤ◌, ◌<ℤ◌, ◌≡◌, refl, sym, ◌↔◌, inl, inr, String, true, false, Option, none, some,
  List, [], ◌∷◌, ◌==◌, string_eq, eq_iff, All, Bool-cases, Option-cases, arith,
}
use mathlib.Core.Path.{subst}
use kafka3o_gateway.Scan.Types.{Text, Bytes}
use kafka3o_gateway.Scan.Codec.{Encodings, encode_value}
use kafka3o_gateway.Message.Produce.{
  ProduceHeader, ProduceItem, encoded, validate_headers, validate_partition, validate_produce_item,
  prefixed,
}

-- The text has the encoding that it names, which says what its bytes are: a string, which also no name
-- says, and JSON are their own bytes, and base64 is what the decoder reads.
pub data Encodes (lib : Encodings) (value : Text) : String → Bytes → Type 0 where
  as_is : Encodes lib value "" (some value)
  as_string : Encodes lib value "string" (some value)
  as_json : Encodes lib value "json" (some value)
  as_base64 :
      {bytes : List ℕ}
      → lib.base64_decode value ≡ some bytes
      → Encodes lib value "base64" (some bytes)

base64_reads :
    (lib : Encodings) (value : Text) (encoding : String) (bytes : Bytes)
    → Encodes lib value encoding bytes
    → (encoding == "base64") ≡ true
    → (b : List ℕ) × (lib.base64_decode value ≡ some b)
base64_reads lib value encoding bytes as_is h = cc
base64_reads lib value encoding bytes as_string h = cc
base64_reads lib value encoding bytes as_json h = cc
base64_reads lib value encoding bytes (as_base64 {bytes = b} read) h = (b, read)

-- What the item's request carries are these bytes.
abbrev pub IsEncoded : Encodings → Text → String → Type 0
IsEncoded lib value encoding = Encodes lib value encoding (encoded lib value encoding)

-- A given partition is one of the topic's.
abbrev pub IsInRange : Option ℤ → ℤ → Type 0
IsInRange none count = Unit
IsInRange (some p) count = (pos 0 ≤ℤ p) × (p <ℤ count)

-- The item's request carries the bytes that its texts encode, to a partition that exists.
pub record IsWritable (lib : Encodings) (count : ℤ) (item : ProduceItem) : Type 0 where
  pub key : IsEncoded lib item.key item.key_encoding
  pub value : IsEncoded lib item.value item.value_encoding
  pub headers : All (λ (h : ProduceHeader). IsEncoded lib h.value h.value_encoding) item.headers
  pub partition : IsInRange item.partition count

module _ {P : Type 0} (lib : Encodings) (quoted : String → String) where
  encode_base64-IsEncoded :
      (prefix : String) (value : Text)
      → (prefixed {P = P} prefix (encode_value lib value "base64") ≡ none)
        ↔ IsEncoded lib value "base64"
  unfolding encode_value
  encode_base64-IsEncoded prefix value = elim (Option-cases (lib.base64_decode value)) [
    | inl bad ↦ (
      λ h. ground (arith, bad),
      λ h. let (b, read) = base64_reads lib value "base64" _ h refl in ground (arith, bad, read),
    )
    | inr (b, read) ↦ (λ _. rw read (as_base64 read), λ _. rw read refl)
  ]

  encode_value-IsEncoded :
      (prefix : String) (value : Text) (encoding : String)
      → (prefixed {P = P} prefix (encode_value lib value encoding) ≡ none)
        ↔ IsEncoded lib value encoding
  unfolding encode_value
  encode_value-IsEncoded prefix value encoding = elim (Bool-cases (encoding == "")) [
    | inl e ↦ at "" e ((λ _. as_is), λ _. refl)
    | inr not_empty ↦ elim (Bool-cases (encoding == "string")) [
      | inl e ↦ at "string" e ((λ _. as_string), λ _. refl)
      | inr not_string ↦ elim (Bool-cases (encoding == "json")) [
        | inl e ↦ at "json" e ((λ _. as_json), λ _. refl)
        | inr not_json ↦ elim (Bool-cases (encoding == "base64")) [
          | inl e ↦ at "base64" e (encode_base64-IsEncoded prefix value)
          | inr not_base64 ↦ (
            λ h. ground arith,
            λ h. absurd (no_other encoding _ h not_empty not_string not_json not_base64),
          )
        ]
      ]
    ]
  ]
    where
      at :
          (e : String)
          → (encoding == e) ≡ true
          → (prefixed {P = P} prefix (encode_value lib value e) ≡ none) ↔ IsEncoded lib value e
          → (prefixed {P = P} prefix (encode_value lib value encoding) ≡ none)
            ↔ IsEncoded lib value encoding
      at e same h =
          subst
            (λ x.
              (prefixed {P = P} prefix (encode_value lib value x) ≡ none) ↔ IsEncoded lib value x)
            (sym ((eq_iff encoding e).0 same)) h

      no_other :
          (x : String) (b : Bytes)
          → Encodes lib value x b
          → (x == "") ≡ false
          → (x == "string") ≡ false
          → (x == "json") ≡ false
          → (x == "base64") ≡ false
          → ⊥
      no_other x b as_is h₁ h₂ h₃ h₄ = cc
      no_other x b as_string h₁ h₂ h₃ h₄ = cc
      no_other x b as_json h₁ h₂ h₃ h₄ = cc
      no_other x b (as_base64 d) h₁ h₂ h₃ h₄ = cc

  validate_headers-IsEncoded :
      (hs : List ProduceHeader)
      → (validate_headers {P = P} lib quoted hs ≡ none)
        ↔ All (λ (h : ProduceHeader). IsEncoded lib h.value h.value_encoding) hs
  unfolding validate_headers
  validate_headers-IsEncoded [] = ground arith
  validate_headers-IsEncoded (h ∷ hs) = ground (
    arith,
    encode_value-IsEncoded (append "invalid header " (append (quoted h.key) ": ")) h.value
        h.value_encoding,
    validate_headers-IsEncoded hs,
  )

  validate_partition-IsInRange :
      (p : Option ℤ) (count : ℤ)
      → (validate_partition {P = P} lib quoted p count ≡ none) ↔ IsInRange p count
  unfolding validate_partition
  validate_partition-IsInRange none count = ground arith
  validate_partition-IsInRange (some p) count = ground arith

  -- An item is accepted exactly if its key, value and header values have the encodings that they
  -- name and a given partition is one of the topic's.
  pub validate_produce_item-IsWritable :
      (count : ℤ) (item : ProduceItem)
      → (validate_produce_item {P = P} lib quoted count item ≡ none) ↔ IsWritable lib count item
  unfolding validate_produce_item
  validate_produce_item-IsWritable count item = (
    λ h. record {
      key = key.0 (ground arith);
      value = value.0 (ground arith);
      headers = headers.0 (ground arith);
      partition = partition.0 (ground arith);
    },
    λ h. ground (arith, key.1 h.key, value.1 h.value, headers.1 h.headers, partition.1 h.partition),
  )
    where
      key :
          (prefixed {P = P} "invalid key: " (encode_value lib item.key item.key_encoding) ≡ none)
          ↔ IsEncoded lib item.key item.key_encoding
      key = encode_value-IsEncoded "invalid key: " item.key item.key_encoding

      value :
          (prefixed {P = P} "invalid value: " (encode_value lib item.value item.value_encoding)
            ≡ none)
          ↔ IsEncoded lib item.value item.value_encoding
      value = encode_value-IsEncoded "invalid value: " item.value item.value_encoding

      headers :
          (validate_headers {P = P} lib quoted item.headers ≡ none)
          ↔ All (λ (h : ProduceHeader). IsEncoded lib h.value h.value_encoding) item.headers
      headers = validate_headers-IsEncoded item.headers

      partition :
          (validate_partition {P = P} lib quoted item.partition count ≡ none)
          ↔ IsInRange item.partition count
      partition = validate_partition-IsInRange item.partition count
