-- ===== src/Message/Tombstone.antt =====
-- internal/service/message/tombstone.go: write a record without a value for a key.
use kafka3o_gateway.Prelude.{ℤ, String, Option, none, some, List, [], ◌∷◌, map}
use kafka3o_gateway.Errors.{
  Err, Result, ok, err, ◌>>=◌, policy, validation, audit_unavailable, no_details, first_result,
}
use kafka3o_gateway.Errors.Text.{error_text}
use kafka3o_gateway.Gates.{Caller}
use kafka3o_gateway.Audit.Schema.{Event, succeeded, failed}
use kafka3o_gateway.Audit
use kafka3o_gateway.Audit.{Io}
use kafka3o_gateway.Scan.Types.{Text}
use kafka3o_gateway.Scan.Codec.{Encodings, encode_value}
use kafka3o_gateway.Message.Service.{Service, ProduceRequest, ProduceResult}
use kafka3o_gateway.Message.Events.{check_gate, new_event, result_event_outcome, err_code_of}
use kafka3o_gateway.Message.Produce.{
  ProduceHeader, validate_headers, validate_partition, encoded, header_of, partition_count,
  zero_time, prefixed, or_else,
}

pub record TombstoneItem : Type 0 where
  pub key : Text
  pub key_encoding : String
  pub partition : Option ℤ
  pub headers : List ProduceHeader

pub record TombstoneResult : Type 0 where
  pub partition : ℤ
  pub offset : ℤ

-- validateTombstoneItem
unfoldable pub validate_tombstone_item :
    {P : Type 0} → Encodings → (String → String) → ℤ → TombstoneItem → Option (Err P)
unfolding validate_headers validate_partition
validate_tombstone_item lib quoted count item =
    or_else (prefixed "invalid key: " (encode_value lib item.key item.key_encoding)) (
      or_else (validate_headers lib quoted item.headers)
        (validate_partition lib quoted item.partition count))

-- The request of produceTombstone: its value is nil.
unfoldable pub tombstone_request : Encodings → TombstoneItem → ProduceRequest
tombstone_request lib item = record {
  key = encoded lib item.key item.key_encoding;
  value = none;
  headers = map (header_of lib) item.headers;
  partition = item.partition;
  timestamp = zero_time;
}

-- What produceTombstone makes of the producer's answer.
unfoldable pub tombstone_result :
    {P : Type 0} → Result P (List (ProduceResult P)) → Result P TombstoneResult
tombstone_result answer = answer >>= λ results. first_result results >>= λ r. elim r.error [
  | some e ↦ err e
  | none ↦ ok (record { partition = r.partition; offset = r.offset })
]

module _ {P W : Type 0} (lib : Encodings) (quoted : String → String) (s : Service P W) where
  -- produceTombstone
  unfoldable pub produce_tombstone : String → TombstoneItem → Io W (Result P TombstoneResult)
  unfolding tombstone_request tombstone_result
  produce_tombstone topic item w =
      let (answer, w') = s.produce topic (tombstone_request lib item ∷ []) w in
      (tombstone_result answer, w')

  -- Tombstone from produceTombstone on
  unfoldable pub finish_tombstone : Event → String → TombstoneItem → Io W (Result P TombstoneResult)
  unfolding produce_tombstone result_event_outcome err_code_of
  finish_tombstone attempt topic item w =
      let (answer, w₁) = produce_tombstone topic item w in
      elim answer [
        | err e ↦
            let (event, w₂) = result_event_outcome s attempt failed (some (err_code_of e)) w₁ in
            (err e, Audit.result s.sinks event w₂)
        | ok r ↦
            let (event, w₂) = result_event_outcome s attempt succeeded none w₁ in
            (ok r, Audit.result s.sinks event w₂)
      ]

  -- Tombstone from the ATTEMPT on
  unfoldable pub attempt_tombstone :
      Caller → String → TombstoneItem → Io W (Result P TombstoneResult)
  unfolding new_event finish_tombstone
  attempt_tombstone caller topic item w =
      let (attempt, w₁) = new_event s caller "M7" topic w in
      let (refused, w₂) = Audit.attempt s.sinks attempt w₁ in
      elim refused [
        | some e ↦ (
          err (
              policy (record {
                code = audit_unavailable;
                message = error_text e;
                details = no_details;
              })),
          w₂,
        )
        | none ↦ finish_tombstone attempt topic item w₂
      ]

  -- Tombstone
  unfoldable pub tombstone : Caller → String → TombstoneItem → Io W (Result P TombstoneResult)
  unfolding check_gate partition_count validate_tombstone_item attempt_tombstone
  tombstone caller topic item w =
      let (rejected, w₁) = check_gate s caller "M7" topic w in
      let (counted, w₂) = partition_count lib quoted s topic w₁ in
      elim rejected [
        | some e ↦ (err e, w₁)
        | none ↦ elim counted [
          | err e ↦ (err e, w₂)
          | ok count ↦ elim (validate_tombstone_item {P = P} lib quoted count item) [
            | some e ↦ (
              err (
                  policy
                    (record { code = validation; message = error_text e; details = no_details })),
              w₂,
            )
            | none ↦ attempt_tombstone caller topic item w₂
          ]
        ]
      ]
