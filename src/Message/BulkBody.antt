-- ===== src/Message/BulkBody.antt =====
-- internal/service/message/producebulk.go: the records of an uploaded body. bytes.TrimSpace and
-- json.Unmarshal are parameters.
use Prim.Native.String.{◌++◌ as append}
use kafka3o_gateway.Prelude.{
  ℕ, suc, pos, pos_part, ◌+ℤ◌, ltb_ℤ, leb, eqb, String, Bool, Option, none, some, List, [], ◌∷◌,
  length, take, if◌then◌else◌,
}
use kafka3o_gateway.Prelude.Machine.{wrap}
use kafka3o_gateway.Errors.{
  Err, Result, ok, err, ◌>>=◌, policy, validation, payload_too_large, no_details, wrapped,
}
use kafka3o_gateway.Errors.Text.{error_text, show_nat, show_int}
use kafka3o_gateway.Gates.{Caller}
use kafka3o_gateway.Audit.{Io}
use kafka3o_gateway.Scan.Codec.{Encodings}
use kafka3o_gateway.Message.Service.{Service}
use kafka3o_gateway.Message.Events.{check_gate}
use kafka3o_gateway.Message.Produce.{ProduceItem, ProduceReport, produce_checked}

-- A body: its bytes, and the error that reading past them meets, if any.
pub record Body (P : Type 0) : Type 0 where
  pub bytes : List ℕ
  pub failure : Option (Err P)

-- io.ReadAll of a body that io.LimitReader cuts at `n` bytes
unfoldable pub read_limited : {P : Type 0} → ℕ → Body P → Result P (List ℕ)
read_limited n body =
    if leb n (length body.bytes) then ok (take n body.bytes) else elim body.failure [
      | some e ↦ err (wrapped "message: read bulk body: " e)
      | none ↦ ok body.bytes
    ]

-- The lines of bufio.ScanLines, each without a final carriage return; a last empty line changes
-- nothing, since blank lines are skipped.
abbrev without_return : List ℕ → List ℕ
without_return [] = []
without_return (b ∷ []) = if eqb b 13 then [] else b ∷ []
without_return (b ∷ c ∷ bs) = b ∷ without_return (c ∷ bs)

abbrev first_line : ℕ → List (List ℕ) → List (List ℕ)
first_line b [] = (b ∷ []) ∷ []
first_line b (l ∷ ls) = (b ∷ l) ∷ ls

unfoldable pub split_lines : List ℕ → List (List ℕ)
split_lines [] = [] ∷ []
split_lines (b ∷ bs) =
    let rest = split_lines bs in if eqb b 10 then [] ∷ rest else first_line b rest

abbrev invalid : {P A : Type 0} → String → Err P → Result P A
invalid prefix e = err (
    policy
      (record { code = validation; message = append prefix (error_text e); details = no_details }))

module _ {P : Type 0} (trim : List ℕ → List ℕ) (unmarshal : List ℕ → Result P ProduceItem) where
  -- The loop of parseNDJSON, with the number of the lines before.
  unfoldable pub parse_lines : ℕ → List (List ℕ) → Result P (List ProduceItem)
  parse_lines line [] = ok []
  parse_lines line (l ∷ ls) =
      let rest = parse_lines (suc line) ls in
      elim (trim (without_return l)) [
        | [] ↦ rest
        | b ∷ bs ↦ elim (unmarshal (b ∷ bs)) [
          | err e ↦ invalid (append "line " (append (show_nat (suc line)) ": invalid JSON: ")) e
          | ok item ↦ rest >>= λ items. ok (item ∷ items)
        ]
      ]

  -- parseNDJSON
  unfoldable pub parse_ndjson : List ℕ → Result P (List ProduceItem)
  unfolding parse_lines split_lines
  parse_ndjson bytes = parse_lines 0 (split_lines bytes)

-- parseJSONArray
unfoldable pub parse_json_array :
    {P : Type 0} → (List ℕ → Result P (List ProduceItem)) → List ℕ → Result P (List ProduceItem)
parse_json_array unmarshal_all bytes = elim (unmarshal_all bytes) [
  | ok items ↦ ok items
  | err e ↦ invalid "invalid JSON array body: " e
]

module _ {P W : Type 0} (lib : Encodings) (quoted : String → String) (trim : List ℕ → List ℕ)
    (unmarshal : List ℕ → Result P ProduceItem)
    (unmarshal_all : List ℕ → Result P (List ProduceItem)) (s : Service P W) where
  -- parseBulkBody
  unfoldable pub parse_bulk_body : Body P → Bool → Result P (List ProduceItem)
  unfolding read_limited parse_ndjson parse_json_array
  parse_bulk_body body ndjson =
      let limit = s.bounds.max_bulk_body_bytes in
      read_limited (pos_part (wrap (limit +ℤ pos 1))) body >>= λ bytes.
      if ltb_ℤ limit (pos (length bytes))
      then err (
          policy (record {
            code = payload_too_large;
            message = append "request body exceeds the " (append (show_int limit) " byte limit");
            details = no_details;
          }))
      else if ndjson
      then parse_ndjson trim unmarshal bytes
      else parse_json_array unmarshal_all bytes

  -- ProduceBulk
  unfoldable pub produce_bulk : Caller → String → Body P → Bool → Io W (Result P ProduceReport)
  unfolding check_gate parse_bulk_body produce_checked
  produce_bulk caller topic body ndjson w =
      let (rejected, w₁) = check_gate s caller "M6" topic w in
      elim rejected [
        | some e ↦ (err e, w₁)
        | none ↦ elim (parse_bulk_body body ndjson) [
          | err e ↦ (err e, w₁)
          | ok items ↦ produce_checked lib quoted s caller "M6" topic items w₁
        ]
      ]
