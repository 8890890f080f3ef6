-- ===== src/Errors.antt =====
-- The errors that cross the layers: internal/kafka/errors.go and internal/service/core/errors.go.
pub mod Text
pub mod Status
use kafka3o_gateway.Prelude.{
  ℕ, String, ℤ, ◌≡◌, ◌⊎◌, refl, inl, inr, Bool, true, false, Option, none, some, List, [], ◌∷◌,
  ◌==◌, if◌then◌else◌,
}
use kafka3o_gateway.Audit.Schema.{Outcome}

-- internal/kafka/errors.go
pub data Kind : Type 0 where
  broker not_found already_exists group_active reassignment_in_progress : Kind
  timeout unavailable unsupported : Kind

-- internal/service/core/errors.go
pub data Code : Type 0 where
  tier_forbidden read_only_mode operation_disabled data_plane_locked : Code
  confirmation_mismatch bound_exceeded validation invalid_regex invalid_json_path : Code
  bulk_validation_failed audit_unavailable payload_too_large partition_mismatch : Code
  replay_failed : Code

-- Kinds
unfoldable pub kinds : List Kind
kinds =
    Kind.broker ∷ Kind.not_found ∷ Kind.already_exists ∷ Kind.group_active
    ∷ Kind.reassignment_in_progress ∷ Kind.timeout ∷ Kind.unavailable ∷ Kind.unsupported ∷ []

-- Codes
unfoldable pub codes : List Code
codes =
    Code.tier_forbidden ∷ Code.read_only_mode ∷ Code.operation_disabled ∷ Code.data_plane_locked
    ∷ Code.confirmation_mismatch ∷ Code.bound_exceeded ∷ Code.validation ∷ Code.invalid_regex
    ∷ Code.invalid_json_path ∷ Code.bulk_validation_failed ∷ Code.audit_unavailable
    ∷ Code.payload_too_large ∷ Code.partition_mismatch ∷ Code.replay_failed ∷ []

-- One item of a bulk operation (core/bulk.go), which the error's details may list.
pub record BulkItemResult : Type 0 where
  pub index : ℕ
  pub outcome : Outcome
  pub error : String

-- The `Details` maps that the services build. `P` is the plan type of a destructive command.
pub data Details (P : Type 0) : Type 0 where
  no_details : Details P
  plan : P → Details P
  items : List BulkItemResult → Details P
  progress : ℕ → List (ℤ × ℤ) → Details P

pub record PolicyError (P : Type 0) : Type 0 where
  pub code : Code
  pub message : String
  pub details : Details P

-- The fields of *kafka.Error but for its cause.
pub record KafkaError : Type 0 where
  pub kind : Kind
  pub resource : String
  pub kafka_code : ℤ
  pub kafka_name : String

-- A Go error: one of the two error types, `fmt.Errorf("…%w")` around another, or any other error
-- by its text.
pub data Err (P : Type 0) : Type 0 where
  policy : PolicyError P → Err P
  kafka : KafkaError → Err P
  kafka_caused : KafkaError → Err P → Err P
  wrapped : String → Err P → Err P
  other : String → Err P

pub data Result {ℓ} (P : Type 0) (A : Type ℓ) : Type ℓ where
  ok : A → Result P A
  err : Err P → Result P A

-- `a, err := m; if err != nil { return err }`
infixl 10 ◌>>=◌
abbrev pub ◌>>=◌ {ℓ κ} :
    {P : Type 0} {A : Type ℓ} {B : Type κ} → Result P A → (A → Result P B) → Result P B
ok a >>= f = f a
err e >>= f = err e

pub Result-cases {ℓ} :
    {P : Type 0} {A : Type ℓ} (m : Result P A)
    → ((e : Err P) × (m ≡ err e)) ⊎ ((a : A) × (m ≡ ok a))
Result-cases (ok a) = inr (a, refl)
Result-cases (err e) = inl (e, refl)

-- &PolicyError{Code: c}
abbrev pub gate_error : {P : Type 0} → Code → Err P
gate_error c = policy (record { code = c; message = ""; details = no_details })

-- CodeOf: errors.As follows the chain of wrapped errors to the first *PolicyError.
unfoldable pub code_of : {P : Type 0} → Err P → Option Code
code_of (policy e) = some e.code
code_of (kafka e) = none
code_of (kafka_caused e cause) = code_of cause
code_of (wrapped prefix e) = code_of e
code_of (other text) = none

-- KindOf: the first *kafka.Error of the chain.
unfoldable pub kind_of : {P : Type 0} → Err P → Option Kind
kind_of (policy e) = none
kind_of (kafka e) = some e.kind
kind_of (kafka_caused e cause) = some e.kind
kind_of (wrapped prefix e) = kind_of e
kind_of (other text) = none

-- `results[0]`. The port answers a request for one item with one result; an empty answer makes Go
-- panic, which the model returns as this error.
abbrev pub first_result : {P A : Type 0} → List A → Result P A
first_result [] = err (other "index out of range")
first_result (r ∷ rs) = ok r
