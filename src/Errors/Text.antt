-- ===== src/Errors/Text.antt =====
-- The texts of codes, kinds and errors: String() and Error() of internal/kafka/errors.go and
-- internal/service/core/errors.go.
use Prim.Native.String.{◌++◌}
use Prim.Native.Nat.{◌/◌, ◌%◌}
use kafka3o_gateway.Prelude.{
  ℕ, zero, suc, String, ℤ, pos, negsuc, ◌==◌, string_eq, ltb, if◌then◌else◌,
}
use kafka3o_gateway.Errors.{
  Kind, Code, Err, PolicyError, KafkaError, policy, kafka, kafka_caused, wrapped, other,
}

unfoldable pub kind_string : Kind → String
kind_string Kind.broker = "broker"
kind_string Kind.not_found = "not_found"
kind_string Kind.already_exists = "already_exists"
kind_string Kind.group_active = "group_active"
kind_string Kind.reassignment_in_progress = "reassignment_in_progress"
kind_string Kind.timeout = "timeout"
kind_string Kind.unavailable = "unavailable"
kind_string Kind.unsupported = "unsupported"

unfoldable pub code_string : Code → String
code_string Code.tier_forbidden = "TIER_FORBIDDEN"
code_string Code.read_only_mode = "READ_ONLY_MODE"
code_string Code.operation_disabled = "OPERATION_DISABLED"
code_string Code.data_plane_locked = "DATA_PLANE_LOCKED"
code_string Code.confirmation_mismatch = "CONFIRMATION_MISMATCH"
code_string Code.bound_exceeded = "BOUND_EXCEEDED"
code_string Code.validation = "VALIDATION_FAILED"
code_string Code.invalid_regex = "INVALID_REGEX"
code_string Code.invalid_json_path = "INVALID_JSONPATH"
code_string Code.bulk_validation_failed = "BULK_VALIDATION_FAILED"
code_string Code.audit_unavailable = "AUDIT_UNAVAILABLE"
code_string Code.payload_too_large = "PAYLOAD_TOO_LARGE"
code_string Code.partition_mismatch = "PARTITION_MISMATCH"
code_string Code.replay_failed = "KAFKA_ERROR"

-- A decimal digit.
digit : ℕ → String
digit zero = "0"
digit (suc zero) = "1"
digit (suc (suc zero)) = "2"
digit (suc (suc (suc zero))) = "3"
digit (suc (suc (suc (suc zero)))) = "4"
digit (suc (suc (suc (suc (suc zero))))) = "5"
digit (suc (suc (suc (suc (suc (suc zero)))))) = "6"
digit (suc (suc (suc (suc (suc (suc (suc zero))))))) = "7"
digit (suc (suc (suc (suc (suc (suc (suc (suc zero)))))))) = "8"
digit _ = "9"

-- Decimal digits; a number has no more digits than its successor as fuel.
show_fuel : ℕ → ℕ → String
unfolding digit
show_fuel zero n = ""
show_fuel (suc f) n =
    let rest = show_fuel f (n / 10) in if ltb n 10 then digit n else rest ++ digit (n % 10)

-- `%d`
unfoldable pub show_nat : ℕ → String
unfolding show_fuel
show_nat n = show_fuel (suc n) n

unfoldable pub show_int : ℤ → String
unfolding show_nat
show_int (pos n) = show_nat n
show_int (negsuc n) = "-" ++ show_nat (suc n)

policy_text : {P : Type 0} → PolicyError P → String
policy_text e =
    if e.message == ""
    then "policy: " ++ code_string e.code
    else ("policy: " ++ code_string e.code) ++ (": " ++ e.message)

kafka_text : KafkaError → String
kafka_text e =
    ("kafka: " ++ kind_string e.kind)
    ++ ((if e.resource == "" then "" else " (" ++ (e.resource ++ ")"))
        ++ (if e.kafka_name == ""
            then ""
            else " [" ++ (e.kafka_name ++ ("/" ++ (show_int e.kafka_code ++ "]")))))

-- err.Error()
unfoldable pub error_text : {P : Type 0} → Err P → String
unfolding policy_text kafka_text
error_text (policy e) = policy_text e
error_text (kafka e) = kafka_text e
error_text (kafka_caused e cause) = kafka_text e ++ (": " ++ error_text cause)
error_text (wrapped prefix e) = prefix ++ error_text e
error_text (other text) = text
