-- ===== src/Errors/Status.antt =====
-- internal/api/errors/tables.go: the HTTP status and the wire code of each kind and code. Both tables
-- have a row for every key, so a lookup is a function.
use Prim.Native.Nat.{◌≤◌}
use kafka3o_gateway.Prelude.{ℕ, String, ◌≡◌, arith}
use kafka3o_gateway.Errors.{Kind, Code}
use kafka3o_gateway.Errors.Text.{code_string}

-- httpMapping
pub record HttpMapping : Type 0 where
  pub status : ℕ
  pub code : String

abbrev mapping : ℕ → String → HttpMapping
mapping s c = record { status = s; code = c }

-- kindTable
unfoldable pub kind_table : Kind → HttpMapping
kind_table Kind.not_found = mapping 404 "NOT_FOUND"
kind_table Kind.already_exists = mapping 409 "ALREADY_EXISTS"
kind_table Kind.group_active = mapping 409 "GROUP_ACTIVE"
kind_table Kind.reassignment_in_progress = mapping 409 "REASSIGNMENT_IN_PROGRESS"
kind_table Kind.timeout = mapping 504 "KAFKA_TIMEOUT"
kind_table Kind.unavailable = mapping 503 "CLUSTER_UNAVAILABLE"
kind_table Kind.unsupported = mapping 502 "KAFKA_ERROR"
kind_table Kind.broker = mapping 502 "KAFKA_ERROR"

-- codeTable
unfoldable pub code_table : Code → HttpMapping
code_table Code.tier_forbidden = mapping 403 "TIER_FORBIDDEN"
code_table Code.read_only_mode = mapping 403 "READ_ONLY_MODE"
code_table Code.operation_disabled = mapping 403 "OPERATION_DISABLED"
code_table Code.data_plane_locked = mapping 403 "DATA_PLANE_LOCKED"
code_table Code.confirmation_mismatch = mapping 400 "CONFIRMATION_MISMATCH"
code_table Code.bound_exceeded = mapping 400 "BOUND_EXCEEDED"
code_table Code.validation = mapping 400 "VALIDATION_FAILED"
code_table Code.invalid_regex = mapping 400 "INVALID_REGEX"
code_table Code.invalid_json_path = mapping 400 "INVALID_JSONPATH"
code_table Code.bulk_validation_failed = mapping 400 "BULK_VALIDATION_FAILED"
code_table Code.audit_unavailable = mapping 503 "AUDIT_UNAVAILABLE"
code_table Code.payload_too_large = mapping 413 "PAYLOAD_TOO_LARGE"
code_table Code.partition_mismatch = mapping 400 "PARTITION_MISMATCH"
code_table Code.replay_failed = mapping 502 "KAFKA_ERROR"

-- The wire code of a policy error is the name that its code prints, and its status is that of a client
-- or a server error.
pub code_table-code_string :
    (c : Code)
    → ((code_table c).code ≡ code_string c)
      × (400 ≤ (code_table c).status)
      × ((code_table c).status ≤ 599)
unfolding code_table code_string
code_table-code_string c = ground arith
