-- ===== src/Gates.antt =====
-- internal/service/core/{caller,policy}.go and internal/service/gates/check.go: who is calling, what
-- is configured, and the gate check that every command passes first.
pub mod Laws
use kafka3o_gateway.Prelude.{
  String, ◌≡◌, Bool, true, false, not, ◌&&◌, ◌||◌, Option, none, some, ◌==◌, string_eq,
  if◌then◌else◌,
}
use kafka3o_gateway.Prelude.Map
use kafka3o_gateway.Prelude.Map.{Map}
use kafka3o_gateway.Errors.{
  Err, gate_error, tier_forbidden, read_only_mode, operation_disabled, data_plane_locked,
}
use kafka3o_gateway.Command.{Access, r, w, Descriptor}

abbrev pub tier_reader : String
tier_reader = "reader"

abbrev pub tier_operator : String
tier_operator = "operator"

-- The empty break-glass reason is an absent one.
pub record Caller : Type 0 where
  pub key_id : Option String
  pub tier : String
  pub break_glass_reason : String
  pub request_id : String
  pub client_ip : String
  pub client : String

pub record Policy : Type 0 where
  pub auth_enabled : Bool
  pub read_only : Bool
  pub data_plane_lock : Bool
  pub disabled : Map String Bool

abbrev pub is_write : Access → Bool
is_write w = true
is_write r = false

-- The data-plane half of Check (nodes J to K3).
check_lock : {P : Type 0} → Caller → Descriptor → Policy → Option (Err P)
check_lock caller descriptor policy =
    if descriptor.data_plane && policy.data_plane_lock
    then (if caller.break_glass_reason == "" || not (caller.tier == tier_operator)
        then some (gate_error data_plane_locked)
        else none)
    else none

-- Check; `none` is Go's nil error.
unfoldable pub check : {P : Type 0} → Caller → Descriptor → Policy → Option (Err P)
unfolding check_lock Map.get_or
check caller descriptor policy =
    if is_write descriptor.access
    then (if not (caller.tier == tier_operator)
        then some (gate_error tier_forbidden)
        else if policy.read_only
        then some (gate_error read_only_mode)
        else if Map.get_or false descriptor.id policy.disabled
        then some (gate_error operation_disabled)
        else check_lock caller descriptor policy)
    else check_lock caller descriptor policy
