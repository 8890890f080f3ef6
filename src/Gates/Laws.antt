-- ===== src/Gates/Laws.antt =====
-- What the gate check lets through: internal/service/gates/check.go.
use kafka3o_gateway.Prelude.{◌≡◌, ◌≢◌, ◌↔◌, true, false, none, arith, eq_iff, string_eq}
use kafka3o_gateway.Prelude.Map
use kafka3o_gateway.Command.{w, Descriptor}
use kafka3o_gateway.Gates.{Caller, Policy, tier_operator, check}

-- The rules of the functional specification, independent of the order of the code's tests: a write
-- needs an operator, no read-only mode and an enabled operation, and a data-plane command under the
-- lock needs an operator with a reason.
pub record IsAllowed (caller : Caller) (d : Descriptor) (policy : Policy) : Type 0 where
  pub operator : d.access ≡ w → caller.tier ≡ tier_operator
  pub writable : d.access ≡ w → policy.read_only ≡ false
  pub enabled : d.access ≡ w → Map.get_or false d.id policy.disabled ≡ false
  pub unlocked :
      d.data_plane ≡ true
      → policy.data_plane_lock ≡ true
      → (caller.break_glass_reason ≢ "") × (caller.tier ≡ tier_operator)

-- The check passes exactly the calls that the rules allow.
pub check-IsAllowed :
    {P : Type 0} (caller : Caller) (d : Descriptor) (policy : Policy)
    → (check {P = P} caller d policy ≡ none) ↔ IsAllowed caller d policy
unfolding check
check-IsAllowed caller d policy = (
  λ h. ground (arith, eq_iff caller.break_glass_reason "", eq_iff caller.tier tier_operator),
  λ a. ground (arith, eq_iff caller.break_glass_reason "", eq_iff caller.tier tier_operator),
)
