-- ===== src/Core/Run.antt =====
-- internal/service/core/run.go: the gate check before every command.
use kafka3o_gateway.Prelude.{not, Option, none, some, List, ◌==◌, string_eq}
use kafka3o_gateway.Errors.{Err, Code, Result, err, code_of}
use kafka3o_gateway.Errors.Text.{code_string}
use kafka3o_gateway.Command.{Descriptor}
use kafka3o_gateway.Gates.{Caller, Policy}
use kafka3o_gateway.Audit.Schema.{Event, rejected, severity_for}
use kafka3o_gateway.Audit
use kafka3o_gateway.Audit.{Io, Sink}

pub record Runner (P : Type 0) : Type 0 where
  pub policy : Policy
  pub check : Caller → Descriptor → Policy → Option (Err P)

-- `code, _ := CodeOf(err)`: the zero Code is TierForbidden.
unfoldable pub code_or_zero : {P : Type 0} → Err P → Code
code_or_zero e = elim (code_of e) [ some c ↦ c | none ↦ Code.tier_forbidden ]

-- The REJECTED event that CheckAudited derives.
unfoldable pub rejection : {P : Type 0} → Caller → Descriptor → Event → Err P → Event
unfolding code_or_zero
rejection caller d attempt e = record attempt {
  outcome = rejected;
  severity = severity_for d.id rejected (not (caller.break_glass_reason == ""));
  error = some (code_string (code_or_zero e));
}

module _ {P W : Type 0} where
  -- run: `fn` is called only if the gate passes.
  unfoldable pub run :
      {A : Type 0} → Runner P → Caller → Descriptor → Io W (Result P A) → Io W (Result P A)
  run r caller d fn w = elim (r.check caller d r.policy) [ some e ↦ (err e, w) | none ↦ fn w ]

  -- CheckAudited
  unfoldable pub check_audited :
      Runner P → List (Sink P W) → Caller → Descriptor → Event → Io W (Option (Err P))
  check_audited r sinks caller d attempt w = elim (r.check caller d r.policy) [
    | none ↦ (none, w)
    | some e ↦ (some e, Audit.result sinks (rejection caller d attempt e) w)
  ]
