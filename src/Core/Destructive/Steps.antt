-- ===== src/Core/Destructive/Steps.antt =====
-- The stages of a destructive command as equations: internal/service/core/destructive.go.
use kafka3o_gateway.Prelude.{
  String, ℤ, ◌≡◌, ◌≢◌, refl, Bool, true, false, eq_iff, none, some, List, arith,
}
use kafka3o_gateway.Errors.{Err, Result, ok, err}
use kafka3o_gateway.Command.{Descriptor}
use kafka3o_gateway.Gates.{Caller}
use kafka3o_gateway.Audit.Schema.{Event, succeeded}
use kafka3o_gateway.Audit
use kafka3o_gateway.Audit.{Io, Sink}
use kafka3o_gateway.Core.Run.{Runner, check_audited}
use kafka3o_gateway.Core.Destructive.{destructive, zero_result, proceed, report, finish}

module _ {P T W : Type 0} (now : Io W ℤ) (r : Runner P) (sinks : List (Sink P W))
    (confirm_target : P → String) (make_plan : Io W (Result P P)) (apply : P → Io W (Result P T))
    (caller : Caller) (d : Descriptor) (event : Event) (confirm : String) (dry_run : Bool)
    (w : W) where
  pub destructive-plan_error :
      (e : Err P)
      → r.check caller d r.policy ≡ none
      → (make_plan w).0 ≡ err e
      → destructive now r sinks confirm_target make_plan apply caller d event confirm dry_run w
        ≡ ((zero_result, some e), (make_plan w).1)
  unfolding destructive check_audited
  destructive-plan_error e passes planned = ground arith

  pub destructive-proceed :
      (p : P)
      → r.check caller d r.policy ≡ none
      → (make_plan w).0 ≡ ok p
      → destructive now r sinks confirm_target make_plan apply caller d event confirm dry_run w
        ≡ proceed now r sinks confirm_target make_plan apply event confirm dry_run p (make_plan w).1
  unfolding destructive check_audited
  destructive-proceed p passes planned = ground arith

  pub proceed-dry_run :
      (p : P)
      → proceed now r sinks confirm_target make_plan apply event confirm true p w ≡ (
        (record { dry_run = true; plan = some p; value = none }, none),
        report now r sinks confirm_target make_plan apply
            (record event { dry_run = true })
            succeeded
            none
            w,
      )
  unfolding proceed
  proceed-dry_run p = refl

  pub proceed-mismatch :
      (p : P)
      → confirm ≢ confirm_target p
      → (proceed now r sinks confirm_target make_plan apply event confirm false p w).1 ≡ w
  unfolding proceed
  proceed-mismatch p differs = ground (arith, eq_iff confirm (confirm_target p))

  pub proceed-refused :
      (p : P) (e : Err P)
      → confirm ≡ confirm_target p
      → (Audit.attempt sinks (record event { dry_run = false }) w).0 ≡ some e
      → (proceed now r sinks confirm_target make_plan apply event confirm false p w).1
        ≡ (Audit.attempt sinks (record event { dry_run = false }) w).1
  unfolding proceed
  proceed-refused p e confirmed refused = ground (arith, eq_iff confirm (confirm_target p))

  pub proceed-finish :
      (p : P)
      → confirm ≡ confirm_target p
      → (Audit.attempt sinks (record event { dry_run = false }) w).0 ≡ none
      → proceed now r sinks confirm_target make_plan apply event confirm false p w
        ≡ finish now r sinks confirm_target make_plan apply
            (record event { dry_run = false })
            p
            (Audit.attempt sinks (record event { dry_run = false }) w).1
  unfolding proceed
  proceed-finish p confirmed accepted = ground (arith, eq_iff confirm (confirm_target p))
