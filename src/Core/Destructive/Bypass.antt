-- ===== src/Core/Destructive/Bypass.antt =====
-- When apply must not run: internal/service/core/destructive.go. That a call does not run `apply` is
-- stated as that its result and final state are the same whatever `apply` is.
use kafka3o_gateway.Prelude.{
  String, ℤ, ◌≡◌, refl, sym, ◌∙◌, Option, Bool, true, false, none, some, List, ◌==◌, arith, eq_iff,
  string_eq, inl, inr, Bool-cases, Option-cases,
}
use kafka3o_gateway.Errors.{Err, Result, ok, Result-cases}
use kafka3o_gateway.Command.{Descriptor}
use kafka3o_gateway.Gates.{Caller}
use kafka3o_gateway.Audit.Schema.{Event}
use kafka3o_gateway.Audit
use kafka3o_gateway.Audit.{Io, Sink}
use kafka3o_gateway.Core.Run.{Runner, check_audited, rejection}
use kafka3o_gateway.Core.Destructive.{destructive, zero_result, report, finish}
use kafka3o_gateway.Core.Destructive.Steps.{destructive-proceed, proceed-finish}

-- What the sinks answered to the ATTEMPT that follows the plan, and the state that they left.
abbrev pub attempted :
    {P W : Type 0} → List (Sink P W) → Io W (Result P P) → Event → W → Option (Err P) × W
attempted sinks make_plan event w =
    Audit.attempt sinks (record event { dry_run = false }) (make_plan w).1

module _ {P W : Type 0} (r : Runner P) (sinks : List (Sink P W)) (confirm_target : P → String)
    (make_plan : Io W (Result P P)) (caller : Caller) (d : Descriptor) (event : Event)
    (confirm : String) (w : W) where
  -- All that must hold before a plan is applied: the gate passed, the plan was made and confirmed, and
  -- every sink took the ATTEMPT.
  pub record IsCleared (p : P) : Type 0 where
    pub passes : r.check caller d r.policy ≡ none
    pub planned : (make_plan w).0 ≡ ok p
    pub confirmed : confirm ≡ confirm_target p
    pub audited : (attempted sinks make_plan event w).0 ≡ none

module _ {P T W : Type 0} (now : Io W ℤ) (r : Runner P) (sinks : List (Sink P W))
    (confirm_target : P → String) (make_plan : Io W (Result P P)) (caller : Caller) (d : Descriptor)
    (event : Event) (confirm : String) (w : W) where
  -- A rejected call neither plans nor applies: it returns the gate's error, and all it does is to
  -- write the one REJECTED event.
  pub destructive-rejected :
      (apply : P → Io W (Result P T)) (dry_run : Bool) (e : Err P)
      → r.check caller d r.policy ≡ some e
      → destructive now r sinks confirm_target make_plan apply caller d event confirm dry_run w
        ≡ ((zero_result, some e), Audit.result sinks (rejection caller d event e) w)
  unfolding destructive check_audited
  destructive-rejected apply dry_run e h = ground arith

  -- A dry run never applies, and its confirmation is not looked at.
  pub destructive-dry_run :
      (apply apply' : P → Io W (Result P T)) (confirm' : String)
      → destructive now r sinks confirm_target make_plan apply caller d event confirm true w
        ≡ destructive now r sinks confirm_target make_plan apply' caller d event confirm' true w
  unfolding destructive check_audited
  destructive-dry_run apply apply' confirm' = ground arith

  finish-agree :
      (apply apply' : P → Io W (Result P T)) (p : P)
      → apply p (attempted sinks make_plan event w).1
        ≡ apply' p (attempted sinks make_plan event w).1
      → finish now r sinks confirm_target make_plan apply
          (record event { dry_run = false })
          p
          (attempted sinks make_plan event w).1
        ≡ finish now r sinks confirm_target make_plan apply'
            (record event { dry_run = false })
            p
            (attempted sinks make_plan event w).1
  unfolding finish report
  finish-agree apply apply' p same =
      let result : (apply p (attempted sinks make_plan event w).1).0
          ≡ (apply' p (attempted sinks make_plan event w).1).0 =
        λ i. (same i).0 in
      let left : (apply p (attempted sinks make_plan event w).1).1
          ≡ (apply' p (attempted sinks make_plan event w).1).1 =
        λ i. (same i).1 in
      elim (Result-cases (apply' p (attempted sinks make_plan event w).1).0) [
        | inl (e, failed) ↦ ground (arith, result, left, failed)
        | inr (v, done) ↦ ground (arith, result, left, done)
      ]

  cleared-finish :
      (apply : P → Io W (Result P T)) (p : P)
      → r.check caller d r.policy ≡ none
      → (make_plan w).0 ≡ ok p
      → confirm ≡ confirm_target p
      → (attempted sinks make_plan event w).0 ≡ none
      → destructive now r sinks confirm_target make_plan apply caller d event confirm false w
        ≡ finish now r sinks confirm_target make_plan apply
            (record event { dry_run = false })
            p
            (attempted sinks make_plan event w).1
  cleared-finish apply p passes planned confirmed audited =
      destructive-proceed now r sinks confirm_target make_plan apply caller d event confirm false w
        p passes planned
      ∙ proceed-finish now r sinks confirm_target make_plan apply caller d event confirm false
          (make_plan w).1 p confirmed audited

  -- What a call returns and leaves is the same for any two apply steps that agree, in the state that the
  -- ATTEMPT left, on a plan that the gate let through, that was made and confirmed, and whose ATTEMPT
  -- every sink took, if it is no dry run: apply runs there or not at all.
  pub destructive-AgreeOnPlan :
      (apply apply' : P → Io W (Result P T)) (dry_run : Bool)
      → ((p : P)
          → dry_run ≡ false
          → IsCleared r sinks confirm_target make_plan caller d event confirm w p
          → apply p (attempted sinks make_plan event w).1
            ≡ apply' p (attempted sinks make_plan event w).1)
      → destructive now r sinks confirm_target make_plan apply caller d event confirm dry_run w
        ≡ destructive now r sinks confirm_target make_plan apply' caller d event confirm dry_run w
  unfolding destructive check_audited
  destructive-AgreeOnPlan apply apply' true agree = destructive-dry_run apply apply' confirm
  destructive-AgreeOnPlan apply apply' false agree =
      elim (Option-cases (r.check caller d r.policy)) [
        | inr (e, rejects) ↦ ground (arith, rejects)
        | inl passes ↦ elim (Result-cases (make_plan w).0) [
          | inl (e, failed) ↦ ground (arith, passes, failed)
          | inr (p, planned) ↦ elim (Bool-cases (confirm == confirm_target p)) [
            | inr differs ↦ ground (arith, passes, planned, differs)
            | inl same ↦ elim (Option-cases (attempted sinks make_plan event w).0) [
              | inr (e, refused) ↦ ground (arith, passes, planned, same, refused)
              | inl audited ↦
                  let confirmed = (eq_iff confirm (confirm_target p)).0 same in
                  let cleared : IsCleared r sinks confirm_target make_plan caller d event confirm w
                      p =
                    record {
                      passes = passes;
                      planned = planned;
                      confirmed = confirmed;
                      audited = audited;
                    } in
                  cleared-finish apply p passes planned confirmed audited
                  ∙ finish-agree apply apply' p (agree p refl cleared)
                  ∙ sym (cleared-finish apply' p passes planned confirmed audited)
            ]
          ]
        ]
      ]
