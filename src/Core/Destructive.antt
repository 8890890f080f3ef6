-- ===== src/Core/Destructive.antt =====
-- internal/service/core/destructive.go: gate, plan, dry run, confirmation, ATTEMPT, apply, RESULT.
pub mod Steps
pub mod Bypass
pub mod Trace
use kafka3o_gateway.Prelude.{
  ℕ, String, ℤ, ◌-ℤ◌, div_trunc, ◌≡◌, Bool, true, false, not, Option, none, some, List, ◌==◌,
  string_eq, if◌then◌else◌,
}
use kafka3o_gateway.Errors.{
  Err, policy, kafka, Result, ok, err, code_of, kind_of, no_details, plan, confirmation_mismatch,
  audit_unavailable,
}
use kafka3o_gateway.Errors.Text.{code_string, kind_string, error_text}
use kafka3o_gateway.Command.{Descriptor}
use kafka3o_gateway.Gates.{Caller}
use kafka3o_gateway.Audit.Schema.{Event, Outcome, succeeded, failed, severity_for}
use kafka3o_gateway.Audit
use kafka3o_gateway.Audit.{Io, Sink}
use kafka3o_gateway.Core.Run.{Runner, check_audited}

-- Result[P, T]. Where the source leaves Plan or Value at its type's zero value, the field is `none`.
pub record DestructiveResult (P T : Type 0) : Type 0 where
  pub dry_run : Bool
  pub plan : Option P
  pub value : Option T

abbrev pub zero_result : {P T : Type 0} → DestructiveResult P T
zero_result = record { dry_run = false; plan = none; value = none }

-- `d.Milliseconds()` of a difference of times in nanoseconds
unfoldable pub milliseconds_between : ℤ → ℤ → ℤ
milliseconds_between later earlier = div_trunc (later -ℤ earlier) 1000000

-- destructiveErrCode
unfoldable pub destructive_err_code : {P : Type 0} → Err P → String
destructive_err_code e = elim (code_of e) [
  | some c ↦ code_string c
  | none ↦ elim (kind_of e) [ some k ↦ kind_string k | none ↦ "INTERNAL" ]
]

-- resultEvent, at the time that the clock shows; the empty error code is `none`.
unfoldable pub result_event : ℤ → Event → Outcome → Option String → Event
unfolding milliseconds_between
result_event time attempt outcome err_code = record attempt {
  timestamp = time;
  outcome = outcome;
  severity =
      severity_for attempt.command_id outcome
        (elim attempt.break_glass [ none ↦ false | some _ ↦ true ]);
  duration_ms = some (milliseconds_between time attempt.timestamp);
  error = elim err_code [ none ↦ attempt.error | some c ↦ some c ];
}

module _ {P T W : Type 0} (now : Io W ℤ) (r : Runner P) (sinks : List (Sink P W))
    (confirm_target : P → String) (make_plan : Io W (Result P P))
    (apply : P → Io W (Result P T)) where
  -- auditor.Result(ctx, resultEvent(attempt, outcome, errCode))
  pub report : Event → Outcome → Option String → W → W
  report attempt outcome err_code w =
      let (time, w') = now w in Audit.result sinks (result_event time attempt outcome err_code) w'

  -- From the apply call on.
  pub finish : Event → P → Io W (DestructiveResult P T × Option (Err P))
  unfolding report
  finish attempt p w =
      let (applied, w') = apply p w in
      elim applied [
        | err e ↦ (
          (record { dry_run = false; plan = some p; value = none }, some e),
          report attempt failed (some (destructive_err_code e)) w',
        )
        | ok v ↦ (
          (record { dry_run = false; plan = some p; value = some v }, none),
          report attempt succeeded none w',
        )
      ]

  -- From the ATTEMPT event on.
  pub commit : Event → P → Io W (DestructiveResult P T × Option (Err P))
  unfolding finish
  commit attempt p w =
      let (refused, w') = Audit.attempt sinks attempt w in
      elim refused [
        | some e ↦ (
          (
            zero_result,
            some (
                policy (record {
                  code = audit_unavailable;
                  message = error_text e;
                  details = no_details;
                })),
          ),
          w',
        )
        | none ↦ finish attempt p w'
      ]

  -- From the plan's success on.
  pub proceed : Event → String → Bool → P → Io W (DestructiveResult P T × Option (Err P))
  unfolding commit
  proceed attempt confirm dry_run p w =
      let event = record attempt { dry_run = dry_run } in
      if dry_run
      then (
        (record { dry_run = true; plan = some p; value = none }, none),
        report event succeeded none w,
      )
      else if not (confirm == confirm_target p)
      then (
        (
          zero_result,
          some (policy (record { code = confirmation_mismatch; message = ""; details = plan p })),
        ),
        w,
      )
      else commit event p w

  unfoldable pub destructive :
      Caller → Descriptor → Event → String → Bool → Io W (DestructiveResult P T × Option (Err P))
  unfolding proceed
  destructive caller d attempt confirm dry_run w =
      let (rejected, w₁) = check_audited r sinks caller d attempt w in
      elim rejected [
        | some e ↦ ((zero_result, some e), w₁)
        | none ↦
            let (planned, w₂) = make_plan w₁ in
            elim planned [
              | err e ↦ ((zero_result, some e), w₂)
              | ok p ↦ proceed attempt confirm dry_run p w₂
            ]
      ]
