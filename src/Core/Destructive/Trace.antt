-- ===== src/Core/Destructive/Trace.antt =====
-- The order of audit events and of changes to the cluster in a destructive command, over the
-- recording sink: internal/service/core/destructive.go, internal/audit/auditor.go.
use kafka3o_gateway.Prelude.{
  String, ℤ, ◌≡◌, ◌⊎◌, refl, sym, ap, ◌∙◌, inl, inr, Bool, true, false, Option, none, Option-cases,
  Bool-cases, ◌==◌, List, [], ◌∷◌, ◌++◌, arith, eq_iff, string_eq, length, ◌≤◌,
}
use mathlib.Core.List.{append-nil, append_assoc}
use mathlib.Core.Path.{subst}
use kafka3o_gateway.Errors.{Err, Result, ok, Result-cases}
use kafka3o_gateway.Command.{Descriptor}
use kafka3o_gateway.Gates.{Caller}
use kafka3o_gateway.Audit.Schema.{Phase, Event, Outcome}
use kafka3o_gateway.Audit
use kafka3o_gateway.Audit.{Io, Sink}
use kafka3o_gateway.Audit.Recording.{RecordingSink, write, write-grows}
use kafka3o_gateway.Core.Run.{Runner}
use kafka3o_gateway.Core.Destructive.Steps.{
  destructive-plan_error, destructive-proceed, proceed-dry_run, proceed-mismatch, proceed-refused,
  proceed-finish,
}
use kafka3o_gateway.Core.Destructive.Bypass.{destructive-rejected}
use kafka3o_gateway.Core.Destructive.{DestructiveResult, destructive, finish, report, proceed}

-- The sink, the clock's next readings and the cluster. The plan reads the cluster, the apply step
-- changes it, and neither reaches the sink.
pub record World (K : Type 0) : Type 0 where
  pub sink : RecordingSink
  pub clock : ℤ
  pub cluster : K

abbrev pub recording : {P K : Type 0} → Sink P (World K)
recording ev w = let (e, s) = write ev w.sink in (e, record w { sink = s })

abbrev pub read_clock : {K : Type 0} → (ℤ → ℤ) → Io (World K) ℤ
read_clock tick w = (w.clock, record w { clock = tick w.clock })

abbrev pub reading : {P K : Type 0} → (K → Result P P) → Io (World K) (Result P P)
reading f w = (f w.cluster, w)

abbrev pub changing : {P T K : Type 0} → (P → K → Result P T × K) → P → Io (World K) (Result P T)
changing f p w = let (v, k) = f p w.cluster in (v, record w { cluster = k })

-- At most one event was added to a log.
pub record IsTrail (s s' : List Event) : Type 0 where
  pub trail : List Event
  pub short : length trail ≤ 1
  pub grown : s' ≡ s ++ trail

module _ (P : Type 0) where
  write-IsTrail : (ev : Event) (s : RecordingSink) → IsTrail s.events (write {P = P} ev s).1.events
  write-IsTrail ev s = elim (write-grows P ev s) [
    | inl e ↦ record { trail = ev ∷ []; short = omega arith; grown = e }
    | inr e ↦ record { trail = []; short = omega arith; grown = e ∙ sym (append-nil s.events) }
  ]

  result-IsTrail :
      {K : Type 0} (ev : Event) (w : World K)
      → IsTrail w.sink.events (Audit.result (recording {P = P} ∷ []) ev w).sink.events
  unfolding Audit.result
  result-IsTrail ev w = write-IsTrail _ w.sink

  result-cluster :
      {K : Type 0} (ev : Event) (w : World K)
      → (Audit.result (recording {P = P} ∷ []) ev w).cluster ≡ w.cluster
  unfolding Audit.result
  result-cluster ev w = refl

  attempt-cluster :
      {K : Type 0} (ev : Event) (w : World K)
      → (Audit.attempt (recording {P = P} ∷ []) ev w).1.cluster ≡ w.cluster
  unfolding Audit.attempt write
  attempt-cluster ev w = ground arith

  attempt-events :
      {K : Type 0} (ev : Event) (w : World K)
      → (Audit.attempt (recording {P = P} ∷ []) ev w).0 ≡ none
      → (Audit.attempt (recording {P = P} ∷ []) ev w).1.sink.events
        ≡ w.sink.events ++ record ev { phase = Phase.attempt } ∷ []
  unfolding Audit.attempt write
  attempt-events ev w h = ground arith

module _ {P T K : Type 0} (tick : ℤ → ℤ) (r : Runner P) (confirm_target : P → String)
    (make_plan : K → Result P P) (apply : P → K → Result P T × K) where
  abbrev pub traced :
      Caller
      → Descriptor
      → Event
      → String
      → Bool
      → Io (World K) (DestructiveResult P T × Option (Err P))
  traced =
      destructive (read_clock tick) r (recording ∷ []) confirm_target (reading make_plan)
        (changing apply)

  -- What must have happened before the cluster can change: the gate passed, the plan was made, the
  -- caller confirmed that very plan, it is no dry run, and the ATTEMPT event is the first new event of
  -- the log, with at most the RESULT after it.
  pub record IsAuthorised (caller : Caller) (d : Descriptor) (event : Event) (confirm : String)
      (dry_run : Bool) (w w' : World K) : Type 0 where
    pub plan : P
    pub passed : r.check caller d r.policy ≡ none
    pub planned : make_plan w.cluster ≡ ok plan
    pub confirmed : confirm ≡ confirm_target plan
    pub real : dry_run ≡ false
    pub trail : List Event
    pub short : length trail ≤ 1
    pub logged :
        w'.sink.events
        ≡ w.sink.events ++ (record event { phase = Phase.attempt; dry_run = false } ∷ trail)
    pub applied : w'.cluster ≡ (apply plan w.cluster).1

  abbrev traced_finish : Event → P → Io (World K) (DestructiveResult P T × Option (Err P))
  traced_finish =
      finish (read_clock tick) r (recording ∷ []) confirm_target (reading make_plan)
        (changing apply)

  finish-IsTrail :
      (ev : Event) (p : P) (w : World K)
      → IsTrail w.sink.events (traced_finish ev p w).1.sink.events
  unfolding finish
  finish-IsTrail ev p w = elim (Result-cases (apply p w.cluster).0) [
    | inl (e, h) ↦ rw (h, finish) (result-IsTrail P _ _)
    | inr (v, h) ↦ rw (h, finish) (result-IsTrail P _ _)
  ]

  report-cluster :
      (ev : Event) (o : Outcome) (w : World K)
      → (report
          (read_clock tick)
          r
          (recording ∷ [])
          confirm_target
          (reading make_plan)
          (changing apply)
          ev
          o
          none
          w).cluster
        ≡ w.cluster
  unfolding report
  report-cluster ev o w = result-cluster P _ _

  finish-cluster :
      (ev : Event) (p : P) (w : World K) → (traced_finish ev p w).1.cluster ≡ (apply p w.cluster).1
  unfolding finish
  finish-cluster ev p w = elim (Result-cases (apply p w.cluster).0) [
    | inl (e, h) ↦ rw (h, finish) (result-cluster P _ _)
    | inr (v, h) ↦ rw (h, finish) (result-cluster P _ _)
  ]

  module _ (caller : Caller) (d : Descriptor) (event : Event) (confirm : String) (dry_run : Bool)
      (w : World K) where
    abbrev Goal : World K → Type 0
    Goal w' = (w'.cluster ≡ w.cluster) ⊎ IsAuthorised caller d event confirm dry_run w w'

    abbrev traced_proceed : Bool → P → World K
    traced_proceed dry p =
        (proceed (read_clock tick) r (recording ∷ []) confirm_target (reading make_plan)
          (changing apply) event confirm dry p w).1

    real_case :
        (p : P)
        → r.check caller d r.policy ≡ none
        → make_plan w.cluster ≡ ok p
        → dry_run ≡ false
        → Goal (traced_proceed false p)
    real_case p passes planned real = elim (Bool-cases (confirm == confirm_target p)) [
      | inr differs ↦ inl (
          ap (λ (v : World K). v.cluster)
            (proceed-mismatch (read_clock tick) r (recording ∷ []) confirm_target
              (reading make_plan) (changing apply) caller d event confirm false w p
              (λ same. ground (arith, eq_iff confirm (confirm_target p)))))
      | inl same ↦
          let confirmed = (eq_iff confirm (confirm_target p)).0 same in
          elim (Option-cases
            (Audit.attempt (recording ∷ []) (record event { dry_run = false }) w).0) [
              | inr (e, refused) ↦ inl (
                  ap (λ (v : World K). v.cluster)
                    (proceed-refused (read_clock tick) r (recording ∷ []) confirm_target
                      (reading make_plan) (changing apply) caller d event confirm false w p e
                      confirmed refused)
                  ∙ attempt-cluster P _ w)
              | inl accepted ↦
                  let w₁ =
                    (Audit.attempt (recording {P = P} ∷ []) (record event { dry_run = false })
                      w).1 in
                  let t = finish-IsTrail (record event { dry_run = false }) p w₁ in
                  subst Goal
                    (sym (
                      ap (λ x. x.1)
                        (proceed-finish (read_clock tick) r (recording ∷ []) confirm_target
                          (reading make_plan) (changing apply) caller d event confirm false w p
                          confirmed accepted)))
                    (inr (record {
                      plan = p;
                      passed = passes;
                      planned = planned;
                      confirmed = confirmed;
                      real = real;
                      trail = t.trail;
                      short = t.short;
                      logged =
                          t.grown
                          ∙ ap (λ l. l ++ t.trail) (attempt-events P _ w accepted)
                          ∙ append_assoc w.sink.events _ _;
                      applied =
                          finish-cluster _ p w₁ ∙ ap (λ k. (apply p k).1) (attempt-cluster P _ w);
                    }))
            ]
    ]

    proceed_case :
        (p : P)
        → r.check caller d r.policy ≡ none
        → make_plan w.cluster ≡ ok p
        → Goal (traced_proceed dry_run p)
    proceed_case p passes planned = elim (Bool-cases dry_run) [
      | inl dry ↦ inl (
          rw dry (
            ap (λ x. x.1.cluster)
              (proceed-dry_run (read_clock tick) r (recording ∷ []) confirm_target
                (reading make_plan) (changing apply) caller d event confirm true w p)
            ∙ report-cluster _ _ w))
      | inr real ↦
          subst (λ b. Goal (traced_proceed b p)) (sym real) (real_case p passes planned real)
    ]

    -- On the recording sink, a destructive command leaves the cluster as it was, or the gate passed, the
    -- plan was made from that cluster, the caller confirmed that plan, it is no dry run, the ATTEMPT is
    -- the first new event of the log with at most one event after it, and the cluster is what `apply`
    -- made of it.
    pub destructive-IsAuthorised :
        ((traced caller d event confirm dry_run w).1.cluster ≡ w.cluster)
        ⊎ IsAuthorised caller d event confirm dry_run w (traced caller d event confirm dry_run w).1
    destructive-IsAuthorised = elim (Option-cases (r.check caller d r.policy)) [
      | inr (e, refused) ↦ inl (
          rw (destructive-rejected _ r _ _ _ caller d event confirm w _ dry_run e refused)
            (result-cluster P _ w))
      | inl passes ↦ elim (Result-cases (make_plan w.cluster)) [
        | inl (e, h) ↦ inl (
            rw
              (destructive-plan_error _ r _ _ (reading make_plan) _ caller d event confirm dry_run w
                e passes h)
              refl)
        | inr (p, h) ↦
            rw
              (destructive-proceed _ r _ _ (reading make_plan) _ caller d event confirm dry_run w p
                passes h)
              (proceed_case p passes h)
      ]
    ]
