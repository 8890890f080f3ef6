-- ===== src/Audit/Laws.antt =====
-- What Attempt and Result do to the sinks: internal/audit/auditor.go.
use kafka3o_gateway.Prelude.{◌≡◌, ◌↔◌, ap, none, Option-cases, inl, inr, List, [], ◌∷◌, arith}
use kafka3o_gateway.Audit.Schema.{Phase, Event}
use kafka3o_gateway.Audit.{Sink, write_all, attempt}

module _ {P W : Type 0} where
  -- Attempt reports no error exactly when each sink, in order, accepted the event in the state that
  -- the sinks before it left.
  abbrev pub Accepted : List (Sink P W) → Event → W → W → Type 0
  Accepted [] ev w w' = w ≡ w'
  Accepted (sink ∷ sinks) ev w w' = ((sink ev w).0 ≡ none) × Accepted sinks ev (sink ev w).1 w'

  write_all-Accepted :
      (sinks : List (Sink P W)) (ev : Event) (w w' : W)
      → write_all sinks ev w ≡ (none, w')
      → Accepted sinks ev w w'
  unfolding write_all
  write_all-Accepted [] ev w w' h = ap (λ x. x.1) h
  write_all-Accepted (sink ∷ sinks) ev w w' h = elim (Option-cases (sink ev w).0) [
    | inl fine ↦ (fine, write_all-Accepted sinks ev (sink ev w).1 w' (ground arith))
    | inr (e, refused) ↦ ground arith
  ]

  Accepted-write_all :
      (sinks : List (Sink P W)) (ev : Event) (w w' : W)
      → Accepted sinks ev w w'
      → write_all sinks ev w ≡ (none, w')
  unfolding write_all
  Accepted-write_all [] ev w w' h = ap (λ x. (none, x)) h
  Accepted-write_all (sink ∷ sinks) ev w w' h =
      ground (arith, h.0, Accepted-write_all sinks ev (sink ev w).1 w' h.1)

  -- Attempt returns nil exactly when every sink, in order, wrote the event as an ATTEMPT without an
  -- error, and then it leaves the state that the last sink left.
  pub attempt-Accepted :
      (sinks : List (Sink P W)) (ev : Event) (w w' : W)
      → (attempt sinks ev w ≡ (none, w'))
        ↔ Accepted sinks (record ev { phase = Phase.attempt }) w w'
  unfolding attempt
  attempt-Accepted sinks ev w w' =
      (write_all-Accepted sinks _ w w', Accepted-write_all sinks _ w w')
