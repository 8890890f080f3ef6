-- ===== src/Audit.antt =====
-- internal/audit: the two-phase audit protocol (auditor.go) over an interface of sinks (sink.go).
pub mod Schema
pub mod Recording
pub mod Laws
use kafka3o_gateway.Prelude.{ℤ, ◌≡◌, Option, none, some, List, [], ◌∷◌}
use kafka3o_gateway.Errors.{Err, wrapped}
use kafka3o_gateway.Audit.Schema.{Phase, Event}

-- A stateful call: `W` is all that the call may read and change.
abbrev pub Io {ℓ} : Type ℓ → Type ℓ → Type ℓ
Io W A = W → A × W

-- Sink.Write; the error, or none.
abbrev pub Sink : Type 0 → Type 0 → Type 0
Sink P W = Event → Io W (Option (Err P))

module _ {P W : Type 0} where
  -- The loop of Attempt: stop at the first sink that fails.
  write_all : List (Sink P W) → Event → Io W (Option (Err P))
  write_all [] ev w = (none, w)
  write_all (sink ∷ sinks) ev w =
      let (e, w') = sink ev w in
      elim e [ some x ↦ (some (wrapped "audit: attempt: " x), w') | none ↦ write_all sinks ev w' ]

  -- Auditor.Attempt
  unfoldable pub attempt : List (Sink P W) → Event → Io W (Option (Err P))
  unfolding write_all
  attempt sinks ev = write_all sinks (record ev { phase = Phase.attempt })

  -- The loop of Result: every sink is written, errors are dropped.
  write_each : List (Sink P W) → Event → W → W
  write_each [] ev w = w
  write_each (sink ∷ sinks) ev w = write_each sinks ev (sink ev w).1

  -- Auditor.Result
  unfoldable pub result : List (Sink P W) → Event → W → W
  unfolding write_each
  result sinks ev = write_each sinks (record ev { phase = Phase.result })
