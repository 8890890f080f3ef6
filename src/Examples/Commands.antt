-- ===== src/Examples/Commands.antt =====
-- Destructive commands and their audit on the recording sink: a cluster that is a list of topics, and
-- a plan that is the topic to delete.
use kafka3o_gateway.Prelude.{
  ℕ, ℤ, pos, ◌+ℤ◌, String, true, false, not, none, List, [], ◌∷◌, ◌≡◌, ◌⊎◌, ◌↔◌, refl, keep, ◌==◌,
  string_eq,
}
use mathlib.Core.Path.{subst}
use kafka3o_gateway.Errors.{Result, ok, err, other}
use kafka3o_gateway.Audit
use kafka3o_gateway.Audit.{Io}
use kafka3o_gateway.Audit.Schema.{Phase}
use kafka3o_gateway.Audit.Laws.{Accepted, attempt-Accepted}
use kafka3o_gateway.Core.Destructive.{destructive}
use kafka3o_gateway.Core.Destructive.Bypass.{
  attempted, destructive-dry_run, destructive-AgreeOnPlan,
}
use kafka3o_gateway.Core.Destructive.Trace.{
  World, recording, read_clock, reading, changing, traced, IsAuthorised, destructive-IsAuthorised,
}
use kafka3o_gateway.Examples.Data.{
  operator, delete_topic, delete_event, gated, empty_sink, failing_sink,
}

abbrev Cluster : Type 0
Cluster = List String

abbrev world : World Cluster
world = record { sink = empty_sink; clock = pos 0; cluster = "orders" ∷ "users" ∷ [] }

-- The sink refuses each ATTEMPT.
abbrev deaf_world : World Cluster
deaf_world = record world { sink = failing_sink }

abbrev users_topic : String
users_topic = "users"

abbrev orders_topic : String
orders_topic = "orders"

abbrev tick : ℤ → ℤ
tick t = t +ℤ pos 1000000

abbrev plan_delete : Cluster → Result String String
plan_delete k = ok "orders"

abbrev apply_delete : String → Cluster → Result String ℕ × Cluster
apply_delete t k = (ok 1, keep (λ x. not (x == t)) k)

abbrev apply_nothing : String → Cluster → Result String ℕ × Cluster
apply_nothing t k = (err (other "down"), k)

abbrev target : String → String
target t = t

destructive-IsAuthorised_example :
    ((traced tick gated target plan_delete apply_delete operator delete_topic delete_event "orders"
        false world).1.cluster
      ≡ world.cluster)
    ⊎ IsAuthorised tick gated target plan_delete apply_delete operator delete_topic delete_event
        "orders" false world
        (traced tick gated target plan_delete apply_delete operator delete_topic delete_event
          "orders" false world).1
destructive-IsAuthorised_example =
    destructive-IsAuthorised tick gated target plan_delete apply_delete operator delete_topic
      delete_event "orders" false world

destructive-dry_run_example :
    destructive
      (read_clock tick)
      gated
      (recording ∷ [])
      target
      (reading plan_delete)
      (changing apply_delete)
      operator
      delete_topic
      delete_event
      "orders"
      true
      world
    ≡ destructive
        (read_clock tick)
        gated
        (recording ∷ [])
        target
        (reading plan_delete)
        (changing apply_nothing)
        operator
        delete_topic
        delete_event
        ""
        true
        world
destructive-dry_run_example =
    destructive-dry_run (read_clock tick) gated (recording ∷ []) target (reading plan_delete)
      operator delete_topic delete_event "orders" world (changing apply_delete)
      (changing apply_nothing) ""

-- An apply step that deletes the orders whatever the plan is.
abbrev apply_orders : String → Cluster → Result String ℕ × Cluster
apply_orders t k = apply_delete "orders" k

abbrev cleared_state : World Cluster
cleared_state = (attempted (recording ∷ []) (reading plan_delete) delete_event world).1

destructive-AgreeOnPlan_example :
    destructive
      (read_clock tick)
      gated
      (recording ∷ [])
      target
      (reading plan_delete)
      (changing apply_delete)
      operator
      delete_topic
      delete_event
      "orders"
      false
      world
    ≡ destructive
        (read_clock tick)
        gated
        (recording ∷ [])
        target
        (reading plan_delete)
        (changing apply_orders)
        operator
        delete_topic
        delete_event
        "orders"
        false
        world
destructive-AgreeOnPlan_example =
    destructive-AgreeOnPlan (read_clock tick) gated (recording ∷ []) target (reading plan_delete)
      operator delete_topic delete_event "orders" world (changing apply_delete)
      (changing apply_orders) false
      (λ p live cleared.
        subst (λ t. changing apply_delete t cleared_state ≡ changing apply_orders t cleared_state)
          cleared.confirmed refl)

attempt-Accepted_example :
    (Audit.attempt (recording {P = String} ∷ []) delete_event world
      ≡ (none, (Audit.attempt (recording {P = String} ∷ []) delete_event world).1))
    ↔ Accepted
        (recording {P = String} ∷ [])
        (record delete_event { phase = Phase.attempt })
        world
        (Audit.attempt (recording {P = String} ∷ []) delete_event world).1
attempt-Accepted_example =
    attempt-Accepted (recording {P = String} ∷ []) delete_event world
      (Audit.attempt (recording {P = String} ∷ []) delete_event world).1
