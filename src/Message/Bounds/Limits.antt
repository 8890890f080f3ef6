-- ===== src/Message/Bounds/Limits.antt =====
-- What the resolved bounds guarantee: internal/service/message/bounds.go with internal/scan/runner.go.
use Prim.Native.Nat.{◌*◌, ◌+◌, ◌≤◌, ◌<◌}
use kafka3o_gateway.Prelude.{ℕ, ℤ, pos, ◌≤ℤ◌, ◌<ℤ◌, eqb_ℤ_iff, ◌≡◌, ◌⊎◌, String, arith}
use kafka3o_gateway.Errors.{ok}
use kafka3o_gateway.Message.Bounds.{
  resolve_int_bound, resolve_max_time, duration_of_milli, wrap_int64, half_range,
}
use kafka3o_gateway.Scan.Types.{Spec}
use kafka3o_gateway.Scan.Runner.{Accumulator, hit_bound}

-- With a default that lies in the configured range, an accepted limit is at most the ceiling, and it
-- is positive unless the caller gave a negative one.
pub resolve_int_bound-within :
    (P : Type 0) (name : String) (v def ceil x : ℤ)
    → pos 0 <ℤ def
    → def ≤ℤ ceil
    → resolve_int_bound {P = P} name v def ceil ≡ ok x
    → (x ≤ℤ ceil) × ((v <ℤ pos 0) ⊎ (pos 0 <ℤ x))
unfolding resolve_int_bound
resolve_int_bound-within P name v def ceil x positive fits h = ground (arith, eqb_ℤ_iff v (pos 0))

-- A negative limit is accepted as it is, and a scan that is given it stops exactly where a scan
-- without a message limit stops.
pub resolve_int_bound-negative :
    (P : Type 0) (name : String) (v def ceil : ℤ) (spec : Spec) (acc : Accumulator)
    → v <ℤ pos 0
    → pos 0 ≤ℤ ceil
    → (resolve_int_bound {P = P} name v def ceil ≡ ok v)
      × (hit_bound acc (record spec { max_messages = v })
          ≡ hit_bound acc (record spec { max_messages = pos 0 }))
unfolding resolve_int_bound hit_bound
resolve_int_bound-negative P name v def ceil spec acc negative fits =
    (ground (arith, eqb_ℤ_iff v (pos 0)), ground arith)

wrap_int64-high :
    (n : ℕ) → half_range ≤ n → n < half_range + half_range → wrap_int64 (pos n) <ℤ pos 0
unfolding wrap_int64
wrap_int64-high n low high = ground arith

duration_of_milli-high :
    (n : ℕ) → 9223372036855 ≤ n → n ≤ 18446744073709 → duration_of_milli (pos n) <ℤ pos 0
unfolding duration_of_milli
duration_of_milli-high n low high = wrap_int64-high (n * 1000000) (omega arith) (omega arith)

-- The product of milliseconds overflows int64: a time bound from 9223372036855 to 18446744073709 ms
-- is accepted, as a negative duration, under every ceiling that is not negative.
pub resolve_max_time-overflow :
    (P : Type 0) (n : ℕ) (def ceil : ℤ)
    → 9223372036855 ≤ n
    → n ≤ 18446744073709
    → pos 0 ≤ℤ ceil
    → (d : ℤ) × (resolve_max_time {P = P} (pos n) def ceil ≡ ok d) × (d <ℤ pos 0)
unfolding resolve_max_time
resolve_max_time-overflow P n def ceil low high fits =
    let negative = duration_of_milli-high n low high in
    (duration_of_milli (pos n), ground (arith, eqb_ℤ_iff (pos n) (pos 0)), negative)
