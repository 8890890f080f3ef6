-- ===== src/Message/Bounds.antt =====
-- internal/service/message/bounds.go: a bound that the caller gives, its default and its ceiling.
pub mod Limits
use Prim.Native.String.{◌++◌ as append}
use Prim.Native.Nat.{◌*◌, ◌%◌, ◌-◌, ◌+◌}
use kafka3o_gateway.Prelude.{
  ℕ, suc, ℤ, pos, negsuc, ltb_ℤ, ltb, int_eq, ◌==◌, String, Bool, true, false, if◌then◌else◌,
}
use kafka3o_gateway.Errors.{Err, Result, ok, err, policy, bound_exceeded, no_details}

abbrev pub exceeded : {P : Type 0} → String → Err P
exceeded name = policy (record {
  code = bound_exceeded;
  message = append name " exceeds the configured ceiling";
  details = no_details;
})

-- resolveIntBound
unfoldable pub resolve_int_bound : {P : Type 0} → String → ℤ → ℤ → ℤ → Result P ℤ
resolve_int_bound name v def ceil =
    if v == pos 0 then ok def else if ltb_ℤ ceil v then err (exceeded name) else ok v

-- resolveBytesBound
unfoldable pub resolve_bytes_bound : {P : Type 0} → String → ℤ → ℤ → ℤ → Result P ℤ
resolve_bytes_bound name v def ceil =
    if v == pos 0 then ok def else if ltb_ℤ ceil v then err (exceeded name) else ok v

-- 2 ^ 63
abbrev pub half_range : ℕ
half_range = 9223372036854775808

-- What int64 keeps of an integer.
unfoldable pub wrap_int64 : ℤ → ℤ
wrap_int64 (pos n) =
    let m = n % (half_range + half_range) in
    if ltb m half_range then pos m else negsuc (half_range + half_range - 1 - m)
wrap_int64 (negsuc n) =
    let m = n % (half_range + half_range) in
    if ltb m half_range then negsuc m else pos (half_range + half_range - 1 - m)

-- `time.Duration(ms) * time.Millisecond`
unfoldable pub duration_of_milli : ℤ → ℤ
unfolding wrap_int64
duration_of_milli (pos n) = wrap_int64 (pos (n * 1000000))
duration_of_milli (negsuc n) = wrap_int64 (negsuc (suc n * 1000000 - 1))

-- resolveMaxTime
unfoldable pub resolve_max_time : {P : Type 0} → ℤ → ℤ → ℤ → Result P ℤ
resolve_max_time max_time_ms def ceil =
    let d = duration_of_milli max_time_ms in
    if max_time_ms == pos 0
    then ok def
    else if ltb_ℤ ceil d
    then err (exceeded "maxTimeMs")
    else ok d
