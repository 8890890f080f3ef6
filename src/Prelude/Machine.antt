-- ===== src/Prelude/Machine.antt =====
-- Go's 64-bit int where the code's products and sums may leave its range.
use Prim.Native.Nat.{ℕ, suc, ◌-◌, ◌*◌, ◌%◌, ◌<◌}
use mathlib.Core.Path.{◌≡◌}
use native.Mathlib.Omega.{arith}
use kafka3o_gateway.Prelude.Tests.{ltb, if◌then◌else◌}
use kafka3o_gateway.Prelude.Int.{ℤ, pos, negsuc, sub_ℕ}

-- 2 ^ 63 and 2 ^ 64
abbrev pub half_range : ℕ
half_range = 9223372036854775808

abbrev pub full_range : ℕ
full_range = 18446744073709551616

-- The int64 of a residue modulo 2 ^ 64.
abbrev pub signed : ℕ → ℤ
signed r = if ltb r half_range then pos r else sub_ℕ r full_range

-- The residue of an integer modulo 2 ^ 64.
abbrev pub residue : ℤ → ℕ
residue (pos n) = n % full_range
residue (negsuc n) = (full_range - suc n % full_range) % full_range

-- An integer wrapped around to an int64.
unfoldable pub wrap : ℤ → ℤ
wrap a = signed (residue a)

infixl 70 ◌*ℤ◌
unfoldable pub ◌*ℤ◌ : ℤ → ℤ → ℤ
pos a *ℤ pos b = pos (a * b)
pos a *ℤ negsuc b = sub_ℕ 0 (a * suc b)
negsuc a *ℤ pos b = sub_ℕ 0 (suc a * b)
negsuc a *ℤ negsuc b = pos (suc a * suc b)

pub wrap-small : (n : ℕ) → n < half_range → wrap (pos n) ≡ pos n
unfolding wrap
wrap-small n h = ground arith

pub wrap-negative : (n : ℕ) → n < half_range → wrap (negsuc n) ≡ negsuc n
unfolding wrap
wrap-negative n h = ground arith

abbrev pub IsInt64 : ℤ → Type 0
IsInt64 (pos n) = n < half_range
IsInt64 (negsuc n) = n < half_range

pub wrap-IsInt64 : (a : ℤ) → IsInt64 a → wrap a ≡ a
wrap-IsInt64 (pos n) h = wrap-small n h
wrap-IsInt64 (negsuc n) h = wrap-negative n h
