-- ===== src/Http/Reason.antt =====
-- internal/api/middleware/apikey.go: the break-glass reason. A Go string is the characters that
-- ranging over it yields, where a byte that is no UTF-8 yields U+FFFD; `len` counts UTF-8's bytes.
pub mod Laws
use Prim.Native.Char.{Char, code, len_utf8}
use Prim.Native.String.{len, [], ◌∷◌}
use kafka3o_gateway.Prelude.{ℕ, ◌+◌, ltb, String, Bool, true, false, ◌||◌, ◌==◌, nat_eq}

abbrev pub break_glass_max_bytes : ℕ
break_glass_max_bytes = 512

unfoldable pub is_control : Char → Bool
is_control c = ltb (code c) 32 || code c == 127

-- The loop, from a buffer of `used` bytes; the result is what it appends.
unfoldable pub append_runes : ℕ → String → String
append_runes used [] = []
append_runes used (c ∷ s) = elim (is_control c) [
  | true ↦ append_runes used s
  | false ↦ elim (ltb break_glass_max_bytes (used + len_utf8 c)) [
    | true ↦ []
    | false ↦ c ∷ append_runes (used + len_utf8 c) s
  ]
]

unfoldable pub sanitize_break_glass : String → String
unfolding append_runes
sanitize_break_glass raw = append_runes 0 raw
