-- ===== src/Http/Reason/Laws.antt =====
-- What is left of a break-glass reason: internal/api/middleware/apikey.go.
use Prim.Native.Char.{Char, len_utf8}
use Prim.Native.String.{len, [], ◌∷◌, ◌++◌ as append}
use Prim.Native.String.len as len_lem
use Prim.Native.String.append as append_lem
use kafka3o_gateway.Prelude.{
  ℕ, ◌+◌, ◌≤◌, ◌<◌, ltb, String, true, false, ◌≡◌, ap, ◌∙◌, arith, Bool-cases, inl, inr,
}
use kafka3o_gateway.Http.Reason.{
  is_control, append_runes, sanitize_break_glass, break_glass_max_bytes,
}

-- The text without its control characters.
abbrev pub printable : String → String
printable [] = []
printable (c ∷ s) = elim (is_control c) [ true ↦ printable s | false ↦ c ∷ printable s ]

-- No further character of the text fits behind `used` bytes.
abbrev pub Overflows : ℕ → String → Type 0
Overflows used [] = Unit
Overflows used (c ∷ s) = break_glass_max_bytes < used + len_utf8 c

abbrev pub IsLongest : ℕ → String → String → Type 0
IsLongest used out text =
    (used + len out ≤ break_glass_max_bytes)
    × ((rest : String) × (append out rest ≡ text) × Overflows (used + len out) rest)

nothing-IsLongest :
    (used : ℕ) (text : String) → used ≤ 512 → Overflows used text → IsLongest used [] text
nothing-IsLongest used text h o =
    let empty : len [] ≡ 0 = len_lem.nil in
    let same : used ≡ used + len [] = omega (arith, empty) in
    (omega (arith, h, empty), (text, append_lem.nil text, rw same at o))

cons-IsLongest :
    (used : ℕ) (c : Char) (out text : String)
    → IsLongest (used + len_utf8 c) out text
    → IsLongest used (c ∷ out) (c ∷ text)
cons-IsLongest used c out text h =
    let one : len (c ∷ out) ≡ len_utf8 c + len out = len_lem.cons c out in
    let same : used + len (c ∷ out) ≡ used + len_utf8 c + len out = omega (arith, one) in
    rw same (h.0, (h.1.0, append_lem.cons c out h.1.0 ∙ ap (λ t. c ∷ t) h.1.1, h.1.2))

append_runes-IsLongest :
    (used : ℕ) (s : String) → used ≤ 512 → IsLongest used (append_runes used s) (printable s)
unfolding append_runes
append_runes-IsLongest used [] h = nothing-IsLongest used [] h tt
append_runes-IsLongest used (c ∷ s) h = elim (Bool-cases (is_control c)) [
  | inl control ↦ rw (append_runes, printable, control) (append_runes-IsLongest used s h)
  | inr shown ↦
      rw (append_runes, printable, shown)
        elim (Bool-cases (ltb break_glass_max_bytes (used + len_utf8 c))) [
          | inl over ↦ rw over (nothing-IsLongest used (c ∷ printable s) h (ground (arith, over)))
          | inr fits ↦ rw fits (
              cons-IsLongest used c (append_runes (used + len_utf8 c) s) (printable s)
                (append_runes-IsLongest (used + len_utf8 c) s (ground (arith, fits))))
        ]
]

-- The reason that is kept is the longest part of the printable text, from its start and in whole
-- characters, that has at most 512 bytes.
pub sanitize_break_glass-IsLongest :
    (raw : String) → IsLongest 0 (sanitize_break_glass raw) (printable raw)
unfolding sanitize_break_glass
sanitize_break_glass-IsLongest raw = append_runes-IsLongest 0 raw (omega arith)
