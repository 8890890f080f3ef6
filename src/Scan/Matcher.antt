-- ===== src/Scan/Matcher.antt =====
-- internal/scan/{matcher,regex}.go: which records a scan emits.
use Prim.Native.String.{◌++◌ as append}
use text.Mathlib.Text.{starts_with}
use kafka3o_gateway.Prelude.{
  ℤ, pos, String, Bool, true, false, not, ◌&&◌, Option, none, some, List, [], ◌∷◌, map, leb_ℤ,
  if◌then◌else◌,
}
use kafka3o_gateway.Errors.{Result, ok, err}
use kafka3o_gateway.Scan.Types.{Text, Record, MatchResult, Matcher}

abbrev pub matched_result : MatchResult
matched_result = record { matches = true; skipped = false }

abbrev pub skipped_result : MatchResult
skipped_result = record { matches = false; skipped = true }

abbrev pub no_match : MatchResult
no_match = record { matches = false; skipped = false }

-- MatchAll
unfoldable pub match_all : Matcher
match_all r = matched_result

-- The RegexField constants; any other string selects nothing.
pub data RegexField : Type 0 where
  value key headers : RegexField
  unknown : String → RegexField

-- regexFieldStrings
unfoldable pub regex_field_strings : Record → RegexField → List Text
regex_field_strings r value = r.value ∷ []
regex_field_strings r key = r.key ∷ []
regex_field_strings r headers = map (λ h. h.value) r.headers
regex_field_strings r (unknown field) = []

-- A compiled regexp.Regexp with the clock around one match: the time that the match takes, and
-- whether the text matches. regexp.Compile is a parameter; its error is a text.
pub record Regex : Type 0 where
  pub match_string : Text → Bool
  pub match_time : Text → ℤ

-- runWithTimeout over a match: the result, and whether the timeout came first.
unfoldable pub regex_match : Regex → Text → ℤ → Bool × Bool
regex_match re s timeout =
    if leb_ℤ timeout (pos 0)
    then (re.match_string s, false)
    else if leb_ℤ (re.match_time s) timeout
    then (re.match_string s, false)
    else (false, true)

-- The loop over one field's texts: an answer, or none to go on.
match_texts : Regex → ℤ → List Text → Option MatchResult
match_texts re timeout [] = none
match_texts re timeout (s ∷ ss) =
    let (matches, timed_out) = regex_match re s timeout in
    let rest = match_texts re timeout ss in
    if timed_out then some skipped_result else if matches then some matched_result else rest

-- The loop over the fields.
match_fields : Regex → ℤ → Record → List RegexField → MatchResult
unfolding match_texts regex_field_strings regex_match
match_fields re timeout r [] = no_match
match_fields re timeout r (f ∷ fs) =
    let rest = match_fields re timeout r fs in
    elim (match_texts re timeout (regex_field_strings r f)) [ some m ↦ m | none ↦ rest ]

-- No field named means the value.
abbrev pub default_fields : List RegexField → List RegexField
default_fields [] = value ∷ []
default_fields (f ∷ fs) = f ∷ fs

abbrev pub effective_pattern : String → Bool → String
effective_pattern pattern case_insensitive =
    if case_insensitive && not (starts_with pattern "(?i)") then append "(?i)" pattern else pattern

-- NewRegexMatcher; `compile` is regexp.Compile.
unfoldable pub new_regex_matcher :
    {P : Type 0}
    → (String → Result P Regex)
    → String
    → List RegexField
    → Bool
    → ℤ
    → Result P Matcher
unfolding match_fields
new_regex_matcher compile pattern fields case_insensitive timeout =
    elim (compile (effective_pattern pattern case_insensitive)) [
      | err e ↦ err e
      | ok re ↦ ok (λ r. match_fields re timeout r (default_fields fields))
    ]
