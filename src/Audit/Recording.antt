-- ===== src/Audit/Recording.antt =====
-- internal/audit/audittest/recording.go: a sink that records events and injects faults by phase. The
-- trace theorems of the services run on it.
use Prim.Native.String.{◌++◌ as append}
use kafka3o_gateway.Prelude.{
  ◌≡◌, true, ◌⊎◌, arith, Bool, false, Option, none, some, List, [], ◌∷◌, ◌++◌, if◌then◌else◌,
  String,
}
use kafka3o_gateway.Errors.{Err, other}
use kafka3o_gateway.Audit.Schema.{Phase, attempt, result, Event}

-- A Go map from phases to Bool, which has two keys.
pub record Faults : Type 0 where
  pub on_attempt : Bool
  pub on_result : Bool

abbrev pub fault_at : Phase → Faults → Bool
fault_at attempt f = f.on_attempt
fault_at result f = f.on_result

-- delete(m, phase)
abbrev pub clear_fault : Phase → Faults → Faults
clear_fault attempt f = record f { on_attempt = false }
clear_fault result f = record f { on_result = false }

pub record RecordingSink : Type 0 where
  pub events : List Event
  pub fail_next : Faults
  pub fail_always : Faults

abbrev phase_text : Phase → String
phase_text attempt = "ATTEMPT"
phase_text result = "RESULT"

-- RecordingSink.Write
unfoldable pub write : {P : Type 0} → Event → RecordingSink → Option (Err P) × RecordingSink
write ev s =
    let injected =
      some (other (append "audittest: injected " (append (phase_text ev.phase) " failure"))) in
    if fault_at ev.phase s.fail_next
    then (injected, record s { fail_next = clear_fault ev.phase s.fail_next })
    else if fault_at ev.phase s.fail_always
    then (injected, s)
    else (none, record s { events = s.events ++ ev ∷ [] })

-- New
unfoldable pub new_sink : RecordingSink
new_sink = record {
  events = [];
  fail_next = record { on_attempt = false; on_result = false };
  fail_always = record { on_attempt = false; on_result = false };
}

-- m[phase] = true
abbrev set_fault : Phase → Faults → Faults
set_fault attempt f = record f { on_attempt = true }
set_fault result f = record f { on_result = true }

-- FailNext
unfoldable pub fail_next : Phase → RecordingSink → RecordingSink
fail_next phase s = record s { fail_next = set_fault phase s.fail_next }

-- FailAlways
unfoldable pub fail_always : Phase → RecordingSink → RecordingSink
fail_always phase s = record s { fail_always = set_fault phase s.fail_always }

pub write-grows :
    (P : Type 0) (ev : Event) (s : RecordingSink)
    → ((write {P = P} ev s).1.events ≡ s.events ++ ev ∷ [])
      ⊎ ((write {P = P} ev s).1.events ≡ s.events)
unfolding write
write-grows P ev s = ground arith
