-- ===== src/Http/Auth.antt =====
-- internal/api/middleware/apikey.go: authentication by API key. `hash` is SHA-256, `W` the state, and
-- `R` what the next handler answers with.
pub mod Laws
use kafka3o_gateway.Prelude.{
  ℕ, ℤ, String, Bool, true, false, not, ◌||◌, Option, none, some, List, [], ◌∷◌, ◌==◌, string_eq,
  if◌then◌else◌,
}
use kafka3o_gateway.Errors.Status.{HttpMapping}
use kafka3o_gateway.Gates.{Caller, tier_operator}
use kafka3o_gateway.Audit.Schema.{Event, Phase, Outcome, severity_for}
use kafka3o_gateway.Audit.{Io, Sink, result}
use kafka3o_gateway.Http.Reason.{sanitize_break_glass}

pub record RouteCommand : Type 0 where
  pub command_id : String
  pub command_name : String
  pub is_write : Bool

pub record Key : Type 0 where
  pub id : String
  pub tier : String
  pub sha256 : String

-- What the middleware reads of a request: its method, path and two headers, and what the
-- request-id and client-ip middleware stored in its context. A header that is absent is empty.
pub record Request : Type 0 where
  pub method : String
  pub path : String
  pub api_key : String
  pub break_glass : String
  pub request_id : String
  pub client_ip : String

abbrev pub RouteLookup : Type 0
RouteLookup = Request → Option RouteCommand

-- The part of the error body that is set.
pub record Envelope : Type 0 where
  pub code : String
  pub message : String
  pub status : ℕ
  pub request_id : String

-- unauthenticatedMapping
abbrev pub unauthenticated_mapping : HttpMapping
unauthenticated_mapping = record { status = 401; code = "UNAUTHENTICATED" }

unfoldable pub unauthenticated : String → Envelope
unauthenticated request_id =
    let m = unauthenticated_mapping in
    record {
      code = m.code;
      message = "missing or unknown API key";
      status = m.status;
      request_id = request_id;
    }

-- Who answered: the next handler, or the middleware.
pub data Answer (R : Type 0) : Type 0 where
  served : R → Answer R
  refused : Envelope → Answer R

module _ (hash : String → String) where
  -- The loop of matchKey; a constant-time comparison gives 1 if the digests are equal.
  pub find_digest : String → List Key → Option Key
  find_digest digest [] = none
  find_digest digest (k ∷ ks) = if digest == k.sha256 then some k else find_digest digest ks

  unfoldable pub match_key : String → List Key → Option Key
  unfolding find_digest
  match_key presented keys = if presented == "" then none else find_digest (hash presented) keys

-- The event of a rejection at a route, which names no key. The phase is set by Auditor.Result.
abbrev pub rejection_event :
    {W : Type 0} → Io W String → Io W ℤ → Request → RouteCommand → String → Io W Event
rejection_event new_event_id now r rc reason w =
    let (event_id, w₁) = new_event_id w in
    let (time, w₂) = now w₁ in
    (
      record {
        event_id = event_id;
        timestamp = time;
        request_id = r.request_id;
        phase = Phase.attempt;
        severity = severity_for rc.command_id Outcome.rejected (not (reason == ""));
        command_id = rc.command_id;
        command_name = rc.command_name;
        target = record { kind = "route"; name = r.path; partitions = [] };
        caller = record { key_id = none; tier = ""; client_ip = r.client_ip };
        dry_run = false;
        break_glass = if reason == "" then none else some reason;
        outcome = Outcome.rejected;
        error = none;
        duration_ms = none;
      },
      w₂,
    )

abbrev pub caller_of : Request → Option String → String → Caller
caller_of r key_id tier = record {
  key_id = key_id;
  tier = tier;
  break_glass_reason = sanitize_break_glass r.break_glass;
  request_id = r.request_id;
  client_ip = r.client_ip;
  client = "http";
}

-- next.ServeHTTP, with the caller in the context or without one.
abbrev pub serve : {W R : Type 0} → (Option Caller → Io W R) → Option Caller → Io W (Answer R)
serve next caller w = let (x, w') = next caller w in (served x, w')

module _ {P W : Type 0} (new_event_id : Io W String) (now : Io W ℤ) where
  -- A lookup or an auditor that is absent is nil.
  unfoldable pub audit_unauthenticated_rejection :
      Option RouteLookup → Option (List (Sink P W)) → Request → String → W → W
  audit_unauthenticated_rejection none sinks r reason w = w
  audit_unauthenticated_rejection (some lookup) none r reason w = w
  audit_unauthenticated_rejection (some lookup) (some sinks) r reason w = elim (lookup r) [
    | none ↦ w
    | some rc ↦
        if not rc.is_write
        then w
        else let (ev, w') = rejection_event new_event_id now r rc reason w in result sinks ev w'
  ]

  module _ {R : Type 0} (hash : String → String) (next : Option Caller → Io W R) where
    -- The handler that APIKey makes.
    unfoldable pub api_key :
        List Key → Bool → Option RouteLookup → Option (List (Sink P W)) → Request → Io W (Answer R)
    unfolding match_key audit_unauthenticated_rejection
    api_key keys auth_enabled lookup sinks r w =
        if r.method == "OPTIONS"
        then serve next none w
        else if not auth_enabled
        then serve next (some (caller_of r none tier_operator)) w
        else elim (match_key hash r.api_key keys) [
          | none ↦ (
            refused (unauthenticated r.request_id),
            audit_unauthenticated_rejection lookup sinks r (sanitize_break_glass r.break_glass) w,
          )
          | some key ↦ serve next (some (caller_of r (some key.id) key.tier)) w
        ]
