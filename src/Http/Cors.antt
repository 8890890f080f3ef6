-- ===== src/Http/Cors.antt =====
-- internal/api/middleware/cors.go: which origins a browser may call from, and its preflight requests.
pub mod Laws
use Prim.Native.String.{◌++◌ as append}
use kafka3o_gateway.Prelude.{
  ℤ, String, Bool, true, false, not, ◌&&◌, ◌||◌, Option, none, some, List, [], ◌∷◌, ◌++◌, ◌==◌,
  string_eq, if◌then◌else◌,
}
use kafka3o_gateway.Gates.{Caller}
use kafka3o_gateway.Audit.{Io, Sink}
use kafka3o_gateway.Http.Auth.{Key, Request, RouteLookup, Answer, api_key}

-- Also `allowed[origin]`, since that map has a key for each element.
unfoldable pub contains : String → List String → Bool
contains s [] = false
contains s (o ∷ os) = if o == s then true else contains s os

abbrev allowed_headers : String
allowed_headers =
    append "X-Api-Key, " (append "X-Break-Glass-Reason, " (append "X-Request-Id, " "Content-Type"))

abbrev pub Headers : Type 0
Headers = List (String × String)

abbrev origin_headers : String → Headers
origin_headers origin =
    ("Access-Control-Allow-Origin", origin)
    ∷ ("Vary", "Origin")
    ∷ ("Access-Control-Expose-Headers", "X-Request-Id")
    ∷ []

abbrev preflight_headers : Headers
preflight_headers =
    ("Access-Control-Allow-Methods", "GET, POST, PATCH, DELETE, OPTIONS")
    ∷ ("Access-Control-Allow-Headers", allowed_headers)
    ∷ []

-- The answer with the headers that the middleware set: the handler's, or a 204 of the middleware.
pub data Reply (R : Type 0) : Type 0 where
  passed : Headers → R → Reply R
  no_content : Headers → Reply R

module _ {W R : Type 0} (next : Io W R) where
  abbrev pass : Headers → Io W (Reply R)
  pass headers w = let (x, w') = next w in (passed headers x, w')

  -- A request by its method and its Origin header, which is empty if absent.
  unfoldable pub cors : List String → Bool → String → String → Io W (Reply R)
  unfolding contains
  cors origins auth_enabled method origin w =
      let wildcard = not auth_enabled && contains "*" origins in
      if origin == "" || (not wildcard && not (contains origin origins))
      then (if method == "OPTIONS" then (no_content [], w) else pass [] w)
      else if method == "OPTIONS"
      then (no_content (origin_headers origin ++ preflight_headers), w)
      else pass (origin_headers origin) w

-- The order of New (internal/api/api.go): api-key, then CORS, then, behind telemetry, the operations,
-- which are `handler`.
unfoldable pub guarded :
    {P W R : Type 0}
    → (new_event_id : Io W String) → (now : Io W ℤ) → (hash : String → String)
    → (handler : Option Caller → Io W R) → (keys : List Key) → (auth_enabled : Bool)
    → (lookup : Option RouteLookup) → (sinks : Option (List (Sink P W))) → (origins : List String)
    → (r : Request) → (origin : String) → Io W (Answer (Reply R))
guarded new_event_id now hash handler keys auth_enabled lookup sinks origins r origin =
    api_key new_event_id now hash
      (λ caller. cors (handler caller) origins auth_enabled r.method origin) keys auth_enabled
      lookup sinks r
