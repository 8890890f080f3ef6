-- ===== src/Http/Cors/Laws.antt =====
-- What reaches an operation behind the api-key and CORS middleware: internal/api/middleware.
use kafka3o_gateway.Prelude.{
  eq_iff, ℤ, String, Bool, true, ◌≡◌, inl, inr, refl, Option, none, some, List, ◌==◌, string_eq,
  not, ◌&&◌, ◌||◌, Bool-cases,
}
use kafka3o_gateway.Gates.{Caller}
use kafka3o_gateway.Audit.{Io, Sink}
use mathlib.Core.List.{Memᴰ}
use kafka3o_gateway.Http.Auth.{Key, Request, RouteLookup, Answer, match_key, caller_of, api_key}
use kafka3o_gateway.Http.Auth.Laws.{find_digest-IsFound}
use kafka3o_gateway.Http.Cors.{contains, Reply, cors, guarded}

-- A preflight request does not depend on the handler.
cors-preflight :
    {W R : Type 0} (h h' : Io W R) (origins : List String) (auth_enabled : Bool) (origin : String)
    (w : W)
    → cors h origins auth_enabled "OPTIONS" origin w
      ≡ cors h' origins auth_enabled "OPTIONS" origin w
unfolding cors
cors-preflight h h' origins auth_enabled origin w =
    elim (Bool-cases (
      origin == ""
      || (not (not auth_enabled && contains "*" origins) && not (contains origin origins)))) [
        | inl foreign ↦ rw foreign refl
        | inr allowed ↦ rw allowed refl
      ]

module _ {P W R : Type 0} (new_event_id : Io W String) (now : Io W ℤ) (hash : String → String)
    (keys : List Key) (lookup : Option RouteLookup) (sinks : Option (List (Sink P W)))
    (origins : List String) (r : Request) (origin : String) where
  abbrev pub served_by : (Option Caller → Io W R) → Io W (Answer (Reply R))
  served_by handler = guarded new_event_id now hash handler keys true lookup sinks origins r origin

  -- The two handlers agree on the callers of the configured keys that the request's key matches.
  abbrev pub AgreeOnKeys : (Option Caller → Io W R) → (Option Caller → Io W R) → Type 0
  AgreeOnKeys h h' =
      (key : Key)
      → Memᴰ key keys
      → hash r.api_key ≡ key.sha256
      → h (some (caller_of r (some key.id) key.tier))
        ≡ h' (some (caller_of r (some key.id) key.tier))

  -- With authentication on, what a request gets and does is the same for any two handlers that agree on
  -- the callers of the configured keys whose digest is that of the presented key: the operations are
  -- reached with such a caller or not at all, preflight requests included.
  pub guarded-AgreeOnKeys :
      (h h' : Option Caller → Io W R) (w : W) → AgreeOnKeys h h' → served_by h w ≡ served_by h' w
  unfolding guarded api_key match_key
  guarded-AgreeOnKeys h h' w agree = elim (Bool-cases (r.method == "OPTIONS")) [
    | inl options ↦
        let same : r.method ≡ "OPTIONS" = (eq_iff r.method "OPTIONS").0 options in
        let pre : cors (h none) origins true r.method origin w
            ≡ cors (h' none) origins true r.method origin w =
          rw same (cors-preflight (h none) (h' none) origins true origin w) in
        rw options (rw pre refl)
    | inr method ↦ elim (Bool-cases (r.api_key == "")) [
      | inl empty ↦ rw method (rw empty refl)
      | inr given ↦ elim (find_digest-IsFound hash (hash r.api_key) keys) [
        | inl f ↦ rw method (rw given (rw f.1 (rw (agree f.0 f.2 f.3) refl)))
        | inr f ↦ rw method (rw given (rw f.0 refl))
      ]
    ]
  ]
