-- ===== src/Http/Auth/Laws.antt =====
-- Who gets past authentication: internal/api/middleware/apikey.go.
use kafka3o_gateway.Prelude.{
  ℤ, String, true, false, ◌≡◌, ◌≢◌, ◌⊎◌, inl, inr, refl, ap, ◌∙◌, Option, none, some, List, [], ◌∷◌,
  ◌==◌, string_eq, if◌then◌else◌, All, eq_iff, Bool-cases,
}
use mathlib.Core.List.{Memᴰ}
use kafka3o_gateway.Gates.{Caller}
use kafka3o_gateway.Audit.{Io, Sink}
use kafka3o_gateway.Http.Auth.{
  Key, Request, RouteLookup, refused, unauthenticated, find_digest, match_key, caller_of, serve,
  audit_unauthenticated_rejection, api_key,
}
use kafka3o_gateway.Http.Reason.{sanitize_break_glass}

unequal : (a b : String) → (a == b) ≡ false → a ≢ b
unequal a b h e = cc (h, (eq_iff a b).1 e)

abbrev pub IsFound : Option Key → String → List Key → Type 0
IsFound found digest keys =
    ((key : Key) × (found ≡ some key) × Memᴰ key keys × (digest ≡ key.sha256))
    ⊎ ((found ≡ none) × All (λ k. digest ≢ k.sha256) keys)

module _ (hash : String → String) where
  pub find_digest-IsFound :
      (digest : String) (keys : List Key) → IsFound (find_digest hash digest keys) digest keys
  unfolding find_digest
  find_digest-IsFound digest [] = inr (refl, tt)
  find_digest-IsFound digest (k ∷ ks) = elim (Bool-cases (digest == k.sha256)) [
    | inl same ↦ inl (
      k,
      ap (λ b. if b then some k else find_digest hash digest ks) same,
      Memᴰ.head refl,
      (eq_iff digest k.sha256).0 same,
    )
    | inr other ↦
        let skip : find_digest hash digest (k ∷ ks) ≡ find_digest hash digest ks =
          ap (λ b. if b then some k else find_digest hash digest ks) other in
        elim (find_digest-IsFound digest ks) [
          | inl h ↦ inl (h.0, skip ∙ h.1, Memᴰ.tail h.2, h.3)
          | inr h ↦ inr (skip ∙ h.0, (unequal digest k.sha256 other, h.1))
        ]
  ]

module _ {P W R : Type 0} (hash : String → String) (new_event_id : Io W String) (now : Io W ℤ)
    (next : Option Caller → Io W R) (keys : List Key) (lookup : Option RouteLookup)
    (sinks : Option (List (Sink P W))) where
  abbrev pub IsAdmitted : Request → W → Type 0
  IsAdmitted r w =
      (key : Key) × (r.api_key ≢ "")
      × Memᴰ key keys
      × (hash r.api_key ≡ key.sha256)
      × (api_key new_event_id now hash next keys true lookup sinks r w
          ≡ serve next (some (caller_of r (some key.id) key.tier)) w)

  abbrev pub IsTurnedAway : Request → W → Type 0
  IsTurnedAway r w =
      ((r.api_key ≡ "") ⊎ All (λ k. hash r.api_key ≢ k.sha256) keys)
      × (api_key new_event_id now hash next keys true lookup sinks r w ≡ (
        refused (unauthenticated r.request_id),
        audit_unauthenticated_rejection new_event_id now lookup sinks r
            (sanitize_break_glass r.break_glass) w,
      ))

  -- With authentication on, a request that is no CORS preflight is served as the caller of a configured
  -- key whose digest is that of the key it presents, or, if it presents none of them, refused: then
  -- the next handler does not run, and the state is that which the rejection's audit leaves.
  pub api_key-IsAdmitted :
      (r : Request) (w : W) → (r.method == "OPTIONS") ≡ false → IsAdmitted r w ⊎ IsTurnedAway r w
  unfolding api_key match_key
  api_key-IsAdmitted r w method = elim (Bool-cases (r.api_key == "")) [
    | inl empty ↦ inr (inl ((eq_iff r.api_key "").0 empty), rw (method, empty) refl)
    | inr given ↦
        let presented : r.api_key ≢ "" = unequal r.api_key "" given in
        elim (find_digest-IsFound hash (hash r.api_key) keys) [
          | inl h ↦ inl (h.0, presented, h.2, h.3, rw method (rw given (rw h.1 refl)))
          | inr h ↦ inr (inr h.1, rw method (rw given (rw h.0 refl)))
        ]
  ]
