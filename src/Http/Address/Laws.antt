-- ===== src/Http/Address/Laws.antt =====
-- Which entry of X-Forwarded-For counts: internal/api/middleware/clientip.go.
use kafka3o_gateway.Prelude.{
  String, true, false, ◌≡◌, ◌⊎◌, refl, some, none, List, [], ◌∷◌, ◌++◌, All, ◌==◌, string_eq,
  Bool-cases, inl, inr,
}
use kafka3o_gateway.Http.Address.{
  Net, peer_ip, is_trusted, candidate, last_untrusted, resolve_client_ip,
}

module _ {A N : Type 0} (net : Net A N) (proxies : List N) where
  -- An entry that the search passes over: an empty one or a trusted proxy.
  abbrev pub IsPassed : String → Type 0
  IsPassed e = (net.trim e == "" ≡ true) ⊎ (is_trusted net proxies (net.trim e) ≡ true)

  candidate-IsPassed : (e : String) → IsPassed e → candidate net proxies e ≡ none
  candidate-IsPassed e (inl empty) = rw empty refl
  candidate-IsPassed e (inr trusted) = elim (Bool-cases (net.trim e == "")) [
    | inl empty ↦ rw empty refl
    | inr text ↦ rw text (rw trusted refl)
  ]

  last_untrusted-none : (es : List String) → All IsPassed es → last_untrusted net proxies es ≡ none
  unfolding last_untrusted
  last_untrusted-none [] h = refl
  last_untrusted-none (e ∷ es) h = rw (last_untrusted-none es h.1) (candidate-IsPassed e h.0)

  last_untrusted-append :
      (front : List String) (entry : String) (passed : List String)
      → (net.trim entry == "") ≡ false
      → is_trusted net proxies (net.trim entry) ≡ false
      → All IsPassed passed
      → last_untrusted net proxies (front ++ entry ∷ passed) ≡ some (net.trim entry)
  unfolding last_untrusted
  last_untrusted-append [] entry passed text foreign h =
      rw (last_untrusted-none passed h) (rw text (rw foreign refl))
  last_untrusted-append (f ∷ front) entry passed text foreign h =
      rw (last_untrusted-append front entry passed text foreign h) refl

  -- Behind a trusted peer, the address is the last entry that is neither empty nor a trusted proxy,
  -- whatever stands before it: what a client puts in front cannot change it.
  pub resolve_client_ip-last :
      (remote_addr forwarded entry : String) (front passed : List String)
      → is_trusted net proxies (peer_ip net remote_addr) ≡ true
      → net.split forwarded ≡ front ++ entry ∷ passed
      → (net.trim entry == "") ≡ false
      → is_trusted net proxies (net.trim entry) ≡ false
      → All IsPassed passed
      → resolve_client_ip net proxies remote_addr forwarded ≡ net.trim entry
  unfolding resolve_client_ip
  resolve_client_ip-last remote_addr forwarded entry front passed peer split text foreign h =
      rw peer (rw split (rw (last_untrusted-append front entry passed text foreign h) refl))
