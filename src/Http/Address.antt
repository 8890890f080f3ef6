-- ===== src/Http/Address.antt =====
-- internal/api/middleware/clientip.go: whose address a request counts as. Reading addresses and
-- headers is Go's net and strings; an address is read as an `A`, a proxy network is an `N`.
pub mod Laws
use kafka3o_gateway.Prelude.{
  String, Bool, true, false, not, Option, none, some, List, [], ◌∷◌, ◌==◌, string_eq, if◌then◌else◌,
}

-- net.SplitHostPort's host, net.ParseIP, IPNet.Contains, strings.Split at a comma, strings.TrimSpace.
pub record Net (A N : Type 0) : Type 0 where
  pub split_host : String → Option String
  pub parse_ip : String → Option A
  pub contains : N → A → Bool
  pub split : String → List String
  pub trim : String → String

module _ {A N : Type 0} (net : Net A N) where
  abbrev pub peer_ip : String → String
  peer_ip remote_addr = elim (net.split_host remote_addr) [ some h ↦ h | none ↦ remote_addr ]

  -- The loop of isTrusted over the networks.
  in_any : List N → A → Bool
  in_any [] a = false
  in_any (n ∷ ns) a = if net.contains n a then true else in_any ns a

  unfoldable pub is_trusted : List N → String → Bool
  unfolding in_any
  is_trusted proxies ip = elim (net.parse_ip ip) [ none ↦ false | some a ↦ in_any proxies a ]

  -- One turn of the loop over the entries.
  abbrev pub candidate : List N → String → Option String
  candidate proxies entry =
      let c = net.trim entry in
      if c == "" then none else if not (is_trusted proxies c) then some c else none

  -- The loop, which runs from the last entry to the first.
  unfoldable pub last_untrusted : List N → List String → Option String
  last_untrusted proxies [] = none
  last_untrusted proxies (e ∷ es) = elim (last_untrusted proxies es) [
    | some c ↦ some c
    | none ↦ candidate proxies e
  ]

  unfoldable pub resolve_client_ip : List N → String → String → String
  unfolding last_untrusted
  resolve_client_ip proxies remote_addr forwarded =
      let peer = peer_ip remote_addr in
      if not (is_trusted proxies peer)
      then peer
      else elim (last_untrusted proxies (net.split forwarded)) [ some c ↦ c | none ↦ peer ]
