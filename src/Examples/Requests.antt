-- ===== src/Examples/Requests.antt =====
-- The middleware on an operator's key, a proxy and a break-glass reason. The state is the clock.
use Prim.Native.Char.{code}
use Prim.Native.String.{[] as empty, ◌∷◌ as and_then}
use kafka3o_gateway.Prelude.{
  ℕ, pos, String, ◌≡◌, ◌⊎◌, inr, refl, Option, none, some, List, [], ◌∷◌, ◌==◌, string_eq, nat_eq,
  if◌then◌else◌,
}
use kafka3o_gateway.Gates.{Caller}
use kafka3o_gateway.Http.Auth.{Key, Request}
use kafka3o_gateway.Http.Auth.Laws.{IsAdmitted, IsTurnedAway, api_key-IsAdmitted}
use kafka3o_gateway.Http.Cors.Laws.{served_by, guarded-AgreeOnKeys}
use kafka3o_gateway.Http.Reason.{sanitize_break_glass}
use kafka3o_gateway.Http.Reason.Laws.{IsLongest, printable, sanitize_break_glass-IsLongest}
use kafka3o_gateway.Http.Address.{Net, is_trusted, resolve_client_ip}
use kafka3o_gateway.Http.Address.Laws.{resolve_client_ip-last}

abbrev key : Key
key = record { id = "key-1"; tier = "operator"; sha256 = "#secret" }

abbrev request : Request
request = record {
  method = "DELETE";
  path = "/topics/orders";
  api_key = "secret";
  break_glass = "";
  request_id = "req-1";
  client_ip = "10.0.0.1";
}

-- A digest that marks the text.
abbrev hash : String → String
hash s = and_then "#" s

abbrev next : Option Caller → ℕ → String × ℕ
next caller w = ("deleted", w)

api_key-IsAdmitted_example :
    IsAdmitted {P = String} hash
      (λ w. ("event-1", w))
      (λ w. (pos w, w))
      next
      (key ∷ [])
      none
      none
      request
      7
    ⊎ IsTurnedAway {P = String} hash
        (λ w. ("event-1", w))
        (λ w. (pos w, w))
        next
        (key ∷ [])
        none
        none
        request
        7
api_key-IsAdmitted_example =
    api_key-IsAdmitted {P = String} hash (λ w. ("event-1", w)) (λ w. (pos w, w)) next (key ∷ [])
      none none request 7 refl

-- A handler that also serves requests without a caller.
abbrev careless : Option Caller → ℕ → String × ℕ
careless none w = ("leaked", w)
careless (some caller) w = ("deleted", w)

guarded-AgreeOnKeys_example :
    served_by {P = String}
      (λ w. ("event-1", w))
      (λ w. (pos w, w))
      hash
      (key ∷ [])
      none
      none
      []
      request
      ""
      next
      7
    ≡ served_by {P = String}
        (λ w. ("event-1", w))
        (λ w. (pos w, w))
        hash
        (key ∷ [])
        none
        none
        []
        request
        ""
        careless
        7
guarded-AgreeOnKeys_example =
    guarded-AgreeOnKeys {P = String} (λ w. ("event-1", w)) (λ w. (pos w, w)) hash (key ∷ []) none
      none [] request "" next careless 7 (λ k m e. refl)

sanitize_break_glass-IsLongest_example :
    IsLongest 0 (sanitize_break_glass "incident\n42") (printable "incident\n42")
sanitize_break_glass-IsLongest_example = sanitize_break_glass-IsLongest "incident\n42"

-- At each comma.
split : String → List String
split empty = "" ∷ []
split (and_then c s) = elim (split s) [
  | [] ↦ []
  | p ∷ ps ↦ if code c == 44 then "" ∷ p ∷ ps else and_then c p ∷ ps
]

abbrev net : Net String String
unfolding split
net = record {
  split_host = λ s. none;
  parse_ip = λ s. some s;
  contains = λ n a. n == a;
  split = split;
  trim = λ s. s;
}

resolve_client_ip-last_example :
    resolve_client_ip net ("10.0.0.1" ∷ []) "10.0.0.1" "1.1.1.1,203.0.113.7,10.0.0.1"
    ≡ "203.0.113.7"
unfolding split is_trusted
resolve_client_ip-last_example =
    resolve_client_ip-last net ("10.0.0.1" ∷ []) "10.0.0.1" "1.1.1.1,203.0.113.7,10.0.0.1"
      "203.0.113.7" ("1.1.1.1" ∷ []) ("10.0.0.1" ∷ []) refl refl refl refl (inr refl, tt)
