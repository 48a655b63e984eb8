-- ===== src/Server/Router.antt =====
-- pkg/server/router.go, and `NewRouter` with its options of pkg/server/builder.go.
pub mod Headers
pub mod Parsing
pub mod Accepted
pub mod Rules
pub mod Steps
pub mod Sample
mod Tests
use cruiser.Base.{
  ℕ, suc, zero, String, Bool, true, false, List, [], ◌∷◌, ◌++◌, map, Option, none, some, ◌==◌, eqb,
  Dict, index, keys, length, Outcome, ok, err, panic, Error, no_backend_provider, if◌then◌else◌,
  ◌||◌, ◌&&◌, ◌≡◌, is_some,
}
use cruiser.Base.Run.{Run, pure, fail, panics, lift, modify, get, for_each, and_then, ◌>>=◌, ◌>>◌}
use cruiser.Proto.{
  Rule, Method, Scheme, no_rule, is_grpc_call, host, path, path_prefix, methods, schemes, headers,
  headers_regexp, queries, method_name, scheme_name, Handler, no_backend, aws_lambda, Route,
}

-- What the code asks of a `mux.Route`; `on_grpc` is the function that it passes to `MatcherFunc`.
pub data Matcher : Type 0 where
  on_host on_path on_path_prefix : String → Matcher
  on_methods on_schemes on_headers on_headers_regexp on_queries : List String → Matcher
  on_grpc : Matcher

-- Whether no template of a matcher has a capturing group, where `is_plain` says it of a text.
abbrev pub all_plain : (String → Bool) → List String → Bool
all_plain is_plain [] = true
all_plain is_plain (text ∷ texts) = is_plain text && all_plain is_plain texts

abbrev pub plain_matcher : (String → Bool) → Matcher → Bool
plain_matcher is_plain (on_host text) = is_plain text
plain_matcher is_plain (on_path text) = is_plain text
plain_matcher is_plain (on_path_prefix text) = is_plain text
plain_matcher is_plain (on_queries texts) = all_plain is_plain texts
plain_matcher is_plain _ = true

-- What is used of gorilla/mux: routers, whose subrouters share their names, and routes. `H` is the
-- type of the HTTP handlers.
pub record Mux (H : Type 0) : Type 1 where
  pub Router : Type 0
  pub RouteId : Type 0
  pub new_router : Router
  -- `Get(name)`, which may be nil
  pub get_route : Router → String → Option RouteId
  -- `NewRoute().Name(name)` on the router, or on the subrouter of a route
  pub new_route : Router → Option RouteId → String → Router × RouteId
  -- no router where it panics, as on a template with a capturing group
  pub add_matcher : Router → RouteId → Matcher → Option Router
  pub set_handler : Router → RouteId → H → Router

-- What is documented of the names, and of the templates: mux panics on a capturing group only.
pub record IsMux {H : Type 0} (M : Mux H) : Type 0 where
  pub starts_empty : (n : String) → M.get_route M.new_router n ≡ none
  pub names :
      (r : M.Router) (p : Option M.RouteId) (name n : String)
      → M.get_route (M.new_route r p name).0 n
        ≡ (if name == n then some (M.new_route r p name).1 else M.get_route r n)
  pub matcher_keeps :
      (r : M.Router) (i : M.RouteId) (m : Matcher) (t : M.Router) (n : String)
      → M.add_matcher r i m ≡ some t
      → M.get_route t n ≡ M.get_route r n
  pub is_plain : String → Bool
  pub plain_taken :
      (r : M.Router) (i : M.RouteId) (m : Matcher)
      → plain_matcher is_plain m ≡ true
      → is_some (M.add_matcher r i m) ≡ true
  pub handler_keeps :
      (r : M.Router) (i : M.RouteId) (h : H) (n : String)
      → M.get_route (M.set_handler r i h) n ≡ M.get_route r n

-- The interface `BackendProvider`, less the health checks. It gives no
-- backend when it panics.
pub record BackendProvider (H : Type 0) : Type 0 where
  pub backend_provider_key : ℕ
  pub to_grpc_backend : Handler → Option H
  pub to_http_backend : Handler → Option H

-- `AWSBackendProvider` is the first of the keys.
abbrev pub aws_backend_provider : ℕ
aws_backend_provider = 0

-- `make([]string, len(m))`, to which the keys and values are appended, in the order of the range.
abbrev pub empty_texts : ℕ → List String
empty_texts zero = []
empty_texts (suc n) = "" ∷ empty_texts n

unfoldable pub append_pairs : Dict String → List String → List String → List String
append_pairs m [] pairs = pairs
append_pairs m (key ∷ order) pairs =
    append_pairs m order
      (elim (index m key) [ none ↦ pairs | some value ↦ pairs ++ key ∷ value ∷ [] ])

unfoldable pub header_pairs : List String → Dict String → List String
header_pairs order m = append_pairs m order (empty_texts (length order))

-- The zero of the key, if no backend is set.
abbrev pub provider_key : Handler → ℕ
provider_key no_backend = 0
provider_key (aws_lambda _) = aws_backend_provider

pub record Router {H : Type 0} (M : Mux H) : Type 0 where
  pub rtr : M.Router
  pub provs : ℕ → Option (BackendProvider H)
  pub handlers : List Handler

-- `range` is the order in which a map is gone through.
module _ {H : Type 0} (M : Mux H) (range : Dict String → List String) where
  -- On the mux and on `isGrpcCall`.
  abbrev pub with_matcher : M.RouteId → Matcher → Bool → Run (M.Router × Bool) (Unit {0})
  with_matcher i m grpc (r, was) = elim (M.add_matcher r i m) [
    | none ↦ ((r, was), panic)
    | some t ↦ ((t, grpc || was), ok tt)
  ]

  -- One case of the switch.
  unfoldable pub add_rule : M.RouteId → Rule → Run (M.Router × Bool) (Unit {0})
  add_rule i no_rule = pure tt
  add_rule i (host text) = with_matcher i (on_host text) false
  add_rule i (path text) = with_matcher i (on_path text) false
  add_rule i (path_prefix text) = with_matcher i (on_path_prefix text) false
  add_rule i (methods ms) = with_matcher i (on_methods (map method_name ms)) false
  add_rule i (schemes ss) = with_matcher i (on_schemes (map scheme_name ss)) false
  add_rule i (headers m) = with_matcher i (on_headers (header_pairs (range m) m)) false
  add_rule i (headers_regexp m) =
      with_matcher i (on_headers_regexp (header_pairs (range m) m)) false
  add_rule i (queries m) = with_matcher i (on_queries (header_pairs (range m) m)) false
  add_rule i (is_grpc_call true) = with_matcher i on_grpc true
  add_rule i (is_grpc_call false) = pure tt

  unfoldable pub add_rules : M.RouteId → List Rule → Run (M.Router × Bool) (Unit {0})
  unfolding for_each
  add_rules i = for_each (add_rule i)

  -- `r.rtr.Get(route.ParentName).Subrouter()` panics on a nil route.
  unfoldable pub find_parent : String → Run (Router M) (Option M.RouteId)
  find_parent parent s =
      if parent == ""
      then (s, ok none)
      else elim (M.get_route s.rtr parent) [ none ↦ (s, panic) | some i ↦ (s, ok (some i)) ]

  abbrev pub to_backend : BackendProvider H → Bool → Handler → Option H
  to_backend prov true = prov.to_grpc_backend
  to_backend prov false = prov.to_http_backend

  unfoldable pub set_backend : M.RouteId → Bool → Option Handler → Run (Router M) (Unit {0})
  set_backend i grpc none s = (s, ok tt)
  set_backend i grpc (some h) s =
      let t = record s { handlers = s.handlers ++ h ∷ [] } in
      elim (t.provs (provider_key h)) [
        | none ↦ (t, err no_backend_provider)
        | some prov ↦ elim (to_backend prov grpc h) [
          | none ↦ (t, panic)
          | some backend ↦ (record t { rtr = M.set_handler t.rtr i backend }, ok tt)
        ]
      ]

  -- What follows the rules, on the mux and the `isGrpcCall` that they leave.
  abbrev pub after_rules :
      M.RouteId
      → Option Handler
      → Router M
      → (M.Router × Bool) × Outcome (Unit {0})
      → Router M × Outcome (Unit {0})
  after_rules i handler s ((r, grpc), ok _) = set_backend i grpc handler (record s { rtr = r })
  after_rules i handler s ((r, grpc), err e) = (record s { rtr = r }, err e)
  after_rules i handler s ((r, grpc), panic) = (record s { rtr = r }, panic)

  unfoldable pub add_route : Route → Option M.RouteId → Run (Router M) (Unit {0})
  add_route route parent s =
      let added = M.new_route s.rtr parent route.name in
      after_rules added.1 route.handler s (add_rules added.1 route.matchers (added.0, false))

  unfoldable pub parse_proto_route : Route → Run (Router M) (Unit {0})
  parse_proto_route route = find_parent route.parent_name >>= add_route route

  unfoldable pub parse_proto_router_config : List Route → Run (Router M) (Unit {0})
  parse_proto_router_config = for_each parse_proto_route

  -- An option of `NewRouter` panics on an error.
  unfoldable pub with_router_config : List Route → Router M → Option (Router M)
  with_router_config routes r =
      let (t, outcome) = parse_proto_router_config routes r in
      elim outcome [ ok _ ↦ some t | err _ ↦ none | panic ↦ none ]

  abbrev pub with_backend_provider : BackendProvider H → Router M → Option (Router M)
  with_backend_provider prov r = some record r {
    provs = λ key. if eqb key prov.backend_provider_key then some prov else r.provs key;
  }

  abbrev pub apply_options : List (Router M → Option (Router M)) → Router M → Option (Router M)
  apply_options [] r = some r
  apply_options (option ∷ options) r = elim (option r) [
    | none ↦ none
    | some t ↦ apply_options options t
  ]

  -- `NewRouter`, which gives no router if an option panics.
  abbrev pub new_router : List (Router M → Option (Router M)) → Option (Router M)
  new_router options =
      apply_options options record { rtr = M.new_router; provs = λ _. none; handlers = [] }
