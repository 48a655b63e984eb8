-- ===== src/Server/Router/Parsing.antt =====
-- When a router configuration is taken, and what is then in the router.
use cruiser.Base.{
  String, Bool, true, false, List, [], ◌∷◌, ◌++◌, Option, none, some, ◌==◌, Dict, ◌||◌, ◌&&◌, ◌≡◌,
  refl, sym, ap, ◌∙◌, is_some, inl, inr, Bool-cases,
}
use mathlib.Core.Bool.{true≢false}
use mathlib.Core.Path.{fun_ext}
use mathlib.Core.List.{append-nil, append_assoc}
use cruiser.Base.Run.{for_each}
use cruiser.Proto.{Handler, Route}
use cruiser.Server.Router.{Mux, IsMux, Router, parse_proto_router_config}
use cruiser.Server.Router.Accepted.{
  is_ok, plain_rules, plain_routes, parents_first, all_served, is_served, and-true, and-refused,
  and-taken,
}
use cruiser.Server.Router.Steps.{
  has_parent, knows, with_handler, parse_step, parse_stops, takes_rules, plain-takes_rules,
}

-- The handlers of a list of routes, in their order.
abbrev pub handlers_of : List Route → List Handler
handlers_of [] = []
handlers_of (route ∷ routes) = elim route.handler [
  | none ↦ handlers_of routes
  | some h ↦ h ∷ handlers_of routes
]

-- Whether one of the routes has the name.
abbrev pub declares : List Route → String → Bool
declares [] n = false
declares (route ∷ routes) n = declares routes n || (route.name == n)

or_assoc : (a b c : Bool) → (a || (b || c)) ≡ ((a || b) || c)
or_assoc true b c = refl
or_assoc false b c = refl

module _ {H : Type 0} {M : Mux H} (is_mux : IsMux M) (range : Dict String → List String) where
  -- A configuration of which no template has a capturing group is taken if and only if each of its
  -- routes stands behind the route that it names as its parent, or that route was there, and each
  -- handler has a provider that makes a backend of it, of the kind that the rules ask for.
  pub parse_proto_router_config-ok :
      (routes : List Route) (s : Router M)
      → plain_routes range is_mux.is_plain routes ≡ true
      → is_ok (parse_proto_router_config M range routes s).1
        ≡ (parents_first (λ n. is_some (M.get_route s.rtr n)) routes && all_served s.provs routes)
  unfolding parse_proto_router_config for_each has_parent
  parse_proto_router_config-ok [] s p = refl
  parse_proto_router_config-ok (route ∷ routes) s p =
      let (plain, rest) =
        and-true (plain_rules range is_mux.is_plain route.matchers)
          (plain_routes range is_mux.is_plain routes) p in
      let k = plain-takes_rules is_mux range s route plain in
      elim (Bool-cases (has_parent s route && is_served s.provs route)) [
        | inr bad ↦
            parse_stops is_mux range route routes s
              (ap (λ b. has_parent s route && (b && is_served s.provs route)) k ∙ bad)
            ∙ sym (and-refused (has_parent s route) (is_served s.provs route) _ _ bad)
        | inl good ↦
            let (h, v) = and-true (has_parent s route) (is_served s.provs route) good in
            let (t, added, same) = parse_step is_mux range route routes s h k v in
            ap (λ r. is_ok r.1) same
            ∙ parse_proto_router_config-ok routes t rest
            ∙ ap (λ known. parents_first known routes && all_served t.provs routes)
                (fun_ext added.adds_name)
            ∙ ap
                (λ provs.
                  parents_first (λ n. (route.name == n) || knows s n) routes
                  && all_served provs routes)
                added.keeps_provs
            ∙ sym (and-taken (has_parent s route) (is_served s.provs route) _ _ h v)
      ]

  with_handler-append :
      (handler : Option Handler) (hs rest : List Handler)
      → (with_handler handler hs ++ rest)
        ≡ (hs ++ (elim handler [ none ↦ rest | some h ↦ h ∷ rest ]))
  with_handler-append none hs rest = refl
  with_handler-append (some h) hs rest = append_assoc hs (h ∷ []) rest

  -- What is in the router when a configuration is taken: its handlers are behind those that were
  -- there, in the order of their routes, a name is known if it was before or is the name of one of
  -- the routes, and the providers are the ones that were there.
  pub parse_proto_router_config_effect :
      (routes : List Route) (s : Router M)
      → is_ok (parse_proto_router_config M range routes s).1 ≡ true
      → let t = (parse_proto_router_config M range routes s).0 in
        (t.handlers ≡ s.handlers ++ handlers_of routes)
        × ((n : String)
            → is_some (M.get_route t.rtr n) ≡ (declares routes n || is_some (M.get_route s.rtr n)))
        × (t.provs ≡ s.provs)
  unfolding parse_proto_router_config for_each
  parse_proto_router_config_effect [] s e = (sym (append-nil s.handlers), λ n. refl, refl)
  parse_proto_router_config_effect (route ∷ routes) s e =
      let k = takes_rules is_mux range s route in
      elim (Bool-cases (has_parent s route && (k && is_served s.provs route))) [
        | inr bad ↦ absurd (true≢false (sym e ∙ parse_stops is_mux range route routes s bad))
        | inl good ↦
            let (h, kv) = and-true (has_parent s route) (k && is_served s.provs route) good in
            let (taken, v) = and-true k (is_served s.provs route) kv in
            let (t, added, same) = parse_step is_mux range route routes s h taken v in
            let (hs, names, provs) =
              parse_proto_router_config_effect routes t (sym (ap (λ r. is_ok r.1) same) ∙ e) in
            (
              ap (λ r. r.0.handlers) same
                  ∙ hs
                  ∙ ap (λ before. before ++ handlers_of routes) added.adds_handler
                  ∙ with_handler-append route.handler s.handlers (handlers_of routes),
              (λ n.
                  ap (λ r. knows r.0 n) same
                  ∙ names n
                  ∙ ap (λ known. declares routes n || known) (added.adds_name n)
                  ∙ or_assoc (declares routes n) (route.name == n) (knows s n)),
              ap (λ r. r.0.provs) same ∙ provs ∙ added.keeps_provs,
            )
      ]
