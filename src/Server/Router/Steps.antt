-- ===== src/Server/Router/Steps.antt =====
-- What one route of a configuration does to the router.
use cruiser.Base.{
  ℕ, String, Bool, true, false, List, [], ◌∷◌, ◌++◌, Option, none, some, ◌==◌, Dict, Outcome, ok,
  err, panic, if◌then◌else◌, ◌||◌, ◌&&◌, ◌≡◌, refl, sym, ap, ◌∙◌, is_some, arith, inl, inr,
  Option-cases, Bool-cases,
}
use cruiser.Base.Run.{for_each}
use cruiser.Proto.{Handler, Route}
use cruiser.Server.Router.{
  after_rules, Mux, IsMux, BackendProvider, Router, provider_key, add_rules, find_parent,
  to_backend, set_backend, add_route, parse_proto_route, parse_proto_router_config,
}
use cruiser.Server.Router.Rules.{
  and_then-goes_on, and_then-stops, add_rules_grpc, add_rules_keeps, add_rules_taken,
}
use cruiser.Server.Router.Accepted.{is_ok, plain_rules, has_backend, is_served, and-false}

abbrev pub with_handler : Option Handler → List Handler → List Handler
with_handler none hs = hs
with_handler (some h) hs = hs ++ h ∷ []

module _ {H : Type 0} {M : Mux H} where
  abbrev pub knows : Router M → String → Bool
  knows s n = is_some (M.get_route s.rtr n)

  unfoldable pub has_parent : Router M → Route → Bool
  has_parent s route = (route.parent_name == "") || knows s route.parent_name

  -- What `set_backend` keeps, however it ends.
  record IsBackendSet (handler : Option Handler) (s t : Router M) : Type 0 where
    pub keeps_names : (n : String) → M.get_route t.rtr n ≡ M.get_route s.rtr n
    pub keeps_provs : t.provs ≡ s.provs
    pub adds_handler : t.handlers ≡ with_handler handler s.handlers

  -- A route that is taken, behind its parent.
  pub record IsRouteAdded (route : Route) (s t : Router M) : Type 0 where
    pub adds_name : (n : String) → knows t n ≡ ((route.name == n) || knows s n)
    pub keeps_provs : t.provs ≡ s.provs
    pub adds_handler : t.handlers ≡ with_handler route.handler s.handlers

module _ {H : Type 0} {M : Mux H} (is_mux : IsMux M) (range : Dict String → List String) where
  has_backend_lem :
      (provs : ℕ → Option (BackendProvider H)) (grpc : Bool) (h : Handler)
      {prov : BackendProvider H} {b : Option H}
      → provs (provider_key h) ≡ some prov
      → to_backend M range prov grpc h ≡ b
      → has_backend provs grpc (some h) ≡ is_some b
  has_backend_lem provs true h e f = rw (e, has_backend) (ap is_some f)
  has_backend_lem provs false h e f = rw (e, has_backend) (ap is_some f)

  set_backend_lem :
      (i : M.RouteId) (grpc : Bool) (handler : Option Handler) (s : Router M)
      → IsBackendSet handler s (set_backend M range i grpc handler s).0
        × (is_ok (set_backend M range i grpc handler s).1 ≡ has_backend s.provs grpc handler)
  unfolding set_backend
  set_backend_lem i grpc none s =
      (record { keeps_names = λ _. refl; keeps_provs = refl; adds_handler = refl }, refl)
  set_backend_lem i grpc (some h) s = elim (Option-cases (s.provs (provider_key h))) [
    | inl e ↦
        rw (e, set_backend)
          (
            record { keeps_names = λ _. refl; keeps_provs = refl; adds_handler = refl },
            rw (e, has_backend) refl,
          )
    | inr (prov, e) ↦ elim (Option-cases (to_backend M range prov grpc h)) [
      | inl f ↦
          rw (e, set_backend, f)
            (
              record { keeps_names = λ _. refl; keeps_provs = refl; adds_handler = refl },
              sym (has_backend_lem s.provs grpc h e f),
            )
      | inr (b, f) ↦
          rw (e, set_backend, f)
            (
              record {
                keeps_names = λ n. is_mux.handler_keeps s.rtr i b n;
                keeps_provs = refl;
                adds_handler = refl;
              },
              sym (has_backend_lem s.provs grpc h e f),
            )
    ]
  ]

  is_some-if :
      {A : Type 0} (b : Bool) (a : A) (o : Option A)
      → is_some (if b then some a else o) ≡ (b || is_some o)
  is_some-if true a o = refl
  is_some-if false a o = refl

  -- Whether mux takes the rules of a route, behind the parent.
  abbrev rules_taken : Route → Option M.RouteId → Router M → Bool
  rules_taken route parent s =
      let added = M.new_route s.rtr parent route.name in
      is_ok (add_rules M range added.1 route.matchers (added.0, false)).1

  after_rules-ok :
      (i : M.RouteId) (handler : Option Handler) (s : Router M)
      (ruled : (M.Router × Bool) × Outcome (Unit {0}))
      → is_ok ruled.1 ≡ true
      → after_rules M range i handler s ruled
        ≡ set_backend M range i ruled.0.1 handler (record s { rtr = ruled.0.0 })
  after_rules-ok i handler s (x, ok _) h = refl
  after_rules-ok i handler s (x, err e) h = cc
  after_rules-ok i handler s (x, panic) h = cc

  after_rules-stops :
      (i : M.RouteId) (handler : Option Handler) (s : Router M)
      (ruled : (M.Router × Bool) × Outcome (Unit {0}))
      → is_ok ruled.1 ≡ false
      → is_ok (after_rules M range i handler s ruled).1 ≡ false
  after_rules-stops i handler s (x, ok _) h = cc
  after_rules-stops i handler s (x, err e) h = refl
  after_rules-stops i handler s (x, panic) h = refl

  add_route_lem :
      (route : Route) (parent : Option M.RouteId) (s : Router M)
      → rules_taken route parent s ≡ true
      → IsRouteAdded route s (add_route M range route parent s).0
        × (is_ok (add_route M range route parent s).1 ≡ is_served s.provs route)
  unfolding add_route
  add_route_lem route parent s taken =
      let added = M.new_route s.rtr parent route.name in
      let ruled = add_rules M range added.1 route.matchers (added.0, false) in
      let (set, served) =
        set_backend_lem added.1 ruled.0.1 route.handler (record s { rtr = ruled.0.0 }) in
      let grpc = add_rules_grpc is_mux range added.1 route.matchers (added.0, false) taken in
      rw (after_rules-ok added.1 route.handler s ruled taken) (
        record {
          adds_name = λ n.
              ap is_some (
                set.keeps_names n
                ∙ add_rules_keeps is_mux range added.1 route.matchers (added.0, false) n
                ∙ is_mux.names s.rtr parent route.name n)
              ∙ is_some-if (route.name == n) added.1 (M.get_route s.rtr n);
          keeps_provs = set.keeps_provs;
          adds_handler = set.adds_handler;
        },
        served ∙ ap (λ g. has_backend s.provs g route.handler) grpc,
      )

  add_route_stops :
      (route : Route) (parent : Option M.RouteId) (s : Router M)
      → rules_taken route parent s ≡ false
      → is_ok (add_route M range route parent s).1 ≡ false
  unfolding add_route
  add_route_stops route parent s refused =
      let added = M.new_route s.rtr parent route.name in
      after_rules-stops added.1 route.handler s
        (add_rules M range added.1 route.matchers (added.0, false)) refused

  -- Whether mux takes the rules of a route behind the parent that it names.
  abbrev pub takes_rules : Router M → Route → Bool
  takes_rules s route =
      rules_taken route
        (if route.parent_name == "" then none else M.get_route s.rtr route.parent_name) s

  pub plain-takes_rules :
      (s : Router M) (route : Route)
      → plain_rules range is_mux.is_plain route.matchers ≡ true
      → takes_rules s route ≡ true
  plain-takes_rules s route p = add_rules_taken is_mux range _ route.matchers _ p

  parse_proto_route_found :
      (route : Route) (s : Router M)
      → has_parent s route ≡ true
      → parse_proto_route M range route s
        ≡ add_route M range route
            (if route.parent_name == "" then none else M.get_route s.rtr route.parent_name)
            s
  unfolding parse_proto_route find_parent has_parent
  parse_proto_route_found route s h = elim (Bool-cases (route.parent_name == "")) [
    | inl t ↦ rw (t, parse_proto_route, find_parent) refl
    | inr f ↦ elim (Option-cases (M.get_route s.rtr route.parent_name)) [
      | inl missing ↦ ground arith
      | inr (i, found) ↦ rw (f, parse_proto_route, find_parent, found) refl
    ]
  ]

  parse_proto_route_panics :
      (route : Route) (s : Router M)
      → has_parent s route ≡ false
      → parse_proto_route M range route s ≡ (s, panic)
  unfolding parse_proto_route find_parent has_parent
  parse_proto_route_panics route s h = ground arith

  pub parse_step :
      (route : Route) (routes : List Route) (s : Router M)
      → has_parent s route ≡ true
      → takes_rules s route ≡ true
      → is_served s.provs route ≡ true
      → (t : Router M) × IsRouteAdded route s t
        × (parse_proto_router_config M range (route ∷ routes) s
            ≡ parse_proto_router_config M range routes t)
  unfolding parse_proto_router_config for_each
  parse_step route routes s h k v =
      let (added, served) = add_route_lem route _ s k in
      let found = parse_proto_route_found route s h in
      (
        _,
        added,
        and_then-goes_on (parse_proto_route M range route s)
              (λ _. for_each (parse_proto_route M range) routes)
              (ap (λ r. is_ok r.1) found ∙ served ∙ v)
            ∙ ap (λ r. for_each (parse_proto_route M range) routes r.0) found,
      )

  pub parse_stops :
      (route : Route) (routes : List Route) (s : Router M)
      → (has_parent s route && (takes_rules s route && is_served s.provs route)) ≡ false
      → is_ok (parse_proto_router_config M range (route ∷ routes) s).1 ≡ false
  unfolding parse_proto_router_config for_each
  parse_stops route routes s h =
      and_then-stops (parse_proto_route M range route s)
        (λ _. for_each (parse_proto_route M range) routes)
        (elim (Bool-cases (has_parent s route)) [
          | inl p ↦
              ap (λ r. is_ok r.1) (parse_proto_route_found route s p)
              ∙ elim (Bool-cases (takes_rules s route)) [
                | inl k ↦
                    let (_, served) = add_route_lem route _ s k in
                    served
                    ∙ and-false (takes_rules s route) (is_served s.provs route)
                        (and-false (has_parent s route) _ h p) k
                | inr refused ↦ add_route_stops route _ s refused
              ]
          | inr q ↦ ap (λ r. is_ok r.1) (parse_proto_route_panics route s q)
        ])
