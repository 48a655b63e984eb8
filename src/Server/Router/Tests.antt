-- ===== src/Server/Router/Tests.antt =====
-- The router over the sample mux.
use cruiser.Base.{
  if◌then◌else◌, String, true, List, [], ◌∷◌, none, some, eqb, is_some, Dict, index, keys, ◌≡◌,
  refl, ◌||◌, ◌&&◌,
}
use cruiser.Server.Router.{Router, parse_proto_router_config}
use cruiser.Server.Router.Sample.{mux, is_mux, provider, function, parent, child}
use cruiser.Server.Router.Accepted.{is_ok, plain_routes, parents_first, all_served}
use cruiser.Server.Router.Parsing.{
  declares, parse_proto_router_config-ok, parse_proto_router_config_effect,
}

abbrev range : Dict String → List String
range m = keys m

abbrev router : Router mux
router = record {
  rtr = [];
  provs = λ key. if eqb key 0 then some provider else none;
  handlers = [];
}

plain : plain_routes range is_mux.is_plain (parent ∷ child ∷ []) ≡ true
unfolding is_mux
plain = refl

parse_proto_router_config-ok_example :
    is_ok (parse_proto_router_config mux range (parent ∷ child ∷ []) router).1 ≡ (
      parents_first (λ n. is_some (mux.get_route router.rtr n)) (parent ∷ child ∷ [])
      && all_served router.provs (parent ∷ child ∷ []))
parse_proto_router_config-ok_example =
    parse_proto_router_config-ok is_mux range (parent ∷ child ∷ []) router plain

taken : is_ok (parse_proto_router_config mux range (parent ∷ child ∷ []) router).1 ≡ true
unfolding index
taken = parse_proto_router_config-ok is_mux range (parent ∷ child ∷ []) router plain

parse_proto_router_config_effect_example :
    let t = (parse_proto_router_config mux range (parent ∷ child ∷ []) router).0 in
    (t.handlers ≡ function ∷ [])
    × ((n : String)
        → is_some (mux.get_route t.rtr n)
          ≡ (declares (parent ∷ child ∷ []) n || is_some (mux.get_route router.rtr n)))
    × (t.provs ≡ router.provs)
parse_proto_router_config_effect_example =
    parse_proto_router_config_effect is_mux range (parent ∷ child ∷ []) router taken

abbrev two_headers : Dict String
two_headers = ("X-Api", "1") ∷ ("X-Key", "2") ∷ []
