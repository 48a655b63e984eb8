-- ===== src/State/Routes/Tests.antt =====
-- A root route and its child, read and built.
use cruiser.Base.{
  suc, String, true, [], ◌∷◌, ◌++◌, eq_iff, mem, index, assign, keys, has, IsRange, ok, err,
  no_parent_found, ◌≡◌, refl, arith, ◌||◌,
}
use cruiser.Proto.{Route}
use cruiser.State.Graph.{
  new_graph, add_node, add_edge, append_dependency, add_single_node, dependencies_of,
}
use cruiser.State.Graph.Valid.{IsValid, new_graph-IsValid}
use cruiser.State.Routes.{
  RoutesState, new_routes_state, route_key, read_from_tfstate, build, get_routes,
}
use cruiser.State.Routes.Building.{is_orphan, parent_edge, IsKeyed}
use cruiser.State.Routes.Sample.{
  decode, two_routes, route, loaded, loaded-IsKeyed, order, loaded-IsRange, loaded_placed,
}
use cruiser.State.Routes.Reading.{Reads, declared_by, read_from_tfstate_effect}
use cruiser.State.Routes.Update.{build_fails, build_publishes}

runs : Unit {0}
unfolding read_from_tfstate build get_routes new_routes_state new_graph add_node add_edge
    append_dependency add_single_node index assign mem keys
runs = tt

build_two : (build ("r" ∷ "c" ∷ []) loaded).0.updates ≡ 1
unfolding runs
build_two = refl

read_from_tfstate_effect_example :
    Reads decode
      (declared_by two_routes.resources)
      new_routes_state
      (read_from_tfstate decode two_routes new_routes_state)
read_from_tfstate_effect_example = read_from_tfstate_effect decode two_routes new_routes_state

build_publishes_example :
    (t : RoutesState) × (build order loaded ≡ (t, ok tt))
    × (t.routes_map ≡ [])
    × (t.updates ≡ suc loaded.updates)
    × ((j : String) → has t.routes.nodes j ≡ (has loaded.routes.nodes j || has loaded.routes_map j))
    × ((j : String)
        → dependencies_of t.routes j
          ≡ dependencies_of loaded.routes j ++ parent_edge loaded.routes_map j)
    × IsValid route_key t.routes
build_publishes_example =
    build_publishes loaded loaded-IsKeyed order loaded-IsRange (new_graph-IsValid route_key)
      loaded_placed

-- A route whose parent was not read.
abbrev lonely : RoutesState
lonely = record { routes = new_graph Route; routes_map = ("c", route "c" "r") ∷ []; updates = 0 }

lonely-IsKeyed : IsKeyed lonely.routes_map
unfolding index
lonely-IsKeyed k r e = ground (arith, eq_iff "c" k)

lonely-IsRange : IsRange ("c" ∷ []) lonely.routes_map
unfolding runs
lonely-IsRange = record { covers = λ k. ground (arith, eq_iff "c" k); once = (refl, tt) }

lonely_orphan : is_orphan lonely.routes_map "c" ≡ true
unfolding runs
lonely_orphan = refl

build_fails_example :
    (t : RoutesState) × (build ("c" ∷ []) lonely ≡ (t, err no_parent_found))
    × (t.routes_map ≡ lonely.routes_map)
    × (t.updates ≡ lonely.updates)
build_fails_example = build_fails lonely lonely-IsKeyed ("c" ∷ []) lonely-IsRange "c" lonely_orphan
