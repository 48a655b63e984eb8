-- ===== src/State/Routes.antt =====
-- pkg/state/routes.go, and `NewRoutesState` of pkg/state/builder.go.
-- The lock is held throughout `Build` and `GetRoutes`, so each is one step. The channel is the
-- number of sends on it: `Build` ends once the receiver has taken the update.
pub mod Reading
pub mod Building
pub mod Update
pub mod Runs
pub mod Sample
mod Tests
use cruiser.Base.{
  ℕ, suc, String, List, [], ◌∷◌, Option, none, some, ◌==◌, Dict, index, assign, keys, length,
  Outcome, no_parent_found, not, if◌then◌else◌,
}
use cruiser.Base.Run.{Run, pure, fail, modify, lift, get, for_each, ◌>>=◌, ◌>>◌}
use cruiser.Proto.{Route}
use cruiser.State.Terraform.{ResourceInstance, Resource, Tfstate}
use cruiser.State.Graph.{Graph, new_graph, add_single_node, add_edge, topological_sort}

pub record RoutesState : Type 0 where
  pub routes : Graph Route
  pub routes_map : Dict Route
  pub updates : ℕ

unfoldable pub new_routes_state : RoutesState
new_routes_state = record { routes = new_graph Route; routes_map = []; updates = 0 }

-- The `keyGetter` that `NewRoutesState` passes to `NewGraph`.
abbrev pub route_key : Route → String
route_key r = r.name

-- `protojson.Unmarshal` into a new route is a parameter.
module _ (unmarshal : String → Outcome Route) where
  unfoldable pub read_instance : ResourceInstance → Run RoutesState (Unit {0})
  read_instance instance = do
    route ← lift (unmarshal instance.proto_json)
    modify (λ s. record s { routes_map = assign s.routes_map route.name route })

  unfoldable pub read_resource : Resource → Run RoutesState (Unit {0})
  unfolding read_instance for_each
  read_resource resource =
      if resource.type == "cruiser_route"
      then for_each read_instance resource.instances
      else pure tt

  unfoldable pub read_from_tfstate : Tfstate → Run RoutesState (Unit {0})
  unfolding read_resource
  read_from_tfstate tfstate = for_each read_resource tfstate.resources

-- One round of the loop of `Build`, at a key of `routesMap`.
unfoldable pub build_route : String → Run RoutesState (Unit {0})
build_route key s = elim (index s.routes_map key) [
  | none ↦ pure tt s
  | some route ↦
      if route.parent_name == ""
      then modify (λ s. record s { routes = add_single_node route_key s.routes route }) s
      else elim (index s.routes_map route.parent_name) [
        | none ↦ fail no_parent_found s
        | some parent ↦
            modify (λ s. record s { routes = add_edge route_key s.routes route parent }) s
      ]
]

-- `order` is the order in which `routesMap` is ranged over.
unfoldable pub build : List String → Run RoutesState (Unit {0})
unfolding build_route for_each
build order = do
  for_each build_route order
  modify (λ s. record s { routes_map = [] })
  modify (λ s. record s { updates = suc s.updates })

-- The order is that in which the sort ranges over the nodes. `none`: the fuel ran out.
unfoldable pub get_routes : ℕ → List String → RoutesState → Option (Outcome (List Route))
unfolding topological_sort
get_routes fuel order s = topological_sort fuel s.routes order
