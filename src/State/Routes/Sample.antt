-- ===== src/State/Routes/Sample.antt =====
-- A root route and its child, read and built.
use mathlib.Core.Path.{subst}
use cruiser.Base.{
  if◌then◌else◌, ◌==◌, Outcome, ok, err, other, ap, String, true, false, List, [], ◌∷◌, eq_iff, mem,
  index, assign, keys, has, IsRange, none, ◌≡◌, refl, arith,
}
use cruiser.Proto.{Route}
use cruiser.State.Graph.{new_graph, add_node, add_edge, append_dependency, add_single_node}
use cruiser.State.Routes.{RoutesState, new_routes_state, read_from_tfstate, build, get_routes}
use cruiser.State.Terraform.{Tfstate}
use cruiser.State.Routes.Runs.{Run, start, read, built}
use cruiser.State.Routes.Building.{is_orphan, IsKeyed}

abbrev pub route : String → String → Route
route n p = record { name = n; parent_name = p; matchers = []; handler = none }

runs : Unit {0}
unfolding read_from_tfstate build get_routes new_routes_state new_graph add_node add_edge
    append_dependency add_single_node index assign mem keys
runs = tt

abbrev pub loaded : RoutesState
loaded = record {
  routes = new_graph Route;
  routes_map = ("c", route "c" "r") ∷ ("r", route "r" "") ∷ [];
  updates = 0;
}

pub loaded-IsKeyed : IsKeyed loaded.routes_map
unfolding index
loaded-IsKeyed k r e = ground (arith, eq_iff "c" k, eq_iff "r" k)

abbrev pub order : List String
order = "r" ∷ "c" ∷ []

pub loaded-IsRange : IsRange order loaded.routes_map
unfolding runs
loaded-IsRange = record {
  covers = λ k. ground (arith, eq_iff "c" k, eq_iff "r" k);
  once = (refl, (refl, tt));
}

pub loaded_placed : (k : String) → is_orphan loaded.routes_map k ≡ false
unfolding runs
loaded_placed k = ground (arith, eq_iff "c" k, eq_iff "r" k)

abbrev pub built_state : RoutesState
built_state = (build order loaded).0

pub built_state-IsRange : IsRange ("c" ∷ "r" ∷ []) built_state.routes.nodes
unfolding runs
built_state-IsRange = record {
  covers = λ k. ground (arith, eq_iff "c" k, eq_iff "r" k);
  once = (refl, (refl, tt));
}

pub loaded_has : has loaded.routes_map "c" ≡ true
unfolding runs
loaded_has = refl

-- A decoder of two texts.
abbrev pub decode : String → Outcome Route
decode j =
    if j == "root"
    then ok (route "r" "")
    else if j == "child"
    then ok (route "c" "r")
    else err (other j)

abbrev pub two_routes : Tfstate
two_routes = record {
  resources =
      record {
        type = "other";
        name = "x";
        mode = "";
        provider = "";
        instances = record { proto_json = "bad" } ∷ [];
      }
      ∷ record {
        type = "cruiser_route";
        name = "y";
        mode = "";
        provider = "";
        instances = record { proto_json = "child" } ∷ record { proto_json = "root" } ∷ [];
      }
      ∷ [];
}

pub read_two : read_from_tfstate decode two_routes new_routes_state ≡ (loaded, ok tt)
unfolding runs
read_two = refl

pub loaded_run : Run decode built_state
loaded_run = built order (subst (Run decode) (ap (λ r. r.0) read_two) (read two_routes start))

pub built_has : has built_state.routes.nodes "c" ≡ true
unfolding runs
built_has = refl
