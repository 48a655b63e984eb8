-- ===== src/State/Xds/Tests.antt =====
-- The theorems at a small state.
use cruiser.Base.{
  sym, ap, ◌∙◌, ◌==◌, if◌then◌else◌, String, [], ◌∷◌, none, some, mem, index, assign, delete, keys,
  ok, other, ◌==◌, if◌then◌else◌, ◌≡◌, ◌≢◌, refl,
}
use cruiser.Base.Run.{for_each}
use cruiser.State.Terraform.{Tfstate}
use cruiser.State.Envoy.{ClusterLoadAssignment, LinearCache}
use cruiser.State.Xds.{
  XdsState, transact_xds_resource, take_updates, take_update, transact_clusters,
  transact_cluster_load_assignments, transact_listeners, transact_virtual_hosts,
  transact_route_configurations, build, new_xds_state, set_cluster_endpoints, read_from_tfstate,
}
use cruiser.State.Xds.Sample.{
  texts, function_cache, function_cache-IsLinearCache, same, same-Covers,
}
use cruiser.State.Xds.Mirror.{Mirrors, Published, build-Mirrors}
use cruiser.State.Xds.Endpoints.{endpoints_after, set_cluster_endpoints_effect}
use cruiser.State.Xds.Register.{
  ResourceType, listener_type, route_type, cluster_type, virtual_host_type, endpoint_type, answer,
  published, Run-answer,
}
use cruiser.State.Xds.Runs.{start, call, read, publish, Run-Mirrors}

-- A cache whose every update fails.
abbrev failing_cache : LinearCache
failing_cache = record {
  Cache = λ R. Unit {0};
  new_linear_cache = λ R. tt;
  update_resources = λ R c updates deletes. (c, some (other "update"));
  resource_of = λ R c n. none;
}

abbrev fresh : XdsState texts function_cache
fresh = new_xds_state

abbrev two_clusters : Tfstate
two_clusters = record {
  resources =
      record {
        type = "cruiser_envoy_cluster";
        name = "x";
        mode = "";
        provider = "";
        instances = record { proto_json = "a" } ∷ record { proto_json = "b" } ∷ [];
      }
      ∷ [];
}

runs : Unit {0}
unfolding new_xds_state read_from_tfstate build transact_clusters transact_cluster_load_assignments
    transact_listeners transact_virtual_hosts transact_route_configurations transact_xds_resource
    take_updates take_update index assign delete keys mem for_each set_cluster_endpoints
runs = tt

abbrev loaded : XdsState texts function_cache
loaded = (read_from_tfstate two_clusters fresh).0

built_ok : (build same loaded).1 ≡ ok tt
unfolding runs
built_ok = refl

rebuilt_ok : (build same (build same loaded).0).1 ≡ ok tt
unfolding runs
rebuilt_ok = refl

served_first : (build same loaded).0.clusters.cache "b" ≡ some "b"
unfolding runs
served_first = refl

loaded-Mirrors : Mirrors loaded
loaded-Mirrors = Run-Mirrors function_cache-IsLinearCache (call start (read fresh two_clusters))

build-Mirrors_example : Published loaded (build same loaded).0 × Mirrors (build same loaded).0
build-Mirrors_example =
    build-Mirrors function_cache-IsLinearCache same same-Covers loaded loaded-Mirrors built_ok

abbrev stuck : XdsState texts failing_cache
stuck = (read_from_tfstate two_clusters new_xds_state).0

stuck_fails : (build same stuck).1 ≢ ok tt
unfolding runs
stuck_fails e = cc

abbrev gone : ClusterLoadAssignment String
gone = record { cluster_name = "a"; endpoints = [] }

abbrev present : ClusterLoadAssignment String
present = record { cluster_name = "b"; endpoints = "10.0.0.1" ∷ [] }

set_cluster_endpoints_effect_example :
    index (set_cluster_endpoints (present ∷ gone ∷ []) loaded).endpoints_map "b"
    ≡ endpoints_after (present ∷ gone ∷ []) "b" (index loaded.endpoints_map "b")
set_cluster_endpoints_effect_example = set_cluster_endpoints_effect (present ∷ gone ∷ []) loaded "b"

-- The type URLs.
abbrev url : ResourceType → String
url listener_type = "listener"
url route_type = "route"
url cluster_type = "cluster"
url virtual_host_type = "virtual host"
url endpoint_type = "endpoint"

abbrev type_of : String → ResourceType
type_of text =
    if text == "listener"
    then listener_type
    else if text == "route"
    then route_type
    else if text == "cluster"
    then cluster_type
    else if text == "virtual host"
    then virtual_host_type
    else endpoint_type

type_of-url : (a : ResourceType) → type_of (url a) ≡ a
type_of-url listener_type = refl
type_of-url route_type = refl
type_of-url cluster_type = refl
type_of-url virtual_host_type = refl
type_of-url endpoint_type = refl

distinct : (a b : ResourceType) → url a ≡ url b → a ≡ b
distinct a b e = sym (type_of-url a) ∙ ap type_of e ∙ type_of-url b

Run-answer_example :
    answer url (build same loaded).0 "cluster" "b"
    ≡ published url (build same loaded).0 cluster_type "b"
Run-answer_example =
    Run-answer url distinct cluster_type "b" function_cache-IsLinearCache
      (call (call start (read fresh two_clusters)) (publish loaded same same-Covers built_ok))
