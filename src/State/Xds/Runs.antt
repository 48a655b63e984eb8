-- ===== src/State/Xds/Runs.antt =====
-- The runs of an xDS state: what the state manager and service discovery call, in any order, while
-- no `Build` fails.
use cruiser.Base.{ℕ, List, index, ok, ◌≡◌, ◌∙◌, ap, sym}
use cruiser.State.Terraform.{Tfstate}
use cruiser.State.Envoy.{ClusterLoadAssignment, Envoy, LinearCache, IsLinearCache}
use cruiser.State.Xds.{
  Tracked, XdsState, Orders, build, new_xds_state, set_cluster_endpoints, read_from_tfstate,
}
use cruiser.State.Xds.Transact.{Covers, Serves}
use cruiser.State.Xds.Mirror.{Mirrors, build-Mirrors, new_xds_state-Mirrors}
use cruiser.State.Xds.Endpoints.{set_cluster_endpoints_lem}
use cruiser.State.Xds.Reading.{Untouched, read_from_tfstate-Untouched}

module _ {E : Envoy} {C : LinearCache} where
  -- One call on the state. A `Build` that fails is left out: behind it, some caches may serve what was
  -- not published.
  pub data Call : XdsState E C → XdsState E C → Type 0 where
    read : (s : XdsState E C) (tfstate : Tfstate) → Call s (read_from_tfstate tfstate s).0
    set :
        (s : XdsState E C) (assignments : List (ClusterLoadAssignment E.Endpoints))
        → Call s (set_cluster_endpoints assignments s)
    publish :
        (s : XdsState E C) (orders : Orders)
        → ((i : ℕ) → Covers (orders i))
        → (build orders s).1 ≡ ok tt
        → Call s (build orders s).0

  pub data Run : XdsState E C → Type 0 where
    start : Run new_xds_state
    call : {s t : XdsState E C} → Run s → Call s t → Run t

  pub Untouched-Mirrors : (s t : XdsState E C) → Untouched s t → Mirrors s → Mirrors t
  Untouched-Mirrors s t u m = record {
    listeners = moved s.listeners t.listeners u.listeners m.listeners;
    virtual_hosts = moved s.virtual_hosts t.virtual_hosts u.virtual_hosts m.virtual_hosts;
    route_configurations =
        moved s.route_configurations t.route_configurations u.route_configurations
          m.route_configurations;
    clusters = moved s.clusters t.clusters u.clusters m.clusters;
    cluster_load_assignments =
        moved s.cluster_load_assignments t.cluster_load_assignments u.cluster_load_assignments
          m.cluster_load_assignments;
  }
    where
      moved :
          {R : Type 0} (a b : Tracked C R)
          → (b.cache ≡ a.cache) × (b.to_delete ≡ a.to_delete)
          → Serves C a.cache a.to_delete
          → Serves C b.cache b.to_delete
      moved {R} a b (p, q) h n = ap (λ c. C.resource_of R c n) p ∙ h n ∙ ap (λ d. index d n) (sym q)

  set-Mirrors :
      (all : List (ClusterLoadAssignment E.Endpoints)) (s : XdsState E C)
      → Mirrors s
      → Mirrors (set_cluster_endpoints all s)
  set-Mirrors all s m = rw (set_cluster_endpoints_lem all s) (record {
    listeners = m.listeners;
    virtual_hosts = m.virtual_hosts;
    route_configurations = m.route_configurations;
    clusters = m.clusters;
    cluster_load_assignments = m.cluster_load_assignments;
  })

  Call-Mirrors : {s t : XdsState E C} → IsLinearCache C → Call s t → Mirrors s → Mirrors t
  Call-Mirrors L (read s tfstate) m =
      Untouched-Mirrors s _ (read_from_tfstate-Untouched tfstate s) m
  Call-Mirrors L (set s all) m = set-Mirrors all s m
  Call-Mirrors L (publish s orders covers done) m = (build-Mirrors L orders covers s m done).1

  -- Whatever calls were made on a new state, each cache serves what the last build published.
  pub Run-Mirrors : {s : XdsState E C} → IsLinearCache C → Run s → Mirrors s
  Run-Mirrors L start = new_xds_state-Mirrors L
  Run-Mirrors L (call r c) = Call-Mirrors L c (Run-Mirrors L r)
