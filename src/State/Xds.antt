-- ===== src/State/Xds.antt =====
-- pkg/state/xds.go, and `NewXdsState` of pkg/state/builder.go.
-- The source has, for each of five types of resource, a map of what was read, a map of what the last
-- build published, and a cache; a `Tracked` holds the three. The lock is held throughout `Build` and
-- `SetClusterEndpoints`. The channel is the number of sends on it.
pub mod Transact
pub mod Sample
pub mod Register
pub mod Mirror
pub mod Rebuild
pub mod Reading
pub mod Runs
pub mod Endpoints
mod Tests
use cruiser.Base.{
  ℕ, suc, ◌+◌, ◌*◌, String, true, false, List, [], ◌∷◌, ◌++◌, Option, none, some, ◌==◌, Dict, index,
  assign, delete, keys, Outcome, ok, err, panic, Error, if◌then◌else◌,
}
use cruiser.Base.Run.{Run, pure, modify, lift, get, for_each, ◌>>=◌, ◌>>◌}
use cruiser.State.Terraform.{ResourceInstance, Resource, Tfstate}
use cruiser.State.Envoy.{ClusterLoadAssignment, Envoy, LinearCache}

-- `listenersMap`, `listenersToDelete` and `listenerCache`, and so for the other types.
pub record Tracked (C : LinearCache) (R : Type 0) : Type 0 where
  pub read : Dict R
  pub to_delete : Dict R
  pub cache : C.Cache R

pub record XdsState (E : Envoy) (C : LinearCache) : Type 0 where
  pub listeners : Tracked C E.Listener
  pub virtual_hosts : Tracked C E.VirtualHost
  pub route_configurations : Tracked C E.RouteConfiguration
  pub clusters : Tracked C E.Cluster
  pub cluster_load_assignments : Tracked C (ClusterLoadAssignment E.Endpoints)
  pub endpoints_map : Dict (List E.Endpoints)
  pub updates : ℕ

-- One round of the loop over `toUpdate`: what is left of `toDelete`, and `updates`.
unfoldable pub take_update : {R : Type 0} → Dict R → Dict R × Dict R → String → Dict R × Dict R
take_update to_update (to_delete, updates) name = elim (index to_update name) [
  | none ↦ (to_delete, updates)
  | some resource ↦ (delete to_delete name, assign updates name resource)
]

unfoldable pub take_updates :
    {R : Type 0} → Dict R → List String → Dict R × Dict R → Dict R × Dict R
take_updates to_update [] s = s
take_updates to_update (name ∷ names) s =
    take_updates to_update names (take_update to_update s name)

-- The orders in which the ranges of one call over maps meet the keys: `orders i` is that of the
-- `i`-th range, from the keys that the map has.
abbrev pub Orders : Type 0
Orders = ℕ → List String → List String

module _ {C : LinearCache} where
  abbrev pub new_tracked : (R : Type 0) → Tracked C R
  new_tracked R = record { read = []; to_delete = []; cache = C.new_linear_cache R }

  -- `delete(toDelete, name)` changes the map that the caller holds, whatever the call returns. The
  -- names to delete are appended in the order of the second range.
  unfoldable pub transact_xds_resource :
      {R : Type 0}
      → (List String → List String)
      → (List String → List String)
      → Tracked C R
      → Tracked C R × Option Error
  unfolding take_updates
  transact_xds_resource {R} order_update order_delete t =
      let (to_delete, updates) =
        take_updates t.read (order_update (keys t.read)) (t.to_delete, []) in
      let deletes = order_delete (keys to_delete) in
      let (cache, error) = C.update_resources R t.cache updates deletes in
      (record t { to_delete = to_delete; cache = cache }, error)

  -- `xs.…ToDelete = xs.…Map` and `xs.…Map = make(…)`
  abbrev pub rotate : {R : Type 0} → Tracked C R → Tracked C R
  rotate t = record t { read = []; to_delete = t.read }

-- `xs.…Map[name] = resource`
abbrev pub store : {C : LinearCache} {R : Type 0} → Tracked C R → String → R → Tracked C R
store t name resource = record t { read = assign t.read name resource }

-- Endpoints that were set for the cluster replace those of the resource.
abbrev pub discovered :
    {P : Type 0} → Dict (List P) → String → ClusterLoadAssignment P → ClusterLoadAssignment P
discovered endpoints_map name a = elim (index endpoints_map name) [
  | none ↦ a
  | some endpoints ↦ record a { endpoints = endpoints }
]

abbrev pub to_outcome : Option Error → Outcome (Unit {0})
to_outcome none = ok tt
to_outcome (some e) = err e

module _ {E : Envoy} {C : LinearCache} where
  unfoldable pub new_xds_state : XdsState E C
  new_xds_state = record {
    listeners = new_tracked E.Listener;
    virtual_hosts = new_tracked E.VirtualHost;
    route_configurations = new_tracked E.RouteConfiguration;
    clusters = new_tracked E.Cluster;
    cluster_load_assignments = new_tracked (ClusterLoadAssignment E.Endpoints);
    endpoints_map = [];
    updates = 0;
  }

  module _ (orders : Orders) where
    unfoldable pub transact_clusters : Run (XdsState E C) (Unit {0})
    transact_clusters s =
        let (t, error) = transact_xds_resource (orders 0) (orders 1) s.clusters in
        (record s { clusters = t }, to_outcome error)

    unfoldable pub transact_cluster_load_assignments : Run (XdsState E C) (Unit {0})
    transact_cluster_load_assignments s =
        let (t, error) = transact_xds_resource (orders 2) (orders 3) s.cluster_load_assignments in
        (record s { cluster_load_assignments = t }, to_outcome error)

    unfoldable pub transact_listeners : Run (XdsState E C) (Unit {0})
    transact_listeners s =
        let (t, error) = transact_xds_resource (orders 4) (orders 5) s.listeners in
        (record s { listeners = t }, to_outcome error)

    unfoldable pub transact_virtual_hosts : Run (XdsState E C) (Unit {0})
    transact_virtual_hosts s =
        let (t, error) = transact_xds_resource (orders 6) (orders 7) s.virtual_hosts in
        (record s { virtual_hosts = t }, to_outcome error)

    unfoldable pub transact_route_configurations : Run (XdsState E C) (Unit {0})
    transact_route_configurations s =
        let (t, error) = transact_xds_resource (orders 8) (orders 9) s.route_configurations in
        (record s { route_configurations = t }, to_outcome error)

  -- The assignments behind the last `transactXdsResource` of `Build`.
  abbrev pub rotate_all : XdsState E C → XdsState E C
  rotate_all s = record s {
    listeners = rotate s.listeners;
    virtual_hosts = rotate s.virtual_hosts;
    route_configurations = rotate s.route_configurations;
    clusters = rotate s.clusters;
    cluster_load_assignments = rotate s.cluster_load_assignments;
  }

  unfoldable pub build : Orders → Run (XdsState E C) (Unit {0})
  build orders = do
    transact_clusters orders
    transact_cluster_load_assignments orders
    transact_listeners orders
    transact_virtual_hosts orders
    transact_route_configurations orders
    modify rotate_all
    modify (λ s. record s { updates = suc s.updates })

  -- The loop returns at the first assignment with no endpoints.
  unfoldable pub set_cluster_endpoints :
      List (ClusterLoadAssignment E.Endpoints) → XdsState E C → XdsState E C
  set_cluster_endpoints [] s = s
  set_cluster_endpoints (assignment ∷ assignments) s = elim assignment.endpoints [
    | [] ↦ record s { endpoints_map = delete s.endpoints_map assignment.cluster_name }
    | _ ∷ _ ↦ set_cluster_endpoints assignments (record s {
      endpoints_map = assign s.endpoints_map assignment.cluster_name assignment.endpoints;
    })
  ]

  -- The cases of the switch over `resource.Type`, at one instance.
  unfoldable pub read_listener : String → Run (XdsState E C) (Unit {0})
  read_listener json = do
    l ← lift (E.listener json)
    modify (λ s. record s { listeners = store s.listeners (E.listener_name l) l })

  unfoldable pub read_virtual_host : String → Run (XdsState E C) (Unit {0})
  read_virtual_host json = do
    v ← lift (E.virtual_host json)
    modify (λ s. record s { virtual_hosts = store s.virtual_hosts (E.virtual_host_name v) v })

  unfoldable pub read_cluster : String → Run (XdsState E C) (Unit {0})
  read_cluster json = do
    c ← lift (E.cluster json)
    modify (λ s. record s { clusters = store s.clusters (E.cluster_resource_name c) c })

  unfoldable pub read_route_configuration : String → Run (XdsState E C) (Unit {0})
  read_route_configuration json = do
    r ← lift (E.route_configuration json)
    modify (λ s. record s {
      route_configurations = store s.route_configurations (E.route_configuration_name r) r;
    })

  unfoldable pub read_cluster_load_assignment : String → Run (XdsState E C) (Unit {0})
  read_cluster_load_assignment json = do
    a ← lift (E.cluster_load_assignment json)
    modify (λ s. record s {
      cluster_load_assignments =
          store s.cluster_load_assignments (E.cluster_load_assignment_name a)
            (discovered s.endpoints_map (E.cluster_load_assignment_name a) a);
    })

  unfoldable pub read_instance : String → ResourceInstance → Run (XdsState E C) (Unit {0})
  unfolding read_listener read_virtual_host read_cluster read_route_configuration
      read_cluster_load_assignment
  read_instance type instance =
      if type == "cruiser_envoy_listener"
      then read_listener instance.proto_json
      else if type == "cruiser_envoy_virtual_host"
      then read_virtual_host instance.proto_json
      else if type == "cruiser_envoy_cluster"
      then read_cluster instance.proto_json
      else if type == "cruiser_envoy_route_configuration"
      then read_route_configuration instance.proto_json
      else if type == "cruiser_envoy_cluster_load_assignment"
      then read_cluster_load_assignment instance.proto_json
      else pure tt

  unfoldable pub read_resource : Resource → Run (XdsState E C) (Unit {0})
  unfolding read_instance for_each
  read_resource resource = for_each (read_instance resource.type) resource.instances

  unfoldable pub read_from_tfstate : Tfstate → Run (XdsState E C) (Unit {0})
  unfolding read_resource
  read_from_tfstate tfstate = for_each read_resource tfstate.resources
