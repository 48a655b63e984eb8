-- ===== src/State/Xds/Mirror.antt =====
-- `Build` as a whole: the caches serve what the last build published.
use cruiser.Base.{ℕ, suc, [], none, index, index-nil, ok, ◌≡◌, refl, sym, ◌∙◌, ap, arith, ◌≢◌}
use cruiser.State.Envoy.{Envoy, LinearCache, IsLinearCache}
use cruiser.State.Xds.{
  Tracked, XdsState, Orders, transact_xds_resource, transact_clusters,
  transact_cluster_load_assignments, transact_listeners, transact_virtual_hosts,
  transact_route_configurations, build, new_xds_state, rotate,
}
use cruiser.State.Xds.Transact.{Covers, Serves, transact-Serves, transact_read}

-- Each cache serves what the last build published.
pub record Mirrors {E : Envoy} {C : LinearCache} (s : XdsState E C) : Type 0 where
  pub listeners : Serves C s.listeners.cache s.listeners.to_delete
  pub virtual_hosts : Serves C s.virtual_hosts.cache s.virtual_hosts.to_delete
  pub route_configurations : Serves C s.route_configurations.cache s.route_configurations.to_delete
  pub clusters : Serves C s.clusters.cache s.clusters.to_delete
  pub cluster_load_assignments :
      Serves C s.cluster_load_assignments.cache s.cluster_load_assignments.to_delete

-- For each type, what `s` had read is in `t` what was published, and nothing is read.
pub record Published {E : Envoy} {C : LinearCache} (s t : XdsState E C) : Type 0 where
  pub listeners : (t.listeners.to_delete ≡ s.listeners.read) × (t.listeners.read ≡ [])
  pub virtual_hosts :
      (t.virtual_hosts.to_delete ≡ s.virtual_hosts.read) × (t.virtual_hosts.read ≡ [])
  pub route_configurations :
      (t.route_configurations.to_delete ≡ s.route_configurations.read)
      × (t.route_configurations.read ≡ [])
  pub clusters : (t.clusters.to_delete ≡ s.clusters.read) × (t.clusters.read ≡ [])
  pub cluster_load_assignments :
      (t.cluster_load_assignments.to_delete ≡ s.cluster_load_assignments.read)
      × (t.cluster_load_assignments.read ≡ [])
  pub endpoints_map : t.endpoints_map ≡ s.endpoints_map
  pub updates : t.updates ≡ suc s.updates

module _ {E : Envoy} {C : LinearCache} where
  -- What `NewXdsState` returns: new caches, and nothing published.
  pub new_xds_state-Mirrors : IsLinearCache C → Mirrors (new_xds_state {E = E} {C = C})
  unfolding new_xds_state
  new_xds_state-Mirrors L = record {
    listeners = λ n. L.starts_empty _ n ∙ sym (index-nil n);
    virtual_hosts = λ n. L.starts_empty _ n ∙ sym (index-nil n);
    route_configurations = λ n. L.starts_empty _ n ∙ sym (index-nil n);
    clusters = λ n. L.starts_empty _ n ∙ sym (index-nil n);
    cluster_load_assignments = λ n. L.starts_empty _ n ∙ sym (index-nil n);
  }

  module _ (orders : Orders) (s : XdsState E C) where
    -- The errors of the five updates.
    abbrev NoErrors : Type 0
    NoErrors =
        ((transact_xds_resource (orders 0) (orders 1) s.clusters).1 ≡ none)
        × ((transact_xds_resource (orders 2) (orders 3) s.cluster_load_assignments).1 ≡ none)
        × ((transact_xds_resource (orders 4) (orders 5) s.listeners).1 ≡ none)
        × ((transact_xds_resource (orders 6) (orders 7) s.virtual_hosts).1 ≡ none)
        × ((transact_xds_resource (orders 8) (orders 9) s.route_configurations).1 ≡ none)

    no_errors : (build orders s).1 ≡ ok tt → NoErrors
    unfolding build transact_clusters transact_cluster_load_assignments transact_listeners
        transact_virtual_hosts transact_route_configurations
    no_errors h = ground arith

    abbrev built : XdsState E C
    built = record s {
      listeners = rotate (transact_xds_resource (orders 4) (orders 5) s.listeners).0;
      virtual_hosts = rotate (transact_xds_resource (orders 6) (orders 7) s.virtual_hosts).0;
      route_configurations =
          rotate (transact_xds_resource (orders 8) (orders 9) s.route_configurations).0;
      clusters = rotate (transact_xds_resource (orders 0) (orders 1) s.clusters).0;
      cluster_load_assignments =
          rotate (transact_xds_resource (orders 2) (orders 3) s.cluster_load_assignments).0;
      updates = suc s.updates;
    }

    build-built : NoErrors → (build orders s).0 ≡ built
    unfolding build transact_clusters transact_cluster_load_assignments transact_listeners
        transact_virtual_hosts transact_route_configurations
    build-built no_error = ground arith

    published : Published s built
    published = record {
      listeners = (transact_read s.listeners (orders 4) (orders 5), refl);
      virtual_hosts = (transact_read s.virtual_hosts (orders 6) (orders 7), refl);
      route_configurations = (transact_read s.route_configurations (orders 8) (orders 9), refl);
      clusters = (transact_read s.clusters (orders 0) (orders 1), refl);
      cluster_load_assignments =
          (transact_read s.cluster_load_assignments (orders 2) (orders 3), refl);
      endpoints_map = refl;
      updates = refl;
    }

    -- A build that fails sends no update, and has forgotten nothing of what was read.
    pub build_stops :
        (build orders s).1 ≢ ok tt
        → ((build orders s).0.updates ≡ s.updates)
          × ((build orders s).0.listeners.read ≡ s.listeners.read)
          × ((build orders s).0.virtual_hosts.read ≡ s.virtual_hosts.read)
          × ((build orders s).0.route_configurations.read ≡ s.route_configurations.read)
          × ((build orders s).0.clusters.read ≡ s.clusters.read)
          × ((build orders s).0.cluster_load_assignments.read ≡ s.cluster_load_assignments.read)
    unfolding build transact_clusters transact_cluster_load_assignments transact_listeners
        transact_virtual_hosts transact_route_configurations
    build_stops h = ground (
      arith,
      transact_read s.listeners (orders 4) (orders 5),
      transact_read s.virtual_hosts (orders 6) (orders 7),
      transact_read s.route_configurations (orders 8) (orders 9),
      transact_read s.clusters (orders 0) (orders 1),
      transact_read s.cluster_load_assignments (orders 2) (orders 3),
    )

  module _ (L : IsLinearCache C) (orders : Orders) (covers : (i : ℕ) → Covers (orders i))
      (s : XdsState E C) (mirrors : Mirrors s) (succeeds : (build orders s).1 ≡ ok tt) where
    Serves-tracked :
        {R : Type 0} (i : ℕ) (j : ℕ) (t : Tracked C R)
        → Serves C t.cache t.to_delete
        → (transact_xds_resource (orders i) (orders j) t).1 ≡ none
        → Serves C
            (rotate (transact_xds_resource (orders i) (orders j) t).0).cache
            (rotate (transact_xds_resource (orders i) (orders j) t).0).to_delete
    Serves-tracked i j t h e n =
        transact-Serves L t (orders i) (orders j) (covers i) (covers j) h e n
        ∙ ap (λ m. index m n) (sym (transact_read t (orders i) (orders j)))

    built-Mirrors : Mirrors (built orders s)
    built-Mirrors =
        let (c, a, l, v, r) = no_errors orders s succeeds in
        record {
          listeners = Serves-tracked 4 5 s.listeners mirrors.listeners l;
          virtual_hosts = Serves-tracked 6 7 s.virtual_hosts mirrors.virtual_hosts v;
          route_configurations =
              Serves-tracked 8 9 s.route_configurations mirrors.route_configurations r;
          clusters = Serves-tracked 0 1 s.clusters mirrors.clusters c;
          cluster_load_assignments =
              Serves-tracked 2 3 s.cluster_load_assignments mirrors.cluster_load_assignments a;
        }

    -- If each cache serves what the last build published, and `Build` has no error, then it
    -- publishes what was read, for each type of resource and in whatever order the maps are ranged
    -- over, forgets what was read, sends one update, and each cache serves what was published.
    pub build-Mirrors : Published s (build orders s).0 × Mirrors (build orders s).0
    build-Mirrors =
        let same = build-built orders s (no_errors orders s succeeds) in
        rw same (published orders s, built-Mirrors)
