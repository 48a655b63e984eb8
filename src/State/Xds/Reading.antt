-- ===== src/State/Xds/Reading.antt =====
-- What `ReadFromTfstate` leaves alone, and the runs of an xDS state.
use cruiser.Base.{String, ◌≡◌, refl, arith}
use cruiser.Base.Run.{for_each_keeps}
use cruiser.State.Terraform.{ResourceInstance, Tfstate}
use cruiser.State.Envoy.{Envoy, LinearCache}
use cruiser.State.Xds.{XdsState, read_instance, read_resource, read_from_tfstate}

module _ {E : Envoy} {C : LinearCache} where
  -- The caches, what was published, the endpoints and the channel are the same.
  pub record Untouched (s t : XdsState E C) : Type 0 where
    pub listeners :
        (t.listeners.cache ≡ s.listeners.cache) × (t.listeners.to_delete ≡ s.listeners.to_delete)
    pub virtual_hosts :
        (t.virtual_hosts.cache ≡ s.virtual_hosts.cache)
        × (t.virtual_hosts.to_delete ≡ s.virtual_hosts.to_delete)
    pub route_configurations :
        (t.route_configurations.cache ≡ s.route_configurations.cache)
        × (t.route_configurations.to_delete ≡ s.route_configurations.to_delete)
    pub clusters :
        (t.clusters.cache ≡ s.clusters.cache) × (t.clusters.to_delete ≡ s.clusters.to_delete)
    pub cluster_load_assignments :
        (t.cluster_load_assignments.cache ≡ s.cluster_load_assignments.cache)
        × (t.cluster_load_assignments.to_delete ≡ s.cluster_load_assignments.to_delete)
    pub endpoints_map : t.endpoints_map ≡ s.endpoints_map
    pub updates : t.updates ≡ s.updates

  read_instance-Untouched :
      (s : XdsState E C) (type : String) (i : ResourceInstance) (t : XdsState E C)
      → Untouched s t
      → Untouched s (read_instance type i t).0
  unfolding read_instance
  read_instance-Untouched s type i t u = ground arith

  -- `ReadFromTfstate` touches no cache, nothing that was published, no endpoints and no channel,
  -- also where it ends with an error.
  pub read_from_tfstate-Untouched :
      (tfstate : Tfstate) (s : XdsState E C) → Untouched s (read_from_tfstate tfstate s).0
  unfolding read_from_tfstate
  read_from_tfstate-Untouched tfstate s =
      for_each_keeps read_resource (Untouched s)
        (λ r t u.
          for_each_keeps (read_instance r.type) (Untouched s) (read_instance-Untouched s r.type)
            r.instances t u)
        tfstate.resources s
        (record {
          listeners = (refl, refl);
          virtual_hosts = (refl, refl);
          route_configurations = (refl, refl);
          clusters = (refl, refl);
          cluster_load_assignments = (refl, refl);
          endpoints_map = refl;
          updates = refl;
        })
