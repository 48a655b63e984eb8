-- ===== src/State/Envoy.antt =====
-- What pkg/state/xds.go uses of go-control-plane, which is not part of the repository: the types of
-- the resources, their names and decoders, and the linear cache.
use cruiser.Base.{
  String, false, true, List, Option, none, some, mem, Dict, index, Outcome, Error, ◌≡◌,
}

-- The part of `endpointv3.ClusterLoadAssignment` that the program reads or writes.
pub record ClusterLoadAssignment (Endpoints : Type 0) : Type 0 where
  pub cluster_name : String
  pub endpoints : List Endpoints

-- `protojson.Unmarshal` and `cache.GetResourceName` at each type of resource.
pub record Envoy : Type 1 where
  pub Listener : Type 0
  pub VirtualHost : Type 0
  pub RouteConfiguration : Type 0
  pub Cluster : Type 0
  -- `endpointv3.LocalityLbEndpoints`
  pub Endpoints : Type 0
  pub listener : String → Outcome Listener
  pub virtual_host : String → Outcome VirtualHost
  pub route_configuration : String → Outcome RouteConfiguration
  pub cluster : String → Outcome Cluster
  pub cluster_load_assignment : String → Outcome (ClusterLoadAssignment Endpoints)
  pub listener_name : Listener → String
  pub virtual_host_name : VirtualHost → String
  pub route_configuration_name : RouteConfiguration → String
  pub cluster_resource_name : Cluster → String
  pub cluster_load_assignment_name : ClusterLoadAssignment Endpoints → String

-- `cache.LinearCache`: a call of `UpdateResources` returns the new cache and the error, if any.
pub record LinearCache : Type 1 where
  pub Cache : Type 0 → Type 0
  pub new_linear_cache : (R : Type 0) → Cache R
  pub update_resources : (R : Type 0) → Cache R → Dict R → List String → Cache R × Option Error
  -- What a client that asks for a name is served.
  pub resource_of : (R : Type 0) → Cache R → String → Option R

-- What is documented of the cache: a new one holds nothing, and a call without an error stores the
-- resources to update, drops the names to delete, and keeps the others.
pub record IsLinearCache (C : LinearCache) : Type 1 where
  pub starts_empty : (R : Type 0) (n : String) → C.resource_of R (C.new_linear_cache R) n ≡ none
  pub stores :
      (R : Type 0) (c : C.Cache R) (updates : Dict R) (deletes : List String) (n : String) (r : R)
      → (C.update_resources R c updates deletes).1 ≡ none
      → index updates n ≡ some r
      → mem n deletes ≡ false
      → C.resource_of R (C.update_resources R c updates deletes).0 n ≡ some r
  pub drops :
      (R : Type 0) (c : C.Cache R) (updates : Dict R) (deletes : List String) (n : String)
      → (C.update_resources R c updates deletes).1 ≡ none
      → index updates n ≡ none
      → mem n deletes ≡ true
      → C.resource_of R (C.update_resources R c updates deletes).0 n ≡ none
  pub keeps :
      (R : Type 0) (c : C.Cache R) (updates : Dict R) (deletes : List String) (n : String)
      → (C.update_resources R c updates deletes).1 ≡ none
      → index updates n ≡ none
      → mem n deletes ≡ false
      → C.resource_of R (C.update_resources R c updates deletes).0 n ≡ C.resource_of R c n
