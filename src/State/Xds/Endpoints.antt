-- ===== src/State/Xds/Endpoints.antt =====
-- `SetClusterEndpoints`, and the endpoints that `ReadFromTfstate` gives an assignment.
use cruiser.Base.{
  String, List, [], ◌∷◌, ◌++◌, Option, none, some, ◌==◌, index, assign, index-assign, index-delete,
  if◌then◌else◌, ◌≡◌, refl, arith,
}
use cruiser.State.Envoy.{ClusterLoadAssignment, Envoy, LinearCache}
use cruiser.State.Xds.{XdsState, set_cluster_endpoints}

-- The endpoints of `name` after the assignments were taken in, up to the first with no endpoints.
abbrev pub endpoints_after :
    {P : Type 0} → List (ClusterLoadAssignment P) → String → Option (List P) → Option (List P)
endpoints_after [] name old = old
endpoints_after (a ∷ rest) name old = elim a.endpoints [
  | [] ↦ if a.cluster_name == name then none else old
  | _ ∷ _ ↦ endpoints_after rest name (if a.cluster_name == name then some a.endpoints else old)
]

module _ {E : Envoy} {C : LinearCache} where
  -- For each cluster name, `SetClusterEndpoints` leaves the endpoints of the last assignment to
  -- that name that comes before the first assignment with no endpoints; that one removes its own
  -- cluster's endpoints, and what follows it is not looked at. A name without an assignment keeps
  -- its endpoints.
  pub set_cluster_endpoints_effect :
      (all : List (ClusterLoadAssignment E.Endpoints)) (s : XdsState E C) (name : String)
      → index (set_cluster_endpoints all s).endpoints_map name
        ≡ endpoints_after all name (index s.endpoints_map name)
  unfolding set_cluster_endpoints
  set_cluster_endpoints_effect [] s name = refl
  set_cluster_endpoints_effect (a ∷ rest) s name = ground (
    arith,
    index-assign s.endpoints_map a.cluster_name a.endpoints name,
    index-delete s.endpoints_map a.cluster_name name,
    set_cluster_endpoints_effect rest
        (record s { endpoints_map = assign s.endpoints_map a.cluster_name a.endpoints }) name,
  )

  -- After an assignment with no endpoints the rest of the list is ignored, whatever it holds.
  pub set_cluster_endpoints_stops :
      (before : List (ClusterLoadAssignment E.Endpoints)) (a : ClusterLoadAssignment E.Endpoints)
      (after : List (ClusterLoadAssignment E.Endpoints)) (s : XdsState E C)
      → a.endpoints ≡ []
      → set_cluster_endpoints (before ++ a ∷ after) s ≡ set_cluster_endpoints (before ++ a ∷ []) s
  unfolding set_cluster_endpoints
  set_cluster_endpoints_stops [] a after s e = ground arith
  set_cluster_endpoints_stops (b ∷ before) a after s e = ground (
    arith,
    set_cluster_endpoints_stops before a after
        (record s { endpoints_map = assign s.endpoints_map b.cluster_name b.endpoints }) e,
  )

  -- Only the endpoints change.
  pub set_cluster_endpoints_lem :
      (all : List (ClusterLoadAssignment E.Endpoints)) (s : XdsState E C)
      → set_cluster_endpoints all s
        ≡ record s { endpoints_map = (set_cluster_endpoints all s).endpoints_map }
  unfolding set_cluster_endpoints
  set_cluster_endpoints_lem [] s = refl
  set_cluster_endpoints_lem (a ∷ rest) s = ground (
    arith,
    set_cluster_endpoints_lem rest
        (record s { endpoints_map = assign s.endpoints_map a.cluster_name a.endpoints }),
  )
