-- ===== src/State/Routes/Building.antt =====
-- What `Build` does to the graph, to the routes that were read, and to the channel.
use mathlib.Core.List.{append-nil}
use cruiser.Base.{
  String, Bool, true, false, List, [], ◌∷◌, ◌++◌, none, some, ◌==◌, eq_iff, Dict, index, has, ok,
  err, no_parent_found, not, ◌&&◌, ◌||◌, if◌then◌else◌, ◌≡◌, arith, Option-cases, Bool-cases, inl,
  inr, ◌⊎◌,
}
use cruiser.Proto.{Route}
use cruiser.State.Graph.{dependencies_of, add_single_node, add_edge}
use cruiser.State.Graph.Valid.{
  IsValid, add_node-IsValid, has-add_node, dependencies_of-add_node, add_edge-IsValid,
  add_edge_effect,
}
use cruiser.State.Routes.{RoutesState, route_key, build_route}

-- Does the route at `k` name a parent that was not read?
abbrev pub is_orphan : Dict Route → String → Bool
is_orphan m k = elim (index m k) [
  | none ↦ false
  | some r ↦ not (r.parent_name == "") && not (has m r.parent_name)
]

abbrev pub any_orphan : Dict Route → List String → Bool
any_orphan m [] = false
any_orphan m (k ∷ ks) = is_orphan m k || any_orphan m ks

-- The dependency that the route at `k` brings.
abbrev pub parent_edge : Dict Route → String → List String
parent_edge m k = elim (index m k) [
  | none ↦ []
  | some r ↦ if r.parent_name == "" then [] else r.parent_name ∷ []
]

-- Each route is filed under its name.
abbrev pub IsKeyed : Dict Route → Type 0
IsKeyed m = (k : String) (r : Route) → index m k ≡ some r → r.name ≡ k

pub build_route-err :
    (s : RoutesState) (k : String)
    → is_orphan s.routes_map k ≡ true
    → build_route k s ≡ (s, err no_parent_found)
unfolding build_route
build_route-err s k h = ground arith

pub build_route-ok :
    (s : RoutesState) (k : String)
    → is_orphan s.routes_map k ≡ false
    → build_route k s ≡ (record s { routes = (build_route k s).0.routes }, ok tt)
unfolding build_route
build_route-ok s k h = ground arith

module _ (s : RoutesState) (keyed : IsKeyed s.routes_map) (k : String)
    (placed : is_orphan s.routes_map k ≡ false) where
  -- The graph after a round, in the three cases of the code.
  build_route_cases :
      (index s.routes_map k ≡ none) × ((build_route k s).0.routes ≡ s.routes)
      ⊎ ((r : Route) × (index s.routes_map k ≡ some r)
          × ((r.parent_name == "") ≡ true)
          × ((build_route k s).0.routes ≡ add_single_node route_key s.routes r))
      ⊎ ((r p : Route) × (index s.routes_map k ≡ some r)
          × ((r.parent_name == "") ≡ false)
          × (index s.routes_map r.parent_name ≡ some p)
          × ((build_route k s).0.routes ≡ add_edge route_key s.routes r p))
  unfolding build_route
  build_route_cases = elim (Option-cases (index s.routes_map k)) [
    | inl e ↦ inl (e, ground arith)
    | inr (r, e) ↦ elim (Bool-cases (r.parent_name == "")) [
      | inl root ↦ inr (inl (r, e, root, ground arith))
      | inr child ↦ elim (Option-cases (index s.routes_map r.parent_name)) [
        | inl orphan ↦ ground arith
        | inr (p, found) ↦ inr (inr (r, p, e, child, found, ground arith))
      ]
    ]
  ]

  pub build_route_deps :
      (j : String)
      → dependencies_of (build_route k s).0.routes j ≡ (
          if k == j
          then dependencies_of s.routes j ++ parent_edge s.routes_map j
          else dependencies_of s.routes j)
  unfolding add_single_node
  build_route_deps j = elim build_route_cases [
    | inl (e, same) ↦ rw same (ground (arith, eq_iff k j, append-nil (dependencies_of s.routes j)))
    | inr (inl (r, e, root, same)) ↦
        rw (same, dependencies_of-add_node route_key s.routes r j)
          (ground (arith, eq_iff k j, append-nil (dependencies_of s.routes j)))
    | inr (inr (r, p, e, child, found, same)) ↦ rw same (
        ground (
          arith,
          (add_edge_effect route_key s.routes r p j).1,
          keyed k r,
          keyed r.parent_name p,
          eq_iff k j,
        ))
  ]

  pub build_route-has :
      (j : String)
      → has (build_route k s).0.routes.nodes j ≡ true
      → (has s.routes.nodes j ≡ true) ⊎ (has s.routes_map j ≡ true)
  unfolding add_single_node
  build_route-has j h = elim build_route_cases [
    | inl (e, same) ↦ inl (rw same at h)
    | inr (inl (r, e, root, same)) ↦
        let h' = rw same at h in
        ground
          (arith, has-add_node route_key s.routes r j, keyed k r e, eq_iff r.name j, eq_iff k j)
    | inr (inr (r, p, e, child, found, same)) ↦
        let h' = rw same at h in
        ground (
          arith,
          (add_edge_effect route_key s.routes r p j).0,
          keyed k r e,
          keyed r.parent_name p found,
          eq_iff r.name j,
          eq_iff p.name j,
        )
  ]

  pub build_route_adds :
      (j : String)
      → (has s.routes.nodes j ≡ true) ⊎ ((k ≡ j) × (has s.routes_map j ≡ true))
      → has (build_route k s).0.routes.nodes j ≡ true
  unfolding add_single_node
  build_route_adds j h = elim build_route_cases [
    | inl (e, same) ↦ rw same (ground arith)
    | inr (inl (r, e, root, same)) ↦
        rw (same, has-add_node route_key s.routes r j)
          (ground (arith, keyed k r e, eq_iff r.name j))
    | inr (inr (r, p, e, child, found, same)) ↦
        rw (same, (add_edge_effect route_key s.routes r p j).0)
          (ground (arith, keyed k r e, eq_iff r.name j))
  ]

  pub build_route-IsValid :
      IsValid route_key s.routes → IsValid route_key (build_route k s).0.routes
  unfolding add_single_node
  build_route-IsValid v = elim build_route_cases [
    | inl (e, same) ↦ rw same v
    | inr (inl (r, e, root, same)) ↦ rw same (add_node-IsValid route_key s.routes r v)
    | inr (inr (r, p, e, child, found, same)) ↦ rw same (add_edge-IsValid route_key s.routes r p v)
  ]
