-- ===== src/State/Routes/Update.antt =====
-- `Build` as a whole: when it fails, and the graph that it publishes.
use mathlib.Core.List.{append-nil}
use mathlib.Core.Path.{subst}
use cruiser.Base.{
  suc, String, true, false, List, [], ◌∷◌, ◌++◌, some, eq_iff, mem, mem-cons, mem-nil, Distinct,
  Dict, keys, has, IsRange, length, ok, err, panic, no_parent_found, ◌||◌, if◌then◌else◌, ◌≡◌, refl,
  sym, ap, arith, Bool-cases, inl, inr, ◌⊎◌,
}
use cruiser.Base.Run.{for_each}
use cruiser.Proto.{Route}
use cruiser.State.Graph.{dependencies_of}
use cruiser.State.Graph.Valid.{IsValid}
use cruiser.State.Graph.Topological.{topological_sort_panics}
use cruiser.State.Routes.{RoutesState, route_key, build_route, build, get_routes}
use cruiser.State.Routes.Building.{
  is_orphan, any_orphan, parent_edge, IsKeyed, build_route-err, build_route-ok, build_route_deps,
  build_route-has, build_route_adds, build_route-IsValid,
}

-- What a round, or some rounds, over the keys `ks` make of the graph.
record Placed (ks : List String) (s t : RoutesState) : Type 0 where
  same_map : t.routes_map ≡ s.routes_map
  same_updates : t.updates ≡ s.updates
  deps :
      (j : String)
      → dependencies_of t.routes j ≡ (
          if mem j ks
          then dependencies_of s.routes j ++ parent_edge s.routes_map j
          else dependencies_of s.routes j)
  from :
      (j : String)
      → has t.routes.nodes j ≡ true
      → (has s.routes.nodes j ≡ true) ⊎ (has s.routes_map j ≡ true)
  into :
      (j : String)
      → (has s.routes.nodes j ≡ true) ⊎ ((mem j ks ≡ true) × (has s.routes_map j ≡ true))
      → has t.routes.nodes j ≡ true
  valid : IsValid route_key s.routes → IsValid route_key t.routes

loop_places :
    (ks : List String) (s : RoutesState)
    → IsKeyed s.routes_map
    → Distinct ks
    → any_orphan s.routes_map ks ≡ false
    → (t : RoutesState) × (for_each build_route ks s ≡ (t, ok tt)) × Placed ks s t
unfolding for_each
loop_places [] s keyed _ _ = (
  s,
  refl,
  record {
    same_map = refl;
    same_updates = refl;
    deps = λ j. rw (mem-nil j);
    from = λ j h. inl h;
    into = λ j h. ground (arith, mem-nil j);
    valid = λ v. v;
  },
)
loop_places (k ∷ ks) s keyed (new, d) h =
    let here : is_orphan s.routes_map k ≡ false = ground arith in
    let u : RoutesState = record s { routes = (build_route k s).0.routes } in
    let (t, later, p) = loop_places ks u keyed d (ground arith) in
    (
      t,
      rw (build_route-ok s k here) later,
      record {
        same_map = p.same_map;
        same_updates = p.same_updates;
        deps = λ j.
            ground
              (arith, p.deps j, build_route_deps s keyed k here j, mem-cons j k ks, eq_iff k j);
        from = λ j m. ground (arith, p.from j m, build_route-has s keyed k here j);
        into = λ j m.
            p.into j
              (ground (arith, build_route_adds s keyed k here j, mem-cons j k ks, eq_iff k j));
        valid = λ v. p.valid (build_route-IsValid s keyed k here v);
      },
    )

loop_fails :
    (ks : List String) (s : RoutesState)
    → IsKeyed s.routes_map
    → any_orphan s.routes_map ks ≡ true
    → (t : RoutesState) × (for_each build_route ks s ≡ (t, err no_parent_found))
      × (t.routes_map ≡ s.routes_map)
      × (t.updates ≡ s.updates)
unfolding for_each
loop_fails [] s keyed h = cc
loop_fails (k ∷ ks) s keyed h = elim (Bool-cases (is_orphan s.routes_map k)) [
  | inl orphan ↦ (s, rw (build_route-err s k orphan), refl, refl)
  | inr here ↦
      let u : RoutesState = record s { routes = (build_route k s).0.routes } in
      let (t, later, m, n) = loop_fails ks u keyed (ground arith) in
      (t, rw (build_route-ok s k here) later, m, n)
]

any_orphan_of_mem :
    (m : Dict Route) (ks : List String) (k : String)
    → mem k ks ≡ true
    → is_orphan m k ≡ true
    → any_orphan m ks ≡ true
any_orphan_of_mem m [] k h o = cc (mem-nil k)
any_orphan_of_mem m (x ∷ ks) k h o =
    ground (arith, mem-cons k x ks, eq_iff x k, any_orphan_of_mem m ks k)

no_orphan :
    (m : Dict Route) (ks : List String)
    → ((k : String) → is_orphan m k ≡ false)
    → any_orphan m ks ≡ false
no_orphan m [] h = refl
no_orphan m (k ∷ ks) h = ground (arith, h k, no_orphan m ks h)

module _ (s : RoutesState) (keyed : IsKeyed s.routes_map) (order : List String)
    (range : IsRange order s.routes_map) where
  -- If a route that was read names a parent that was not, `Build` fails with ErrNoParentFound in
  -- whatever order it meets the routes; it keeps the routes that were read and sends no update.
  pub build_fails :
      (k : String)
      → is_orphan s.routes_map k ≡ true
      → (t : RoutesState) × (build order s ≡ (t, err no_parent_found))
        × (t.routes_map ≡ s.routes_map)
        × (t.updates ≡ s.updates)
  unfolding build
  build_fails k orphan =
      let (t, run, m, n) =
        loop_fails order s keyed
          (any_orphan_of_mem s.routes_map order k (ground (arith, range.covers k)) orphan) in
      (t, rw run, m, n)

  -- If no route that was read names a parent that was not, `Build` succeeds, in whatever order it
  -- meets the routes. It forgets the routes that were read and sends one update. The graph then has
  -- the nodes that it had and the routes read, and each node has the dependencies that it had,
  -- followed by the parent that its route names. The graph, valid before, is valid.
  pub build_publishes :
      IsValid route_key s.routes
      → ((k : String) → is_orphan s.routes_map k ≡ false)
      → (t : RoutesState) × (build order s ≡ (t, ok tt))
        × (t.routes_map ≡ [])
        × (t.updates ≡ suc s.updates)
        × ((j : String) → has t.routes.nodes j ≡ (has s.routes.nodes j || has s.routes_map j))
        × ((j : String)
            → dependencies_of t.routes j ≡ dependencies_of s.routes j ++ parent_edge s.routes_map j)
        × IsValid route_key t.routes
  unfolding build
  build_publishes v placed =
      let (t, run, p) =
        loop_places order s keyed range.once (no_orphan s.routes_map order placed) in
      (
        record t { routes_map = []; updates = suc t.updates },
        rw run,
        refl,
        ap suc p.same_updates,
        λ j. ground (arith, p.from j, p.into j, range.covers j, Bool-cases (has t.routes.nodes j)),
        λ j. ground (arith, p.deps j, range.covers j, append-nil (dependencies_of s.routes j)),
        p.valid v,
      )

  -- After a `Build` that was given a route, in which no route that was read names a parent that was
  -- not, and on a graph that was valid, the call of `GetRoutes` panics, with as many levels of the
  -- walk as there are nodes.
  pub build-get_routes :
      IsValid route_key s.routes
      → ((k : String) → is_orphan s.routes_map k ≡ false)
      → (k : String) → has s.routes_map k ≡ true
      → (nodes : List String) → IsRange nodes (build order s).0.routes.nodes
      → get_routes (length (keys (build order s).0.routes.nodes)) nodes (build order s).0
        ≡ some panic
  unfolding get_routes
  build-get_routes v placed k read nodes r =
      let (t, run, _, _, nodes_of, _, valid) = build_publishes v placed in
      let same : (build order s).0 ≡ t = ap (λ x. x.0) run in
      topological_sort_panics route_key (build order s).0.routes
        (subst (λ u. IsValid route_key u.routes) (sym same) valid) nodes r k
        (rw same (ground (arith, nodes_of k)))
