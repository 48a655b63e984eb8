-- ===== src/State/Graph/Topological.antt =====
-- What `TopologicalSort` does on a graph that the operations built.
use cruiser.Base.{
  ℕ, length, String, true, List, [], ◌∷◌, some, mem, mem-nil, Distinct, keys, has, IsRange, ◌≡◌,
  refl, ◌∙◌, panic, map,
}
use cruiser.State.Graph.{Graph, Sort, walk, topological_sort, collect, a_node}
use cruiser.State.Graph.Valid.{IsValid}
use cruiser.State.Graph.Walk.{walk_returns}
use cruiser.State.Graph.Order.{DependenciesFollow, IsRanked, walk_order}

module _ {T : Type 0} (key_getter : T → String) (g : Graph T) (v : IsValid key_getter g)
    (order : List String) (range : IsRange order g.nodes) where
  -- The walk of `TopologicalSort` ends, on a graph with cycles too, with as many levels of `visit`
  -- as there are nodes, and its list holds each node of the graph exactly once.
  pub walk_lists_nodes :
      (s : Sort) × (walk (length (keys g.nodes)) g order ≡ some s)
      × Distinct s.l
      × ((k : String) → mem k s.l ≡ has g.nodes k)
  walk_lists_nodes = walk_returns g v.closed order range.covers

  -- If the graph has no cycle, each node of the list comes before all the nodes it depends on.
  pub walk_dependents_first :
      (rank : String → ℕ)
      → IsRanked g rank
      → (s : Sort) × (walk (length (keys g.nodes)) g order ≡ some s) × DependenciesFollow g s.l
  walk_dependents_first rank ranked =
      let (s, done, _, _) = walk_returns g v.closed order range.covers in
      (s, done, walk_order g v.closed rank ranked order s range.covers done)

  collect_nodes :
      (l : List String) (k : String) → mem k l ≡ true → collect {T = T} (map a_node l) [] ≡ panic
  unfolding collect
  collect_nodes [] k m = cc (mem-nil k)
  collect_nodes (n ∷ l) k m = refl

  -- `TopologicalSort` panics if there is a node: the list holds nodes, and each is asserted to
  -- be a value.
  pub topological_sort_panics :
      (k : String)
      → has g.nodes k ≡ true
      → topological_sort (length (keys g.nodes)) g order ≡ some panic
  unfolding topological_sort
  topological_sort_panics k h =
      let (s, done, _, lists) = walk_returns g v.closed order range.covers in
      rw done (rw (collect_nodes s.l k (lists k ∙ h)))
