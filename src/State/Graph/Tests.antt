-- ===== src/State/Graph/Tests.antt =====
-- Sample graphs over names, runs of the operations, and the theorems at them.
use cruiser.Base.{
  ℕ, String, List, [], ◌∷◌, some, ◌≡◌, refl, arith, mem, index, assign, keys, has, IsRange, ◌==◌,
  eq_iff, Distinct, length, true, false, ◌⊎◌, inl, inr,
}
use cruiser.State.Graph.{
  Graph, Sort, new_graph, add_node, append_dependency, add_edge, dependencies_of, walk,
  topological_sort,
}
use cruiser.State.Graph.Valid.{IsValid, new_graph-IsValid, add_edge-IsValid}
use cruiser.State.Graph.Order.{DependenciesFollow, IsRanked}
use cruiser.State.Graph.Topological.{walk_lists_nodes, walk_dependents_first}

abbrev name : String → String
name s = s

-- "leaf" depends on "mid", and "mid" on "top".
chain : Graph String
chain = add_edge name (add_edge name (new_graph String) "leaf" "mid") "mid" "top"

runs : Unit {0}
unfolding chain add_edge add_node append_dependency new_graph index assign walk topological_sort mem
    keys
runs = tt

abbrev order : List String
order = "mid" ∷ "leaf" ∷ "top" ∷ []

chain-walk :
    walk 3 chain order
    ≡ some (record { visited = "leaf" ∷ "top" ∷ "mid" ∷ []; l = "leaf" ∷ "mid" ∷ "top" ∷ [] })
unfolding runs
chain-walk = refl

chain_keys : keys chain.nodes ≡ "leaf" ∷ "mid" ∷ "top" ∷ []
unfolding runs
chain_keys = refl

chain-IsValid : IsValid name chain
unfolding chain
chain-IsValid =
    add_edge-IsValid name _ "mid" "top"
      (add_edge-IsValid name _ "leaf" "mid" (new_graph-IsValid name))

chain-IsRange : IsRange order chain.nodes
unfolding runs
chain-IsRange = record {
  covers = λ k. ground (arith, eq_iff "leaf" k, eq_iff "mid" k, eq_iff "top" k);
  once = (refl, (refl, (refl, tt)));
}

chain-has : has chain.nodes "top" ≡ true
unfolding runs
chain-has = refl

depth : String → ℕ
depth s = elim ("leaf" == s) [ true ↦ 2 | false ↦ elim ("mid" == s) [ true ↦ 1 | false ↦ 0 ] ]

chain_edges :
    (k d : String)
    → mem d (dependencies_of chain k) ≡ true
    → (k ≡ "leaf") × (d ≡ "mid") ⊎ (k ≡ "mid") × (d ≡ "top")
unfolding runs
chain_edges k d m =
    ground (arith, eq_iff "leaf" k, eq_iff "mid" k, eq_iff "top" k, eq_iff "mid" d, eq_iff "top" d)

chain-IsRanked : IsRanked chain depth
unfolding depth
chain-IsRanked k d m = elim (chain_edges k d m) [
  | inl (p, q) ↦ rw (p, q) (omega arith)
  | inr (p, q) ↦ rw (p, q) (omega arith)
]

walk_lists_nodes_example :
    (s : Sort) × (walk (length (keys chain.nodes)) chain order ≡ some s)
    × Distinct s.l
    × ((k : String) → mem k s.l ≡ has chain.nodes k)
walk_lists_nodes_example = walk_lists_nodes name chain chain-IsValid order chain-IsRange

walk_dependents_first_example :
    (s : Sort) × (walk (length (keys chain.nodes)) chain order ≡ some s)
    × DependenciesFollow chain s.l
walk_dependents_first_example =
    walk_dependents_first name chain chain-IsValid order chain-IsRange depth chain-IsRanked
