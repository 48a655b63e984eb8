-- ===== src/State/Graph/Valid.antt =====
-- What the graph operations do to the nodes and edges, and the invariant that they keep.
use cruiser.Base.{
  String, true, [], ◌∷◌, ◌++◌, some, ◌==◌, eq_iff, mem, mem-append, mem-nil, mem-cons, index, has,
  index-assign, index-nil, if◌then◌else◌, ◌≡◌, arith, ◌||◌, Option-cases, inl, inr,
}
use mathlib.Core.Option
use cruiser.State.Graph.{
  Node, Graph, dependencies_of, add_node, append_dependency, add_edge, new_graph,
}

module _ {T : Type 0} (key_getter : T → String) where
  -- Each node is filed under the key of its value, and each dependency is a node of the map.
  pub record IsValid (g : Graph T) : Type 0 where
    pub keyed : (k : String) (n : Node T) → index g.nodes k ≡ some n → key_getter n.val ≡ k
    pub closed : (k d : String) → mem d (dependencies_of g k) ≡ true → has g.nodes d ≡ true

  pub index-add_node :
      (g : Graph T) (val : T) (k : String)
      → index (add_node key_getter g val).0.nodes k ≡ (
          if has g.nodes (key_getter val)
          then index g.nodes k
          else if key_getter val == k
          then some (record { val = val; dependencies = [] })
          else index g.nodes k)
  unfolding add_node
  index-add_node g val k =
      ground
        (arith, index-assign g.nodes (key_getter val) (record { val = val; dependencies = [] }) k)

  pub add_node_key : (g : Graph T) (val : T) → (add_node key_getter g val).1 ≡ key_getter val
  unfolding add_node
  add_node_key g val = ground arith

  pub dependencies_of-add_node :
      (g : Graph T) (val : T) (k : String)
      → dependencies_of (add_node key_getter g val).0 k ≡ dependencies_of g k
  dependencies_of-add_node g val k =
      ground (arith, index-add_node g val k, eq_iff (key_getter val) k)

  pub has-add_node :
      (g : Graph T) (val : T) (k : String)
      → has (add_node key_getter g val).0.nodes k ≡ (key_getter val == k || has g.nodes k)
  has-add_node g val k = ground (arith, index-add_node g val k, eq_iff (key_getter val) k)

  pub add_node-IsValid : (g : Graph T) (val : T) → IsValid g → IsValid (add_node key_getter g val).0
  add_node-IsValid g val v = record {
    keyed = λ k n e. ground (arith, index-add_node g val k, eq_iff (key_getter val) k, v.keyed k n);
    closed = λ k d m.
        ground (arith, has-add_node g val d, dependencies_of-add_node g val k, v.closed k d);
  }

abbrev depend : {T : Type 0} → String → Node T → Node T
depend to_node n = record n { dependencies = n.dependencies ++ to_node ∷ [] }

module _ {T : Type 0} (g : Graph T) (from_node to_node : String) where
  pub index-append_dependency :
      (k : String)
      → index (append_dependency g from_node to_node).nodes k ≡ (
          if from_node == k then Option.map (depend to_node) (index g.nodes k) else index g.nodes k)
  unfolding append_dependency
  index-append_dependency k = elim (Option-cases (index g.nodes from_node)) [
    | inl e ↦ ground (arith, eq_iff from_node k)
    | inr (n, e) ↦
        ground (arith, eq_iff from_node k, index-assign g.nodes from_node (depend to_node n) k)
  ]

  pub has-append_dependency :
      (k : String) → has (append_dependency g from_node to_node).nodes k ≡ has g.nodes k
  has-append_dependency k = ground (arith, index-append_dependency k)

  pub dependencies_of-append_dependency :
      (k : String)
      → has g.nodes from_node ≡ true
      → dependencies_of (append_dependency g from_node to_node) k
        ≡ (if from_node == k then dependencies_of g k ++ to_node ∷ [] else dependencies_of g k)
  dependencies_of-append_dependency k h =
      ground (arith, index-append_dependency k, eq_iff from_node k)

module _ {T : Type 0} (key_getter : T → String) where
  append_dependency-IsValid :
      (g : Graph T) (from_node to_node : String)
      → has g.nodes from_node ≡ true
      → has g.nodes to_node ≡ true
      → IsValid key_getter g
      → IsValid key_getter (append_dependency g from_node to_node)
  append_dependency-IsValid g from_node to_node hf ht v = record {
    keyed = λ k n e. elim (Option-cases (index g.nodes k)) [
      | inl missing ↦ ground (arith, index-append_dependency g from_node to_node k)
      | inr (m, found) ↦ ground (arith, index-append_dependency g from_node to_node k, v.keyed k m)
    ];
    closed = λ k d m. ground (
      arith,
      has-append_dependency g from_node to_node d,
      dependencies_of-append_dependency g from_node to_node k,
      mem-append d (dependencies_of g k) (to_node ∷ []),
      mem-cons d to_node [],
      mem-nil d,
      eq_iff to_node d,
      v.closed k d,
    );
  }

  -- The graph that `NewGraph` returns is valid.
  pub new_graph-IsValid : IsValid key_getter (new_graph T)
  unfolding new_graph
  new_graph-IsValid = record {
    keyed = λ k n e. cc (index-nil {V = Node T} k);
    closed = λ k d m. cc (mem-nil d, index-nil {V = Node T} k);
  }

module _ {T : Type 0} (key_getter : T → String) (g : Graph T) (from to : T) where
  -- The graph with both nodes, before the edge is added.
  abbrev with_both : Graph T
  with_both = (add_node key_getter (add_node key_getter g from).0 to).0

  add_edge_lem :
      add_edge key_getter g from to ≡ append_dependency with_both (key_getter from) (key_getter to)
  unfolding add_edge
  add_edge_lem =
      rw (add_node_key key_getter g from, add_node_key key_getter (add_node key_getter g from).0 to)

  has-with_both :
      (k : String)
      → has with_both.nodes k ≡ (key_getter to == k || (key_getter from == k || has g.nodes k))
  has-with_both k = ground (
    arith,
    has-add_node key_getter g from k,
    has-add_node key_getter (add_node key_getter g from).0 to k,
  )

  -- `AddEdge` keeps the invariant: nodes under their keys, and dependencies that are nodes.
  pub add_edge-IsValid : IsValid key_getter g → IsValid key_getter (add_edge key_getter g from to)
  add_edge-IsValid v = rw add_edge_lem (
      append_dependency-IsValid key_getter with_both (key_getter from) (key_getter to)
        (ground
          (arith, has-with_both (key_getter from), eq_iff (key_getter from) (key_getter from)))
        (ground (arith, has-with_both (key_getter to), eq_iff (key_getter to) (key_getter to)))
        (add_node-IsValid key_getter _ to (add_node-IsValid key_getter g from v)))

  -- After `AddEdge` the graph has the nodes that it had and those of `from` and `to`; the
  -- dependencies of `from` are those that it had and then `to`, and no other node's have changed.
  pub add_edge_effect :
      (k : String)
      → (has (add_edge key_getter g from to).nodes k
          ≡ (key_getter to == k || (key_getter from == k || has g.nodes k)))
        × (dependencies_of (add_edge key_getter g from to) k ≡ (
            if key_getter from == k
            then dependencies_of g k ++ key_getter to ∷ []
            else dependencies_of g k))
  add_edge_effect k = rw add_edge_lem (
    rw (has-append_dependency with_both (key_getter from) (key_getter to) k) (has-with_both k),
    ground (
      arith,
      dependencies_of-append_dependency with_both (key_getter from) (key_getter to) k,
      has-with_both (key_getter from),
      eq_iff (key_getter from) (key_getter from),
      dependencies_of-add_node key_getter g from k,
      dependencies_of-add_node key_getter (add_node key_getter g from).0 to k,
    ),
  )

  -- The value of a node, once filed, is never replaced: adding an edge between values with the
  -- same key keeps the value that was filed first.
  pub add_edge_keeps_val :
      (k : String) (n : Node T)
      → index g.nodes k ≡ some n
      → Option.map (λ (m : Node T). m.val) (index (add_edge key_getter g from to).nodes k)
        ≡ some n.val
  add_edge_keeps_val k n e = rw add_edge_lem (
      ground (
        arith,
        index-append_dependency with_both (key_getter from) (key_getter to) k,
        index-add_node key_getter g from k,
        index-add_node key_getter (add_node key_getter g from).0 to k,
        eq_iff (key_getter to) k,
        eq_iff (key_getter from) k,
      ))
