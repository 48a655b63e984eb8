-- ===== src/State/Graph.antt =====
-- pkg/state/dependency_graph.go: the dependency graph and its sort.
-- A `*node[T]` is the key under which `addNode` filed the node: a node never leaves the map, each
-- key has one node, and no node is reachable but through the map or a dependency list.
pub mod Valid
mod Walk
mod Order
pub mod Topological
mod Tests
use cruiser.Base.{
  ℕ, zero, suc, String, true, false, List, [], ◌∷◌, ◌++◌, Option, none, some, mem, Dict, index,
  assign, has, each, ◌>>=◌, Outcome, ok, err, panic, if◌then◌else◌, map,
}

pub record Node (T : Type 0) : Type 0 where
  pub val : T
  pub dependencies : List String

-- `nodes` of the source. `keyGetter`, a function value, is an argument of the operations.
pub record Graph (T : Type 0) : Type 0 where
  pub nodes : Dict (Node T)

unfoldable pub new_graph : (T : Type 0) → Graph T
new_graph T = record { nodes = [] }

module _ {T : Type 0} where
  -- The dependencies of the node that the pointer `n` stands for.
  abbrev pub dependencies_of : Graph T → String → List String
  dependencies_of g n = elim (index g.nodes n) [ none ↦ [] | some node ↦ node.dependencies ]

module _ {T : Type 0} (key_getter : T → String) where
  -- Files `val` unless its key is taken, and returns the pointer that the map holds.
  unfoldable pub add_node : Graph T → T → Graph T × String
  add_node g val =
      let key = key_getter val in
      if has g.nodes key
      then (g, key)
      else (record { nodes = assign g.nodes key (record { val = val; dependencies = [] }) }, key)

  unfoldable pub add_single_node : Graph T → T → Graph T
  unfolding add_node
  add_single_node g val = (add_node g val).0

-- `fromNode.dependencies = append(fromNode.dependencies, toNode)`
unfoldable pub append_dependency : {T : Type 0} → Graph T → String → String → Graph T
append_dependency g from_node to_node = elim (index g.nodes from_node) [
  | none ↦ g
  | some node ↦ record {
    nodes =
        assign g.nodes from_node (record node { dependencies = node.dependencies ++ to_node ∷ [] });
  }
]

module _ {T : Type 0} (key_getter : T → String) where
  unfoldable pub add_edge : Graph T → T → T → Graph T
  add_edge g from to =
      let (g1, from_node) = add_node key_getter g from in
      let (g2, to_node) = add_node key_getter g1 to in append_dependency g2 from_node to_node

-- The locals of `TopologicalSort`: `visited`, and the `container/list` `l` with its front first.
pub record Sort : Type 0 where
  pub visited : List String
  pub l : List String

-- `l.PushFront(n)`
abbrev pub push_front : String → Sort → Sort
push_front n s = record s { l = n ∷ s.l }

-- The closure `visit`. `none`: the fuel ran out. Each of its returns has a nil error.
unfoldable pub visit : {T : Type 0} → ℕ → Graph T → String → Sort → Option Sort
visit zero g key s = if mem key s.visited then some s else none
visit (suc fuel) g key s = elim (mem key s.visited) [
  | true ↦ some s
  | false ↦
      each (visit fuel g) (dependencies_of g key) (record s { visited = key ∷ s.visited }) >>= λ t.
      some (push_front key t)
]

-- The loop over `g.nodes`, in the order in which the map is ranged over.
unfoldable pub visit_from : {T : Type 0} → ℕ → Graph T → String → Sort → Option Sort
unfolding visit
visit_from fuel g key s = if mem key s.visited then some s else visit fuel g key s

abbrev pub empty_sort : Sort
empty_sort = record { visited = []; l = [] }

unfoldable pub walk : {T : Type 0} → ℕ → Graph T → List String → Option Sort
unfolding visit_from each
walk fuel g order = each (visit_from fuel g) order empty_sort

-- What a list element holds: the dynamic type of `e.Value`.
pub data Value (T : Type 0) : Type 0 where
  a_node : String → Value T
  a_val : T → Value T

-- `e.Value.(T)`, a type assertion that panics on another type.
abbrev pub assert_val : {T : Type 0} → Value T → Outcome T
assert_val (a_node n) = panic
assert_val (a_val v) = ok v

-- The last loop of `TopologicalSort`.
unfoldable pub collect : {T : Type 0} → List (Value T) → List T → Outcome (List T)
collect [] result = ok result
collect (e ∷ rest) result = elim (assert_val e) [
  | ok v ↦ collect rest (result ++ v ∷ [])
  | err e ↦ err e
  | panic ↦ panic
]

-- `visit` pushes nodes. `none`: the fuel ran out.
unfoldable pub topological_sort :
    {T : Type 0} → ℕ → Graph T → List String → Option (Outcome (List T))
unfolding walk collect
topological_sort fuel g order = walk fuel g order >>= λ s. some (collect (map a_node s.l) [])
