-- ===== src/State/Graph/Order.antt =====
-- The order of the list that `TopologicalSort` builds, on a graph without cycles.
use mathlib.Core.Option.{some-injective}
use mathlib.Core.Path.{subst}
use cruiser.Base.{
  ℕ, zero, suc, ◌≤◌, ◌<◌, length, String, true, List, [], ◌∷◌, some, eq_iff, mem, mem-cons,
  mem_self, mem-tail, keys, has, each_keeps, All, ◌≡◌, sym, ◌∙◌, All-mem, arith, ◌⊎◌, inl, inr,
  Bool-cases,
}
use cruiser.State.Graph.{
  Graph, dependencies_of, Sort, push_front, visit, visit_from, walk, empty_sort,
}
use cruiser.State.Graph.Walk.{
  Grows, Fits, enter, enter-Fits, leave-Grows, deps_ok, start-Fits, visit_returns, deps_returns,
}

module _ {T : Type 0} (g : Graph T) where
  -- All dependencies of an element come after it.
  abbrev pub DependenciesFollow : List String → Type 0
  DependenciesFollow [] = Unit
  DependenciesFollow (k ∷ l) =
      ((d : String) → mem d (dependencies_of g k) ≡ true → mem d l ≡ true) × DependenciesFollow l

  -- A rank that falls along each dependency: the graph has no cycle.
  abbrev pub IsRanked : (String → ℕ) → Type 0
  IsRanked rank = (k d : String) → mem d (dependencies_of g k) ≡ true → rank d < rank k

  module _ (closed : (k d : String) → mem d (dependencies_of g k) ≡ true → has g.nodes d ≡ true)
      (rank : String → ℕ) (ranked : IsRanked rank) where
    -- Each marked node is listed, or is one that the walk is inside of, of rank at least `r`.
    abbrev Above : ℕ → Sort → Type 0
    Above r s = (k : String) → mem k s.visited ≡ true → (mem k s.l ≡ true) ⊎ (r ≤ rank k)

    abbrev Follows : ℕ → ℕ → Sort → Type 0
    Follows fuel r s = Fits g fuel s × Above r s × DependenciesFollow s.l

    abbrev Lower : ℕ → String → Type 0
    Lower r k = (has g.nodes k ≡ true) × (rank k < r)

    deps-Lower :
        (key : String) (ds : List String)
        → ((d : String) → mem d ds ≡ true → mem d (dependencies_of g key) ≡ true)
        → All (Lower (rank key)) ds
    deps-Lower key [] h = tt
    deps-Lower key (d ∷ ds) h =
        let m = h d (mem_self d ds) in
        ((closed key d m, ranked key d m), deps-Lower key ds (λ k n. h k (mem-tail k d ds n)))

    visit-Follows :
        (fuel r : ℕ) (key : String) (s t : Sort)
        → Lower r key
        → Follows fuel r s
        → visit fuel g key s ≡ some t
        → Follows fuel r t
    unfolding visit
    visit-Follows zero r key s t _ (f, a, d) e = ground arith
    visit-Follows (suc fuel) r key s t (h, lo) (f, a, d) e = elim (Bool-cases (mem key s.visited)) [
      | inl seen ↦
          let same : s ≡ t = some-injective _ _ (rw (seen, visit) at e) in
          subst (Follows (suc fuel) r) same (f, a, d)
      | inr new ↦
          let (u, done, fu, grows, all) = deps_returns g closed fuel key s h new f in
          let (t', done', ft, gt, mt) = visit_returns g closed (suc fuel) key s h f in
          let (_, above, follow) =
            each_keeps (visit fuel g) (Lower (rank key)) (Follows fuel (rank key))
              (visit-Follows fuel (rank key)) (dependencies_of g key) (enter g key s)
              (deps-Lower key _ (λ k m. m))
              (
                enter-Fits g fuel key s h new f,
                λ k m. ground (arith, mem-cons k key s.visited, eq_iff key k, a k),
                d,
              )
              done in
          let now : visit (suc fuel) g key s ≡ some (push_front key u) = rw (new, visit, done) in
          let here : t ≡ push_front key u = some-injective _ _ (sym e ∙ now) in
          let there : t' ≡ push_front key u = some-injective _ _ (sym done' ∙ now) in
          let grown = leave-Grows g key s u new grows in
          subst (Follows (suc fuel) r) (sym here) (
            rw there at ft,
            λ k m. ground (arith, a k, grown.listed k m, grown.kept k),
            (
              λ k m. ground (
                arith,
                above k,
                ranked key k,
                All-mem (λ v. mem v u.visited ≡ true) (dependencies_of g key) k all m,
              ),
              follow,
            ),
          )
    ]

    -- Between two rounds of the outer loop the walk is inside of no node.
    abbrev Settled : ℕ → Sort → Type 0
    Settled fuel s =
        Fits g fuel s
        × ((k : String) → mem k s.visited ≡ true → mem k s.l ≡ true)
        × DependenciesFollow s.l

    visit_from-Settled :
        (fuel : ℕ) (key : String) (s t : Sort)
        → has g.nodes key ≡ true
        → Settled fuel s
        → visit_from fuel g key s ≡ some t
        → Settled fuel t
    unfolding visit_from
    visit_from-Settled fuel key s t h (f, a, d) e = elim (Bool-cases (mem key s.visited)) [
      | inl seen ↦
          let same : s ≡ t = some-injective _ _ (rw (seen, visit_from) at e) in
          subst (Settled fuel) same (f, a, d)
      | inr new ↦
          let run : visit fuel g key s ≡ some t = rw (new, visit_from) at e in
          let (t', done, _, grows, _) = visit_returns g closed fuel key s h f in
          let same : t' ≡ t = some-injective _ _ (sym done ∙ run) in
          let grown : Grows s t = subst (Grows s) same grows in
          let (ft, _, follow) =
            visit-Follows fuel (suc (rank key)) key s t (h, omega arith)
              (f, (λ k m. inl (a k m)), d) run in
          (ft, λ k m. ground (arith, a k, grown.listed k m, grown.kept k), follow)
    ]

    -- On a graph without cycles every node of the list stands before the nodes it depends on.
    pub walk_order :
        (order : List String) (t : Sort)
        → ((k : String) → mem k order ≡ has g.nodes k)
        → walk (length (keys g.nodes)) g order ≡ some t
        → DependenciesFollow t.l
    unfolding walk
    walk_order order t range e =
        let fuel = length (keys g.nodes) in
        let (_, _, follow) =
          each_keeps (visit_from fuel g) (λ d. has g.nodes d ≡ true) (Settled fuel)
            (visit_from-Settled fuel) order empty_sort (deps_ok g order (λ k m. sym (range k) ∙ m))
            (start-Fits g, (λ k m. m), tt) e in
        follow
