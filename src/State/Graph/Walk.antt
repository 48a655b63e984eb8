-- ===== src/State/Graph/Walk.antt =====
-- The depth-first walk of `TopologicalSort`: it returns, and it lists each node once.
use cruiser.Base.{
  ℕ, zero, suc, ◌≤◌, length, String, true, false, List, [], ◌∷◌, some, eq_iff, mem, mem-nil,
  mem-cons, mem_self, mem-tail, Distinct, unseen, unseen_lt, unseen_nil, All-mem, keys, mem-keys,
  has, each, each_returns, All, ◌≡◌, sym, ◌∙◌, arith, ◌⊎◌, inl, inr, Bool-cases,
}
use cruiser.State.Graph.{
  Graph, dependencies_of, Sort, push_front, visit, visit_from, walk, empty_sort,
}

-- How a part of the walk may change the state: marks and list elements stay, an element is new
-- only if its node was not marked before, and a node that becomes marked is listed.
pub record Grows (s t : Sort) : Type 0 where
  pub marked : (k : String) → mem k s.visited ≡ true → mem k t.visited ≡ true
  pub kept : (k : String) → mem k s.l ≡ true → mem k t.l ≡ true
  pub fresh : (k : String) → mem k t.l ≡ true → (mem k s.l ≡ true) ⊎ (mem k s.visited ≡ false)
  pub listed : (k : String) → mem k t.visited ≡ true → (mem k s.visited ≡ true) ⊎ (mem k t.l ≡ true)

pub Grows-refl : (s : Sort) → Grows s s
Grows-refl s = record {
  marked = λ k m. m;
  kept = λ k m. m;
  fresh = λ k m. inl m;
  listed = λ k m. inl m;
}

pub Grows-trans : (s t u : Sort) → Grows s t → Grows t u → Grows s u
Grows-trans s t u a b = record {
  marked = λ k m. b.marked k (a.marked k m);
  kept = λ k m. b.kept k (a.kept k m);
  fresh = λ k m. ground (arith, b.fresh k, a.fresh k, a.marked k, Bool-cases (mem k s.visited));
  listed = λ k m. ground (arith, b.listed k, a.listed k, b.kept k);
}

-- The elements of the list are marked nodes, each once.
pub record IsProper (s : Sort) : Type 0 where
  pub known : (k : String) → mem k s.l ≡ true → mem k s.visited ≡ true
  pub once : Distinct s.l

module _ {T : Type 0} (g : Graph T) where
  abbrev pub Fits : ℕ → Sort → Type 0
  Fits fuel s =
      IsProper s
      × ((k : String) → mem k s.visited ≡ true → has g.nodes k ≡ true)
      × (unseen (keys g.nodes) s.visited ≤ fuel)

  abbrev pub enter : String → Sort → Sort
  enter key s = record s { visited = key ∷ s.visited }

  pub enter-Fits :
      (fuel : ℕ) (key : String) (s : Sort)
      → has g.nodes key ≡ true
      → mem key s.visited ≡ false
      → Fits (suc fuel) s
      → Fits fuel (enter key s)
  enter-Fits fuel key s h n (p, i, f) = (
    record { known = λ k m. mem-tail k key s.visited (p.known k m); once = p.once },
    λ k m. ground (arith, mem-cons k key s.visited, eq_iff key k, i k),
    ground (arith, unseen_lt (keys g.nodes) s.visited key, mem-keys g.nodes key),
  )

  pub leave-Grows :
      (key : String) (s t : Sort)
      → mem key s.visited ≡ false
      → Grows (enter key s) t
      → Grows s (push_front key t)
  leave-Grows key s t n r = record {
    marked = λ k m. r.marked k (mem-tail k key s.visited m);
    kept = λ k m. mem-tail k key t.l (r.kept k m);
    fresh = λ k m.
        ground (arith, mem-cons k key t.l, mem-cons k key s.visited, r.fresh k, eq_iff key k);
    listed = λ k m. ground (arith, mem-cons k key t.l, mem-cons k key s.visited, r.listed k);
  }

  leave-IsProper :
      (key : String) (s t : Sort)
      → IsProper s
      → mem key s.visited ≡ false
      → Grows (enter key s) t
      → IsProper t
      → IsProper (push_front key t)
  leave-IsProper key s t p n r q = record {
    known = λ k m.
        ground
          (arith, mem-cons k key t.l, q.known k, eq_iff key k, r.marked k, mem_self key s.visited);
    once = (
      ground (arith, Bool-cases (mem key t.l), r.fresh key, p.known key, mem_self key s.visited),
      q.once,
    );
  }

  pub deps_ok :
      (ds : List String)
      → ((d : String) → mem d ds ≡ true → has g.nodes d ≡ true)
      → All (λ d. has g.nodes d ≡ true) ds
  deps_ok [] h = tt
  deps_ok (d ∷ ds) h = (h d (mem_self d ds), deps_ok ds (λ k m. h k (mem-tail k d ds m)))

  pub start-Fits : Fits (length (keys g.nodes)) empty_sort
  start-Fits =
      (record { known = λ k m. m; once = tt }, λ k m. cc (mem-nil k), unseen_nil (keys g.nodes))

  module _
      (closed : (k d : String) → mem d (dependencies_of g k) ≡ true → has g.nodes d ≡ true) where
    -- `visit` returns once the fuel is at least the number of nodes that are not marked.
    pub visit_returns :
        (fuel : ℕ) (key : String) (s : Sort)
        → has g.nodes key ≡ true
        → Fits fuel s
        → (t : Sort) × (visit fuel g key s ≡ some t)
          × Fits fuel t
          × Grows s t
          × (mem key t.visited ≡ true)
    unfolding visit
    visit_returns zero key s h (p, i, f) =
        let seen : mem key s.visited ≡ true = ground (
          arith,
          Bool-cases (mem key s.visited),
          unseen_lt (keys g.nodes) s.visited key,
          mem-keys g.nodes key,
        ) in
        (s, rw (seen, visit), (p, i, f), Grows-refl s, seen)
    visit_returns (suc fuel) key s h (p, i, f) = elim (Bool-cases (mem key s.visited)) [
      | inl seen ↦ (s, rw (seen, visit), (p, i, f), Grows-refl s, seen)
      | inr new ↦
          let (t, done, (q, j, fits), r, _) =
            each_returns Grows Grows-refl Grows-trans (visit fuel g) (λ d. has g.nodes d ≡ true)
              (Fits fuel) (λ d u. mem d u.visited ≡ true) (λ d u v r m. r.marked d m)
              (visit_returns fuel) (dependencies_of g key) (enter key s) (deps_ok _ (closed key))
              (enter-Fits fuel key s h new (p, i, f)) in
          (
            push_front key t,
            rw (new, visit, done),
            (leave-IsProper key s t p new r q, j, omega arith),
            leave-Grows key s t new r,
            r.marked key (mem_self key s.visited),
          )
    ]

    -- What the loop over the dependencies of a node that was not marked leaves behind.
    pub deps_returns :
        (fuel : ℕ) (key : String) (s : Sort)
        → has g.nodes key ≡ true
        → mem key s.visited ≡ false
        → Fits (suc fuel) s
        → (u : Sort) × (each (visit fuel g) (dependencies_of g key) (enter key s) ≡ some u)
          × Fits fuel u
          × Grows (enter key s) u
          × All (λ d. mem d u.visited ≡ true) (dependencies_of g key)
    deps_returns fuel key s h new f =
        each_returns Grows Grows-refl Grows-trans (visit fuel g) (λ d. has g.nodes d ≡ true)
          (Fits fuel) (λ d u. mem d u.visited ≡ true) (λ d u v r m. r.marked d m)
          (visit_returns fuel) (dependencies_of g key) (enter key s) (deps_ok _ (closed key))
          (enter-Fits fuel key s h new f)

    pub visit_from_returns :
        (fuel : ℕ) (key : String) (s : Sort)
        → has g.nodes key ≡ true
        → Fits fuel s
        → (t : Sort) × (visit_from fuel g key s ≡ some t)
          × Fits fuel t
          × Grows s t
          × (mem key t.visited ≡ true)
    unfolding visit_from
    visit_from_returns fuel key s h p = elim (Bool-cases (mem key s.visited)) [
      | inl seen ↦ (s, rw (seen, visit_from), p, Grows-refl s, seen)
      | inr new ↦ rw (new, visit_from) (visit_returns fuel key s h p)
    ]

    -- With as much fuel as the graph has nodes `TopologicalSort` finishes its walk, and its list
    -- then holds the nodes of the graph, each once.
    pub walk_returns :
        (order : List String)
        → ((k : String) → mem k order ≡ has g.nodes k)
        → (t : Sort) × (walk (length (keys g.nodes)) g order ≡ some t)
          × Distinct t.l
          × ((k : String) → mem k t.l ≡ has g.nodes k)
    unfolding walk
    walk_returns order range =
        let fuel = length (keys g.nodes) in
        let (t, done, (p, i, _), r, all) =
          each_returns Grows Grows-refl Grows-trans (visit_from fuel g) (λ d. has g.nodes d ≡ true)
            (Fits fuel) (λ d u. mem d u.visited ≡ true) (λ d u v r m. r.marked d m)
            (visit_from_returns fuel) order empty_sort (deps_ok order (λ k m. sym (range k) ∙ m))
            start-Fits in
        (
          t,
          done,
          p.once,
          λ k. ground (
            arith,
            r.listed k,
            p.known k,
            i k,
            mem-nil k,
            range k,
            All-mem (λ d. mem d t.visited ≡ true) order k all,
            Bool-cases (mem k t.l),
            Bool-cases (mem k order),
          ),
        )
