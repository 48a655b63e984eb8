-- ===== src/State/Xds/Register.antt =====
-- pkg/state/xds.go: `Register`, which serves the caches by the type of the resources.
use cruiser.Base.{
  String, true, false, [], ◌∷◌, Option, none, some, Dict, index, ◌==◌, eq_iff, ◌≡◌, ◌≢◌, refl, ap,
  Bool-cases, inl, inr,
}
use cruiser.State.Envoy.{ClusterLoadAssignment, Envoy, LinearCache, IsLinearCache}
use cruiser.State.Xds.{XdsState}
use cruiser.State.Xds.Mirror.{Mirrors}
use cruiser.State.Xds.Runs.{Run, Run-Mirrors}

-- The types whose caches are registered.
pub data ResourceType : Type 0 where
  listener_type route_type cluster_type virtual_host_type endpoint_type : ResourceType

-- A resource of one of them, as it is served.
pub data Served (E : Envoy) : Type 0 where
  of_listener : E.Listener → Served E
  of_route : E.RouteConfiguration → Served E
  of_cluster : E.Cluster → Served E
  of_virtual_host : E.VirtualHost → Served E
  of_endpoint : ClusterLoadAssignment E.Endpoints → Served E

abbrev pub mapped : {A B : Type 0} → (A → B) → Option A → Option B
mapped f none = none
mapped f (some a) = some (f a)

-- `url` gives the type URLs of the package resource.
module _ {E : Envoy} {C : LinearCache} (url : ResourceType → String) where
  -- `Caches` of the `MuxCache`: what each cache serves for a name. It holds the caches of the state
  -- themselves, so a request sees what they hold by then.
  abbrev pub mux_caches : XdsState E C → Dict (String → Option (Served E))
  mux_caches s =
      (url listener_type, λ n. mapped of_listener (C.resource_of _ s.listeners.cache n))
      ∷ (url route_type, λ n. mapped of_route (C.resource_of _ s.route_configurations.cache n))
      ∷ (url cluster_type, λ n. mapped of_cluster (C.resource_of _ s.clusters.cache n))
      ∷ (
        url virtual_host_type,
        λ n. mapped of_virtual_host (C.resource_of _ s.virtual_hosts.cache n),
      )
      ∷ (
        url endpoint_type,
        λ n. mapped of_endpoint (C.resource_of _ s.cluster_load_assignments.cache n),
      )
      ∷ []

  -- What is served for a type URL and a name, for which `Classify` takes the URL.
  unfoldable pub answer : XdsState E C → String → String → Option (Served E)
  answer s type_url name = elim (index (mux_caches s) type_url) [
    | none ↦ none
    | some serve ↦ serve name
  ]

  -- What the last build published, of a type and a name.
  abbrev pub published : XdsState E C → ResourceType → String → Option (Served E)
  published s listener_type n = mapped of_listener (index s.listeners.to_delete n)
  published s route_type n = mapped of_route (index s.route_configurations.to_delete n)
  published s cluster_type n = mapped of_cluster (index s.clusters.to_delete n)
  published s virtual_host_type n = mapped of_virtual_host (index s.virtual_hosts.to_delete n)
  published s endpoint_type n = mapped of_endpoint (index s.cluster_load_assignments.to_delete n)

module _ (url : ResourceType → String)
    (distinct : (a b : ResourceType) → url a ≡ url b → a ≡ b) where
  other : (a b : ResourceType) → a ≢ b → (url a == url b) ≡ false
  other a b different = elim (Bool-cases (url a == url b)) [
    | inl same ↦ absurd (different (distinct a b ((eq_iff (url a) (url b)).0 same)))
    | inr e ↦ e
  ]

  self : (a : ResourceType) → (url a == url a) ≡ true
  self a = (eq_iff (url a) (url a)).1 refl

  answer-type :
      {E : Envoy} {C : LinearCache} (s : XdsState E C) (t : ResourceType) (n : String)
      → Mirrors s
      → answer url s (url t) n ≡ published url s t n
  unfolding answer index
  answer-type s listener_type n m =
      rw (answer, self listener_type) (ap (mapped of_listener) (m.listeners n))
  answer-type s route_type n m =
      rw (answer, other listener_type route_type (λ e. cc), self route_type)
        (ap (mapped of_route) (m.route_configurations n))
  answer-type s cluster_type n m =
      rw
        (
          answer,
          other listener_type cluster_type (λ e. cc),
          other route_type cluster_type (λ e. cc),
          self cluster_type,
        )
        (ap (mapped of_cluster) (m.clusters n))
  answer-type s virtual_host_type n m =
      rw
        (
          answer,
          other listener_type virtual_host_type (λ e. cc),
          other route_type virtual_host_type (λ e. cc),
          other cluster_type virtual_host_type (λ e. cc),
          self virtual_host_type,
        )
        (ap (mapped of_virtual_host) (m.virtual_hosts n))
  answer-type s endpoint_type n m =
      rw
        (
          answer,
          other listener_type endpoint_type (λ e. cc),
          other route_type endpoint_type (λ e. cc),
          other cluster_type endpoint_type (λ e. cc),
          other virtual_host_type endpoint_type (λ e. cc),
          self endpoint_type,
        )
        (ap (mapped of_endpoint) (m.cluster_load_assignments n))

  -- Whatever calls were made on a new state, in any order, where each `Build` among them succeeded,
  -- a request for a type and a name is answered by the resource of that type and name that the last
  -- build published, if there is one, and by nothing otherwise. It is for type URLs that differ.
  pub Run-answer :
      {E : Envoy} {C : LinearCache} {s : XdsState E C} (t : ResourceType) (n : String)
      → IsLinearCache C
      → Run s
      → answer url s (url t) n ≡ published url s t n
  Run-answer {s = s} t n L run = answer-type s t n (Run-Mirrors L run)
