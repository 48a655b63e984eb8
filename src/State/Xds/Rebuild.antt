-- ===== src/State/Xds/Rebuild.antt =====
-- A second build with nothing read in between.
use cruiser.Base.{ℕ, suc, String, List, [], none, index, index-nil, ok, ◌≡◌, ◌∙◌, ap}
use cruiser.State.Envoy.{Envoy, LinearCache, IsLinearCache}
use cruiser.State.Xds.{XdsState, Orders, build}
use cruiser.State.Xds.Transact.{Covers}
use cruiser.State.Xds.Mirror.{Mirrors, build-Mirrors}

-- No cache serves anything.
pub record ServesNothing {E : Envoy} {C : LinearCache} (s : XdsState E C) : Type 0 where
  pub listeners : (n : String) → C.resource_of _ s.listeners.cache n ≡ none
  pub virtual_hosts : (n : String) → C.resource_of _ s.virtual_hosts.cache n ≡ none
  pub route_configurations : (n : String) → C.resource_of _ s.route_configurations.cache n ≡ none
  pub clusters : (n : String) → C.resource_of _ s.clusters.cache n ≡ none
  pub cluster_load_assignments :
      (n : String) → C.resource_of _ s.cluster_load_assignments.cache n ≡ none

module _ {E : Envoy} {C : LinearCache} (L : IsLinearCache C) (first second : Orders)
    (covers1 : (i : ℕ) → Covers (first i)) (covers2 : (i : ℕ) → Covers (second i))
    (s : XdsState E C) (mirrors : Mirrors s) (built1 : (build first s).1 ≡ ok tt)
    (built2 : (build second (build first s).0).1 ≡ ok tt) where
  -- Two builds that succeed, with nothing read between them, leave every cache empty: the second
  -- deletes all that the first has published. Each sends an update.
  pub rebuild_empties :
      ServesNothing (build second (build first s).0).0
      × ((build second (build first s).0).0.updates ≡ suc (suc s.updates))
  rebuild_empties =
      let (p1, m1) = build-Mirrors L first covers1 s mirrors built1 in
      let (p2, m2) = build-Mirrors L second covers2 (build first s).0 m1 built2 in
      (
        record {
          listeners = λ n. m2.listeners n ∙ nothing (p2.listeners.0 ∙ p1.listeners.1) n;
          virtual_hosts =
              λ n. m2.virtual_hosts n ∙ nothing (p2.virtual_hosts.0 ∙ p1.virtual_hosts.1) n;
          route_configurations = λ n.
              m2.route_configurations n
              ∙ nothing (p2.route_configurations.0 ∙ p1.route_configurations.1) n;
          clusters = λ n. m2.clusters n ∙ nothing (p2.clusters.0 ∙ p1.clusters.1) n;
          cluster_load_assignments = λ n.
              m2.cluster_load_assignments n
              ∙ nothing (p2.cluster_load_assignments.0 ∙ p1.cluster_load_assignments.1) n;
        },
        p2.updates ∙ ap suc p1.updates,
      )
    where
      nothing : {R : Type 0} {m : List (String × R)} → m ≡ [] → (n : String) → index m n ≡ none
      nothing e n = ap (λ m. index m n) e ∙ index-nil n
