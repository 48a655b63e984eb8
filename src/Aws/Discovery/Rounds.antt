-- ===== src/Aws/Discovery/Rounds.antt =====
-- What the rounds of the service discovery publish.
use cruiser.Base.{String, List, [], ◌∷◌, Option, Outcome, ok, err, panic, ◌≡◌, refl, ap, ◌∙◌}
use cruiser.State.Envoy.{Envoy, LinearCache}
use cruiser.State.Xds.{XdsState, set_cluster_endpoints}
use cruiser.Aws.Discovery.{
  Registry, Endpoint, ServiceInfo, Xds, new_xds, sync_all, sync, flush, after_sync, sync_round,
  Wake, cancelled, elapsed, after_round, periodic_sync,
}

module _ {E : Envoy} {C : LinearCache} (D : Registry) (locality : List Endpoint → E.Endpoints) where
  sync_all-nothing :
      (services : Outcome (List ServiceInfo)) (names : List String) (key : String)
      (state : XdsState E C)
      → (sync_all D locality services (new_xds names key state)).0 ≡ new_xds names key state
  sync_all-nothing (ok services) names key state = refl
  sync_all-nothing (err e) names key state = refl
  sync_all-nothing panic names key state = refl

  flush-nothing :
      (names : List String) (key : String) (state : XdsState E C)
      → flush (new_xds names key state) ≡ new_xds names key state
  unfolding flush set_cluster_endpoints
  flush-nothing names key state = refl

  after_sync-nothing :
      (r : Xds E C × Outcome (Unit {0})) (names : List String) (key : String) (state : XdsState E C)
      → r.0 ≡ new_xds names key state
      → (after_sync r).0 ≡ new_xds names key state
  after_sync-nothing (x, ok _) names key state h = ap flush h ∙ flush-nothing names key state
  after_sync-nothing (x, err e) names key state h = h
  after_sync-nothing (x, panic) names key state h = h

  sync_round-nothing :
      (names : List String) (key : String) (state : XdsState E C)
      → (sync_round D locality (new_xds names key state)).0 ≡ new_xds names key state
  unfolding sync_round sync
  sync_round-nothing names key state =
      after_sync-nothing (sync D locality (new_xds names key state)) names key state
        (sync_all-nothing _ names key state)

module _ {E : Envoy} {C : LinearCache} (locality : List Endpoint → E.Endpoints) where
  after_round-keeps :
      (wake : Wake) (r : Xds E C × Outcome (Unit {0}))
      (rest : Xds E C → Xds E C × Option (Outcome (Unit {0}))) (x : Xds E C)
      → r.0 ≡ x
      → (rest x).0 ≡ x
      → (after_round locality wake r rest).0 ≡ x
  after_round-keeps elapsed (y, ok _) rest x e f = ap (λ y. (rest y).0) e ∙ f
  after_round-keeps cancelled (y, ok _) rest x e f = e
  after_round-keeps elapsed (y, err _) rest x e f = e
  after_round-keeps cancelled (y, err _) rest x e f = e
  after_round-keeps elapsed (y, panic) rest x e f = e
  after_round-keeps cancelled (y, panic) rest x e f = e

  -- Whatever services are registered in the rounds, and however they end, the service discovery
  -- never changes the state of xDS: the assignments that a round builds are not kept, so that there
  -- are none to publish.
  pub rounds_publish_nothing :
      (rounds : List (Registry × Wake)) (names : List String) (key : String) (state : XdsState E C)
      → (periodic_sync locality rounds (new_xds names key state)).0 ≡ new_xds names key state
  unfolding periodic_sync
  rounds_publish_nothing [] names key state = refl
  rounds_publish_nothing ((D, wake) ∷ rounds) names key state =
      after_round-keeps wake (sync_round D locality (new_xds names key state))
        (periodic_sync locality rounds) (new_xds names key state)
        (sync_round-nothing D locality names key state)
        (rounds_publish_nothing rounds names key state)
