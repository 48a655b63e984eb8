-- ===== src/Aws/Discovery.antt =====
-- pkg/providers/aws/service_discovery/xds.go: the endpoints of the services that are registered.
pub mod Syncing
pub mod Ports
pub mod Rounds
mod Tests
use cruiser.Base.{
  ℕ, suc, zero, String, Bool, true, false, List, [], ◌∷◌, ◌++◌, map, Option, none, some, ◌==◌,
  Outcome, ok, err, panic, Error, other, context_canceled, if◌then◌else◌, ℤ, to_uint32,
}
use cruiser.State.Envoy.{Envoy, LinearCache, ClusterLoadAssignment}
use cruiser.State.Xds.{XdsState, set_cluster_endpoints}

pub record Tag : Type 0 where
  pub key : String
  pub value : Option String

-- `types.ServiceSummary`
pub record Service : Type 0 where
  pub id : String
  pub arn : String
  pub name : String

pub record ServiceInfo : Type 0 where
  pub service : Service
  pub namespace_id : String
  pub tags : List Tag

pub record Instance : Type 0 where
  pub id : String
  pub ipv4 : String

-- The endpoint that is made of an instance: its host name, its address and its port.
pub record Endpoint : Type 0 where
  pub hostname : String
  pub address : String
  pub port : ℕ

-- The calls of the service discovery client during one round, and `strconv.ParseInt` with the base
-- ten and 32 bits. A paginator is the list of its pages, each of which may fail.
pub record Registry : Type 0 where
  pub list_namespaces : String → Outcome (List String)
  pub list_services : String → List (Outcome (List Service))
  pub list_tags : String → Outcome (List Tag)
  pub list_instances : String → List (Outcome (List Instance))
  pub parse_int : String → Option ℤ
  pub cluster_name : String → String → String

-- A call whose error, or panic, ends the code.
abbrev pub bind : {A B : Type 0} → Outcome A → (A → Outcome B) → Outcome B
bind (ok a) f = f a
bind (err e) f = err e
bind panic f = panic

-- `getTagByKey`: the empty tag if there is none.
unfoldable pub get_tag_by_key : String → List Tag → Tag
get_tag_by_key key [] = record { key = ""; value = none }
get_tag_by_key key (tag ∷ tags) =
    let rest = get_tag_by_key key tags in if tag.key == key then tag else rest

-- All that the pages have, or the error of the first that fails.
unfoldable pub all_pages : {A : Type 0} → List (Outcome (List A)) → Outcome (List A)
all_pages [] = ok []
all_pages (page ∷ pages) = bind page (λ xs. bind (all_pages pages) (λ ys. ok (xs ++ ys)))

module _ (D : Registry) where
  unfoldable pub list_namespaces : List String → List String → Outcome (List String)
  list_namespaces [] found = ok found
  list_namespaces (name ∷ names) found =
      bind (D.list_namespaces name) (λ output. list_namespaces names (found ++ output))

  unfoldable pub with_tags : String → List Service → List ServiceInfo → Outcome (List ServiceInfo)
  with_tags namespace [] found = ok found
  with_tags namespace (service ∷ services) found = bind (D.list_tags service.arn) (λ tags.
      with_tags namespace services
        (found ++ record { service = service; namespace_id = namespace; tags = tags } ∷ []))

  unfoldable pub page_services :
      String → List (Outcome (List Service)) → List ServiceInfo → Outcome (List ServiceInfo)
  page_services namespace [] found = ok found
  page_services namespace (page ∷ pages) found =
      bind page
        (λ services. bind (with_tags namespace services found) (page_services namespace pages))

  unfoldable pub list_services : List String → List ServiceInfo → Outcome (List ServiceInfo)
  list_services [] found = ok found
  list_services (namespace ∷ namespaces) found =
      bind (page_services namespace (D.list_services namespace) found) (list_services namespaces)

  -- `uint32(servicePort)`, for a text that can be read.
  abbrev pub port_of : String → Option ℕ
  port_of text = elim (D.parse_int text) [ none ↦ none | some i ↦ some (to_uint32 i) ]

  abbrev pub endpoint_of : ℕ → Instance → Endpoint
  endpoint_of port instance_ = record {
    hostname = instance_.id;
    address = instance_.ipv4;
    port = port;
  }

  unfoldable pub page_instances :
      ℕ → List (Outcome (List Instance)) → List Endpoint → Outcome (List Endpoint)
  page_instances port [] found = ok found
  page_instances port (page ∷ pages) found =
      bind page (λ instances. page_instances port pages (found ++ map (endpoint_of port) instances))

-- The struct `xds`, less the client, the interval and the channel.
pub record Xds (E : Envoy) (C : LinearCache) : Type 0 where
  pub namespaces_names : List String
  pub cluster_load_assignments : List (ClusterLoadAssignment E.Endpoints)
  pub service_port_tag_key : String
  pub xds_state : XdsState E C

module _ {P : Type 0} where
  abbrev pub reset_endpoints : ClusterLoadAssignment P → ClusterLoadAssignment P
  reset_endpoints a = record a { endpoints = [] }

  abbrev pub has_endpoints : List (ClusterLoadAssignment P) → List (ClusterLoadAssignment P)
  has_endpoints [] = []
  has_endpoints (a ∷ rest) = elim a.endpoints [
    | [] ↦ has_endpoints rest
    | _ ∷ _ ↦ a ∷ has_endpoints rest
  ]

module _ {E : Envoy} {C : LinearCache} where
  unfoldable pub flush : Xds E C → Xds E C
  flush x = record x {
    xds_state = set_cluster_endpoints x.cluster_load_assignments x.xds_state;
    cluster_load_assignments = has_endpoints x.cluster_load_assignments;
  }

  -- `NewXds` with its options.
  abbrev pub new_xds : List String → String → XdsState E C → Xds E C
  new_xds names key state = record {
    namespaces_names = names;
    cluster_load_assignments = [];
    service_port_tag_key = key;
    xds_state = state;
  }

  abbrev pub after_sync : Xds E C × Outcome (Unit {0}) → Xds E C × Outcome (Unit {0})
  after_sync (x, ok _) = (flush x, ok tt)
  after_sync (x, err e) = (x, err e)
  after_sync (x, panic) = (x, panic)

-- `locality` makes `LocalityLbEndpoints` of the endpoints of an assignment.
module _ {P : Type 0} (D : Registry) (locality : List Endpoint → P) where
  -- The assignment that the loop builds for a service, if it has the tag.
  unfoldable pub service_assignment :
      String → ServiceInfo → Outcome (Option (ClusterLoadAssignment P))
  service_assignment key info = elim (get_tag_by_key key info.tags).value [
    | none ↦ ok none
    | some text ↦ elim (port_of D text) [
      | none ↦ err (other "strconv")
      | some port ↦ bind (page_instances D port (D.list_instances info.service.id) []) (λ endpoints.
          ok (
            some record {
              cluster_name = D.cluster_name info.service.name info.namespace_id;
              endpoints = locality endpoints ∷ [];
            }))
    ]
  ]

  -- The loop over the services, which does nothing with the assignments.
  unfoldable pub sync_services : String → List ServiceInfo → Outcome (Unit {0})
  sync_services key [] = ok tt
  sync_services key (info ∷ infos) =
      bind (service_assignment key info) (λ _. sync_services key infos)

module _ {E : Envoy} {C : LinearCache} (D : Registry) (locality : List Endpoint → E.Endpoints) where
  abbrev pub sync_all : Outcome (List ServiceInfo) → Xds E C → Xds E C × Outcome (Unit {0})
  sync_all (ok services) x = (
    record x { cluster_load_assignments = map reset_endpoints x.cluster_load_assignments },
    sync_services D locality x.service_port_tag_key services,
  )
  sync_all (err e) x = (x, err e)
  sync_all panic x = (x, panic)

  unfoldable pub sync : Xds E C → Xds E C × Outcome (Unit {0})
  sync x =
      sync_all
        (bind (list_namespaces D x.namespaces_names [])
          (λ namespaces. list_services D namespaces []))
        x

  -- One iteration of `periodicSync`; an error ends the loop.
  unfoldable pub sync_round : Xds E C → Xds E C × Outcome (Unit {0})
  sync_round x = after_sync (sync x)

-- What the `select` receives.
pub data Wake : Type 0 where
  cancelled elapsed : Wake

module _ {E : Envoy} {C : LinearCache} (locality : List Endpoint → E.Endpoints) where
  abbrev pub after_round :
      Wake
      → Xds E C × Outcome (Unit {0})
      → (Xds E C → Xds E C × Option (Outcome (Unit {0})))
      → Xds E C × Option (Outcome (Unit {0}))
  after_round elapsed (x, ok _) rest = rest x
  after_round cancelled (x, ok _) rest = (x, some (err context_canceled))
  after_round _ (x, err e) rest = (x, some (err e))
  after_round _ (x, panic) rest = (x, some panic)

  -- `periodicSync`, over the registry of each round and what ends the wait after it. With the state
  -- is the error that was sent before it returned, or `none` where it is at work after the rounds.
  unfoldable pub periodic_sync :
      List (Registry × Wake) → Xds E C → Xds E C × Option (Outcome (Unit {0}))
  periodic_sync [] x = (x, none)
  periodic_sync ((D, wake) ∷ rounds) x =
      after_round wake (sync_round D locality x) (periodic_sync rounds)
