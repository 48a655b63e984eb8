-- ===== src/Aws/Discovery/Tests.antt =====
-- A registry of one service, whose instances are in two pages.
use cruiser.Base.{
  String, List, [], ◌∷◌, none, some, Dict, ok, err, other, pos, negsuc, to_uint32, ℕ, ◌<◌, ◌^◌, ◌≡◌,
  refl, arith,
}
use cruiser.State.Envoy.{Envoy, LinearCache}
use cruiser.State.Xds.{XdsState, new_xds_state}
use cruiser.Aws.Discovery.{
  Registry, ServiceInfo, Endpoint, get_tag_by_key, all_pages, service_assignment, port_of,
}
use cruiser.Aws.Discovery.Syncing.{service_assignment-instances}
use cruiser.Aws.Discovery.Ports.{Wraps, port_of_bounds}

abbrev registry : Registry
registry = record {
  list_namespaces = λ n. ok (n ∷ []);
  list_services = λ n. ok (record { id = "s"; arn = "a"; name = "api" } ∷ []) ∷ [];
  list_tags = λ a. ok (record { key = "port"; value = some "80" } ∷ []);
  list_instances = λ s.
      ok (record { id = "i"; ipv4 = "10.0.0.1" } ∷ [])
      ∷ ok (record { id = "j"; ipv4 = "10.0.0.2" } ∷ [])
      ∷ [];
  parse_int = λ t. some (pos 80);
  cluster_name = λ s n. s;
}

abbrev api : ServiceInfo
api = record {
  service = record { id = "s"; arn = "a"; name = "api" };
  namespace_id = "ns";
  tags = record { key = "port"; value = some "80" } ∷ [];
}

abbrev locality : List Endpoint → List Endpoint
locality endpoints = endpoints

tagged : (get_tag_by_key "port" api.tags).value ≡ some "80"
unfolding get_tag_by_key
tagged = refl

service_assignment-instances_example :
    service_assignment registry locality "port" api
    ≡ ok (
        some record {
          cluster_name = "api";
          endpoints =
              (record { hostname = "i"; address = "10.0.0.1"; port = 80 }
                ∷ record { hostname = "j"; address = "10.0.0.2"; port = 80 }
                ∷ [])
              ∷ [];
        })
unfolding all_pages to_uint32
service_assignment-instances_example =
    service_assignment-instances registry locality "port" api "80" 80 tagged refl

abbrev envoy : Envoy
envoy = record {
  Listener = String;
  VirtualHost = String;
  RouteConfiguration = String;
  Cluster = String;
  Endpoints = List Endpoint;
  listener = λ t. ok t;
  virtual_host = λ t. ok t;
  route_configuration = λ t. ok t;
  cluster = λ t. ok t;
  cluster_load_assignment = λ t. err (other t);
  listener_name = λ n. n;
  virtual_host_name = λ n. n;
  route_configuration_name = λ n. n;
  cluster_resource_name = λ n. n;
  cluster_load_assignment_name = λ a. a.cluster_name;
}

abbrev cache : LinearCache
cache = record {
  Cache = λ R. Dict R;
  new_linear_cache = λ R. [];
  update_resources = λ R c u d. (u, none);
  resource_of = λ R c n. none;
}

abbrev state : XdsState envoy cache
state = new_xds_state

abbrev negative : Registry
negative = record registry { parse_int = λ t. some (negsuc 0) }

port_of_bounds_example :
    (p : ℕ) × (port_of negative "-1" ≡ some p) × (p < 2 ^ 32) × Wraps (negsuc 0) p
port_of_bounds_example = port_of_bounds negative "-1" (negsuc 0) refl (omega arith)
