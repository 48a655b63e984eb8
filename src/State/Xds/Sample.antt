-- ===== src/State/Xds/Sample.antt =====
-- Resources that are texts, a cache that is a function, and ranges in the order of the keys.
use cruiser.Base.{
  ℕ, String, List, [], Option, none, some, mem, Dict, index, ok, err, other, ◌==◌, if◌then◌else◌,
  refl, arith,
}
use cruiser.State.Envoy.{Envoy, LinearCache, IsLinearCache}
use cruiser.State.Xds.{Orders}
use cruiser.State.Xds.Transact.{Covers}

abbrev pub texts : Envoy
texts = record {
  Listener = String;
  VirtualHost = String;
  RouteConfiguration = String;
  Cluster = String;
  Endpoints = String;
  listener = λ j. ok j;
  virtual_host = λ j. ok j;
  route_configuration = λ j. ok j;
  cluster = λ j. if j == "bad" then err (other j) else ok j;
  cluster_load_assignment = λ j. ok (record { cluster_name = j; endpoints = [] });
  listener_name = λ l. l;
  virtual_host_name = λ v. v;
  route_configuration_name = λ r. r;
  cluster_resource_name = λ c. c;
  cluster_load_assignment_name = λ a. a.cluster_name;
}

abbrev served : {R : Type 0} → (String → Option R) → Dict R → List String → String → Option R
served c updates deletes n =
    if mem n deletes then none else elim (index updates n) [ none ↦ c n | some r ↦ some r ]

abbrev pub function_cache : LinearCache
function_cache = record {
  Cache = λ R. String → Option R;
  new_linear_cache = λ R n. none;
  update_resources = λ R c updates deletes. (served c updates deletes, none);
  resource_of = λ R c n. c n;
}

pub function_cache-IsLinearCache : IsLinearCache function_cache
function_cache-IsLinearCache = record {
  starts_empty = λ R n. refl;
  stores = λ R c u d n r e i m. ground arith;
  drops = λ R c u d n e i m. ground arith;
  keeps = λ R c u d n e i m. ground arith;
}

abbrev pub same : Orders
same i ks = ks

pub same-Covers : (i : ℕ) → Covers (same i)
same-Covers i ks k = refl
