-- ===== src/Commands/Syncing/Tests.antt =====
-- Two rounds over a bucket of one state with two clusters.
use cruiser.Base.{
  String, List, [], ◌∷◌, map, some, Dict, index, assign, delete, keys, mem, ok, ◌==◌, ◌≡◌, refl,
}
use cruiser.Base.Run.{for_each}
use cruiser.State.Terraform.{Tfstate}
use cruiser.State.Manager.{manage}
use cruiser.State.Manager.Rounds.{sync_round}
use cruiser.State.Xds.{
  XdsState, new_xds_state, read_from_tfstate, build, transact_clusters,
  transact_cluster_load_assignments, transact_listeners, transact_virtual_hosts,
  transact_route_configurations, transact_xds_resource, take_updates, take_update,
}
use cruiser.State.Xds.Rebuild.{ServesNothing}
use cruiser.State.Xds.Sample.{
  texts, function_cache, function_cache-IsLinearCache, same, same-Covers,
}
use cruiser.Aws.Tfstates.{
  Bucket, TfstateObject, get_tfstate, read_pages, read_page, read_object, delete_missing,
}
use cruiser.Commands.Syncing.{sync_rounds, unchanged_bucket_empties}

abbrev two_clusters : Tfstate
two_clusters = record {
  resources =
      record {
        type = "cruiser_envoy_cluster";
        name = "x";
        mode = "";
        provider = "";
        instances = record { proto_json = "a" } ∷ record { proto_json = "b" } ∷ [];
      }
      ∷ [];
}

abbrev bucket : Bucket
bucket = record {
  pages = ok "app.tfstate" ∷ [];
  is_tfstate = λ n. n == "app.tfstate";
  full_name = λ n. n;
  head_etag = λ n. ok "v1";
  download = λ n. ok "{}";
  unmarshal = λ t. some two_clusters;
}

runs : Unit {0}
unfolding sync_round manage get_tfstate read_pages read_page read_object delete_missing
    new_xds_state read_from_tfstate build transact_clusters transact_cluster_load_assignments
    transact_listeners transact_virtual_hosts transact_route_configurations transact_xds_resource
    take_updates take_update index assign delete keys mem for_each
runs = tt

abbrev fresh : Dict TfstateObject × XdsState texts function_cache
fresh = ([], new_xds_state)

abbrev after : List (List String) → Dict TfstateObject × XdsState texts function_cache
after rounds = (sync_rounds bucket (map (λ _. same) rounds) fresh).0

first_serves : (after ([] ∷ [])).1.clusters.cache "b" ≡ some "b"
unfolding runs
first_serves = refl

two_rounds : sync_rounds bucket (same ∷ same ∷ []) fresh ≡ (after ([] ∷ [] ∷ []), ok tt)
unfolding runs
two_rounds = refl

unchanged_bucket_empties_example : ServesNothing (after ([] ∷ [] ∷ [])).1
unchanged_bucket_empties_example =
    unchanged_bucket_empties function_cache-IsLinearCache bucket (λ a b e. e) same same []
      (after ([] ∷ [] ∷ [])) (same-Covers, (same-Covers, tt)) two_rounds
