-- ===== src/State/Routes/Runs.antt =====
-- The runs of a routes state: what the state manager calls, in any order and with any outcome.
use mathlib.Core.Path.{subst}
use cruiser.Base.{
  String, List, ◌==◌, eq_iff, index-nil, index-assign, Outcome, sym, ap, arith, Bool-cases,
  Outcome-cases, inl, inr,
}
use cruiser.Base.Run.{for_each, for_each_keeps, and_then_keeps}
use cruiser.Proto.{Route}
use cruiser.State.Terraform.{ResourceInstance, Resource, Tfstate}
use cruiser.State.Graph.Valid.{IsValid, new_graph-IsValid}
use cruiser.State.Routes.{
  RoutesState, new_routes_state, route_key, read_instance, read_resource, read_from_tfstate,
  build_route, build,
}
use cruiser.State.Routes.Building.{
  is_orphan, IsKeyed, build_route-err, build_route-ok, build_route-IsValid,
}

pub record IsSound (s : RoutesState) : Type 0 where
  pub keyed : IsKeyed s.routes_map
  pub valid : IsValid route_key s.routes

build_route-IsSound : (k : String) (s : RoutesState) → IsSound s → IsSound (build_route k s).0
build_route-IsSound k s sound = elim (Bool-cases (is_orphan s.routes_map k)) [
  | inl orphan ↦ rw (build_route-err s k orphan) sound
  | inr placed ↦ record {
    keyed = subst IsKeyed (sym (ap (λ r. r.0.routes_map) (build_route-ok s k placed))) sound.keyed;
    valid = build_route-IsValid s sound.keyed k placed sound.valid;
  }
]

build-IsSound : (order : List String) (s : RoutesState) → IsSound s → IsSound (build order s).0
unfolding build
build-IsSound order s sound =
    and_then_keeps IsSound (for_each build_route order s) _
      (λ _ t q. record { keyed = λ k r h. cc (index-nil {V = Route} k); valid = q.valid })
      (for_each_keeps build_route IsSound build_route-IsSound order s sound)

module _ (unmarshal : String → Outcome Route) where
  read_instance-IsSound :
      (i : ResourceInstance) (s : RoutesState) → IsSound s → IsSound (read_instance unmarshal i s).0
  unfolding read_instance
  read_instance-IsSound i s sound = elim (Outcome-cases (unmarshal i.proto_json)) [
    | inl (r, e) ↦ rw e (record {
      keyed = λ k q h.
          ground (arith, index-assign s.routes_map r.name r k, eq_iff r.name k, sound.keyed k q);
      valid = sound.valid;
    })
    | inr (inl (x, e)) ↦ rw e sound
    | inr (inr e) ↦ rw e sound
  ]

  read_resource-IsSound :
      (r : Resource) (s : RoutesState) → IsSound s → IsSound (read_resource unmarshal r s).0
  unfolding read_resource
  read_resource-IsSound r s sound = elim (Bool-cases (r.type == "cruiser_route")) [
    | inl e ↦
        rw e (
          for_each_keeps (read_instance unmarshal) IsSound read_instance-IsSound r.instances s
            sound)
    | inr e ↦ rw e sound
  ]

  -- One call on the state, whatever it returns. `order` is the order of the range of `Build`.
  pub data Run : RoutesState → Type 0 where
    start : Run new_routes_state
    read :
        {s : RoutesState} (tfstate : Tfstate)
        → Run s
        → Run (read_from_tfstate unmarshal tfstate s).0
    built : {s : RoutesState} (order : List String) → Run s → Run (build order s).0

  -- Whatever was read and built, with whatever errors, each route that was read is filed under its
  -- name, and in the graph each node under the key of its value, with dependencies that are nodes.
  pub Run-IsSound : {s : RoutesState} → Run s → IsSound s
  unfolding new_routes_state read_from_tfstate
  Run-IsSound start = record {
    keyed = λ k r h. cc (index-nil {V = Route} k);
    valid = new_graph-IsValid route_key;
  }
  Run-IsSound (read {s} tfstate run) =
      for_each_keeps (read_resource unmarshal) IsSound read_resource-IsSound tfstate.resources s
        (Run-IsSound run)
  Run-IsSound (built {s} order run) = build-IsSound order s (Run-IsSound run)
