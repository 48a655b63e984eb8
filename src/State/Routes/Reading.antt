-- ===== src/State/Routes/Reading.antt =====
-- `ReadFromTfstate` against a description of what a Terraform state declares.
use mathlib.Core.Path.{fun_ext}
use cruiser.Base.{
  String, List, [], ◌∷◌, ◌++◌, Option, some, ◌==◌, index, assign, index-assign, Outcome, Error, ok,
  err, panic, if◌then◌else◌, ◌≡◌, refl, sym, ◌∙◌, ap, Bool-cases, Outcome-cases, inl, inr,
}
use cruiser.Base.Run.{for_each, and_then, for_each-append}
use cruiser.Proto.{Route}
use cruiser.State.Terraform.{ResourceInstance, Resource, Tfstate}
use cruiser.State.Routes.{RoutesState, read_instance, read_resource, read_from_tfstate}

-- The instances of the "cruiser_route" resources, in their order.
abbrev pub declared_by : List Resource → List ResourceInstance
declared_by [] = []
declared_by (r ∷ rs) =
    if r.type == "cruiser_route" then r.instances ++ declared_by rs else declared_by rs

-- The value for `n` after the routes have been stored one after the other.
abbrev pub latest : String → List Route → Option Route → Option Route
latest n [] old = old
latest n (r ∷ rs) old = latest n rs (if r.name == n then some r else old)

module _ (unmarshal : String → Outcome Route) where
  -- The routes up to the first instance that cannot be decoded, and what the decoding ends with.
  abbrev pub accepted : List ResourceInstance → List Route
  accepted [] = []
  accepted (i ∷ is) = elim (unmarshal i.proto_json) [ ok r ↦ r ∷ accepted is | _ ↦ [] ]

  abbrev pub verdict : List ResourceInstance → Outcome (Unit {0})
  verdict [] = ok tt
  verdict (i ∷ is) = elim (unmarshal i.proto_json) [
    | ok r ↦ verdict is
    | err e ↦ err e
    | panic ↦ panic
  ]

  read_resources :
      (rs : List Resource) (s : RoutesState)
      → for_each (read_resource unmarshal) rs s
        ≡ for_each (read_instance unmarshal) (declared_by rs) s
  unfolding for_each read_resource
  read_resources [] s = refl
  read_resources (r ∷ rs) s = elim (Bool-cases (r.type == "cruiser_route")) [
    | inl routes ↦
        rw (routes, read_resource)
          (ap (λ f. and_then (for_each (read_instance unmarshal) r.instances s) (λ _. f))
              (fun_ext (read_resources rs))
            ∙ sym (for_each-append (read_instance unmarshal) r.instances (declared_by rs) s))
    | inr others ↦ rw (others, read_resource) (read_resources rs s)
  ]

  read_instance-ok :
      (i : ResourceInstance) (s : RoutesState) {r : Route}
      → unmarshal i.proto_json ≡ ok r
      → read_instance unmarshal i s
        ≡ (record s { routes_map = assign s.routes_map r.name r }, ok tt)
  unfolding read_instance
  read_instance-ok i s e = rw e

  read_instance-err :
      (i : ResourceInstance) (s : RoutesState) {x : Error}
      → unmarshal i.proto_json ≡ err x
      → read_instance unmarshal i s ≡ (s, err x)
  unfolding read_instance
  read_instance-err i s e = rw e

  read_instance-panic :
      (i : ResourceInstance) (s : RoutesState)
      → unmarshal i.proto_json ≡ panic
      → read_instance unmarshal i s ≡ (s, panic)
  unfolding read_instance
  read_instance-panic i s e = rw e

  abbrev pub Reads : List ResourceInstance → RoutesState → RoutesState × Outcome (Unit {0}) → Type 0
  Reads is s result =
      (result.1 ≡ verdict is)
      × (result.0.routes ≡ s.routes)
      × (result.0.updates ≡ s.updates)
      × ((n : String) → index result.0.routes_map n ≡ latest n (accepted is) (index s.routes_map n))

  read_instances :
      (is : List ResourceInstance) (s : RoutesState)
      → Reads is s (for_each (read_instance unmarshal) is s)
  unfolding for_each
  read_instances [] s = (refl, refl, refl, λ n. refl)
  read_instances (i ∷ is) s = elim (Outcome-cases (unmarshal i.proto_json)) [
    | inl (r, e) ↦
        let u : RoutesState = record s { routes_map = assign s.routes_map r.name r } in
        let (v, g, n, stored) = read_instances is u in
        rw (read_instance-ok i s e, e, verdict, accepted)
          (
            v,
            g,
            n,
            λ j. stored j ∙ ap (latest j (accepted is)) (index-assign s.routes_map r.name r j),
          )
    | inr (inl (x, e)) ↦
        rw (read_instance-err i s e, e, verdict, accepted) (refl, refl, refl, λ n. refl)
    | inr (inr e) ↦
        rw (read_instance-panic i s e, e, verdict, accepted) (refl, refl, refl, λ n. refl)
  ]

  -- `ReadFromTfstate` stores, under each name, the last route of that name that the state
  -- declares, and keeps what it had under the other names. It stops at the first instance that
  -- cannot be decoded and returns its error; the routes before that instance stay stored. It
  -- leaves the graph and the channel alone.
  pub read_from_tfstate_effect :
      (tfstate : Tfstate) (s : RoutesState)
      → Reads (declared_by tfstate.resources) s (read_from_tfstate unmarshal tfstate s)
  unfolding read_from_tfstate
  read_from_tfstate_effect tfstate s =
      rw (read_resources tfstate.resources s) (read_instances (declared_by tfstate.resources) s)
