-- ===== src/Server/Router/Accepted.antt =====
-- Which configurations a router can take.
use cruiser.Base.{
  ℕ, String, Bool, true, false, List, [], ◌∷◌, Option, none, some, ◌==◌, Outcome, ok, err, panic,
  Dict, if◌then◌else◌, ◌||◌, ◌&&◌, ◌≡◌, refl, is_some,
}
use cruiser.Proto.{Rule, host, path, path_prefix, queries, is_grpc_call, Handler, Route}
use cruiser.Server.Router.{BackendProvider, provider_key, all_plain, header_pairs}

abbrev pub is_ok : {A : Type 0} → Outcome A → Bool
is_ok (ok _) = true
is_ok (err _) = false
is_ok panic = false

-- Whether one of the rules asks for gRPC.
abbrev pub wants_grpc : List Rule → Bool
wants_grpc [] = false
wants_grpc (is_grpc_call true ∷ rules) = true
wants_grpc (_ ∷ rules) = wants_grpc rules

-- Whether each route is behind its parent, where the names of `known` are there already.
abbrev pub parents_first : (String → Bool) → List Route → Bool
parents_first known [] = true
parents_first known (route ∷ routes) =
    ((route.parent_name == "") || known route.parent_name)
    && parents_first (λ n. (route.name == n) || known n) routes

-- Whether no template of the rules has a capturing group: those of hosts, paths and queries.
module _ (range : Dict String → List String) (is_plain : String → Bool) where
  abbrev pub plain_rule : Rule → Bool
  plain_rule (host text) = is_plain text
  plain_rule (path text) = is_plain text
  plain_rule (path_prefix text) = is_plain text
  plain_rule (queries m) = all_plain is_plain (header_pairs (range m) m)
  plain_rule _ = true

  abbrev pub plain_rules : List Rule → Bool
  plain_rules [] = true
  plain_rules (rule ∷ rules) = plain_rule rule && plain_rules rules

  abbrev pub plain_routes : List Route → Bool
  plain_routes [] = true
  plain_routes (route ∷ routes) = plain_rules route.matchers && plain_routes routes

module _ {H : Type 0} where
  -- Whether a backend can be made for the handler of a route, if it has one.
  abbrev pub has_backend : (ℕ → Option (BackendProvider H)) → Bool → Option Handler → Bool
  has_backend provs grpc none = true
  has_backend provs grpc (some h) = elim (provs (provider_key h)) [
    | none ↦ false
    | some prov ↦
        if grpc then is_some (prov.to_grpc_backend h) else is_some (prov.to_http_backend h)
  ]

  abbrev pub is_served : (ℕ → Option (BackendProvider H)) → Route → Bool
  is_served provs route = has_backend provs (wants_grpc route.matchers) route.handler

  abbrev pub all_served : (ℕ → Option (BackendProvider H)) → List Route → Bool
  all_served provs [] = true
  all_served provs (route ∷ routes) = is_served provs route && all_served provs routes

pub and-false : (a b : Bool) → (a && b) ≡ false → a ≡ true → b ≡ false
and-false true b h e = h
and-false false b h e = cc

pub and-true : (a b : Bool) → (a && b) ≡ true → (a ≡ true) × (b ≡ true)
and-true true b h = (refl, h)
and-true false b h = cc

pub and-refused : (a b c d : Bool) → (a && b) ≡ false → ((a && c) && (b && d)) ≡ false
and-refused true true c d h = cc
and-refused true false true d h = refl
and-refused true false false d h = refl
and-refused false b c d h = refl

pub and-taken : (a b c d : Bool) → a ≡ true → b ≡ true → ((a && c) && (b && d)) ≡ (c && d)
and-taken a b c d e f = rw (e, f) refl
