-- ===== src/Server/Router/Sample.antt =====
-- A mux that keeps the names of its routes, a provider, and two routes, for the tests.
use mathlib.Core.Option.{some-injective, none-ne-some}
use cruiser.Base.{
  String, Bool, false, ◌==◌, not, is_some, if◌then◌else◌, ◌≡◌, ℕ, true, [], ◌∷◌, none, some, Dict,
  index, length, refl, sym, ap,
}
use cruiser.Proto.{
  is_grpc_call, path_prefix, methods, post, unknown_method, Handler, aws_lambda, Route,
}
use cruiser.Server.Router.{Matcher, plain_matcher, Mux, IsMux, BackendProvider}

-- The template of a group is the only one that is refused.
abbrev pub is_plain_text : String → Bool
is_plain_text text = not (text == "/{id:([0-9]+)}")

-- The route of a name is the number of the routes that were there.
abbrev pub mux : Mux ℕ
mux = record {
  Router = Dict ℕ;
  RouteId = ℕ;
  new_router = [];
  get_route = index;
  new_route = λ r _ name. ((name, length r) ∷ r, length r);
  add_matcher = λ r _ m. if plain_matcher is_plain_text m then some r else none;
  set_handler = λ r _ _. r;
}

pub taken-plain :
    (r : Dict ℕ) (m : Matcher)
    → plain_matcher is_plain_text m ≡ true
    → is_some (if plain_matcher is_plain_text m then some r else none) ≡ true
taken-plain r m p = rw p refl

pub taken_same : (b : Bool) (r t : Dict ℕ) → (if b then some r else none) ≡ some t → t ≡ r
taken_same true r t e = sym (some-injective _ _ e)
taken_same false r t e = absurd (none-ne-some _ e)

unfoldable pub is_mux : IsMux mux
unfolding index
is_mux = record {
  starts_empty = λ n. refl;
  names = λ r p name n. refl;
  matcher_keeps =
      λ r i m t n e. ap (λ q. index q n) (taken_same (plain_matcher is_plain_text m) r t e);
  is_plain = is_plain_text;
  plain_taken = λ r i m p. taken-plain r m p;
  handler_keeps = λ r i h n. refl;
}

-- gRPC is answered by 1 and HTTP by 2.
abbrev pub provider : BackendProvider ℕ
provider = record {
  backend_provider_key = 0;
  to_grpc_backend = λ _. some 1;
  to_http_backend = λ _. some 2;
}

abbrev pub function : Handler
function = aws_lambda record { function_name = "f"; qualifier = "1"; enable_health_check = true }

abbrev pub parent : Route
parent = record {
  name = "api";
  parent_name = "";
  matchers = path_prefix "/api" ∷ [];
  handler = none;
}

abbrev pub child : Route
child = record {
  name = "call";
  parent_name = "api";
  matchers = methods (post ∷ unknown_method 99 ∷ []) ∷ is_grpc_call true ∷ [];
  handler = some function;
}
