-- ===== src/Proto.antt =====
-- The protobuf messages: proto/server/router.proto and proto/providers/aws/lambda.proto, in the Go
-- types that are generated from them, pkg/proto/server/router.pb.go and
-- pkg/proto/providers/aws/lambda.pb.go.
use cruiser.Base.{ℕ, String, Bool, List, Option, Dict}

-- An enum of proto3 is open: a number with no name may be received.
pub data Method : Type 0 where
  get head post put delete connect options trace patch : Method
  unknown_method : ℕ → Method

pub data Scheme : Type 0 where
  http https : Scheme
  unknown_scheme : ℕ → Scheme

-- `Router_Route_MethodsRule_Method_name[int32(method)]`: a missing key gives "".
abbrev pub method_name : Method → String
method_name get = "GET"
method_name head = "HEAD"
method_name post = "POST"
method_name put = "PUT"
method_name delete = "DELETE"
method_name connect = "CONNECT"
method_name options = "OPTIONS"
method_name trace = "TRACE"
method_name patch = "PATCH"
method_name (unknown_method n) = ""

-- `Router_Route_SchemesRule_Scheme_name[int32(scheme)]`
abbrev pub scheme_name : Scheme → String
scheme_name http = "HTTP"
scheme_name https = "HTTPS"
scheme_name (unknown_scheme n) = ""

-- The oneof `rule`; `no_rule` is a matcher in which none is set.
pub data Rule : Type 0 where
  no_rule : Rule
  is_grpc_call : (wanted : Bool) → Rule
  host path path_prefix : (text : String) → Rule
  methods : List Method → Rule
  schemes : List Scheme → Rule
  headers headers_regexp queries : Dict String → Rule

pub record LambdaBackend : Type 0 where
  pub function_name : String
  pub qualifier : String
  pub enable_health_check : Bool

-- The oneof `backend`; `no_backend` is a handler in which it is not set.
pub data Handler : Type 0 where
  no_backend : Handler
  aws_lambda : LambdaBackend → Handler

pub record Route : Type 0 where
  pub name : String
  pub parent_name : String
  pub matchers : List Rule
  pub handler : Option Handler
