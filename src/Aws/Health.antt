-- ===== src/Aws/Health.antt =====
-- pkg/providers/aws/lambda/healthcheck.go: one check of a Lambda function; and what
-- pkg/providers/aws/provider.go does with a handler that it has taken from its channel.
pub mod Checking
pub mod Sample
mod Tests
use Prim.Native.String as Text
use cruiser.Base.{
  String, Bool, true, List, [], ◌∷◌, ◌++◌, Option, none, some, Outcome, ok, panic, Error,
  if◌then◌else◌,
}
use cruiser.Base.Run.{Run, pure, ◌>>=◌, ◌>>◌, and_then}
use cruiser.Proto.{LambdaBackend, Handler, no_backend, aws_lambda}
use cruiser.Server.Grpc.{Bytes, Metadata}
use cruiser.Aws.Lambda.{ProxyResponse, InvokeOutput, zero_response}

-- `events.APIGatewayProxyRequest`, in the fields that are set here.
pub record CheckRequest : Type 0 where
  pub http_method : String
  pub path : String
  pub multi_value_headers : Metadata
  pub multi_value_query_string_parameters : Metadata
  pub body : String
  pub is_base64_encoded : Bool

-- `HealthCheckResponse_ServingStatus`, in the values that are named here.
pub data ServingStatus : Type 0 where
  unknown serving not_serving : ServingStatus

-- What is used of the libraries `proto`, `json` and `base64`, and of the names of
-- `grpc_health_v1`. `request_bytes` is the encoding of the request for a service, with the error
-- of `proto.Marshal` ignored; `marshal` gives no bytes with an error; `status_of` is the status in
-- the bytes of an answer, which is the zero where they cannot be decoded.
pub record HealthEnv : Type 0 where
  pub service_name : String
  pub request_bytes : String → Bytes
  pub marshal : CheckRequest → String
  pub unmarshal : String → Option ProxyResponse
  pub encode_to_string : Bytes → String
  pub decode_string : String → Bytes
  pub bytes_of : String → Bytes
  pub status_of : Bytes → ServingStatus

-- The calls of Lambda: the function, its qualifier and the payload.
abbrev pub Invocations : Type 0
Invocations = List (String × String × String)

module _ (E : HealthEnv) where
  abbrev pub check_request : CheckRequest
  check_request = record {
    http_method = "POST";
    path = Text.◌++◌ E.service_name (Text.◌++◌ "/" "Check");
    multi_value_headers = [];
    multi_value_query_string_parameters = [];
    body = E.encode_to_string (E.request_bytes "*");
    is_base64_encoded = true;
  }

  -- `json.Unmarshal` into a new response, whose error is ignored.
  abbrev pub decoded : String → ProxyResponse
  decoded payload = elim (E.unmarshal payload) [ none ↦ zero_response | some r ↦ r ]

  abbrev pub answer_bytes : ProxyResponse → Bytes
  answer_bytes r = if r.is_base64_encoded then E.decode_string r.body else E.bytes_of r.body

  -- The switch over the status, in which no case does anything.
  unfoldable pub on_status : ServingStatus → Run Invocations (Unit {0})
  on_status serving = pure tt
  on_status not_serving = pure tt
  on_status unknown = pure tt

  -- `result.FunctionError` is read whatever `err` is, which panics on a nil result.
  unfoldable pub take_result : Option InvokeOutput × Option Error → Run Invocations (Unit {0})
  take_result (none, e) log = (log, panic)
  take_result (some output, e) log =
      on_status (E.status_of (answer_bytes (decoded output.payload))) log

  abbrev pub invoke :
      LambdaBackend
      → String
      → Option InvokeOutput × Option Error
      → Run Invocations (Option InvokeOutput × Option Error)
  invoke backend payload answer log =
      (log ++ (backend.function_name, backend.qualifier, payload) ∷ [], ok answer)

  -- `answer` is what Lambda answers to the call.
  unfoldable pub do_healthcheck :
      Option InvokeOutput × Option Error → LambdaBackend → Run Invocations (Unit {0})
  unfolding take_result
  do_healthcheck answer backend = do
    result ← invoke backend (E.marshal check_request) answer
    take_result result

  -- `doHealthCheck`, between the channel and `Done`.
  unfoldable pub check_handler :
      Option InvokeOutput × Option Error → Handler → Run Invocations (Unit {0})
  check_handler answer no_backend = pure tt
  check_handler answer (aws_lambda backend) = do_healthcheck answer backend
