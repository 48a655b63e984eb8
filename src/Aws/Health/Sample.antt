-- ===== src/Aws/Health/Sample.antt =====
-- The libraries, and a function whose answer says that it is not serving.
use cruiser.Base.{true, [], ◌∷◌, none, some}
use cruiser.Proto.{LambdaBackend}
use cruiser.Aws.Lambda.{InvokeOutput, zero_response}
use cruiser.Aws.Health.{HealthEnv, not_serving}

abbrev pub health : HealthEnv
health = record {
  service_name = "grpc.health.v1.Health";
  request_bytes = λ s. 10 ∷ 1 ∷ 42 ∷ [];
  marshal = λ r. r.path;
  unmarshal = λ s. some zero_response;
  encode_to_string = λ b. "CgEq";
  decode_string = λ s. [];
  bytes_of = λ s. [];
  status_of = λ b. not_serving;
}

abbrev pub backend : LambdaBackend
backend = record { function_name = "f"; qualifier = "live"; enable_health_check = true }

abbrev pub answer : InvokeOutput
answer = record { function_error = none; payload = "{}" }
