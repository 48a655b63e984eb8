-- ===== src/Aws/HttpBackend/Tests.antt =====
-- Requests to a function that answers with what it was sent.
use cruiser.Base.{String, true, false, [], ◌∷◌, none, some, ◌==◌, if◌then◌else◌, ok, ◌≡◌, refl}
use cruiser.Proto.{LambdaBackend}
use cruiser.Aws.Lambda.{ProxyResponse}
use cruiser.Aws.HttpBackend.{HttpRequest, HttpEnv}
use cruiser.Aws.HttpBackend.Headers.{answer_values}

abbrev reply : String → ProxyResponse
reply body = record {
  status_code = 201;
  headers = ("content-type", "text/plain") ∷ [];
  multi_value_headers = [];
  body = body;
  is_base64_encoded = true;
}

-- "AQ==" is the only text that is base64.
abbrev env : HttpEnv
env = record {
  marshal = λ r body. some body;
  unmarshal = λ t. some (reply t);
  decode_string = λ t. if t == "AQ==" then some (1 ∷ []) else none;
  bytes_of = λ t. [];
  invoke = λ f q t. (some record { function_error = none; payload = t }, none);
  canonical = λ k. k;
  new_id = "id";
  error_text = λ i. 0 ∷ [];
}

abbrev function : LambdaBackend
function = record { function_name = "f"; qualifier = "live"; enable_health_check = false }

abbrev post : String → HttpRequest
post body = record { method = "POST"; path = "/"; header = []; query = []; body = ok body }

content_type :
    answer_values env.canonical "content-type" [] (("content-type", "text/plain") ∷ [])
    ≡ some ("text/plain" ∷ [])
content_type = refl
