-- ===== src/Aws/Lambda/Tests.antt =====
-- Calls of a function whose answers are the names of its statuses.
use cruiser.Base.{ℕ, true, false, [], ◌∷◌, none, some, ◌==◌, if◌then◌else◌, ok, eof, other, refl}
use cruiser.Proto.{LambdaBackend}
use cruiser.Server.Grpc.{respond, send_frame}
use cruiser.Server.Grpc.Sending.{Sent, recorder}
use cruiser.Aws.Lambda.{ProxyResponse, LambdaEnv, Call, request, response}
use cruiser.Server.Grpc.Flows.{received, sent, Flows, next, here, begins, requests, responds}
use cruiser.Aws.Lambda.Racing.{InOrder, responses_follow_answer}
use cruiser.Aws.Lambda.Calls.{replied}

abbrev reply : ℕ → ProxyResponse
reply n = record {
  status_code = n;
  headers = [];
  multi_value_headers = [];
  body = "AQ==";
  is_base64_encoded = true;
}

abbrev function : LambdaBackend
function = record { function_name = "f"; qualifier = "live"; enable_health_check = false }

-- A client that cannot be reached unless the qualifier is "live".
abbrev env : LambdaEnv
env = record {
  method = "/pkg.Service/Method";
  marshal = λ r. some r.body;
  unmarshal = λ t. some (reply 200);
  encode_to_string = λ b. "AQ==";
  decode_string = λ t. some (1 ∷ []);
  bytes_of = λ t. [];
  invoke = λ f q t.
      if q == "live"
      then (some record { function_error = none; payload = t }, none)
      else (none, some (other "throttled"));
  join = λ h m. m;
  error_id = λ n. "id";
}

abbrev nothing_sent : Sent
nothing_sent = record { headers = []; payloads = [] }

abbrev draft : LambdaBackend
draft = record { function_name = "f"; qualifier = "draft"; enable_health_check = false }

-- The flows of a call whose function has answered, when the answer is sent.
abbrev answered_flows : Flows Call Sent
answered_flows = record {
  backend = replied env function (some []) (reply 200) (1 ∷ []);
  stream = record { headers = [] ∷ []; payloads = (1 ∷ []) ∷ [] };
  receiver = received (ok tt);
  sender = sent (ok tt);
}

responses_follow_answer_example :
    InOrder env function recorder answered_flows.sender answered_flows.backend
unfolding request response send_frame respond
responses_follow_answer_example =
    responses_follow_answer env function recorder eof nothing_sent (some []) ((1 ∷ []) ∷ [])
      answered_flows
      (next (next (next here (begins [] ((1 ∷ []) ∷ []) refl)) (requests (1 ∷ []) [] refl))
        (responds true refl))
