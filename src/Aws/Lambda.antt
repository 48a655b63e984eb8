-- ===== src/Aws/Lambda.antt =====
-- pkg/providers/aws/lambda/grpc_backend.go: the method backend that invokes a Lambda function.
pub mod Calls
pub mod Statuses
pub mod Racing
mod Tests
use cruiser.Base.{
  ℕ, suc, String, Bool, true, false, List, [], ◌∷◌, Option, none, some, eqb, Dict, assign, Outcome,
  ok, err, panic, Error, eof, status, other, if◌then◌else◌,
}
use cruiser.Base.Run.{Run}
use cruiser.Proto.{LambdaBackend}
use cruiser.Server.Grpc.{Bytes, Metadata, Response, MethodBackend, internal}

-- `events.APIGatewayProxyRequest` and `events.APIGatewayProxyResponse`, in the fields used.
pub record ProxyRequest : Type 0 where
  pub path : String
  pub multi_value_headers : Option Metadata
  pub body : String
  pub is_base64_encoded : Bool

pub record ProxyResponse : Type 0 where
  pub status_code : ℕ
  pub headers : Dict String
  pub multi_value_headers : Metadata
  pub body : String
  pub is_base64_encoded : Bool

pub record InvokeOutput : Type 0 where
  pub function_error : Option String
  pub payload : String

-- What is used of the libraries: `json`, `base64`, `metadata`, `uuid`, `lambda.Client` and the
-- name of the method from the transport. `invoke` is given the name, the qualifier and the
-- payload, and returns a result, which may be nil, and an error, which may be nil. `error_id` is
-- the n-th identifier that a call takes of `uuid`.
pub record LambdaEnv : Type 0 where
  pub method : String
  pub marshal : ProxyRequest → Option String
  pub unmarshal : String → Option ProxyResponse
  pub encode_to_string : Bytes → String
  pub decode_string : String → Option Bytes
  pub bytes_of : String → Bytes
  pub invoke : String → String → String → Option InvokeOutput × Option Error
  pub join : Dict String → Metadata → Metadata
  pub error_id : ℕ → String

-- `grpcMethodBackend`; a metadata map and a response may be nil.
pub record Call : Type 0 where
  pub incoming_metadata : Option Metadata
  pub outgoing_metadata : Option Metadata
  pub lambda_response : Option ProxyResponse
  pub response_body : Bytes
  pub ids : ℕ

-- What the factory makes.
abbrev pub new_call : Call
new_call = record {
  incoming_metadata = none;
  outgoing_metadata = none;
  lambda_response = none;
  response_body = [];
  ids = 0;
}

-- `wrapGrpcError` of this file. The identifier in its text is not modelled.
abbrev pub wrapped_error : Error
wrapped_error = status internal "internal server error"

-- The zero that `json.Unmarshal` starts from.
abbrev pub zero_response : ProxyResponse
zero_response = record {
  status_code = 0;
  headers = [];
  multi_value_headers = [];
  body = "";
  is_base64_encoded = false;
}

-- The switch over the status codes other than 200.
abbrev pub grpc_status : ℕ → ℕ × String
grpc_status n =
    if eqb n 410
    then (0, "moved permanently")
    else if eqb n 404
    then (5, "not found")
    else if eqb n 403
    then (7, "forbidden")
    else if eqb n 401
    then (16, "unauthorized")
    else if eqb n 409
    then (6, "already exists")
    else if eqb n 501
    then (12, "not implemented")
    else if eqb n 405
    then (12, "method not allowed")
    else if eqb n 429
    then (8, "too many requests")
    else if eqb n 500
    then (13, "internal server error")
    else if eqb n 503
    then (14, "service unavailable")
    else if eqb n 204
    then (11, "out of range")
    else if eqb n 412
    then (9, "failed precondition")
    else (13, "internal server error")

-- `st.Err()`, which is nil for the code OK.
abbrev pub status_err : ℕ × String → Option Error
status_err (code, text) = if eqb code 0 then none else some (status code text)

module _ (E : LambdaEnv) (backend : LambdaBackend) where
  abbrev pub begin : Metadata → Run Call (Unit {0})
  begin incoming g = (record g { incoming_metadata = some incoming }, ok tt)

  abbrev pub proxy_request : Bytes → Call → ProxyRequest
  proxy_request payload g = record {
    path = E.method;
    multi_value_headers = g.incoming_metadata;
    body = E.encode_to_string payload;
    is_base64_encoded = true;
  }

  abbrev pub response_body_of : ProxyResponse → Option Bytes
  response_body_of r =
      if r.is_base64_encoded then E.decode_string r.body else some (E.bytes_of r.body)

  -- From the response on.
  abbrev pub take_response : ProxyResponse → Run Call (Unit {0})
  take_response r g =
      let h = record g { lambda_response = some r } in
      elim (response_body_of r) [
        | none ↦ (h, err wrapped_error)
        | some body ↦ (
          record h {
            response_body = body;
            outgoing_metadata = some (E.join r.headers r.multi_value_headers);
          },
          err eof,
        )
      ]

  -- `result.FunctionError` is read before `err` is, so a nil result panics. What a failed
  -- `json.Unmarshal` leaves of the response is taken to be the zero.
  abbrev pub take_output : Option InvokeOutput × Option Error → Run Call (Unit {0})
  take_output (none, e) g = (g, panic)
  take_output (some output, e) g = elim output.function_error [
    | some _ ↦ (g, err wrapped_error)
    | none ↦ elim e [
      | some _ ↦ (g, err wrapped_error)
      | none ↦ elim (E.unmarshal output.payload) [
        | none ↦ (record g { lambda_response = some zero_response }, err wrapped_error)
        | some r ↦ take_response r g
      ]
    ]
  ]

  unfoldable pub request : Bytes → Run Call (Unit {0})
  request payload g = elim (E.marshal (proxy_request payload g)) [
    | none ↦ (g, err wrapped_error)
    | some text ↦ take_output (E.invoke backend.function_name backend.qualifier text) g
  ]

  -- The answer of a response whose status is not 200: `Set` panics on a nil map.
  abbrev pub answer_status : ProxyResponse → Call → Call × Option Response
  answer_status r g = elim g.outgoing_metadata [
    | none ↦ (g, none)
    | some outgoing ↦
        let set = assign outgoing "x-error-id" (E.error_id g.ids ∷ []) in
        (
          record g { outgoing_metadata = some set; ids = suc g.ids },
          some record {
            outgoing = some set;
            payload = [];
            error = status_err (grpc_status r.status_code);
          },
        )
  ]

  -- A nil response panics.
  unfoldable pub response : Call → Call × Option Response
  response g = elim g.lambda_response [
    | none ↦ (g, none)
    | some r ↦
        if eqb r.status_code 200
        then (
          g,
          some record {
            outgoing = g.outgoing_metadata;
            payload = g.response_body;
            error = some eof;
          },
        )
        else answer_status r g
  ]

  abbrev pub lambda_backend : MethodBackend Call
  lambda_backend = record { begin = begin; request = request; response = response }
