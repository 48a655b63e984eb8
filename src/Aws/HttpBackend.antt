-- ===== src/Aws/HttpBackend.antt =====
-- pkg/providers/aws/lambda/http_backend.go: the HTTP handler that invokes a Lambda function, on the
-- response writer of net/http.
pub mod Headers
pub mod Answering
mod Tests
use cruiser.Base.{
  ℕ, String, Bool, true, false, List, [], ◌∷◌, ◌++◌, Option, none, some, ltb, eqb, ◌||◌, ◌&&◌, not,
  Dict, index, assign, Outcome, ok, err, panic, Error, other, if◌then◌else◌,
}
use cruiser.Proto.{LambdaBackend}
use cruiser.Server.Grpc.{Bytes, Metadata}
use cruiser.Aws.Lambda.{ProxyResponse, InvokeOutput}

-- What is used of `http.Request`; reading the body may fail.
pub record HttpRequest : Type 0 where
  pub method : String
  pub path : String
  pub header : Metadata
  pub query : Metadata
  pub body : Outcome String

-- What is used of the libraries. `marshal` is given the request with its body, `canonical` is
-- `CanonicalHeaderKey`, and `error_text` is the body that names an identifier.
pub record HttpEnv : Type 0 where
  pub marshal : HttpRequest → String → Option String
  pub unmarshal : String → Option ProxyResponse
  pub decode_string : String → Option Bytes
  pub bytes_of : String → Bytes
  pub invoke : String → String → String → Option InvokeOutput × Option Error
  pub canonical : String → String
  pub new_id : String
  pub error_text : String → Bytes

-- `http.ResponseWriter`: the headers, the status with the headers that were sent with it, the body
-- that was written, and whether it answers a HEAD request, for which no body is sent.
pub record Writer : Type 0 where
  pub header : Metadata
  pub sent : Option (ℕ × Metadata)
  pub body : Bytes
  pub is_head : Bool

-- A status of one hundred is sent on its own, unless it switches protocols.
abbrev pub is_informational : ℕ → Bool
is_informational n = ltb n 200 && not (eqb n 101)

-- `WriteHeader`: only the first has an effect, and it panics on what is no status.
unfoldable pub write_header : ℕ → Writer → Option Writer
write_header n w = elim w.sent [
  | some _ ↦ some w
  | none ↦
      if ltb n 100 || ltb 999 n
      then none
      else if is_informational n
      then some w
      else some (record w { sent = some (n, w.header) })
]

abbrev pub implied_header : Writer → ℕ × Metadata
implied_header w = elim w.sent [ some sent ↦ sent | none ↦ (200, w.header) ]

abbrev pub allows_body : ℕ → Bool
allows_body n = not (ltb n 200 || (eqb n 204 || eqb n 304))

-- `Write`, on a connection that does not break; it sends the status 200 if none was sent, and does
-- not write where the status has no body.
unfoldable pub write : Bytes → Writer → Writer
write b w =
    let sent = implied_header w in
    record w {
      sent = some sent;
      body = if allows_body sent.0 && not w.is_head then w.body ++ b else w.body;
    }

-- `Header.Add`
abbrev pub add_header : (String → String) → String → String → Metadata → Metadata
add_header canonical key val h =
    assign h (canonical key)
      (elim (index h (canonical key)) [ none ↦ val ∷ [] | some vals ↦ vals ++ val ∷ [] ])

-- The loops over the two maps of headers, in the order of the lists.
abbrev pub set_headers : Metadata → Metadata → Metadata
set_headers [] h = h
set_headers ((key, vals) ∷ rest) h = set_headers rest (assign h key vals)

abbrev pub add_headers : (String → String) → Dict String → Metadata → Metadata
add_headers canonical [] h = h
add_headers canonical ((key, val) ∷ rest) h =
    add_headers canonical rest (add_header canonical key val h)

module _ (E : HttpEnv) (backend : LambdaBackend) where
  -- `wrapHttpError`; `none` is a panic.
  unfoldable pub wrap_http_error : Writer → Option Writer
  wrap_http_error w =
      elim (write_header 500
        (record w { header = add_header E.canonical "x-error-id" E.new_id w.header })) [
          | none ↦ none
          | some v ↦ some (write (E.error_text E.new_id) v)
        ]

  -- From `json.Unmarshal` on.
  unfoldable pub write_response : ProxyResponse → Writer → Option Writer
  write_response r w =
      elim (write_header r.status_code (record w {
        header = add_headers E.canonical r.headers (set_headers r.multi_value_headers w.header);
      })) [
        | none ↦ none
        | some v ↦
            if r.is_base64_encoded
            then elim (E.decode_string r.body) [
              | none ↦ wrap_http_error v
              | some b ↦ some (write b v)
            ]
            else some (write (E.bytes_of r.body) v)
      ]

  -- A nil result panics before the error is read.
  abbrev pub write_output : Option InvokeOutput × Option Error → Writer → Option Writer
  write_output (none, e) w = none
  write_output (some output, e) w = elim output.function_error [
    | some _ ↦ wrap_http_error w
    | none ↦ elim e [
      | some _ ↦ wrap_http_error w
      | none ↦ elim (E.unmarshal output.payload) [
        | none ↦ wrap_http_error w
        | some r ↦ write_response r w
      ]
    ]
  ]

  -- `ServeHTTP`; `none` is a panic.
  unfoldable pub serve_http : HttpRequest → Writer → Option Writer
  serve_http request w = elim request.body [
    | err _ ↦ wrap_http_error w
    | panic ↦ none
    | ok body ↦ elim (E.marshal request body) [
      | none ↦ wrap_http_error w
      | some text ↦ write_output (E.invoke backend.function_name backend.qualifier text) w
    ]
  ]
