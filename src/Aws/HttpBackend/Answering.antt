-- ===== src/Aws/HttpBackend/Answering.antt =====
-- What a client is sent by the HTTP backend.
use cruiser.Base.{
  ◌==◌, ℕ, Bool, [], Option, none, some, ltb, ◌||◌, ◌&&◌, not, Error, if◌then◌else◌, ◌≡◌, arith,
}
use cruiser.Proto.{LambdaBackend}
use cruiser.Server.Grpc.{Bytes, Metadata}
use cruiser.Aws.Lambda.{ProxyResponse, InvokeOutput}
use cruiser.Aws.HttpBackend.{
  HttpRequest, HttpEnv, Writer, is_informational, add_headers, set_headers, wrap_http_error,
  write_output,
}

-- The writer of a request, of which nothing was used.
abbrev pub new_writer : HttpRequest → Writer
new_writer request = record {
  header = [];
  sent = none;
  body = [];
  is_head = request.method == "HEAD";
}

-- A writer of which nothing was used, by whether it answers a HEAD request.
abbrev unused : Bool → Writer
unused head = record { header = []; sent = none; body = []; is_head = head }

-- A status of an answer that is not informational.
abbrev pub is_final : ℕ → Bool
is_final n = not (ltb n 100 || ltb 999 n) && not (is_informational n)

module _ (E : HttpEnv) (backend : LambdaBackend) where
  -- What the function answers the request with: nothing if the request could not be made of it, if
  -- the call failed with a result, or if the answer cannot be read.
  abbrev pub answer_to : Option InvokeOutput × Option Error → Option ProxyResponse
  answer_to (some output, none) = elim output.function_error [
    | some _ ↦ none
    | none ↦ E.unmarshal output.payload
  ]
  answer_to (some output, some _) = none
  answer_to (none, _) = none

  abbrev pub decoded : ProxyResponse → Option Bytes
  decoded r = if r.is_base64_encoded then E.decode_string r.body else some (E.bytes_of r.body)

  abbrev pub headers_of : ProxyResponse → Metadata
  headers_of r = add_headers E.canonical r.headers (set_headers r.multi_value_headers [])

  write_output-none :
      (output : InvokeOutput) (e : Option Error) (w : Writer)
      → answer_to (some output, e) ≡ none
      → write_output E backend (some output, e) w ≡ wrap_http_error E backend w
  write_output-none output none w h = ground arith
  write_output-none output (some e) w h = ground arith
