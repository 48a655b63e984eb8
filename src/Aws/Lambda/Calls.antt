-- ===== src/Aws/Lambda/Calls.antt =====
-- A gRPC call whose method backend invokes a Lambda function.
use cruiser.Base.{ℕ, suc, List, ◌∷◌, Option, none, some, panic, Error, ◌≡◌, refl, ap, ◌∙◌, arith}
use cruiser.Proto.{LambdaBackend}
use cruiser.Server.Grpc.{
  Bytes, Metadata, receive_frames, grpc_receive_from, grpc_send_from, after_request, send_frames,
  send_frame,
}
use cruiser.Server.Grpc.Sending.{Sent, recorder}
use cruiser.Aws.Lambda.{
  ProxyResponse, InvokeOutput, LambdaEnv, Call, new_call, proxy_request, take_output, request,
  response, lambda_backend,
}

module _ (E : LambdaEnv) (backend : LambdaBackend) where
  -- A call that has begun, with the metadata that came with it, if any.
  abbrev pub begun : Option Metadata → Call
  begun incoming = record new_call { incoming_metadata = incoming }

  abbrev pub invoked : Option Metadata → Bytes → Option (Option InvokeOutput × Option Error)
  invoked incoming frame = elim (E.marshal (proxy_request E backend frame (begun incoming))) [
    | none ↦ none
    | some text ↦ some (E.invoke backend.function_name backend.qualifier text)
  ]

  receive-first :
      (incoming : Option Metadata) (frame : Bytes) (frames : List Bytes) (ending : Error)
      → grpc_receive_from (lambda_backend E backend) incoming (frame ∷ frames) ending new_call
        ≡ receive_frames (lambda_backend E backend) (frame ∷ frames) ending (begun incoming)
  unfolding grpc_receive_from
  receive-first none frame frames ending = refl
  receive-first (some m) frame frames ending = refl

  request-invoked :
      (incoming : Option Metadata) (frame : Bytes) {out : Option InvokeOutput × Option Error}
      → invoked incoming frame ≡ some out
      → request E backend frame (begun incoming) ≡ take_output E backend out (begun incoming)
  unfolding request
  request-invoked incoming frame h = ground arith

  receive_frames-request :
      (frame : Bytes) (frames : List Bytes) (ending : Error) (g : Call)
      → receive_frames (lambda_backend E backend) (frame ∷ frames) ending g
        ≡ after_request
            (lambda_backend E backend)
            (request E backend frame g)
            (receive_frames (lambda_backend E backend) frames ending)
  unfolding receive_frames
  receive_frames-request frame frames ending g = refl

  -- The state after an invocation whose response is taken.
  abbrev pub replied : Option Metadata → ProxyResponse → Bytes → Call
  replied incoming r body = record (begun incoming) {
    lambda_response = some r;
    response_body = body;
    outgoing_metadata = some (E.join r.headers r.multi_value_headers);
  }

  -- If the call of Lambda gives an error, and so no result, then the flow of the requests panics.
  pub invoke_error_panics :
      (incoming : Option Metadata) (frame : Bytes) (frames : List Bytes) (ending e : Error)
      → invoked incoming frame ≡ some (none, some e)
      → grpc_receive_from (lambda_backend E backend) incoming (frame ∷ frames) ending new_call
        ≡ (begun incoming, panic)
  invoke_error_panics incoming frame frames ending e i =
      receive-first incoming frame frames ending
      ∙ receive_frames-request frame frames ending (begun incoming)
      ∙ ap
          (λ q.
            after_request (lambda_backend E backend) q
              (receive_frames (lambda_backend E backend) frames ending))
          (request-invoked incoming frame i)

  response-before :
      (incoming : Option Metadata) → response E backend (begun incoming) ≡ (begun incoming, none)
  unfolding response
  response-before incoming = refl

  -- If the flow of the responses asks for one before the function has answered then it panics.
  pub early_response_panics :
      (incoming : Option Metadata) (fuel : ℕ) (t : Sent)
      → grpc_send_from (lambda_backend E backend) recorder (suc fuel) (begun incoming, t)
        ≡ some ((begun incoming, t), panic)
  unfolding send_frames send_frame response
  early_response_panics incoming fuel t = refl
