-- ===== src/Aws/Lambda/Racing.antt =====
-- The two flows of a call of a Lambda function, in every interleaving.
use cruiser.Base.{
  Bool, true, List, Option, none, panic, Error, is_some, ◌≡◌, refl, ap, arith, ◌⊎◌, inl, inr,
  Option-cases,
}
use cruiser.Proto.{LambdaBackend}
use cruiser.Server.Grpc.{Bytes, Metadata, ServerStream, send_frame, respond}
use cruiser.Server.Grpc.Keeping.{send_frame-keeps}
use cruiser.Server.Grpc.Flows.{
  to_begin, Sender, sends, sent, Flows, on_sent, Step, begins_without, begins, requests, ends,
  responds, Steps, here, next,
}
use cruiser.Aws.Lambda.{
  InvokeOutput, LambdaEnv, Call, new_call, proxy_request, take_output, request, response,
  lambda_backend,
}

module _ (E : LambdaEnv) (backend : LambdaBackend) where
  abbrev answered_by : Call → Bool
  answered_by g = is_some g.lambda_response

  take_output-answered :
      (out : Option InvokeOutput × Option Error) (g : Call)
      → is_some g.lambda_response ≡ true
      → is_some (take_output E backend out g).0.lambda_response ≡ true
  take_output-answered out g h = ground arith

  request-answered :
      (frame : Bytes) (g : Call)
      → is_some g.lambda_response ≡ true
      → is_some (request E backend frame g).0.lambda_response ≡ true
  unfolding request
  request-answered frame g h = elim (Option-cases (E.marshal (proxy_request E backend frame g))) [
    | inl e ↦ rw (e, is_some) h
    | inr (body, e) ↦
        rw (e, is_some)
          (take_output-answered (E.invoke backend.function_name backend.qualifier body) g h)
  ]

  response-keeps :
      (g : Call)
      → is_some g.lambda_response ≡ true
      → is_some (response E backend g).0.lambda_response ≡ true
  unfolding response
  response-keeps g h = ground arith

  response-before : (g : Call) → g.lambda_response ≡ none → response E backend g ≡ (g, none)
  unfolding response
  response-before g h = rw h refl

  module _ {T : Type 0} (stream : ServerStream T) where
    send_frame-before :
        (first : Bool) (g : Call) (t : T)
        → g.lambda_response ≡ none
        → (send_frame (lambda_backend E backend) stream first (g, t)).1 ≡ panic
    unfolding send_frame respond
    send_frame-before first g t h = rw (response-before g h) refl

    -- Of the flow of the responses and the backend: the flow is to start, or it has panicked, or the
    -- function has answered.
    abbrev pub InOrder : Sender → Call → Type 0
    InOrder sender g =
        (sender ≡ sends true) ⊎ (sender ≡ sent panic) ⊎ (is_some g.lambda_response ≡ true)

    -- A step of the other flow, which takes no answer back.
    request-InOrder :
        (sender : Sender) (g h : Call)
        → (is_some g.lambda_response ≡ true → is_some h.lambda_response ≡ true)
        → InOrder sender g
        → InOrder sender h
    request-InOrder sender g h keep (inl p) = inl p
    request-InOrder sender g h keep (inr (inl p)) = inr (inl p)
    request-InOrder sender g h keep (inr (inr p)) = inr (inr (keep p))

    response-InOrder :
        (first : Bool) (g : Call) (t : T)
        → InOrder
            (on_sent (send_frame (lambda_backend E backend) stream first (g, t)).1)
            (send_frame (lambda_backend E backend) stream first (g, t)).0.0
    response-InOrder first g t = elim (Option-cases g.lambda_response) [
      | inl h ↦ inr (inl (ap on_sent (send_frame-before first g t h)))
      | inr (r, h) ↦ inr (
          inr (
            send_frame-keeps (lambda_backend E backend) stream
              (λ c. is_some c.lambda_response ≡ true) first g t (response-keeps g (ap is_some h))))
    ]

    module _ (ending : Error) where
      step-InOrder :
          {f g : Flows Call T}
          → Step (lambda_backend E backend) stream ending f g
          → InOrder f.sender f.backend
          → InOrder g.sender g.backend
      step-InOrder (begins_without frames e) o = o
      step-InOrder (begins incoming frames e) o = o
      step-InOrder {f} (requests frame frames e) o =
          request-InOrder f.sender f.backend (request E backend frame f.backend).0
            (request-answered frame f.backend) o
      step-InOrder (ends e) o = o
      step-InOrder {f} (responds first e) o = response-InOrder first f.backend f.stream

      -- In whatever order the calls of the two flows of a call come, of a Lambda function's
      -- backend as the factory makes it, at any time the flow of the responses has not started,
      -- or has panicked, or the function has answered a request: nothing that it has done without
      -- a panic came before the answer.
      pub responses_follow_answer :
          (t : T) (incoming : Option Metadata) (frames : List Bytes) (f : Flows Call T)
          → Steps
              (lambda_backend E backend)
              stream
              ending
              (record {
                backend = new_call;
                stream = t;
                receiver = to_begin incoming frames;
                sender = sends true;
              })
              f
          → InOrder f.sender f.backend
      responses_follow_answer t incoming frames f here = inl refl
      responses_follow_answer t incoming frames f (next s l) =
          step-InOrder l (responses_follow_answer t incoming frames _ s)
