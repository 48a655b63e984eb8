-- ===== src/Server/Grpc/Flows.antt =====
-- pkg/server/grpc.go: the two flows of a call at work on one backend, in every interleaving. A step
-- is one call of the backend, with what the flow does until its next; a call is not interrupted.
use cruiser.Base.{
  Bool, true, false, List, [], ◌∷◌, Option, none, some, Outcome, ok, err, panic, Error, is_eof,
  if◌then◌else◌, ◌≡◌,
}
use cruiser.Server.Grpc.{Bytes, Metadata, MethodBackend, ServerStream, wrap_grpc_error, send_frame}

-- The flow of the requests: before `Begin`, with the metadata and the frames; in the loop, with the
-- frames that are left; or ended.
pub data Receiver : Type 0 where
  to_begin : Option Metadata → List Bytes → Receiver
  receives : (left : List Bytes) → Receiver
  received : Outcome (Unit {0}) → Receiver

-- The flow of the responses: in the loop, with whether it has sent none yet; or ended.
pub data Sender : Type 0 where
  sends : (first : Bool) → Sender
  sent : Outcome (Unit {0}) → Sender

pub record Flows (S T : Type 0) : Type 0 where
  pub backend : S
  pub stream : T
  pub receiver : Receiver
  pub sender : Sender

-- What follows `Begin`, `Request` and an iteration that sends.
abbrev pub on_begin : Outcome (Unit {0}) → List Bytes → Receiver
on_begin (ok _) frames = receives frames
on_begin (err e) frames = received (err (wrap_grpc_error e))
on_begin panic frames = received panic

abbrev pub on_request : Outcome (Unit {0}) → List Bytes → Receiver
on_request (ok _) frames = receives frames
on_request (err e) frames = received (if is_eof e then ok tt else err (wrap_grpc_error e))
on_request panic frames = received panic

abbrev pub on_sent : Outcome Bool → Sender
on_sent (ok true) = sent (ok tt)
on_sent (ok false) = sends false
on_sent (err e) = sent (err e)
on_sent panic = sent panic

module _ {S T : Type 0} (B : MethodBackend S) (server_stream : ServerStream T)
    (ending : Error) where
  pub data Step : Flows S T → Flows S T → Type 0 where
    begins_without :
        {f : Flows S T} (frames : List Bytes)
        → f.receiver ≡ to_begin none frames
        → Step f (record f { receiver = receives frames })
    begins :
        {f : Flows S T} (incoming : Metadata) (frames : List Bytes)
        → f.receiver ≡ to_begin (some incoming) frames
        → Step f (record f {
          backend = (B.begin incoming f.backend).0;
          receiver = on_begin (B.begin incoming f.backend).1 frames;
        })
    requests :
        {f : Flows S T} (frame : Bytes) (frames : List Bytes)
        → f.receiver ≡ receives (frame ∷ frames)
        → Step f (record f {
          backend = (B.request frame f.backend).0;
          receiver = on_request (B.request frame f.backend).1 frames;
        })
    -- `RecvMsg` fails with `ending`.
    ends :
        {f : Flows S T}
        → f.receiver ≡ receives []
        → Step f (record f { receiver = received (if is_eof ending then ok tt else err ending) })
    responds :
        {f : Flows S T} (first : Bool)
        → f.sender ≡ sends first
        → Step f (record f {
          backend = (send_frame B server_stream first (f.backend, f.stream)).0.0;
          stream = (send_frame B server_stream first (f.backend, f.stream)).0.1;
          sender = on_sent (send_frame B server_stream first (f.backend, f.stream)).1;
        })

  pub data Steps (f : Flows S T) : Flows S T → Type 0 where
    here : Steps f f
    next : {g h : Flows S T} → Steps f g → Step g h → Steps f h
