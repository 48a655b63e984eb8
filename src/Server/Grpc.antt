-- ===== src/Server/Grpc.antt =====
-- pkg/server/grpc.go: the two flows of a gRPC call, and the handler that waits for both; and
-- pkg/server/grpc_codec.go.
pub mod Receiving
pub mod Sending
pub mod Handling
pub mod Flows
pub mod Keeping
pub mod Leaking
pub mod Goroutines
mod Tests
use cruiser.Base.{
  ℕ, suc, zero, String, Bool, true, false, List, [], ◌∷◌, Option, none, some, Dict, Outcome, ok,
  err, panic, Error, eof, status, wrapped, other, is_eof, if◌then◌else◌,
}
use cruiser.Base.Run.{Run, pure, fail, ◌>>=◌, ◌>>◌}

abbrev pub Bytes : Type 0
Bytes = List ℕ

abbrev pub Metadata : Type 0
Metadata = Dict (List String)

-- What `Response` returns.
pub record Response : Type 0 where
  pub outgoing : Option Metadata
  pub payload : Bytes
  pub error : Option Error

-- The interface `GrpcMethodBackend`, of backends with the state `S`; `End` is given no part in
-- what the call returns. `response` gives no response when it panics.
pub record MethodBackend (S : Type 0) : Type 0 where
  pub begin : Metadata → Run S (Unit {0})
  pub request : Bytes → Run S (Unit {0})
  pub response : S → S × Option Response

-- What is used of the stream to send: `SetHeader` and `SendMsg`, with the error or `none`.
pub record ServerStream (T : Type 0) : Type 0 where
  pub set_header : Metadata → T → T × Option Error
  pub send_msg : Bytes → T → T × Option Error

-- `codes.Internal`
abbrev pub internal : ℕ
internal = 13

-- Whether `status.FromError` finds a status.
abbrev pub has_status : Error → Bool
has_status (status _ _) = true
has_status (wrapped _ e) = has_status e
has_status _ = false

-- The text of the error is not modelled.
abbrev pub wrap_grpc_error : Error → Error
wrap_grpc_error e = if has_status e then e else status internal "Internal error"

module _ {S : Type 0} (B : MethodBackend S) where
  -- What follows a call of `Request`.
  abbrev pub after_request : S × Outcome (Unit {0}) → Run S (Unit {0}) → S × Outcome (Unit {0})
  after_request (s, ok _) rest = rest s
  after_request (s, err e) rest = (s, if is_eof e then ok tt else err (wrap_grpc_error e))
  after_request (s, panic) rest = (s, panic)

  -- The loop over the frames that the stream still has, until its `RecvMsg` fails with `ending`.
  unfoldable pub receive_frames : List Bytes → Error → Run S (Unit {0})
  receive_frames [] ending s = (s, if is_eof ending then ok tt else err ending)
  receive_frames (frame ∷ frames) ending s =
      after_request (B.request frame s) (receive_frames frames ending)

  abbrev pub after_begin : S × Outcome (Unit {0}) → Run S (Unit {0}) → S × Outcome (Unit {0})
  after_begin (s, ok _) rest = rest s
  after_begin (s, err e) rest = (s, err (wrap_grpc_error e))
  after_begin (s, panic) rest = (s, panic)

  unfoldable pub grpc_receive_from : Option Metadata → List Bytes → Error → Run S (Unit {0})
  grpc_receive_from none frames ending s = receive_frames frames ending s
  grpc_receive_from (some incoming) frames ending s =
      after_begin (B.begin incoming s) (receive_frames frames ending)

module _ {S T : Type 0} (B : MethodBackend S) (stream : ServerStream T) where
  abbrev pub given : T → S × Option Response → (S × T) × Outcome Response
  given t (s, none) = ((s, t), panic)
  given t (s, some r) = ((s, t), ok r)

  unfoldable pub respond : Run (S × T) Response
  respond (s, t) = given t (B.response s)

  -- An error of the stream is one of the code `Internal`; its text is not modelled.
  abbrev sent : S → T × Option Error → (S × T) × Outcome (Unit {0})
  sent s (t, none) = ((s, t), ok tt)
  sent s (t, some _) = ((s, t), err (status internal "stream"))

  abbrev set_header : Option Metadata → Run (S × T) (Unit {0})
  set_header none (s, t) = ((s, t), ok tt)
  set_header (some outgoing) (s, t) = sent s (stream.set_header outgoing t)

  abbrev send_msg : Bytes → Run (S × T) (Unit {0})
  send_msg payload (s, t) = sent s (stream.send_msg payload t)

  -- `err != nil && err != io.EOF`
  abbrev check_error : Option Error → Run (S × T) (Unit {0})
  check_error none = pure tt
  check_error (some eof) = pure tt
  check_error (some e) = fail (wrap_grpc_error e)

  -- An iteration, with whether it is the last.
  unfoldable pub send_frame : Bool → Run (S × T) Bool
  unfolding respond
  send_frame first = respond >>= λ r.
      set_header (if first then r.outgoing else none)
      >> check_error r.error
      >> send_msg r.payload
      >> pure (elim r.error [ none ↦ false | some e ↦ is_eof e ])

  abbrev pub next :
      (S × T) × Outcome Bool
      → (S × T → Option ((S × T) × Outcome (Unit {0})))
      → Option ((S × T) × Outcome (Unit {0}))
  next (s, ok true) rest = some (s, ok tt)
  next (s, ok false) rest = rest s
  next (s, err e) rest = some (s, err e)
  next (s, panic) rest = some (s, panic)

  -- The loop, of as many iterations as there is fuel; `none` is a loop that is still running.
  unfoldable pub send_frames : ℕ → Bool → S × T → Option ((S × T) × Outcome (Unit {0}))
  send_frames zero first s = none
  send_frames (suc fuel) first s = next (send_frame first s) (send_frames fuel false)

  abbrev pub grpc_send_from : ℕ → S × T → Option ((S × T) × Outcome (Unit {0}))
  grpc_send_from fuel = send_frames fuel true

-- The channel of a flow: the flow is still running, it has its result to send, the channel is to
-- be closed, or the handler has set its variable to nil.
pub data FlowChannel : Type 0 where
  running : FlowChannel
  result : Option Error → FlowChannel
  closing : FlowChannel
  nil_channel : FlowChannel

pub data Side : Type 0 where
  receiving sending : Side

-- What a receive on a channel gives, and what is then in the variable; `none` if it blocks.
pub data Received : Type 0 where
  blocks : Received
  value : Option Error → FlowChannel → Received
  is_closed : Received

abbrev pub receive : FlowChannel → Received
receive running = blocks
receive (result r) = value r closing
receive closing = is_closed
receive nil_channel = blocks

-- What a `select` is to be followed by.
pub data Selected : Type 0 where
  waits : Selected
  returns : Error → Selected
  goes_on : FlowChannel → Selected

abbrev pub selected : Received → Selected
selected blocks = waits
selected (value none rest) = goes_on rest
selected (value (some e) rest) = returns e
selected is_closed = goes_on nil_channel

-- The loop of `Handle`, with `n` iterations left. The list says which case each `select` takes.
-- It gives no result if a `select` has to wait, or the list is at its end.
unfoldable pub handle_flows : ℕ → List Side → FlowChannel → FlowChannel → Option (Option Error)
handle_flows zero picks r s = some none
handle_flows (suc n) [] r s = none
handle_flows (suc n) (receiving ∷ picks) r s = elim (selected (receive r)) [
  | waits ↦ none
  | returns e ↦ some (some e)
  | goes_on r' ↦ handle_flows n picks r' s
]
handle_flows (suc n) (sending ∷ picks) r s = elim (selected (receive s)) [
  | waits ↦ none
  | returns e ↦ some (some e)
  | goes_on s' ↦ handle_flows n picks r s'
]

-- `Handle`, from the two channels that the flows were given.
unfoldable pub handle : List Side → FlowChannel → FlowChannel → Option (Option Error)
unfolding handle_flows
handle = handle_flows 4
