-- ===== src/Server/Grpc/Receiving.antt =====
-- What the flow of the requests comes to.
use cruiser.Base.{
  ℕ, List, [], ◌∷◌, Option, none, some, Outcome, ok, err, panic, Error, no_parent_found,
  empty_listener_address, empty_http2_tls_config, empty_listener, non_empty_listener,
  non_empty_http_server, empty_http_handler, no_backend_provider, no_backend_found,
  empty_aws_tfstate_bucket, invalid_tfstate_source_selector, eof, server_closed, deadline_exceeded,
  context_canceled, other, status, wrapped, is_some, is_eof, if◌then◌else◌, ◌≡◌, refl, ap, ◌∙◌,
  Option-cases, inl, inr,
}
use cruiser.Base.Run.{Run, for_each, and_then}
use cruiser.Server.Grpc.{
  Bytes, Metadata, MethodBackend, has_status, wrap_grpc_error, after_request, receive_frames,
  after_begin, grpc_receive_from,
}

-- The gRPC code that an error carries, itself or in what it wraps.
abbrev pub code_in : Error → Option ℕ
code_in (status code text) = some code
code_in (wrapped text e) = code_in e
code_in _ = none

-- An error as a status: as it is if it carries one, and otherwise with the code 13.
abbrev pub as_status : Error → Error
as_status e = elim (code_in e) [ some code ↦ e | none ↦ status 13 "Internal error" ]

has_status-code_in : (e : Error) → has_status e ≡ is_some (code_in e)
has_status-code_in no_parent_found = refl
has_status-code_in empty_listener_address = refl
has_status-code_in empty_http2_tls_config = refl
has_status-code_in empty_listener = refl
has_status-code_in non_empty_listener = refl
has_status-code_in non_empty_http_server = refl
has_status-code_in empty_http_handler = refl
has_status-code_in no_backend_provider = refl
has_status-code_in no_backend_found = refl
has_status-code_in empty_aws_tfstate_bucket = refl
has_status-code_in invalid_tfstate_source_selector = refl
has_status-code_in eof = refl
has_status-code_in server_closed = refl
has_status-code_in deadline_exceeded = refl
has_status-code_in context_canceled = refl
has_status-code_in (status code text) = refl
has_status-code_in (wrapped text e) = has_status-code_in e
has_status-code_in (other text) = refl

wrap_grpc_error-as_status : (e : Error) → wrap_grpc_error e ≡ as_status e
wrap_grpc_error-as_status e = elim (Option-cases (code_in e)) [
  | inl n ↦
      rw (n, as_status)
        (ap (λ b. if b then e else status 13 "Internal error")
          (has_status-code_in e ∙ ap is_some n))
  | inr (code, n) ↦
      rw (n, as_status)
        (ap (λ b. if b then e else status 13 "Internal error")
          (has_status-code_in e ∙ ap is_some n))
]

module _ {S : Type 0} (B : MethodBackend S) where
  -- How the flow ends when the requests end in `r`: an error of the stream is returned as it is,
  -- one of the backend as a status, and the end of the stream or of the backend is no error.
  abbrev pub flow_end : Error → S × Outcome (Unit {0}) → S × Outcome (Unit {0})
  flow_end ending (s, ok _) = (s, if is_eof ending then ok tt else err ending)
  flow_end ending (s, err e) = (s, if is_eof e then ok tt else err (as_status e))
  flow_end ending (s, panic) = (s, panic)

  -- The whole call, from what `Begin` comes to.
  abbrev pub begun_end : Error → List Bytes → S × Outcome (Unit {0}) → S × Outcome (Unit {0})
  begun_end ending frames (s, ok _) = flow_end ending (for_each B.request frames s)
  begun_end ending frames (s, err e) = (s, err (as_status e))
  begun_end ending frames (s, panic) = (s, panic)

  abbrev pub begin_call : Option Metadata → Run S (Unit {0})
  begin_call none s = (s, ok tt)
  begin_call (some incoming) s = B.begin incoming s

  after_request-for_each :
      (r : S × Outcome (Unit {0})) (frames : List Bytes) (ending : Error)
      → ((s : S) → receive_frames B frames ending s ≡ flow_end ending (for_each B.request frames s))
      → after_request B r (receive_frames B frames ending)
        ≡ flow_end ending (and_then r (λ _. for_each B.request frames))
  after_request-for_each (s, ok _) frames ending later = later s
  after_request-for_each (s, err e) frames ending later =
      ap (λ x. (s, if is_eof e then ok tt else err x)) (wrap_grpc_error-as_status e)
  after_request-for_each (s, panic) frames ending later = refl

  receive_frames-for_each :
      (frames : List Bytes) (ending : Error) (s : S)
      → receive_frames B frames ending s ≡ flow_end ending (for_each B.request frames s)
  unfolding receive_frames for_each
  receive_frames-for_each [] ending s = refl
  receive_frames-for_each (frame ∷ frames) ending s =
      after_request-for_each (B.request frame s) frames ending
        (receive_frames-for_each frames ending)

  after_begin-begun_end :
      (r : S × Outcome (Unit {0})) (frames : List Bytes) (ending : Error)
      → after_begin B r (receive_frames B frames ending) ≡ begun_end ending frames r
  after_begin-begun_end (s, ok _) frames ending = receive_frames-for_each frames ending s
  after_begin-begun_end (s, err e) frames ending =
      ap (λ x. (s, err x)) (wrap_grpc_error-as_status e)
  after_begin-begun_end (s, panic) frames ending = refl

  -- The flow of the requests, on a stream of any frames, calls `Begin` once and only if there are
  -- metadata, and then `Request` for each frame in their order up to the first that fails. An error
  -- of `Begin` ends it, as a status. After it, the end of the stream and a request that says EOF
  -- end the flow with no error, another error of the stream is returned as it is, and another one
  -- of a request as a status. As a status, an error that carries a gRPC code is itself, and another
  -- one has the code 13.
  pub grpc_receive_from-for_each :
      (incoming : Option Metadata) (frames : List Bytes) (ending : Error) (s : S)
      → grpc_receive_from B incoming frames ending s
        ≡ begun_end ending frames (begin_call incoming s)
  unfolding grpc_receive_from
  grpc_receive_from-for_each none frames ending s = receive_frames-for_each frames ending s
  grpc_receive_from-for_each (some incoming) frames ending s =
      after_begin-begun_end (B.begin incoming s) frames ending
