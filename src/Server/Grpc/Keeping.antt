-- ===== src/Server/Grpc/Keeping.antt =====
-- pkg/server/grpc.go: the iteration that sends works on the backend by its `Response` alone.
use cruiser.Base.{Bool, false, Option, none, some, Error, is_eof, if◌then◌else◌, arith}
use cruiser.Base.Run.{Run, pure, ◌>>=◌, ◌>>◌, and_then_keeps}
use cruiser.Server.Grpc.{
  Metadata, Response, MethodBackend, ServerStream, given, respond, sent, set_header, send_msg,
  check_error, send_frame,
}

module _ {S T : Type 0} (B : MethodBackend S) (stream : ServerStream T) (P : S → Type 0) where
  given-keeps : (t : T) (r : S × Option Response) → P r.0 → P (given B stream t r).0.0
  given-keeps t (s, none) p = p
  given-keeps t (s, some r) p = p

  sent-keeps : (s : S) (r : T × Option Error) → P s → P (sent B stream s r).0.0
  sent-keeps s (t, none) p = p
  sent-keeps s (t, some e) p = p

  set_header-keeps : (o : Option Metadata) (s : S × T) → P s.0 → P (set_header B stream o s).0.0
  set_header-keeps none (s, t) p = p
  set_header-keeps (some m) (s, t) p = sent-keeps s (stream.set_header m t) p

  check_error-keeps : (e : Option Error) (s : S × T) → P s.0 → P (check_error B stream e s).0.0
  check_error-keeps none s p = p
  check_error-keeps (some e) s p = ground arith

  abbrev Keeps : {A : Type 0} → Run (S × T) A → Type 0
  Keeps m = (x : S × T) → P x.0 → P (m x).0.0

  bind-Keeps :
      {A B : Type 0} (m : Run (S × T) A) (f : A → Run (S × T) B)
      → Keeps m
      → ((a : A) → Keeps (f a))
      → Keeps (m >>= f)
  bind-Keeps m f k l x p = and_then_keeps (λ y. P y.0) (m x) f (λ a y q. l a y q) (k x p)

  pub send_frame-keeps :
      (first : Bool) (s : S) (t : T) → P (B.response s).0 → P (send_frame B stream first (s, t)).0.0
  unfolding send_frame respond
  send_frame-keeps first s t p =
      and_then_keeps {S = S × T} (λ y. P y.0) (given B stream t (B.response s))
        (λ r.
          set_header B stream (if first then r.outgoing else none)
          >> check_error B stream r.error
          >> send_msg B stream r.payload
          >> pure (elim r.error [ none ↦ false | some e ↦ is_eof e ]))
        (λ r.
          bind-Keeps
            (set_header B stream (if first then r.outgoing else none)
              >> check_error B stream r.error
              >> send_msg B stream r.payload)
            (λ _. pure (elim r.error [ none ↦ false | some e ↦ is_eof e ]))
            (bind-Keeps
              (set_header B stream (if first then r.outgoing else none)
                >> check_error B stream r.error)
              (λ _. send_msg B stream r.payload)
              (bind-Keeps (set_header B stream (if first then r.outgoing else none))
                (λ _. check_error B stream r.error)
                (set_header-keeps (if first then r.outgoing else none))
                (λ _. check_error-keeps r.error))
              (λ _ x. sent-keeps x.0 (stream.send_msg r.payload x.1)))
            (λ _ x q. q))
        (given-keeps t (B.response s) p)
