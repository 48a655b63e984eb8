-- ===== src/Server/Grpc/Sending.antt =====
-- What the flow of the responses sends, and when it ends.
use cruiser.Base.{
  ◌<◌, arith, ℕ, zero, suc, Bool, true, false, List, [], ◌∷◌, ◌++◌, map, Option, none, some, ok,
  Error, eof, ◌≡◌, refl, length, ap, ◌∙◌,
}
use mathlib.Core.List.{append_assoc}
use cruiser.Server.Grpc.{
  Bytes, Metadata, Response, MethodBackend, ServerStream, respond, next, send_frame, send_frames,
  grpc_send_from,
}

-- A stream that takes all that is sent, and keeps it.
pub record Sent : Type 0 where
  pub headers : List Metadata
  pub payloads : List Bytes

abbrev pub recorder : ServerStream Sent
recorder = record {
  set_header = λ h t. (record t { headers = t.headers ++ h ∷ [] }, none);
  send_msg = λ p t. (record t { payloads = t.payloads ++ p ∷ [] }, none);
}

-- What a response carries: the metadata, and the payload.
abbrev pub Answer : Type 0
Answer = Option Metadata × Bytes

abbrev pub answered : Answer → Option Error → Response
answered (outgoing, payload) e = record { outgoing = outgoing; payload = payload; error = e }

abbrev pub with_header : Bool → Option Metadata → List Metadata → List Metadata
with_header false o hs = hs
with_header true none hs = hs
with_header true (some h) hs = hs ++ h ∷ []

abbrev pub first_metadata : List Answer → Answer → Option Metadata
first_metadata [] last = last.0
first_metadata (answer ∷ answers) last = answer.0

module _ {S : Type 0} (B : MethodBackend S) where
  -- From the first state to the second, the backend gives the answers, and then the last with EOF.
  abbrev pub Answers : S → List Answer → Answer → S → Type 0
  Answers s [] last u = B.response s ≡ (u, some (answered last (some eof)))
  Answers s (answer ∷ answers) last u =
      (m : S) × (B.response s ≡ (m, some (answered answer none))) × Answers m answers last u

  abbrev sending_one : Bool → Answer → Sent → Sent
  sending_one first answer t = record {
    headers = with_header first answer.0 t.headers;
    payloads = t.payloads ++ answer.1 ∷ [];
  }

  send_frame-goes_on :
      (first : Bool) (s u : S) (answer : Answer) (t : Sent)
      → B.response s ≡ (u, some (answered answer none))
      → send_frame B recorder first (s, t) ≡ ((u, sending_one first answer t), ok false)
  unfolding send_frame respond
  send_frame-goes_on false s u answer t a = rw (a, send_frame, respond) refl
  send_frame-goes_on true s u (none, p) t a = rw (a, send_frame, respond) refl
  send_frame-goes_on true s u (some h, p) t a = rw (a, send_frame, respond) refl

  send_frame-ends :
      (first : Bool) (s u : S) (answer : Answer) (t : Sent)
      → B.response s ≡ (u, some (answered answer (some eof)))
      → send_frame B recorder first (s, t) ≡ ((u, sending_one first answer t), ok true)
  unfolding send_frame respond
  send_frame-ends false s u answer t a = rw (a, send_frame, respond) refl
  send_frame-ends true s u (none, p) t a = rw (a, send_frame, respond) refl
  send_frame-ends true s u (some h, p) t a = rw (a, send_frame, respond) refl

  send_frames-Answers :
      (answers : List Answer) (last : Answer) (fuel : ℕ) (first : Bool) (s u : S) (t : Sent)
      → Answers s answers last u
      → length answers < fuel
      → send_frames B recorder fuel first (s, t)
        ≡ some (
          (
            u,
            record {
              headers = with_header first (first_metadata answers last) t.headers;
              payloads = t.payloads ++ map (λ answer. answer.1) (answers ++ last ∷ []);
            },
          ),
          ok tt,
        )
  unfolding send_frames
  send_frames-Answers answers last zero first s u t a f = ground arith
  send_frames-Answers [] last (suc fuel) first s u t a f =
      ap (λ r. next B recorder r (send_frames B recorder fuel false))
        (send_frame-ends first s u last t a)
  send_frames-Answers (answer ∷ answers) last (suc fuel) first s u t (m, a, later) f =
      ap (λ r. next B recorder r (send_frames B recorder fuel false))
        (send_frame-goes_on first s m answer t a)
      ∙ send_frames-Answers answers last fuel false m u (sending_one first answer t) later
          (omega arith)
      ∙ ap
          (λ payloads. some (
            (u, record { headers = with_header first answer.0 t.headers; payloads = payloads }),
            ok tt,
          ))
          (append_assoc t.payloads (answer.1 ∷ []) (map (λ a. a.1) (answers ++ last ∷ [])))

  send_frames-zero : (first : Bool) (s : S × Sent) → send_frames B recorder zero first s ≡ none
  unfolding send_frames
  send_frames-zero first s = refl

  send_frames-goes_on :
      (fuel : ℕ) (first : Bool) (s u : S) (answer : Answer) (t : Sent)
      → B.response s ≡ (u, some (answered answer none))
      → send_frames B recorder (suc fuel) first (s, t)
        ≡ send_frames B recorder fuel false (u, sending_one first answer t)
  unfolding send_frames
  send_frames-goes_on fuel first s u answer t a =
      ap (λ r. next B recorder r (send_frames B recorder fuel false))
        (send_frame-goes_on first s u answer t a)

  -- On a stream that takes all that is sent, if the backend gives answers and then the last one
  -- with EOF, the flow of the responses ends without an error, given as many iterations: it has
  -- sent the payload of each answer once and in order, the last one included, and the metadata of
  -- the first answer as headers, if it had some, and no others.
  pub grpc_send_from-Answers :
      (answers : List Answer) (last : Answer) (fuel : ℕ) (s u : S) (t : Sent)
      → Answers s answers last u
      → length answers < fuel
      → grpc_send_from B recorder fuel (s, t)
        ≡ some (
          (
            u,
            record {
              headers = with_header true (first_metadata answers last) t.headers;
              payloads = t.payloads ++ map (λ answer. answer.1) (answers ++ last ∷ []);
            },
          ),
          ok tt,
        )
  grpc_send_from-Answers answers last fuel s u t a f =
      send_frames-Answers answers last fuel true s u t a f

  -- A backend that keeps a property by which it answers without an error is one whose flow of
  -- responses does not end, however long it runs.
  pub grpc_send_from_runs_on :
      (P : S → Type 0)
      → ((s : S)
          → P s
          → (u : S) × (answer : Answer) × (B.response s ≡ (u, some (answered answer none))) × P u)
      → (fuel : ℕ) (s : S) (t : Sent) → P s
      → grpc_send_from B recorder fuel (s, t) ≡ none
  grpc_send_from_runs_on P always fuel s t p = runs_on fuel true s t p
    where
      runs_on :
          (fuel : ℕ) (first : Bool) (s : S) (t : Sent)
          → P s
          → send_frames B recorder fuel first (s, t) ≡ none
      runs_on zero first s t p = send_frames-zero first (s, t)
      runs_on (suc fuel) first s t p =
          let (u, answer, a, q) = always s p in
          send_frames-goes_on fuel first s u answer t a
          ∙ runs_on fuel false u (sending_one first answer t) q
