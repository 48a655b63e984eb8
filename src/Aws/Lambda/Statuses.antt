-- ===== src/Aws/Lambda/Statuses.antt =====
-- What the statuses of the answers of a Lambda function become.
use cruiser.Base.{
  ℕ, suc, true, false, [], ◌∷◌, none, some, eqb, assign, ◌≡◌, refl, ap, ◌∙◌, sym, arith, is_some,
  Option-cases, inl, inr,
}
use mathlib.Core.Bool.{true≢false}
use cruiser.Proto.{LambdaBackend}
use cruiser.Server.Grpc.{Metadata, grpc_send_from}
use cruiser.Server.Grpc.Sending.{Sent, recorder, Answer, answered, grpc_send_from_runs_on}
use cruiser.Aws.Lambda.{
  ProxyResponse, LambdaEnv, Call, grpc_status, status_err, response, lambda_backend,
}

module _ (E : LambdaEnv) (backend : LambdaBackend) where
  -- A call that has an answer with the status, and its metadata.
  abbrev pub HasStatus : ℕ → Call → Type 0
  HasStatus n g =
      (r : ProxyResponse) × (g.lambda_response ≡ some r)
      × (r.status_code ≡ n)
      × (is_some g.outgoing_metadata ≡ true)

  abbrev pub identified : Metadata → Call → Metadata
  identified md g = assign md "x-error-id" (E.error_id g.ids ∷ [])

  abbrev pub with_error_id : Metadata → Call → Call
  with_error_id md g = record g { outgoing_metadata = some (identified md g); ids = suc g.ids }

  response-status :
      (g : Call) (r : ProxyResponse) (md : Metadata)
      → g.lambda_response ≡ some r
      → eqb r.status_code 200 ≡ false
      → g.outgoing_metadata ≡ some md
      → response E backend g ≡ (
        with_error_id md g,
        some record {
          outgoing = some (identified md g);
          payload = [];
          error = status_err (grpc_status r.status_code);
        },
      )
  unfolding response
  response-status g r md e n f = ground arith

  response-gone :
      (g : Call)
      → HasStatus 410 g
      → (h : Call) × (answer : Answer) × (response E backend g ≡ (h, some (answered answer none)))
        × HasStatus 410 h
  unfolding response
  response-gone g (r, e, n, m) = elim (Option-cases g.outgoing_metadata) [
    | inl f ↦ absurd (true≢false (sym m ∙ ap is_some f))
    | inr (md, f) ↦ (
      with_error_id md g,
      (some (identified md g), []),
      response-status g r md e (rw n refl) f
          ∙ ap
              (λ n. (
                with_error_id md g,
                some record {
                  outgoing = some (identified md g);
                  payload = [];
                  error = status_err (grpc_status n);
                },
              ))
              n,
      (r, e, n, refl),
    )
  ]

  -- If the function answers with the status 410 then the flow of the responses does not end: each
  -- iteration sends an empty frame, and no error.
  pub gone_runs_on :
      (fuel : ℕ) (g : Call) (t : Sent)
      → HasStatus 410 g
      → grpc_send_from (lambda_backend E backend) recorder fuel (g, t) ≡ none
  gone_runs_on fuel g t h =
      grpc_send_from_runs_on (lambda_backend E backend) (HasStatus 410) response-gone fuel g t h
