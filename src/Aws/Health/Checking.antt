-- ===== src/Aws/Health/Checking.antt =====
-- What a check does, whatever the function answers.
use cruiser.Base.{[], ◌∷◌, ◌++◌, Option, none, some, Outcome, ok, panic, Error, ◌≡◌, refl}
use cruiser.Proto.{LambdaBackend, Handler, no_backend, aws_lambda}
use cruiser.Aws.Lambda.{InvokeOutput}
use cruiser.Aws.Health.{
  HealthEnv, ServingStatus, unknown, serving, not_serving, Invocations, check_request, decoded,
  answer_bytes, on_status, take_result, do_healthcheck, check_handler,
}

-- How a check ends: it panics if Lambda gives no result.
abbrev pub ending : Option InvokeOutput → Outcome (Unit {0})
ending none = panic
ending (some _) = ok tt

module _ (E : HealthEnv) where
  -- The calls of Lambda that a handler needs.
  abbrev pub calls : Handler → Invocations
  calls no_backend = []
  calls (aws_lambda backend) =
      (backend.function_name, backend.qualifier, E.marshal (check_request E)) ∷ []

  on_status-ok : (s : ServingStatus) (log : Invocations) → on_status E s log ≡ (log, ok tt)
  unfolding on_status
  on_status-ok unknown log = refl
  on_status-ok serving log = refl
  on_status-ok not_serving log = refl

  take_result-ending :
      (result : Option InvokeOutput) (e : Option Error) (log : Invocations)
      → take_result E (result, e) log ≡ (log, ending result)
  unfolding take_result
  take_result-ending none e log = refl
  take_result-ending (some output) e log =
      on_status-ok (E.status_of (answer_bytes E (decoded E output.payload))) log

  do_healthcheck-ending :
      (backend : LambdaBackend) (result : Option InvokeOutput) (e : Option Error)
      (log : Invocations)
      → do_healthcheck E (result, e) backend log
        ≡ (log ++ calls (aws_lambda backend), ending result)
  unfolding do_healthcheck
  do_healthcheck-ending backend result e log = take_result-ending result e _

  -- The check of a handler of Lambda invokes its function once, with the same request for all. It
  -- panics if and only if there is no result; what the answer says, that it is serving or not, and
  -- the error make no difference, nor does it matter whether the backend asks for health checks.
  pub check_handler_effect :
      (backend : LambdaBackend) (result : Option InvokeOutput) (e : Option Error)
      (log : Invocations)
      → check_handler E (result, e) (aws_lambda backend) log ≡ (
        log ++ (backend.function_name, backend.qualifier, E.marshal (check_request E)) ∷ [],
        ending result,
      )
  unfolding check_handler
  check_handler_effect backend result e log = do_healthcheck-ending backend result e log
