-- ===== src/Base/Outcomes.antt =====
-- How a Go call ends: with a value, with an error, or by a panic; and the program's error values.
use Prim.Native.Nat.{ℕ}
use Prim.Native.String.{String}
use mathlib.Core.Bool.{Bool, true, false}
use mathlib.Core.Path.{◌≡◌, refl}
use mathlib.Core.Logic.{◌⊎◌, inl, inr}

-- Sentinels of pkg/state/error.go, pkg/server/error.go and cmd/error.go, the sentinels of the
-- standard library that the code compares with, gRPC statuses, and any other error by its text.
pub data Error : Type 0 where
  no_parent_found : Error
  empty_listener_address empty_http2_tls_config empty_listener : Error
  non_empty_listener non_empty_http_server empty_http_handler : Error
  no_backend_provider no_backend_found : Error
  empty_aws_tfstate_bucket invalid_tfstate_source_selector : Error
  eof server_closed deadline_exceeded context_canceled : Error
  status : ℕ → String → Error
  -- `fmt.Errorf("…%w", err)` and its kind, which `errors.Is` and `errors.As` look into
  wrapped : String → Error → Error
  other : String → Error

-- `errors.Is(err, io.EOF)`
abbrev pub is_eof : Error → Bool
is_eof eof = true
is_eof (wrapped _ e) = is_eof e
is_eof _ = false

pub data Outcome {ℓ} (A : Type ℓ) : Type ℓ where
  ok : A → Outcome A
  err : Error → Outcome A
  panic : Outcome A

pub Outcome-cases {ℓ} :
    {A : Type ℓ} (o : Outcome A)
    → ((a : A) × (o ≡ ok a)) ⊎ ((e : Error) × (o ≡ err e)) ⊎ (o ≡ panic)
Outcome-cases (ok a) = inl (a, refl)
Outcome-cases (err e) = inr (inl (e, refl))
Outcome-cases panic = inr (inr refl)
