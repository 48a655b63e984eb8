-- ===== src/Aws/Provider.antt =====
-- pkg/providers/aws/provider.go: what the router asks of the provider.
use cruiser.Base.{Option, none, some}
use cruiser.Proto.{Handler, no_backend, aws_lambda, LambdaBackend}
use cruiser.Server.Router.{BackendProvider, aws_backend_provider}

-- `grpc` and `http` are `lambda.NewGrpcBackend` and `lambda.NewHttpBackend` on the client.
module _ {H : Type 0} (grpc http : LambdaBackend → H) where
  -- A handler without a backend is logged with a panic.
  abbrev pub to_grpc_backend : Handler → Option H
  to_grpc_backend no_backend = none
  to_grpc_backend (aws_lambda backend) = some (grpc backend)

  abbrev pub to_http_backend : Handler → Option H
  to_http_backend no_backend = none
  to_http_backend (aws_lambda backend) = some (http backend)

  abbrev pub aws_provider : BackendProvider H
  aws_provider = record {
    backend_provider_key = aws_backend_provider;
    to_grpc_backend = to_grpc_backend;
    to_http_backend = to_http_backend;
  }
