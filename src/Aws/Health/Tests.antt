-- ===== src/Aws/Health/Tests.antt =====
-- A function whose answer says that it is not serving.
use cruiser.Base.{[], ◌∷◌, none, some, ok, ◌≡◌, refl}
use cruiser.Proto.{aws_lambda}
use cruiser.Aws.Health.{check_handler, check_request}
use cruiser.Aws.Health.Sample.{health, backend, answer}
use cruiser.Aws.Health.Checking.{check_handler_effect}

path : (check_request health).path ≡ "grpc.health.v1.Health/Check"
path = refl

check_handler_effect_example :
    check_handler health (some answer, none) (aws_lambda backend) []
    ≡ (("f", "live", "grpc.health.v1.Health/Check") ∷ [], ok tt)
check_handler_effect_example = check_handler_effect health backend (some answer) none []
