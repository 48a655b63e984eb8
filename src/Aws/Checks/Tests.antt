-- ===== src/Aws/Checks/Tests.antt =====
-- A call with one handler, up to its `select`, and until its interval has elapsed.
use cruiser.Base.{true, [], ◌∷◌, none, some, length, ok, ◌≤◌, ◌≡◌, refl, arith, ◌⊎◌}
use cruiser.Proto.{Handler, aws_lambda}
use cruiser.Aws.Health.{check_handler, do_healthcheck, take_result, on_status}
use cruiser.Aws.Health.Sample.{health, backend, answer}
use cruiser.Aws.Checks.{
  Config, new_provider, with_health_check_interval, with_health_check_parallelism, Round, ended,
  selecting, Checks, free, stopping, new_checks, first, stop, send, add, sent, receive, check,
  waited, elapsed, Steps, here, next,
}
use cruiser.Aws.Checks.Counting.{count}
use cruiser.Aws.Checks.Rounds.{round_checks_all, waiting_bound, all_at_once}
use cruiser.Aws.Checks.Blocking.{elapsed_is_last, unbuffered_checks_nothing}

abbrev config : Config
config = new_provider (with_health_check_interval 30 ∷ with_health_check_parallelism 1 ∷ [])

abbrev handler : Handler
handler = aws_lambda backend

check_ends : (check_handler health (some answer, none) handler []).1 ≡ ok tt
unfolding check_handler do_healthcheck take_result on_status
check_ends = refl

abbrev at_select : Checks
at_select = record new_checks {
  stop_made = true;
  round = selecting;
  asked = handler ∷ [];
  checked = handler ∷ [];
}

begun : Steps health config new_checks record new_checks {
  stop_made = true;
  round = Round.sending [];
  wg = 1;
  checking = handler ∷ [];
  asked = handler ∷ [];
}
begun =
    next
      (next
        (next (next here (first (handler ∷ []) refl refl refl))
          (send handler [] refl (omega arith)))
        (add [] refl))
      (receive handler [] 0 refl refl)

selects : Steps health config new_checks at_select
selects =
    next
      (next (next begun (check [] handler [] 0 (some answer, none) refl refl check_ends))
        (sent refl))
      (waited refl refl)

round_checks_all_example : count (λ _. true) (handler ∷ []) ≡ count (λ _. true) (handler ∷ [])
round_checks_all_example = round_checks_all health config at_select (λ _. true) selects refl

waiting_bound_example : (0 ≤ 1) × (0 ≤ 1) × (0 ≤ 0)
waiting_bound_example = waiting_bound health config at_select selects

all_at_once_example : (s : Checks) × Steps health config new_checks s × (length s.checking ≡ 2)
all_at_once_example = all_at_once health config (omega arith) (handler ∷ handler ∷ []) refl

abbrev over : Checks
over = record at_select { round = ended; caller = stopping (handler ∷ []) }

blocked : Steps health config new_checks over
blocked = next (next selects (elapsed refl)) (stop (handler ∷ []) refl refl refl)

elapsed_is_last_example :
    ((handler ∷ []) ≡ (handler ∷ []))
    × ((handler ∷ []) ≡ (handler ∷ []))
    × ((stopping (handler ∷ []) ≡ stopping (handler ∷ [])) ⊎ (stopping (handler ∷ []) ≡ free))
elapsed_is_last_example = elapsed_is_last health config over over blocked refl refl here

abbrev unbuffered : Config
unbuffered = new_provider (with_health_check_interval 30 ∷ with_health_check_parallelism 0 ∷ [])

abbrev sending_first : Checks
sending_first = record new_checks {
  stop_made = true;
  round = Round.sending (handler ∷ []);
  asked = handler ∷ [];
}

unbuffered_checks_nothing_example :
    (sending_first.checked ≡ []) × (length sending_first.checking ≡ 0)
unbuffered_checks_nothing_example =
    unbuffered_checks_nothing health unbuffered sending_first
      (next here (first (handler ∷ []) refl refl refl)) refl
