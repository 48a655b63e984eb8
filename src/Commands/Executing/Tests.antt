-- ===== src/Commands/Executing/Tests.antt =====
-- A command that returns after a signal, and one that does not wait for it.
use cruiser.Base.{true, ◌≡◌, refl}
use cruiser.Commands.Executing.{
  Program, finished, returned, at_start, adds, signalled, opened, waited, Steps, here, next,
}
use cruiser.Commands.Executing.Waiting.{returns_after_signal}

abbrev stopped : Program
stopped = record {
  watcher = finished;
  main = returned;
  wait_close = 0;
  cancelled = true;
  watched = true;
}

stops : Steps at_start stopped
stops =
    next (next (next (next here (adds refl)) (opened refl)) (signalled 0 refl refl))
      (waited refl refl)

returns_after_signal_example : stopped.cancelled ≡ true
returns_after_signal_example = returns_after_signal stopped stops refl refl

-- `Wait` before `Add`.
early : Steps at_start (record at_start { main = returned })
early = next (next here (opened refl)) (waited refl refl)
