-- ===== src/State/Manager/Progress.antt =====
-- What holds in every run of `periodicSync`.
use mathlib.Core.Path.{subst}
use cruiser.Base.{sym, ℕ, zero, suc, ◌+◌, ◌≤◌, ◌<◌, ◌≡◌, refl, arith}
use cruiser.State.Manager.{
  Phase, spawning, waiting, selecting, Sync, at_start, Step, fetch_fails, fetch, spawn, spawned,
  done, fail, received, waited, elapsed, cancelled, reported, Steps, here, next,
}

-- The loop is in the middle of a round.
abbrev pub IsBusy : Phase → Type 0
IsBusy (spawning _) = Unit
IsBusy waiting = Unit
IsBusy _ = ⊥

-- The loop is in none.
abbrev pub IsIdle : Phase → Type 0
IsIdle (spawning _) = ⊥
IsIdle waiting = ⊥
IsIdle _ = Unit

pub record IsCounted (s : Sync) : Type 0 where
  pub counted : s.wg ≡ s.running + s.failing + s.failed
  pub idle : IsIdle s.phase → s.wg ≡ 0

Step-IsCounted : {m : ℕ} {s t : Sync} → Step m s t → IsCounted s → IsCounted t
Step-IsCounted fetch_fails c = ground arith
Step-IsCounted fetch c = ground arith
Step-IsCounted spawn c = ground arith
Step-IsCounted spawned c = ground arith
Step-IsCounted done c = record { counted = omega arith; idle = λ i. omega (arith, c.idle i) }
Step-IsCounted fail c = record { counted = omega arith; idle = λ i. omega (arith, c.idle i) }
Step-IsCounted received c = record { counted = omega arith; idle = λ i. omega (arith, c.idle i) }
Step-IsCounted waited c = ground arith
Step-IsCounted elapsed c = ground arith
Step-IsCounted cancelled c = ground arith
Step-IsCounted reported c = ground arith

pub Steps-IsCounted : {m : ℕ} {s t : Sync} → IsCounted s → Steps m s t → IsCounted t
Steps-IsCounted c here = c
Steps-IsCounted c (next r st) = Step-IsCounted st (Steps-IsCounted c r)

at_start-IsCounted : IsCounted at_start
at_start-IsCounted = record { counted = refl; idle = λ i. refl }

-- Whenever the loop is at its `select`, every goroutine that it has started has finished, without
-- an error.
pub round_complete :
    {m : ℕ} (s : Sync)
    → Steps m at_start s
    → s.phase ≡ selecting
    → (s.running ≡ 0) × (s.failing ≡ 0) × (s.failed ≡ 0)
round_complete s run e =
    let c = Steps-IsCounted at_start-IsCounted run in
    let zero : s.wg ≡ 0 = c.idle (subst IsIdle (sym e) tt) in omega (arith, c.counted)

Step-errors : {m : ℕ} {s t : Sync} → Step m s t → s.failing + s.failed ≤ t.failing + t.failed
Step-errors fetch_fails = omega arith
Step-errors fetch = omega arith
Step-errors spawn = omega arith
Step-errors spawned = omega arith
Step-errors done = omega arith
Step-errors fail = omega arith
Step-errors received = omega arith
Step-errors waited = omega arith
Step-errors elapsed = omega arith
Step-errors cancelled = omega arith
Step-errors reported = omega arith

Steps-errors : {m : ℕ} {s t : Sync} → Steps m s t → s.failing + s.failed ≤ t.failing + t.failed
Steps-errors here = omega arith
Steps-errors (next r st) = omega (arith, Steps-errors r, Step-errors st)

IsBusy-of_not_idle : (p : Phase) → ¬ IsIdle p → IsBusy p
IsBusy-of_not_idle (spawning _) h = tt
IsBusy-of_not_idle waiting h = tt
IsBusy-of_not_idle _ h = absurd (h tt)

-- Once a manager has met an error, the loop never gets past `s.wg.Wait()`, also after the error was
-- received: in every later state it is still in that round. So it reads no state again, and does
-- not see that the context is cancelled.
pub error_blocks :
    {m : ℕ} (s t : Sync)
    → Steps m at_start s
    → 0 < s.failing + s.failed
    → Steps m s t
    → IsBusy t.phase
error_blocks s t run failed later =
    let c = Steps-IsCounted (Steps-IsCounted at_start-IsCounted run) later in
    IsBusy-of_not_idle t.phase (λ i. omega (arith, c.idle i, c.counted, Steps-errors later))

first : {m : ℕ} {s t u : Sync} → Step m s t → Steps m t u → Steps m s u
first st here = next here st
first st (next r last) = next (first st r) last

-- The states of a round that waits for `r` goroutines, none of which has met an error.
abbrev pub waiting_for : ℕ → Sync
waiting_for r = record { phase = waiting; wg = r; running = r; failing = 0; failed = 0 }

finish : (m r : ℕ) → Steps m (waiting_for r) (waiting_for 0)
finish m zero = here
finish m (suc r) = first done (finish m r)

-- If no manager has met an error, the round can end: from `s.wg.Wait()`, with any number of
-- goroutines still at work, there are steps that lead to the `select`.
pub wait_can_end : (m r : ℕ) → Steps m (waiting_for r) (record at_start { phase = selecting })
wait_can_end m r = next (finish m r) waited
