-- ===== src/Commands/Executing/Waiting.antt =====
-- When a command that serves returns.
use cruiser.Base.{ℕ, true, false, ◌≡◌, refl, sym, ap, ◌∙◌, arith}
use cruiser.Commands.Executing.{
  Watcher, made, watching, finished, opening, returned, Program, at_start, is_watching, Step, adds,
  signalled, context_done, opened, fails, waited, Steps, here, next,
}

-- What the wait group counts.
abbrev counted : Watcher → ℕ
counted watching = 1
counted _ = 0

record IsWaiting (p : Program) : Type 0 where
  pub counter : p.wait_close ≡ counted p.watcher
  pub done : p.watcher ≡ finished → p.cancelled ≡ true
  pub before : p.watched ≡ true → is_watching p.watcher ≡ true
  pub after : p.watched ≡ true → p.main ≡ returned → p.cancelled ≡ true
  pub unopened : p.main ≡ opening → p.watched ≡ false

finished-watching : (w : Watcher) → is_watching w ≡ true → counted w ≡ 0 → w ≡ finished
finished-watching made e z = cc
finished-watching watching e z = absurd (omega (arith, z))
finished-watching finished e z = refl

Step-IsWaiting : {p q : Program} → Step p q → IsWaiting p → IsWaiting q
Step-IsWaiting (adds e) i = record {
  counter = omega (arith, i.counter, ap counted e);
  done = λ f. cc;
  before = λ w. refl;
  after = i.after;
  unopened = i.unopened;
}
Step-IsWaiting (signalled w e c) i = record {
  counter = omega (arith, i.counter, ap counted e, c);
  done = λ f. refl;
  before = λ w. refl;
  after = λ w m. refl;
  unopened = i.unopened;
}
Step-IsWaiting (context_done w e d c) i = record {
  counter = omega (arith, i.counter, ap counted e, c);
  done = λ f. d;
  before = λ w. refl;
  after = i.after;
  unopened = i.unopened;
}
Step-IsWaiting (opened e) i = record {
  counter = i.counter;
  done = i.done;
  before = λ w. w;
  after = λ w m. cc;
  unopened = λ m. cc;
}
Step-IsWaiting (fails e) i = record {
  counter = i.counter;
  done = i.done;
  before = i.before;
  after = λ w m. cc;
  unopened = λ m. cc;
}
Step-IsWaiting (waited e z) i = record {
  counter = i.counter;
  done = i.done;
  before = i.before;
  after = λ w m. i.done (finished-watching _ (i.before w) (sym i.counter ∙ z));
  unopened = λ m. cc;
}

at_start-IsWaiting : IsWaiting at_start
at_start-IsWaiting = record {
  counter = refl;
  done = λ e. cc;
  before = λ e. cc;
  after = λ e m. cc;
  unopened = λ m. refl;
}

Steps-IsWaiting : {p : Program} → Steps at_start p → IsWaiting p
Steps-IsWaiting here = at_start-IsWaiting
Steps-IsWaiting (next run st) = Step-IsWaiting st (Steps-IsWaiting run)

-- A command that has opened its server returns only after a signal has cancelled the context, if
-- the goroutine of `Execute` had added to the wait group by the time that it came to wait.
pub returns_after_signal :
    (p : Program) → Steps at_start p → p.main ≡ returned → p.watched ≡ true → p.cancelled ≡ true
returns_after_signal p run e w = (Steps-IsWaiting run).after w e
