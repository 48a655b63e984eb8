-- ===== src/Commands/Executing.antt =====
-- cmd/root.go: `Execute` with its goroutine, and the end of `RunE` in cmd/router.go and cmd/xds.go,
-- which waits for it. A step is what one goroutine does between two operations that others can see.
pub mod Waiting
mod Tests
use cruiser.Base.{ℕ, zero, suc, Bool, true, false, ◌≡◌}

-- The goroutine of `Execute`: it was made; it has added one to the wait group, and is at the
-- `select`; or it is done.
pub data Watcher : Type 0 where
  made watching finished : Watcher

-- `RunE`: before `Open`, at `waitClose.Wait()`, or returned, with an error of `Open` or without.
pub data Main : Type 0 where
  opening at_wait returned open_failed : Main

-- `wait_close` is the counter of the wait group. `watched` says whether the goroutine had added to
-- it when `RunE` came to wait.
pub record Program : Type 0 where
  pub watcher : Watcher
  pub main : Main
  pub wait_close : ℕ
  pub cancelled : Bool
  pub watched : Bool

abbrev pub at_start : Program
at_start = record {
  watcher = made;
  main = opening;
  wait_close = 0;
  cancelled = false;
  watched = false;
}

abbrev pub is_watching : Watcher → Bool
is_watching made = false
is_watching watching = true
is_watching finished = true

pub data Step : Program → Program → Type 0 where
  -- `waitClose.Add(1)`
  adds :
      {p : Program}
      → p.watcher ≡ made
      → Step p (record p { watcher = watching; wait_close = suc p.wait_close })
  -- `<-signalCh`, `cancel()` and `Done`
  signalled :
      {p : Program} (w : ℕ)
      → p.watcher ≡ watching
      → p.wait_close ≡ suc w
      → Step p (record p { watcher = finished; wait_close = w; cancelled = true })
  -- `<-ctx.Done()` and `Done`
  context_done :
      {p : Program} (w : ℕ)
      → p.watcher ≡ watching
      → p.cancelled ≡ true
      → p.wait_close ≡ suc w
      → Step p (record p { watcher = finished; wait_close = w })
  opened :
      {p : Program}
      → p.main ≡ opening
      → Step p (record p { main = at_wait; watched = is_watching p.watcher })
  fails : {p : Program} → p.main ≡ opening → Step p (record p { main = open_failed })
  waited :
      {p : Program} → p.main ≡ at_wait → p.wait_close ≡ 0 → Step p (record p { main = returned })

pub data Steps (p : Program) : Program → Type 0 where
  here : Steps p p
  next : {q r : Program} → Steps p q → Step q r → Steps p r
