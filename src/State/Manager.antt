-- ===== src/State/Manager.antt =====
-- pkg/state/manager.go: the loop of `periodicSync` and its goroutines, and what one goroutine does.
-- A step is what one goroutine does between two operations that others can see. `errCh` has no
-- buffer: a send ends when the other side receives.
pub mod Progress
pub mod Rounds
mod Tests
use cruiser.Base.{ℕ, zero, suc, ◌+◌, ◌-◌, List, [], ◌∷◌, Option, none, some}
use cruiser.Base.Run.{Run, panics, for_each, ◌>>=◌, ◌>>◌}
use cruiser.State.Terraform.{Tfstate}

-- The interface `Manager`, over the manager's state.
pub record Manager (S : Type 0) : Type 0 where
  pub read_from_tfstate : Tfstate → Run S (Unit {0})
  pub build : Run S (Unit {0})

-- `ReadFromTfstate` reads a field of the state that it is given, and panics on a nil pointer.
abbrev pub read_pointer : {S : Type 0} → Manager S → Option Tfstate → Run S (Unit {0})
read_pointer m none = panics
read_pointer m (some tfstate) = m.read_from_tfstate tfstate

-- What the goroutine of a manager calls, up to `s.wg.Done()`: an error ends it before that.
unfoldable pub manage : {S : Type 0} → Manager S → List (Option Tfstate) → Run S (Unit {0})
unfolding for_each
manage m tfstates = do for_each (read_pointer m) tfstates; m.build

-- Where the loop of `periodicSync` is: before `GetTfstate`; in the loop over the managers, with
-- the managers that are left; at `s.wg.Wait()`; at the `select`; or sending an error, after which
-- it returns; or returned.
pub data Phase : Type 0 where
  fetching : Phase
  spawning : (left : ℕ) → Phase
  waiting selecting reporting returned : Phase

-- `wg` is the counter of the wait group. Of the goroutines of the managers, `running` are at work,
-- `failing` have met an error that they are sending, and `failed` have sent it and returned.
pub record Sync : Type 0 where
  pub phase : Phase
  pub wg : ℕ
  pub running : ℕ
  pub failing : ℕ
  pub failed : ℕ

abbrev pub at_start : Sync
at_start = record { phase = fetching; wg = 0; running = 0; failing = 0; failed = 0 }

-- `managers` is the number of managers.
pub data Step (managers : ℕ) : Sync → Sync → Type 0 where
  fetch_fails :
      {wg r e f : ℕ}
      → Step managers
          (record { phase = fetching; wg = wg; running = r; failing = e; failed = f })
          (record { phase = reporting; wg = wg; running = r; failing = e; failed = f })
  fetch :
      {wg r e f : ℕ}
      → Step managers
          (record { phase = fetching; wg = wg; running = r; failing = e; failed = f })
          (record { phase = spawning managers; wg = wg; running = r; failing = e; failed = f })
  -- `s.wg.Add(1)` and `go`
  spawn :
      {left wg r e f : ℕ}
      → Step managers
          (record { phase = spawning (suc left); wg = wg; running = r; failing = e; failed = f })
          (record { phase = spawning left; wg = suc wg; running = suc r; failing = e; failed = f })
  spawned :
      {wg r e f : ℕ}
      → Step managers
          (record { phase = spawning zero; wg = wg; running = r; failing = e; failed = f })
          (record { phase = waiting; wg = wg; running = r; failing = e; failed = f })
  -- `s.wg.Done()`
  done :
      {p : Phase} {wg r e f : ℕ}
      → Step managers
          (record { phase = p; wg = suc wg; running = suc r; failing = e; failed = f })
          (record { phase = p; wg = wg; running = r; failing = e; failed = f })
  fail :
      {p : Phase} {wg r e f : ℕ}
      → Step managers
          (record { phase = p; wg = wg; running = suc r; failing = e; failed = f })
          (record { phase = p; wg = wg; running = r; failing = suc e; failed = f })
  -- The error is received, and the goroutine returns.
  received :
      {p : Phase} {wg r e f : ℕ}
      → Step managers
          (record { phase = p; wg = wg; running = r; failing = suc e; failed = f })
          (record { phase = p; wg = wg; running = r; failing = e; failed = suc f })
  waited :
      {r e f : ℕ}
      → Step managers
          (record { phase = waiting; wg = zero; running = r; failing = e; failed = f })
          (record { phase = selecting; wg = zero; running = r; failing = e; failed = f })
  -- `<-time.After(s.periodicSyncInterval)`
  elapsed :
      {wg r e f : ℕ}
      → Step managers
          (record { phase = selecting; wg = wg; running = r; failing = e; failed = f })
          (record { phase = fetching; wg = wg; running = r; failing = e; failed = f })
  -- `<-ctx.Done()`; the context's error is not nil then.
  cancelled :
      {wg r e f : ℕ}
      → Step managers
          (record { phase = selecting; wg = wg; running = r; failing = e; failed = f })
          (record { phase = reporting; wg = wg; running = r; failing = e; failed = f })
  reported :
      {wg r e f : ℕ}
      → Step managers
          (record { phase = reporting; wg = wg; running = r; failing = e; failed = f })
          (record { phase = returned; wg = wg; running = r; failing = e; failed = f })

pub data Steps (managers : ℕ) (s : Sync) : Sync → Type 0 where
  here : Steps managers s s
  next : {t u : Sync} → Steps managers s t → Step managers t u → Steps managers s u
