-- ===== src/State/Manager/Rounds.antt =====
-- pkg/state/manager.go with `NewStateManager` of pkg/state/builder.go: what the rounds of
-- `periodicSync` do to the source and to the managers, where the goroutine of each manager runs to
-- its end before that of the next; a command has one manager.
use cruiser.Base.{ℕ, List, [], ◌∷◌, ◌++◌, Option, none, some, Outcome, ok, err, panic}
use cruiser.Base.Run.{Run, for_each}
use cruiser.State.Terraform.{Tfstate}
use cruiser.State.Manager.{Manager, manage}

-- The interface `TfstateSource`, over the source's state. The slice may be nil, and so may the
-- pointers in it.
abbrev pub Source : Type 0 → Type 0
Source B = Run B (Option (List (Option Tfstate)))

-- The fields of `state` that the options set. The source may be nil.
pub record StateManager (B S : Type 0) : Type 0 where
  pub managers : List (Manager S)
  pub tfstate_source : Option (Source B)
  pub periodic_sync_interval : ℕ

-- A loop over a nil slice has no rounds.
abbrev pub listed : Option (List (Option Tfstate)) → List (Option Tfstate)
listed none = []
listed (some tfstates) = tfstates

module _ {B S : Type 0} where
  abbrev pub with_periodic_sync_interval : ℕ → StateManager B S → StateManager B S
  with_periodic_sync_interval interval s = record s { periodic_sync_interval = interval }

  abbrev pub with_tfstate_source : Option (Source B) → StateManager B S → StateManager B S
  with_tfstate_source source s = record s { tfstate_source = source }

  abbrev pub with_managers : List (Manager S) → StateManager B S → StateManager B S
  with_managers managers s = record s { managers = s.managers ++ managers }

  abbrev apply_all :
      List (StateManager B S → StateManager B S) → StateManager B S → StateManager B S
  apply_all [] s = s
  apply_all (option ∷ options) s = apply_all options (option s)

  -- Five seconds.
  abbrev pub new_state_manager : List (StateManager B S → StateManager B S) → StateManager B S
  new_state_manager options =
      apply_all options record { managers = []; tfstate_source = none; periodic_sync_interval = 5 }

  abbrev pub with_source : B → S × Outcome (Unit {0}) → (B × S) × Outcome (Unit {0})
  with_source b (s, o) = ((b, s), o)

  abbrev pub after_poll :
      List (Manager S) → B × Outcome (Option (List (Option Tfstate))) → Run (B × S) (Unit {0})
  after_poll managers (b, err e) (_, s) = ((b, s), err e)
  after_poll managers (b, panic) (_, s) = ((b, s), panic)
  after_poll managers (b, ok tfstates) (_, s) =
      with_source b (for_each (λ m. manage m (listed tfstates)) managers s)

  -- From `GetTfstate`, which panics on a nil source, to the `select`.
  unfoldable pub sync_round : StateManager B S → Run (B × S) (Unit {0})
  sync_round manager x = elim manager.tfstate_source [
    | none ↦ (x, panic)
    | some source ↦ after_poll manager.managers (source x.0) x
  ]
