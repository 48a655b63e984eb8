-- ===== src/Server/Swap.antt =====
-- pkg/server/swap_handler.go, and `NewSwapHandler` of pkg/server/builder.go. A step is what one
-- goroutine does between two operations that others can see. The channel has no buffer: a send ends
-- when `watchSwap` receives.
pub mod Serving
mod Tests
use cruiser.Base.{
  Bool, true, false, List, [], ◌∷◌, Option, none, some, Outcome, ok, panic, is_some, if◌then◌else◌,
  ◌≡◌,
}

-- `handler` may be nil. `holding` is the handler that `watchSwap` has received and not yet stored,
-- `closed` says that the channel is, and `swapped` are the handlers of the sends that ended, the
-- last one first.
pub record SwapHandler (H : Type 0) : Type 0 where
  pub handler : Option H
  pub holding : Option H
  pub closed : Bool
  pub swapped : List H

module _ {H : Type 0} where
  abbrev pub new_swap_handler : SwapHandler H
  new_swap_handler = record { handler = none; holding = none; closed = false; swapped = [] }

  -- `ServeHTTP` calls the handler, which panics where it is nil.
  abbrev pub serve_http : SwapHandler H → Outcome H
  serve_http s = elim s.handler [ none ↦ panic | some h ↦ ok h ]

  -- `Swap`: a send on a closed channel panics, and `none` is one that waits.
  unfoldable pub swap : H → SwapHandler H → Option (SwapHandler H × Outcome (Unit {0}))
  swap h s =
      if s.closed
      then some (s, panic)
      else if is_some s.holding
      then none
      else some (record s { holding = some h; swapped = h ∷ s.swapped }, ok tt)

  -- `Close`: closing a closed channel panics.
  unfoldable pub close : SwapHandler H → SwapHandler H × Outcome (Unit {0})
  close s = if s.closed then (s, panic) else (record s { closed = true }, ok tt)

  pub data Step : SwapHandler H → SwapHandler H → Type 0 where
    swaps : {s t : SwapHandler H} (h : H) → swap h s ≡ some (t, ok tt) → Step s t
    -- The body of the loop of `watchSwap`.
    stores :
        {s : SwapHandler H} (h : H)
        → s.holding ≡ some h
        → Step s (record s { handler = some h; holding = none })
    closes : {s t : SwapHandler H} → close s ≡ (t, ok tt) → Step s t

  pub data Steps (s : SwapHandler H) : SwapHandler H → Type 0 where
    here : Steps s s
    next : {t u : SwapHandler H} → Steps s t → Step t u → Steps s u
