-- ===== src/Server/Swap/Serving.antt =====
-- Which handler is served.
use mathlib.Core.Path.{subst}
use cruiser.Base.{
  true, false, List, [], ◌∷◌, Option, none, some, Outcome, ok, panic, ◌≡◌, refl, sym, ap, ◌∙◌,
  arith,
}
use cruiser.Server.Swap.{
  SwapHandler, new_swap_handler, serve_http, swap, close, Step, swaps, stores, closes, Steps, here,
  next,
}

module _ {H : Type 0} where
  abbrev pub first_of : List H → Option H
  first_of [] = none
  first_of (h ∷ hs) = some h

  abbrev pub rest_of : List H → List H
  rest_of [] = []
  rest_of (h ∷ hs) = hs

  -- The handlers that are stored, of those that were received.
  abbrev pub stored : Option H → List H → List H
  stored none swapped = swapped
  stored (some _) swapped = rest_of swapped

  record IsCurrent (s : SwapHandler H) : Type 0 where
    pub current : s.handler ≡ first_of (stored s.holding s.swapped)
    pub held : (h : H) → s.holding ≡ some h → first_of s.swapped ≡ some h

  swap-ok :
      (h : H) (s : SwapHandler H) {t : SwapHandler H}
      → swap h s ≡ some (t, ok tt)
      → (s.closed ≡ false)
        × (s.holding ≡ none)
        × (t ≡ record s { holding = some h; swapped = h ∷ s.swapped })
  unfolding swap
  swap-ok h s e = ground arith

  close-ok :
      (s : SwapHandler H) {t : SwapHandler H}
      → close s ≡ (t, ok tt)
      → (s.closed ≡ false) × (t ≡ record s { closed = true })
  unfolding close
  close-ok s e = ground arith

  Step-IsCurrent : {s t : SwapHandler H} → Step s t → IsCurrent s → IsCurrent t
  Step-IsCurrent (swaps {s} h e) i =
      let (_, free, same) = swap-ok h s e in
      subst IsCurrent (sym same) (record {
        current = i.current ∙ ap (λ o. first_of (stored o s.swapped)) free;
        held = λ j q. q;
      })
  Step-IsCurrent (stores h e) i = record { current = sym (i.held h e); held = λ j q. cc }
  Step-IsCurrent (closes {s} e) i =
      subst IsCurrent (sym (close-ok s e).1) (record { current = i.current; held = i.held })

  Steps-IsCurrent : {s : SwapHandler H} → Steps new_swap_handler s → IsCurrent s
  Steps-IsCurrent here = record { current = refl; held = λ h q. cc }
  Steps-IsCurrent (next run st) = Step-IsCurrent st (Steps-IsCurrent run)

  -- What a handler that holds one value, the first of the list, answers.
  abbrev pub answer_of : List H → Outcome H
  answer_of [] = panic
  answer_of (h ∷ hs) = ok h

  serve_http-answer_of :
      (hs : List H) (s : SwapHandler H) → s.handler ≡ first_of hs → serve_http s ≡ answer_of hs
  serve_http-answer_of [] s e = rw e refl
  serve_http-answer_of (h ∷ hs) s e = rw e refl

  -- In every run, a request is served by the last handler whose `Swap` has ended, if the goroutine
  -- that watches is not holding it, and by the one before it otherwise; where there is no such
  -- handler, as before the first `Swap`, it panics.
  pub serves_last_swapped :
      (s : SwapHandler H)
      → Steps new_swap_handler s
      → serve_http s ≡ answer_of (stored s.holding s.swapped)
  serves_last_swapped s run =
      serve_http-answer_of (stored s.holding s.swapped) s (Steps-IsCurrent run).current

  Step-closed :
      {s t : SwapHandler H}
      → Step s t
      → s.closed ≡ true
      → (t.closed ≡ true) × (t.swapped ≡ s.swapped)
  Step-closed (swaps {s} h e) c = let (open_, _, _) = swap-ok h s e in cc
  Step-closed (stores h e) c = (c, refl)
  Step-closed (closes {s} e) c = let (open_, _) = close-ok s e in cc

  Steps-closed :
      {s t : SwapHandler H}
      → Steps s t
      → s.closed ≡ true
      → (t.closed ≡ true) × (t.swapped ≡ s.swapped)
  Steps-closed here c = (c, refl)
  Steps-closed (next run st) c =
      let (d, same) = Steps-closed run c in let (e, again) = Step-closed st d in (e, again ∙ same)

  swap-closed : (h : H) (s : SwapHandler H) → s.closed ≡ true → swap h s ≡ some (s, panic)
  unfolding swap
  swap-closed h s c = rw c refl

  close-closed : (s : SwapHandler H) → s.closed ≡ true → close s ≡ (s, panic)
  unfolding close
  close-closed s c = rw c refl

  -- Once `Close` was called, whatever happens later, no other handler is swapped in, and every
  -- further `Swap` and `Close` panics.
  pub closed_panics :
      (s t : SwapHandler H) (h : H)
      → s.closed ≡ true
      → Steps s t
      → (t.swapped ≡ s.swapped) × (swap h t ≡ some (t, panic)) × (close t ≡ (t, panic))
  closed_panics s t h c run =
      let (d, same) = Steps-closed run c in (same, swap-closed h t d, close-closed t d)
