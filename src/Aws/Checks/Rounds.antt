-- ===== src/Aws/Checks/Rounds.antt =====
-- What a round of health checks does, and how many of them are at work at once.
use mathlib.Core.Path.{subst}
use cruiser.Base.{
  suc, ◌+◌, ◌≤◌, ◌<◌, Bool, false, List, [], ◌∷◌, ◌++◌, length, ◌≡◌, refl, sym, ap, arith,
}
use cruiser.Proto.{Handler}
use cruiser.Aws.Health.{HealthEnv}
use cruiser.Aws.Checks.{
  Config, sending, selecting, Checks, new_checks, ignores, first, send, add, receive, Steps, here,
  next,
}
use cruiser.Aws.Checks.Counting.{count, count-zero, left_of, to_start, IsIdle, Steps-IsCounted}

module _ (E : HealthEnv) (c : Config) where
  -- Whenever a round is at its `select`, its health checks and those of the rounds before it have
  -- ended, each once for each time that the handler was passed: of the handlers with whatever
  -- property, as many were checked as were handed to the rounds.
  pub round_checks_all :
      (s : Checks) (p : Handler → Bool)
      → Steps E c new_checks s
      → s.round ≡ selecting
      → count p s.checked ≡ count p s.asked
  round_checks_all s p run e =
      let n = Steps-IsCounted E c run in
      let wg : s.wg ≡ 0 = n.idle (subst IsIdle (sym e) tt) in
      omega (
        arith,
        n.whole p,
        ap (λ r. count p (left_of r)) e,
        count-zero p [] refl,
        count-zero p s.checking (omega (arith, n.counter, wg)),
        count-zero p s.buffer (omega (arith, n.counter, wg, n.received, ap to_start e)),
      )

  -- In every run, at most as many handlers as the parallelism says stand in the channel, and at
  -- most as many goroutines wait for one; and while a check is at work the counter of the wait
  -- group is not zero, so that `Done` does not panic.
  pub waiting_bound :
      (s : Checks)
      → Steps E c new_checks s
      → (length s.buffer ≤ c.health_check_parallelism)
        × (s.receiving ≤ c.health_check_parallelism)
        × (length s.checking ≤ s.wg)
  waiting_bound s run =
      let n = Steps-IsCounted E c run in
      (n.bounded, omega (arith, n.bounded, n.received), omega (arith, n.counter))

  module _ (buffered : 0 < c.health_check_parallelism) where
    -- One handler is sent, and taken by a goroutine that begins its check.
    begin_check :
        {s t : Checks} (h : Handler) (left : List Handler)
        → Steps E c s t
        → t.round ≡ sending (h ∷ left)
        → t.buffer ≡ []
        → (u : Checks) × Steps E c s u
          × (u.round ≡ sending left)
          × (u.buffer ≡ [])
          × (length u.checking ≡ suc (length t.checking))
    begin_check {s} {t} h left run r b = (
      _,
      next (next (next run (send h left r (rw b buffered))) (add left refl))
          (receive h [] t.receiving (ap (λ x. x ++ h ∷ []) b) refl),
      refl,
      refl,
      refl,
    )

    begin_checks :
        {s : Checks} (left : List Handler) {t : Checks}
        → Steps E c s t
        → t.round ≡ sending left
        → t.buffer ≡ []
        → (u : Checks) × Steps E c s u × (length u.checking ≡ length left + length t.checking)
    begin_checks [] run r b = (_, run, omega arith)
    begin_checks (h ∷ left) run r b =
        let (u, run_u, ru, bu, lu) = begin_check h left run r b in
        let (v, run_v, lv) = begin_checks left run_u ru bu in (v, run_v, omega (arith, lu, lv))

    -- Where the health checks are enabled and the channel has a buffer, of whatever length, the
    -- checks of all handlers of a call can be at work at the same time, however many they are.
    pub all_at_once :
        (handlers : List Handler)
        → ignores E c handlers ≡ false
        → (s : Checks) × Steps E c new_checks s × (length s.checking ≡ length handlers)
    all_at_once handlers i =
        let (s, run, l) =
          begin_checks handlers (next here (first handlers refl i refl)) refl refl in
        (s, run, omega (arith, l))
