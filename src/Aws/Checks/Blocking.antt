-- ===== src/Aws/Checks/Blocking.antt =====
-- What becomes of the health checks once the interval of a round has elapsed, and of those on a
-- channel without a buffer.
use mathlib.Core.Path.{subst}
use cruiser.Base.{true, [], length, ◌≡◌, refl, sym, ap, ◌∙◌, arith, ◌⊎◌, inl, inr}
use cruiser.Aws.Health.{HealthEnv}
use cruiser.Aws.Checks.{
  Config, ended, Checks, free, new_checks, Step, ignored, first, stop, stopped, send, hand_over,
  add, sent, receive, check, waited, cancelled, elapsed, Steps, here, next,
}
use cruiser.Aws.Checks.Counting.{to_start, IsIdle, IsCounted, Steps-IsCounted}

module _ (E : HealthEnv) (c : Config) where
  -- No goroutine is at work, and none will be.
  record IsOver (s t : Checks) : Type 0 where
    pub round : t.round ≡ ended
    pub made : t.stop_made ≡ true
    pub wg : t.wg ≡ 0
    pub receiving : t.receiving ≡ 0
    pub asked : t.asked ≡ s.asked
    pub checked : t.checked ≡ s.checked
    pub stays : (t.caller ≡ s.caller) ⊎ (s.caller ≡ free)

  IsOver-start : {s : Checks} → IsCounted c s → s.round ≡ ended → s.stop_made ≡ true → IsOver s s
  IsOver-start n e m =
      let wg = n.idle (subst IsIdle (sym e) tt) in
      record {
        round = e;
        made = m;
        wg = wg;
        receiving = omega (arith, n.counter, wg);
        asked = refl;
        checked = refl;
        stays = inl refl;
      }

  Step-IsOver : {s t u : Checks} → Step E c t u → IsOver s t → IsOver s u
  Step-IsOver (ignored _ _ _) o = o
  Step-IsOver (first handlers _ _ m) o = let q = o.made in cc
  Step-IsOver (stop handlers f _ _) o = record {
    round = o.round;
    made = o.made;
    wg = o.wg;
    receiving = o.receiving;
    asked = o.asked;
    checked = o.checked;
    stays = elim o.stays [ inl same ↦ inr (sym same ∙ f) | inr before ↦ inr before ];
  }
  Step-IsOver (stopped handlers _ e) o = let q = o.round in cc
  Step-IsOver (send h left e _) o = let q = o.round in cc
  Step-IsOver (hand_over h left r e _ _) o = let q = o.round in cc
  Step-IsOver (add left e) o = let q = o.round in cc
  Step-IsOver (sent e) o = let q = o.round in cc
  Step-IsOver (receive h rest r _ m) o = absurd (omega (arith, m, o.receiving))
  Step-IsOver (check before h after w answer _ m _) o = absurd (omega (arith, m, o.wg))
  Step-IsOver (waited e _) o = let q = o.round in cc
  Step-IsOver (cancelled e) o = let q = o.round in cc
  Step-IsOver (elapsed e) o = let q = o.round in cc

  Steps-IsOver : {s t : Checks} → IsOver s s → Steps E c s t → IsOver s t
  Steps-IsOver o here = o
  Steps-IsOver o (next run st) = Step-IsOver st (Steps-IsOver o run)

  -- Once the round of a call has ended, as it does when the interval has elapsed, no handler is
  -- handed to a round and no check ends any more, whatever calls follow; and a call that is at work by then, which sends on
  -- the channel for stopping, never returns.
  pub elapsed_is_last :
      (s t : Checks)
      → Steps E c new_checks s
      → s.round ≡ ended
      → s.stop_made ≡ true
      → Steps E c s t
      → (t.asked ≡ s.asked) × (t.checked ≡ s.checked) × ((t.caller ≡ s.caller) ⊎ (s.caller ≡ free))
  elapsed_is_last s t run e m later =
      let o = Steps-IsOver (IsOver-start (Steps-IsCounted E c run) e m) later in
      (o.asked, o.checked, o.stays)

  Step-unbuffered :
      {s t : Checks}
      → Step E c s t
      → IsCounted c s
      → c.health_check_parallelism ≡ 0
      → s.wg ≡ 0
      → t.wg ≡ 0
  Step-unbuffered (ignored _ _ _) n z w = w
  Step-unbuffered (first _ _ _ _) n z w = w
  Step-unbuffered (stop _ _ _ _) n z w = w
  Step-unbuffered (stopped _ _ _) n z w = w
  Step-unbuffered (send _ _ _ _) n z w = w
  Step-unbuffered (hand_over _ _ _ _ _ _) n z w = w
  Step-unbuffered (add left e) n z w =
      absurd (omega (arith, n.received, ap to_start e, n.bounded, z))
  Step-unbuffered (sent _) n z w = w
  Step-unbuffered (receive _ _ _ _ _) n z w = w
  Step-unbuffered (check _ _ _ _ _ _ m _) n z w = absurd (omega (arith, m, w))
  Step-unbuffered (waited _ _) n z w = w
  Step-unbuffered (cancelled _) n z w = w
  Step-unbuffered (elapsed _) n z w = w

  Steps-unbuffered :
      {s : Checks} → Steps E c new_checks s → c.health_check_parallelism ≡ 0 → s.wg ≡ 0
  Steps-unbuffered here z = refl
  Steps-unbuffered (next run st) z =
      Step-unbuffered st (Steps-IsCounted E c run) z (Steps-unbuffered run z)

  Step-checks_nothing : {s t : Checks} → Step E c s t → s.wg ≡ 0 → s.checked ≡ [] → t.checked ≡ []
  Step-checks_nothing (ignored _ _ _) w e = e
  Step-checks_nothing (first _ _ _ _) w e = e
  Step-checks_nothing (stop _ _ _ _) w e = e
  Step-checks_nothing (stopped _ _ _) w e = e
  Step-checks_nothing (send _ _ _ _) w e = e
  Step-checks_nothing (hand_over _ _ _ _ _ _) w e = e
  Step-checks_nothing (add _ _) w e = e
  Step-checks_nothing (sent _) w e = e
  Step-checks_nothing (receive _ _ _ _ _) w e = e
  Step-checks_nothing (check _ _ _ _ _ _ m _) w e = absurd (omega (arith, m, w))
  Step-checks_nothing (waited _ _) w e = e
  Step-checks_nothing (cancelled _) w e = e
  Step-checks_nothing (elapsed _) w e = e

  -- With a parallelism of zero, for which the channel has no buffer, no check ever ends and none is
  -- at work.
  pub unbuffered_checks_nothing :
      (s : Checks)
      → Steps E c new_checks s
      → c.health_check_parallelism ≡ 0
      → (s.checked ≡ []) × (length s.checking ≡ 0)
  unbuffered_checks_nothing s here z = (refl, refl)
  unbuffered_checks_nothing s (next run st) z =
      let w = Steps-unbuffered run z in
      let w2 = Steps-unbuffered (next run st) z in
      (
        Step-checks_nothing st w (unbuffered_checks_nothing _ run z).0,
        omega (arith, (Steps-IsCounted E c (next run st)).counter, w2),
      )
