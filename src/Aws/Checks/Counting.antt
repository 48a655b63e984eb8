-- ===== src/Aws/Checks/Counting.antt =====
-- Where the handlers are that were handed to a round, and what the wait group counts.
use mathlib.Core.Path.{subst}
use cruiser.Base.{
  ℕ, ◌+◌, ◌≤◌, Bool, true, false, List, [], ◌∷◌, ◌++◌, length, ◌≡◌, refl, sym, ap, ◌∙◌, arith,
}
use cruiser.Proto.{Handler}
use cruiser.Aws.Health.{HealthEnv}
use cruiser.Aws.Checks.{
  Config, Round, ended, sending, adding, selecting, Checks, new_checks, Step, ignored, first, stop,
  stopped, send, hand_over, add, sent, receive, check, waited, cancelled, elapsed, Steps, here,
  next,
}

abbrev weight : Bool → ℕ
weight true = 1
weight false = 0

-- How many of the handlers meet a test.
unfoldable pub count : (Handler → Bool) → List Handler → ℕ
count p [] = 0
count p (h ∷ hs) = weight (p h) + count p hs

pub count-append :
    (p : Handler → Bool) (xs ys : List Handler) → count p (xs ++ ys) ≡ count p xs + count p ys
unfolding count
count-append p [] ys = omega arith
count-append p (x ∷ xs) ys = omega (arith, count-append p xs ys)

count-cons :
    (p : Handler → Bool) (h : Handler) (hs : List Handler)
    → count p (h ∷ hs) ≡ count p (h ∷ []) + count p hs
unfolding count
count-cons p h hs = omega arith

count-nil : (p : Handler → Bool) → count p [] ≡ 0
unfolding count
count-nil p = refl

pub length-append : (xs ys : List Handler) → length (xs ++ ys) ≡ length xs + length ys
length-append [] ys = omega arith
length-append (x ∷ xs) ys = omega (arith, length-append xs ys)

pub count-zero : (p : Handler → Bool) (hs : List Handler) → length hs ≡ 0 → count p hs ≡ 0
count-zero p [] e = count-nil p
count-zero p (h ∷ hs) e = absurd (omega (arith, e))

-- The handlers that a round has not sent.
abbrev pub left_of : Round → List Handler
left_of (sending left) = left
left_of (adding left) = left
left_of _ = []

-- The goroutines that it has yet to start for the handlers that it has sent.
abbrev pub to_start : Round → ℕ
to_start (adding left) = 1
to_start _ = 0

-- Whether the round has started nothing yet, or waited for all that it has started.
abbrev pub IsIdle : Round → Type 0
IsIdle ended = Unit
IsIdle selecting = Unit
IsIdle _ = ⊥

-- Every handler that was handed to a round is at one place: not sent yet, in the buffer, being
-- checked or checked.
pub record IsCounted (c : Config) (s : Checks) : Type 0 where
  pub counter : s.wg ≡ s.receiving + length s.checking
  pub received : s.receiving + to_start s.round ≡ length s.buffer
  pub bounded : length s.buffer ≤ c.health_check_parallelism
  pub whole :
      (p : Handler → Bool)
      → count p s.asked
        ≡ count p (left_of s.round) + count p s.buffer + count p s.checking + count p s.checked
  pub idle : IsIdle s.round → s.wg ≡ 0
  pub unmade : s.stop_made ≡ false → s.round ≡ ended

new_checks-IsCounted : (c : Config) → IsCounted c new_checks
unfolding count
new_checks-IsCounted c = record {
  counter = refl;
  received = refl;
  bounded = omega arith;
  whole = λ p. refl;
  idle = λ _. refl;
  unmade = λ _. refl;
}

-- A round that is handed its handlers when it has none.
start_round :
    (p : Handler → Bool) (s : Checks) (handlers : List Handler) {c : Config}
    → IsCounted c s
    → left_of s.round ≡ []
    → count p (s.asked ++ handlers)
      ≡ count p handlers + count p s.buffer + count p s.checking + count p s.checked
start_round p s handlers n e =
    omega (arith, count-append p s.asked handlers, n.whole p, ap (count p) e ∙ count-nil p)

module _ (E : HealthEnv) (c : Config) where
  pub Step-IsCounted : {s t : Checks} → Step E c s t → IsCounted c s → IsCounted c t
  Step-IsCounted (ignored handlers _ _) n = n
  Step-IsCounted {s} (first handlers _ _ m) n = record {
    counter = n.counter;
    received = ap (λ r. s.receiving + to_start r) (sym (n.unmade m)) ∙ n.received;
    bounded = n.bounded;
    whole = λ p. start_round p s handlers n (ap left_of (n.unmade m));
    idle = λ i. absurd i;
    unmade = λ i. cc;
  }
  Step-IsCounted (stop handlers _ _ _) n = record {
    counter = n.counter;
    received = n.received;
    bounded = n.bounded;
    whole = n.whole;
    idle = n.idle;
    unmade = n.unmade;
  }
  Step-IsCounted {s} (stopped handlers _ r) n = record {
    counter = n.counter;
    received = ap (λ r. s.receiving + to_start r) (sym r) ∙ n.received;
    bounded = n.bounded;
    whole = λ p. start_round p s handlers n (ap left_of r);
    idle = λ i. absurd i;
    unmade = λ i. let q = n.unmade i in cc;
  }
  Step-IsCounted {s} (send h left r lt) n = record {
    counter = n.counter;
    received = omega (arith, n.received, ap to_start r, length-append s.buffer (h ∷ []));
    bounded = omega (arith, lt, length-append s.buffer (h ∷ []));
    whole = λ p. omega (
      arith,
      n.whole p,
      ap (λ r. count p (left_of r)) r,
      count-cons p h left,
      count-append p s.buffer (h ∷ []),
    );
    idle = λ i. absurd i;
    unmade = λ i. let q = n.unmade i in cc;
  }
  Step-IsCounted {s} (hand_over h left r e z m) n = record {
    counter = omega (arith, n.counter, m);
    received = omega (arith, n.received, ap to_start e, m);
    bounded = n.bounded;
    whole = λ p. omega (
      arith,
      n.whole p,
      ap (λ r. count p (left_of r)) e,
      count-cons p h left,
      count-cons p h s.checking,
    );
    idle = λ i. absurd i;
    unmade = λ i. let q = n.unmade i in cc;
  }
  Step-IsCounted (add left e) n = record {
    counter = omega (arith, n.counter);
    received = omega (arith, n.received, ap to_start e);
    bounded = n.bounded;
    whole = λ p. omega (arith, n.whole p, ap (λ r. count p (left_of r)) e);
    idle = λ i. absurd i;
    unmade = λ i. let q = n.unmade i in cc;
  }
  Step-IsCounted (sent e) n = record {
    counter = n.counter;
    received = omega (arith, n.received, ap to_start e);
    bounded = n.bounded;
    whole = λ p. omega (arith, n.whole p, ap (λ r. count p (left_of r)) e);
    idle = λ i. absurd i;
    unmade = λ i. let q = n.unmade i in cc;
  }
  Step-IsCounted {s} (receive h rest r b m) n = record {
    counter = omega (arith, n.counter, m);
    received = omega (arith, n.received, ap length b, m);
    bounded = omega (arith, n.bounded, ap length b);
    whole = λ p.
        omega (arith, n.whole p, ap (count p) b, count-cons p h rest, count-cons p h s.checking);
    idle = n.idle;
    unmade = n.unmade;
  }
  Step-IsCounted {s} (check before h after w answer e m _) n = record {
    counter = omega (
      arith,
      n.counter,
      m,
      ap length e,
      length-append before (h ∷ after),
      length-append before after,
    );
    received = n.received;
    bounded = n.bounded;
    whole = λ p. omega (
      arith,
      n.whole p,
      ap (count p) e,
      count-append p before (h ∷ after),
      count-append p before after,
      count-cons p h after,
      count-cons p h s.checked,
    );
    idle = λ i. omega (arith, n.idle i, m);
    unmade = n.unmade;
  }
  Step-IsCounted (waited e z) n = record {
    counter = n.counter;
    received = omega (arith, n.received, ap to_start e);
    bounded = n.bounded;
    whole = λ p. omega (arith, n.whole p, ap (λ r. count p (left_of r)) e);
    idle = λ _. z;
    unmade = λ i. let q = n.unmade i in cc;
  }
  Step-IsCounted (cancelled e) n = record {
    counter = n.counter;
    received = omega (arith, n.received, ap to_start e);
    bounded = n.bounded;
    whole = λ p. omega (arith, n.whole p, ap (λ r. count p (left_of r)) e);
    idle = λ _. n.idle (subst IsIdle (sym e) tt);
    unmade = λ _. refl;
  }
  Step-IsCounted (elapsed e) n = record {
    counter = n.counter;
    received = omega (arith, n.received, ap to_start e);
    bounded = n.bounded;
    whole = λ p. omega (arith, n.whole p, ap (λ r. count p (left_of r)) e);
    idle = λ _. n.idle (subst IsIdle (sym e) tt);
    unmade = λ _. refl;
  }

  pub Steps-IsCounted : {t : Checks} → Steps E c new_checks t → IsCounted c t
  Steps-IsCounted here = new_checks-IsCounted c
  Steps-IsCounted (next run st) = Step-IsCounted st (Steps-IsCounted run)
