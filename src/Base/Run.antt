-- ===== src/Base/Run.antt =====
-- Code that changes a state and may end early: by an error that it returns, or by a panic. The
-- state outlives both, and it is what the code had made of it by then.
use mathlib.Core.Path.{◌≡◌, refl, sym, ap, ◌∙◌, fun_ext}
use native.Mathlib.Omega.{arith}
use mathlib.Core.List.{List, [], ◌∷◌, ◌++◌}
use cruiser.Base.Outcomes.{Outcome, ok, err, panic, Error}

abbrev pub Run : Type 0 → Type 0 → Type 0
Run S A = S → S × Outcome A

module _ {S A : Type 0} where
  abbrev pub pure : A → Run S A
  pure a s = (s, ok a)

  -- `return err`
  abbrev pub fail : Error → Run S A
  fail e s = (s, err e)

  abbrev pub panics : Run S A
  panics s = (s, panic)

  -- `if err != nil { return err }` behind a call of code that keeps no state here.
  abbrev pub lift : Outcome A → Run S A
  lift o s = (s, o)

module _ {S : Type 0} where
  abbrev pub get : Run S S
  get s = (s, ok s)

  abbrev pub modify : (S → S) → Run S (Unit {0})
  modify f s = (f s, ok tt)

module _ {S A B : Type 0} where
  abbrev pub and_then : S × Outcome A → (A → Run S B) → S × Outcome B
  and_then (s, ok a) f = f a s
  and_then (s, err e) f = (s, err e)
  and_then (s, panic) f = (s, panic)

  infixl 5 ◌>>=◌ ◌>>◌
  abbrev pub ◌>>=◌ : Run S A → (A → Run S B) → Run S B
  ◌>>=◌ m f s = and_then (m s) f

  abbrev pub ◌>>◌ : Run S A → Run S B → Run S B
  ◌>>◌ m n s = and_then (m s) (λ _. n)

  pub and_then-eq-ok :
      (r : S × Outcome A) (f : A → Run S B) {t : S} {b : B}
      → and_then r f ≡ (t, ok b)
      → (s : S) × (a : A) × (r ≡ (s, ok a)) × (f a s ≡ (t, ok b))
  and_then-eq-ok (s, ok a) f e = (s, a, refl, e)
  and_then-eq-ok (s, err x) f e = ground arith
  and_then-eq-ok (s, panic) f e = ground arith

  pub and_then_keeps {ν} :
      (P : S → Type ν) (r : S × Outcome A) (f : A → Run S B)
      → ((a : A) (t : S) → P t → P (f a t).0)
      → P r.0
      → P (and_then r f).0
  and_then_keeps P (s, ok a) f keep p = keep a s p
  and_then_keeps P (s, err x) f keep p = p
  and_then_keeps P (s, panic) f keep p = p

module _ {S K : Type 0} (body : K → Run S (Unit {0})) where
  -- `for _, k := range ks { … }`, whose body may return from the function.
  unfoldable pub for_each : List K → Run S (Unit {0})
  for_each [] = pure tt
  for_each (k ∷ ks) = body k >> for_each ks

  -- What the body keeps, whatever its outcome, the loop keeps.
  pub for_each_keeps {ν} :
      (P : S → Type ν)
      → ((k : K) (s : S) → P s → P (body k s).0)
      → (ks : List K) (s : S) → P s
      → P (for_each ks s).0
  unfolding for_each
  for_each_keeps P keep [] s p = p
  for_each_keeps P keep (k ∷ ks) s p =
      and_then_keeps P (body k s) (λ _. for_each ks) (λ _ t q. for_each_keeps P keep ks t q)
        (keep k s p)

  pub and_then_assoc :
      {A B : Type 0} (r : S × Outcome A) (f : A → Run S B) (g : B → Run S (Unit {0}))
      → and_then (and_then r f) g ≡ and_then r (λ a t. and_then (f a t) g)
  and_then_assoc (s, ok a) f g = refl
  and_then_assoc (s, err e) f g = refl
  and_then_assoc (s, panic) f g = refl

  pub for_each-append :
      (xs ys : List K) (s : S) → for_each (xs ++ ys) s ≡ and_then (for_each xs s) (λ _. for_each ys)
  unfolding for_each
  for_each-append [] ys s = refl
  for_each-append (x ∷ xs) ys s =
      ap (λ f. and_then (body x s) (λ _. f)) (fun_ext (for_each-append xs ys))
      ∙ sym (and_then_assoc (body x s) (λ _. for_each xs) (λ _. for_each ys))

-- A sequence that succeeds is two parts that succeed.
pub and_then-ok :
    {S B : Type 0} (r : S × Outcome (Unit {0})) (f : Unit {0} → Run S B) {b : B}
    → (and_then r f).1 ≡ ok b
    → (r.1 ≡ ok tt) × ((f tt r.0).1 ≡ ok b) × (and_then r f ≡ f tt r.0)
and_then-ok (s, ok _) f e = (refl, e, refl)
and_then-ok (s, err x) f e = cc
and_then-ok (s, panic) f e = cc
