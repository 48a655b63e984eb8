-- ===== src/Base/Loop.antt =====
-- A `for` loop whose body may stop it, by recursion on the list, and its two proof rules.
use mathlib.Core.Path.{◌≡◌, refl}
use mathlib.Core.Option.{Option, none, some, some-injective}
use mathlib.Core.List.{List, [], ◌∷◌}

infixl 5 ◌>>=◌
abbrev pub ◌>>=◌ {ℓ κ} : {A : Type ℓ} {B : Type κ} → Option A → (A → Option B) → Option B
none >>= f = none
some a >>= f = f a

pub >>=-eq-some {ℓ κ} :
    {A : Type ℓ} {B : Type κ} (m : Option A) (f : A → Option B) {b : B}
    → (m >>= f) ≡ some b
    → (a : A) × (m ≡ some a) × (f a ≡ some b)
>>=-eq-some none f e = cc
>>=-eq-some (some a) f e = (a, refl, e)

abbrev pub All {ℓ κ} : {A : Type ℓ} → (A → Type κ) → List A → Type κ
All P [] = Unit
All P (x ∷ xs) = P x × All P xs

module _ {ℓ κ} {K : Type ℓ} {S : Type κ} (body : K → S → Option S) where
  unfoldable pub each : List K → S → Option S
  each [] s = some s
  each (k ∷ ks) s = body k s >>= each ks

  -- An invariant of the body is one of the loop.
  pub each_keeps {μ ν} :
      (Ok : K → Type μ) (P : S → Type ν)
      → ((k : K) (s t : S) → Ok k → P s → body k s ≡ some t → P t)
      → (ks : List K) (s : S) {t : S} → All Ok ks
      → P s
      → each ks s ≡ some t
      → P t
  unfolding each
  each_keeps Ok P step [] s a p e = rw (some-injective s _ e) at p
  each_keeps Ok P step (k ∷ ks) s a p e =
      let (m, first, later) = >>=-eq-some (body k s) (each ks) e in
      each_keeps Ok P step ks m a.1 (step k s m a.0 p first) later

-- A body that always returns, in a state related to the one that it began in and with its own
-- item done, makes a loop that returns with every item done.
module _ {ℓ κ μ} {K : Type ℓ} {S : Type κ} (Rel : S → S → Type μ) (rel_refl : (s : S) → Rel s s)
    (rel_trans : (s t u : S) → Rel s t → Rel t u → Rel s u) where
  pub each_returns {ν ξ ο} :
      (body : K → S → Option S) (Ok : K → Type ν) (P : S → Type ξ) (Done : K → S → Type ο)
      → ((k : K) (s t : S) → Rel s t → Done k s → Done k t)
      → ((k : K) (s : S) → Ok k → P s → (t : S) × (body k s ≡ some t) × P t × Rel s t × Done k t)
      → (ks : List K) (s : S) → All Ok ks
      → P s
      → (t : S) × (each body ks s ≡ some t) × P t × Rel s t × All (λ k. Done k t) ks
  unfolding each
  each_returns body Ok P Done stays step [] s a p = (s, refl, p, rel_refl s, tt)
  each_returns body Ok P Done stays step (k ∷ ks) s a p =
      let (m, first, pm, rm, dm) = step k s a.0 p in
      let (t, later, pt, rt, dt) = each_returns body Ok P Done stays step ks m a.1 pm in
      (t, rw first later, pt, rel_trans s m t rm rt, (stays k m t rt dm, dt))
