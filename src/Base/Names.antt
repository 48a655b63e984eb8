-- ===== src/Base/Names.antt =====
-- Lists of names as sets: what Go keeps in a `map[string]bool` or a `map[string]struct{}`.
use Prim.Native.Nat.{ℕ, ◌≤◌, ◌<◌, suc}
use Prim.Native.String.{String}
use mathlib.Core.Path.{◌≡◌, refl}
use mathlib.Core.Bool.{Bool, true, false, ◌||◌}
use mathlib.Core.List.{List, [], ◌∷◌, ◌++◌}
use native.Mathlib.Omega.{arith}
use text.Mathlib.Text.{◌==◌}
use text.Mathlib.TextEquality.{eq_iff}
use mathlib.Core.Logic.{inl, inr}
use cruiser.Base.Tests.{if◌then◌else◌, length, Bool-cases}
use cruiser.Base.Loop.{All}

-- Is `k` in the set?
unfoldable pub mem : String → List String → Bool
mem k [] = false
mem k (x ∷ xs) = x == k || mem k xs

-- No name occurs twice.
abbrev pub Distinct : List String → Type 0
Distinct [] = Unit
Distinct (x ∷ xs) = (mem x xs ≡ false) × Distinct xs

pub mem-cons : (k x : String) (xs : List String) → mem k (x ∷ xs) ≡ (x == k || mem k xs)
unfolding mem
mem-cons k x xs = refl

pub mem-nil : (k : String) → mem k [] ≡ false
unfolding mem
mem-nil k = refl

pub mem_self : (k : String) (xs : List String) → mem k (k ∷ xs) ≡ true
unfolding mem
mem_self k xs = ground (arith, eq_iff k k)

pub mem-tail : (k x : String) (xs : List String) → mem k xs ≡ true → mem k (x ∷ xs) ≡ true
unfolding mem
mem-tail k x xs h = ground (arith)

pub mem-append : (k : String) (xs ys : List String) → mem k (xs ++ ys) ≡ (mem k xs || mem k ys)
unfolding mem
mem-append k [] ys = refl
mem-append k (x ∷ xs) ys = ground (arith, mem-append k xs ys)

-- How many of the names are not in the set.
unfoldable pub unseen : List String → List String → ℕ
unseen [] seen = 0
unseen (x ∷ xs) seen = if mem x seen then unseen xs seen else suc (unseen xs seen)

-- A larger set leaves no more names out.
pub unseen_mono :
    (names seen larger : List String)
    → ((k : String) → mem k seen ≡ true → mem k larger ≡ true)
    → unseen names larger ≤ unseen names seen
unfolding unseen
unseen_mono [] seen larger h = omega arith
unseen_mono (x ∷ xs) seen larger h = ground (arith, h x, unseen_mono xs seen larger h)

-- A set that gains one of the names leaves fewer out.
pub unseen_lt :
    (names seen : List String) (k : String)
    → mem k names ≡ true
    → mem k seen ≡ false
    → unseen names (k ∷ seen) < unseen names seen
unfolding unseen mem
unseen_lt [] seen k h n = ground arith
unseen_lt (x ∷ xs) seen k h n = ground (
  arith,
  eq_iff x k,
  eq_iff k x,
  unseen_lt xs seen k,
  unseen_mono xs seen (k ∷ seen) (λ j m. mem-tail j k seen m),
)

pub unseen_nil : (names : List String) → unseen names [] ≤ length names
unfolding unseen mem
unseen_nil [] = omega arith
unseen_nil (x ∷ xs) = omega (arith, unseen_nil xs)

pub All-mem {κ} :
    (P : String → Type κ) (xs : List String) (k : String) → All P xs → mem k xs ≡ true → P k
unfolding mem
All-mem P [] k a m = cc
All-mem P (x ∷ xs) k a m = elim (Bool-cases (x == k)) [
  | inl same ↦ rw ((eq_iff x k).0 same) at (a.0)
  | inr other ↦ All-mem P xs k a.1 (rw other at m)
]
