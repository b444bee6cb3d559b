-- ===== src/Base/Picks.antt =====
-- Items that are counted, and items that are taken out of a list at a place.
use avt_tracker.Base.Lists.{length}
use avt_tracker.Base.Tests.{if◌then◌else◌}
use Prim.Native.Nat.{ℕ, zero, suc, ◌+◌, ◌<◌}
use mathlib.Core.Bool.{Bool}
use mathlib.Core.List.{List, [], ◌∷◌, ◌++◌}
use mathlib.Core.Logic.{◌⊎◌, inl, inr}
use mathlib.Core.Option.{Option, none, some}
use mathlib.Core.Path.{◌≡◌, refl}
use native.Mathlib.Omega.{arith}

-- The item at a place, and the others.
abbrev pub pick : {A : Type 0} → ℕ → List A → Option (A × List A)
pick n [] = none
pick zero (x ∷ xs) = some (x, xs)
pick (suc n) (x ∷ xs) = behind x (pick n xs)
  where
    behind : {A : Type 0} → A → Option (A × List A) → Option (A × List A)
    behind x none = none
    behind x (some (y, ys)) = some (y, x ∷ ys)

-- How many items pass a test.
unfoldable pub count_if : {A : Type 0} → (A → Bool) → List A → ℕ
count_if test [] = 0
count_if test (x ∷ xs) = (if test x then 1 else 0) + count_if test xs

pub count_if-append :
    {A : Type 0} (test : A → Bool) (xs ys : List A)
    → count_if test (xs ++ ys) ≡ count_if test xs + count_if test ys
unfolding count_if
count_if-append test [] ys = omega arith
count_if-append test (x ∷ xs) ys = omega (arith, count_if-append test xs ys)

-- A list is one item and the others, in order.
pub data Picks {A : Type 0} : List A → A → List A → Type 0 where
  here : (x : A) (xs : List A) → Picks (x ∷ xs) x xs
  there : (x y : A) (xs ys : List A) → Picks xs y ys → Picks (x ∷ xs) y (x ∷ ys)

pub pick-cases :
    {A : Type 0} (n : ℕ) (xs : List A)
    → (pick n xs ≡ none) ⊎ ((y : A) × (ys : List A) × (pick n xs ≡ some (y, ys)) × Picks xs y ys)
pick-cases n [] = inl refl
pick-cases zero (x ∷ xs) = inr (x, xs, refl, here x xs)
pick-cases (suc n) (x ∷ xs) = elim (pick-cases n xs) [
  | inl absent ↦ inl (rw absent refl)
  | inr (y, ys, found, p) ↦ inr (y, x ∷ ys, rw found refl, there x y xs ys p)
]

pub pick-found :
    {A : Type 0} (n : ℕ) (xs : List A)
    → n < length xs
    → (y : A) × (ys : List A) × (pick n xs ≡ some (y, ys)) × Picks xs y ys
pick-found n [] h = elim h [ ]
pick-found zero (x ∷ xs) h = (x, xs, refl, here x xs)
pick-found (suc n) (x ∷ xs) h =
    let (y, ys, found, p) = pick-found n xs (omega arith) in
    (y, x ∷ ys, rw found refl, there x y xs ys p)

pub length-Picks :
    {A : Type 0} (xs : List A) (y : A) (ys : List A) → Picks xs y ys → length xs ≡ suc (length ys)
length-Picks _ _ _ (here x xs) = refl
length-Picks _ _ _ (there x y xs ys p) = omega (arith, length-Picks xs y ys p)
