-- ===== src/Base/Dict/Keys.antt =====
-- What a map has, by its keys alone.
use avt_tracker.Base.Dict.{get, has, keys}
use avt_tracker.Base.Lists.{list_eq}
use avt_tracker.Base.Tests.{Bool-cases}
use Prim.Native.Nat.{ℕ}
use mathlib.Core.Bool.{Bool, true, false, ◌||◌}
use mathlib.Core.List.{List, [], ◌∷◌}
use mathlib.Core.Logic.{inl, inr}
use mathlib.Core.Option.{Option, none, some}
use mathlib.Core.Path.{◌≡◌, refl}

-- `set.has(key)`, for the keys that were put in.
abbrev pub in_set : List ℕ → List (List ℕ) → Bool
in_set key [] = false
in_set key (k ∷ ks) = list_eq k key || in_set key ks

-- `value != null`
abbrev pub is_given {ℓ} : {A : Type ℓ} → Option A → Bool
is_given none = false
is_given (some a) = true

module _ {ℓ} {V : Type ℓ} where
  pub has-keys : (key : List ℕ) (map : List (List ℕ × V)) → has key map ≡ in_set key (keys map)
  unfolding has keys
  has-keys key [] = refl
  has-keys key ((k, v) ∷ map) = rw (has-keys key map) refl

  pub is_given-get :
      (key : List ℕ) (map : List (List ℕ × V)) → is_given (get key map) ≡ in_set key (keys map)
  unfolding get keys
  is_given-get key [] = refl
  is_given-get key ((k, v) ∷ map) = elim (Bool-cases (list_eq k key)) [
    | inl same ↦ rw same refl
    | inr other ↦ rw other (is_given-get key map)
  ]
