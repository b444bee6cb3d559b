-- ===== src/Base/Dict/Mapped.antt =====
-- A map with its values mapped.
use avt_tracker.Base.Dict.{get, set, delete, values}
use avt_tracker.Base.Lists.{list_eq}
use avt_tracker.Base.Tests.{Bool-cases}
use Prim.Native.Nat.{ℕ}
use mathlib.Core.List.{List, [], ◌∷◌, map}
use mathlib.Core.Logic.{inl, inr}
use mathlib.Core.Option.{Option, none, some}
use mathlib.Core.Path.{◌≡◌, refl}

abbrev pub map_option : {A B : Type 0} → (A → B) → Option A → Option B
map_option f none = none
map_option f (some a) = some (f a)

-- The entries with their values mapped.
abbrev pub map_values : {A B : Type 0} → (A → B) → List (List ℕ × A) → List (List ℕ × B)
map_values f [] = []
map_values f ((key, a) ∷ entries) = (key, f a) ∷ map_values f entries

module _ {A B : Type 0} (f : A → B) where
  pub get-map_values :
      (key : List ℕ) (entries : List (List ℕ × A))
      → get key (map_values f entries) ≡ map_option f (get key entries)
  unfolding get
  get-map_values key [] = refl
  get-map_values key ((k, a) ∷ entries) = elim (Bool-cases (list_eq k key)) [
    | inl same ↦ rw same refl
    | inr other ↦ rw other (get-map_values key entries)
  ]

  pub set-map_values :
      (key : List ℕ) (a : A) (entries : List (List ℕ × A))
      → set key (f a) (map_values f entries) ≡ map_values f (set key a entries)
  unfolding set
  set-map_values key a [] = refl
  set-map_values key a ((k, b) ∷ entries) = elim (Bool-cases (list_eq k key)) [
    | inl same ↦ rw same refl
    | inr other ↦ rw other (rw (set-map_values key a entries) refl)
  ]

  pub delete-map_values :
      (key : List ℕ) (entries : List (List ℕ × A))
      → delete key (map_values f entries) ≡ map_values f (delete key entries)
  unfolding delete
  delete-map_values key [] = refl
  delete-map_values key ((k, b) ∷ entries) = elim (Bool-cases (list_eq k key)) [
    | inl same ↦ rw same (delete-map_values key entries)
    | inr other ↦ rw other (rw (delete-map_values key entries) refl)
  ]

pub values-map_values :
    {A B : Type 0} (f : A → B) (entries : List (List ℕ × A))
    → map f (values entries) ≡ values (map_values f entries)
unfolding values
values-map_values f [] = refl
values-map_values f ((k, a) ∷ entries) = rw (values-map_values f entries) refl
