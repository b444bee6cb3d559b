-- ===== src/Base/Dict.antt =====
-- JavaScript's `Map` with text keys: pairs in insertion order.
pub mod Mapped
pub mod Keys
use avt_tracker.Base.Lists.{list_eq, list_eq→eq, list_eq_refl}
use avt_tracker.Base.Tests.{Option-cases, if◌then◌else◌, Bool-cases}
use Prim.Native.Nat.{ℕ}
use mathlib.Core.Bool.{◌||◌, Bool, false}
use mathlib.Core.List.{List, [], ◌∷◌}
use mathlib.Core.Logic.{◌⊎◌, inl, inr}
use mathlib.Core.Option.{Option, none, some}
use mathlib.Core.Path.{◌≡◌, refl, ap, sym, ◌∙◌}
use native.Mathlib.Omega.{arith}

module _ {ℓ} {V : Type ℓ} where
  -- `map.get(key)`
  pub get : List ℕ → List (List ℕ × V) → Option V
  get key [] = none
  get key ((k, v) ∷ map) = if list_eq k key then some v else get key map

  -- `map.set(key, value)`: a key that is there keeps its place.
  pub set : List ℕ → V → List (List ℕ × V) → List (List ℕ × V)
  set key value [] = (key, value) ∷ []
  set key value ((k, v) ∷ map) =
      if list_eq k key then (k, value) ∷ map else (k, v) ∷ set key value map

  -- `map.delete(key)`
  pub delete : List ℕ → List (List ℕ × V) → List (List ℕ × V)
  delete key [] = []
  delete key ((k, v) ∷ map) = if list_eq k key then delete key map else (k, v) ∷ delete key map

  -- `[...map.keys()]`
  unfoldable pub keys : List (List ℕ × V) → List (List ℕ)
  keys [] = []
  keys ((k, v) ∷ map) = k ∷ keys map

  pub get-set_same :
      (key : List ℕ) (value : V) (map : List (List ℕ × V))
      → get key (set key value map) ≡ some value
  unfolding get set
  get-set_same key value [] = rw (list_eq_refl key)
  get-set_same key value ((k, v) ∷ map) = elim (Bool-cases (list_eq k key)) [
    | inl same ↦ rw (same, same)
    | inr differs ↦ rw (differs, differs) (get-set_same key value map)
  ]

  pub get-set_other :
      (key other : List ℕ) (value : V) (map : List (List ℕ × V))
      → list_eq key other ≡ false
      → get other (set key value map) ≡ get other map
  unfolding get set
  get-set_other key other value [] h = rw h
  get-set_other key other value ((k, v) ∷ map) h = elim (Bool-cases (list_eq k key)) [
    | inl same ↦
        let miss : list_eq k other ≡ false = rw (list_eq→eq k key same) h in rw (same, miss)
    | inr differs ↦ rw (differs, get-set_other key other value map h)
  ]

  pub get-delete_same : (key : List ℕ) (map : List (List ℕ × V)) → get key (delete key map) ≡ none
  unfolding get delete
  get-delete_same key [] = refl
  get-delete_same key ((k, v) ∷ map) = elim (Bool-cases (list_eq k key)) [
    | inl same ↦ rw same (get-delete_same key map)
    | inr differs ↦ rw (differs, differs) (get-delete_same key map)
  ]

  pub get-delete_other :
      (key other : List ℕ) (map : List (List ℕ × V))
      → list_eq key other ≡ false
      → get other (delete key map) ≡ get other map
  unfolding get delete
  get-delete_other key other [] h = refl
  get-delete_other key other ((k, v) ∷ map) h = elim (Bool-cases (list_eq k key)) [
    | inl same ↦
        let miss : list_eq k other ≡ false = rw (list_eq→eq k key same) h in
        rw (same, miss) (get-delete_other key other map h)
    | inr differs ↦ rw (differs, get-delete_other key other map h)
  ]

-- The keys of a map after `set` and `delete`, from the keys alone.
pub with_key : List ℕ → List (List ℕ) → List (List ℕ)
with_key key [] = key ∷ []
with_key key (k ∷ ks) = if list_eq k key then k ∷ ks else k ∷ with_key key ks

pub without_key : List ℕ → List (List ℕ) → List (List ℕ)
without_key key [] = []
without_key key (k ∷ ks) = if list_eq k key then without_key key ks else k ∷ without_key key ks

module _ {ℓ} {V : Type ℓ} where
  pub keys-set :
      (key : List ℕ) (value : V) (map : List (List ℕ × V))
      → keys (set key value map) ≡ with_key key (keys map)
  unfolding keys set with_key
  keys-set key value [] = refl
  keys-set key value ((k, v) ∷ map) = ground (arith, keys-set key value map)

  pub keys-delete :
      (key : List ℕ) (map : List (List ℕ × V)) → keys (delete key map) ≡ without_key key (keys map)
  unfolding keys delete without_key
  keys-delete key [] = refl
  keys-delete key ((k, v) ∷ map) = ground (arith, keys-delete key map)

-- `map.has(key)`
pub has {ℓ} : {V : Type ℓ} → List ℕ → List (List ℕ × V) → Bool
has key [] = false
has key ((k, v) ∷ map) = list_eq k key || has key map

-- `[...map.values()]`
pub values {ℓ} : {V : Type ℓ} → List (List ℕ × V) → List V
values [] = []
values ((k, v) ∷ map) = v ∷ values map

pub has-delete_same {ℓ} :
    {V : Type ℓ} (key : List ℕ) (map : List (List ℕ × V)) → has key (delete key map) ≡ false
unfolding has delete
has-delete_same key [] = refl
has-delete_same key ((k, v) ∷ map) = elim (Bool-cases (list_eq k key)) [
  | inl same ↦ rw same (has-delete_same key map)
  | inr differs ↦ rw (differs, differs) (has-delete_same key map)
]

-- Setting a key that is there leaves the keys as they are.
pub keys-set_present {ℓ} :
    {V : Type ℓ} (key : List ℕ) (value v : V) (map : List (List ℕ × V))
    → get key map ≡ some v
    → keys (set key value map) ≡ keys map
unfolding keys set get
keys-set_present key value v [] h = cc
keys-set_present key value v ((k, u) ∷ map) h = elim (Bool-cases (list_eq k key)) [
  | inl same ↦ rw same
  | inr differs ↦
      let further : get key ((k, u) ∷ map) ≡ get key map = rw differs in
      rw differs
        (ap (λ (ks : List (List ℕ)). k ∷ ks) (keys-set_present key value v map (sym further ∙ h)))
]

pub get-cases {ℓ} :
    {W : Type ℓ} (key : List ℕ) (map : List (List ℕ × W))
    → (get key map ≡ none) ⊎ ((w : W) × (get key map ≡ some w))
get-cases key map = Option-cases (get key map)
