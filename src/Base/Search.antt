-- ===== src/Base/Search.antt =====
-- `Buffer.indexOf` of one byte, and the big-endian 16-bit read that goes by an index.
use avt_tracker.Base.Lists.{take, length, get_elem?, get_or, drop}
use avt_tracker.Base.Tests.{◌==◌, if◌then◌else◌}
use Prim.Native.Nat.{ℕ, zero, suc, ◌+◌, ◌*◌, ◌<◌}
use mathlib.Core.List.{List, [], ◌∷◌, ◌++◌}
use mathlib.Core.Option.{Option, none, some}
use mathlib.Core.Path.{◌≡◌, refl, ap}
use native.Mathlib.Omega.{arith}

abbrev pub shift : Option ℕ → Option ℕ
shift none = none
shift (some i) = some (suc i)

-- `bytes.indexOf(b)`, with `none` for -1.
abbrev pub index_of : ℕ → List ℕ → Option ℕ
index_of b [] = none
index_of b (x ∷ xs) = if x == b then some 0 else shift (index_of b xs)

abbrev pub plus : ℕ → Option ℕ → Option ℕ
plus k none = none
plus k (some i) = some (k + i)

-- `bytes.indexOf(b, from)`
abbrev pub index_of_from : ℕ → ℕ → List ℕ → Option ℕ
index_of_from b from xs = plus from (index_of b (drop from xs))

-- `bytes.readUInt16BE(i)`
abbrev pub uint16_at : List ℕ → ℕ → ℕ
uint16_at xs i = get_or xs i 0 * 256 + get_or xs (i + 1) 0

pub index_of-bound : (b : ℕ) (xs : List ℕ) (i : ℕ) → index_of b xs ≡ some i → i < length xs
index_of-bound b [] i h = cc
index_of-bound b (x ∷ xs) zero h = omega arith
index_of-bound b (x ∷ xs) (suc i) h = ground (arith, index_of-bound b xs i)

pub index_of-found :
    (b : ℕ) (xs : List ℕ) (i : ℕ) → index_of b xs ≡ some i → get_elem? xs i ≡ some b
index_of-found b [] i h = cc
index_of-found b (x ∷ xs) zero h = ground arith
index_of-found b (x ∷ xs) (suc i) h = ground (arith, index_of-found b xs i)

pub index_of-append_absent :
    (b : ℕ) (xs ys : List ℕ)
    → index_of b xs ≡ none
    → index_of b (xs ++ ys) ≡ plus (length xs) (index_of b ys)
index_of-append_absent b [] ys h = ground arith
index_of-append_absent b (x ∷ xs) ys h = ground (arith, index_of-append_absent b xs ys)

pub index_of-append_found :
    (b : ℕ) (xs ys : List ℕ) (i : ℕ) → index_of b xs ≡ some i → index_of b (xs ++ ys) ≡ some i
index_of-append_found b [] ys i h = cc
index_of-append_found b (x ∷ xs) ys zero h = ground arith
index_of-append_found b (x ∷ xs) ys (suc i) h = ground (arith, index_of-append_found b xs ys i)

-- A byte that a longer text does not hold is not in its front part.
pub index_of-front_absent :
    (b : ℕ) (xs ys : List ℕ) → index_of b (xs ++ ys) ≡ none → index_of b xs ≡ none
index_of-front_absent b [] ys h = refl
index_of-front_absent b (x ∷ xs) ys h = ground (arith, index_of-front_absent b xs ys)

pub get_elem?-drop :
    {A : Type 0} (n i : ℕ) (xs : List A) → get_elem? (drop n xs) i ≡ get_elem? xs (n + i)
get_elem?-drop zero i xs = ap (get_elem? xs) (omega arith)
get_elem?-drop (suc n) i [] = refl
get_elem?-drop (suc n) i (x ∷ xs) =
    let e : suc n + i ≡ suc (n + i) = omega arith in rw e (get_elem?-drop n i xs)

pub get_elem?-of-get_or :
    (xs : List ℕ) (i v : ℕ) → get_or xs i 0 ≡ suc v → get_elem? xs i ≡ some (suc v)
get_elem?-of-get_or [] i v h = absurd (omega arith)
get_elem?-of-get_or (x ∷ xs) zero v h = ap some h
get_elem?-of-get_or (x ∷ xs) (suc i) v h = get_elem?-of-get_or xs i v h

pub get_elem?-take :
    {A : Type 0} (n i : ℕ) (xs : List A) → i < n → get_elem? (take n xs) i ≡ get_elem? xs i
get_elem?-take zero i xs h = elim h [ ]
get_elem?-take (suc n) i [] h = refl
get_elem?-take (suc n) zero (x ∷ xs) h = refl
get_elem?-take (suc n) (suc i) (x ∷ xs) h = get_elem?-take n i xs (omega arith)

-- The text around the first occurrence.
pub index_of-split :
    (b : ℕ) (xs : List ℕ) (i : ℕ)
    → index_of b xs ≡ some i
    → (xs ≡ take i xs ++ (b ∷ drop (suc i) xs)) × (index_of b (take i xs) ≡ none)
index_of-split b [] i h = cc
index_of-split b (x ∷ xs) zero h = (ground arith, refl)
index_of-split b (x ∷ xs) (suc i) h =
    let (split, absent) = index_of-split b xs i (ground arith) in
    (ap (λ t. x ∷ t) split, ground arith)

pub get_or-append_self :
    (xs ys : List ℕ) (i d : ℕ) → get_or (xs ++ ys) (length xs + i) d ≡ get_or ys i d
get_or-append_self [] ys i d = ap (λ (k : ℕ). get_or ys k d) (omega arith)
get_or-append_self (x ∷ xs) ys i d =
    let e : suc (length xs) + i ≡ suc (length xs + i) = omega arith in
    rw e (get_or-append_self xs ys i d)

-- A search window that reaches past the front part finds the byte behind it.
pub index_of-take_append :
    (b n : ℕ) (xs ys : List ℕ)
    → length xs < n
    → index_of b xs ≡ none
    → index_of b (take n (xs ++ (b ∷ ys))) ≡ some (length xs)
index_of-take_append b zero xs ys h e = elim h [ ]
index_of-take_append b (suc n) [] ys h e = ground arith
index_of-take_append b (suc n) (x ∷ xs) ys h e = ground (arith, index_of-take_append b n xs ys)
