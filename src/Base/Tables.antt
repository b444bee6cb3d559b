-- ===== src/Base/Tables.antt =====
-- Two tables of texts, compared row by row by evaluation.
use avt_tracker.Base.Lists.{list_eq, list_eq→eq}
use avt_tracker.Base.Tests.{◌==◌, Bool-cases}
use Prim.Native.Nat.{ℕ, zero, suc, ◌<◌}
use mathlib.Core.Bool.{Bool, true, ◌&&◌}
use mathlib.Core.List.{List}
use mathlib.Core.Logic.{inl, inr}
use mathlib.Core.Path.{◌≡◌}
use native.Mathlib.Omega.{arith}

module _ (f g : ℕ → List ℕ) where
  -- Whether the rows with an index below the bound are the same.
  unfoldable pub same_rows : (bound : ℕ) → Bool
  same_rows zero = true
  same_rows (suc last) = list_eq (f last) (g last) && same_rows last

  pub texts_agree : (bound : ℕ) → same_rows bound ≡ true → (row : ℕ) → row < bound → f row ≡ g row
  unfolding same_rows
  texts_agree zero all row below = elim below [ ]
  texts_agree (suc last) all row below = elim (Bool-cases (row == last)) [
    | inl e ↦
        let same : row ≡ last = ground arith in
        rw same (list_eq→eq (f last) (g last) (ground arith))
    | inr e ↦ texts_agree last (ground arith) row (ground arith)
  ]
