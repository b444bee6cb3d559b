-- ===== src/Storage/Columns.antt =====
-- A column of a table of devices over a sequence of upserts.
use avt_tracker.Base.{
  ◌++◌, list_eq→eq, List, [], ◌∷◌, Option, none, some, ◌≡◌, list_eq, Bool-cases, inl, inr, refl,
  ◌∙◌, if◌then◌else◌,
}
use avt_tracker.Base.Text.{Text}
use avt_tracker.Storage.{Schema, DeviceRepository, given_or, upserted}
use mathlib.Core.Path.{subst}

-- The last value that is given.
abbrev pub last_given : {A : Type 0} → List (Option A) → Option A
last_given [] = none
last_given (value ∷ values) = given_or (last_given values) value

module _ (schema : Schema) where
  -- A nullable column that a patch sets when it names it, and that is null in a new row.
  pub record Column : Type 1 where
    pub Value : Type 0
    pub in_row : schema.Row → Option Value
    pub in_patch : schema.Patch → Option Value
    pub null_first : (key : Text) → in_row (schema.blank key) ≡ none
    pub set_or_kept :
        (patch : schema.Patch) (row : schema.Row)
        → in_row (schema.patched patch row) ≡ given_or (in_patch patch) (in_row row)

  -- The values that the patches of one device give.
  abbrev pub values_for : (c : Column) → Text → List schema.Patch → List (Option c.Value)
  values_for c key [] = []
  values_for c key (patch ∷ patches) =
      if list_eq (schema.key patch) key
      then c.in_patch patch ∷ values_for c key patches
      else values_for c key patches

  module _ (repository : DeviceRepository schema) where
    abbrev pub upsert_all : List schema.Patch → repository.Table → repository.Table
    upsert_all [] table = table
    upsert_all (patch ∷ patches) table = upsert_all patches (repository.upsert patch table)

    pub upsert_all-append :
        (xs ys : List schema.Patch) (table : repository.Table)
        → upsert_all (xs ++ ys) table ≡ upsert_all ys (upsert_all xs table)
    upsert_all-append [] ys table = refl
    upsert_all-append (x ∷ xs) ys table = upsert_all-append xs ys (repository.upsert x table)

    -- The column of a row that may not be there.
    abbrev pub column_in : (c : Column) → Option schema.Row → Option c.Value
    column_in c none = none
    column_in c (some row) = c.in_row row

    column_in-upserted :
        (c : Column) (patch : schema.Patch) (before : Option schema.Row)
        → c.in_row (upserted schema patch before) ≡ given_or (c.in_patch patch) (column_in c before)
    column_in-upserted c patch none =
        c.set_or_kept patch (schema.blank (schema.key patch))
        ∙ rw (c.null_first (schema.key patch)) refl
    column_in-upserted c patch (some row) = c.set_or_kept patch row

    given_or_assoc :
        {A : Type 0} (x y z : Option A) → given_or x (given_or y z) ≡ given_or (given_or x y) z
    given_or_assoc none y z = refl
    given_or_assoc (some a) y z = refl

    -- After any upserts the column of a device holds the last value that one of the device's patches
    -- gave, or, if none did, what it held before.
    pub column-upsert_all :
        (c : Column) (key : Text) (patches : List schema.Patch) (table : repository.Table)
        → column_in c (repository.find_one_by key (upsert_all patches table))
          ≡ given_or
              (last_given (values_for c key patches))
              (column_in c (repository.find_one_by key table))
    column-upsert_all c key [] table = refl
    column-upsert_all c key (patch ∷ patches) table =
        elim (Bool-cases (list_eq (schema.key patch) key)) [
          | inl same ↦
              let e = list_eq→eq (schema.key patch) key same in
              let now : repository.find_one_by key (repository.upsert patch table)
                  ≡ some (upserted schema patch (repository.find_one_by key table)) =
                subst
                  (λ k.
                    repository.find_one_by k (repository.upsert patch table)
                    ≡ some (upserted schema patch (repository.find_one_by k table)))
                  e (repository.find_upsert_same patch table) in
              column-upsert_all c key patches (repository.upsert patch table)
              ∙ rw (now, same, column_in-upserted c patch (repository.find_one_by key table))
                  (given_or_assoc (last_given (values_for c key patches)) (c.in_patch patch)
                    (column_in c (repository.find_one_by key table)))
          | inr other ↦
              column-upsert_all c key patches (repository.upsert patch table)
              ∙ rw (other, repository.find_upsert_other patch key table other) refl
        ]
