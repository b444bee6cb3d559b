-- ===== src/Storage/Latest.antt =====
-- A persistence service over a sequence of its calls, with what each call says of its device, and
-- which rows it adds, described apart from the patches and the entities.
use avt_tracker.Base.{
  List, [], ◌∷◌, ◌++◌, ◌≡◌, refl, ap, ◌∙◌, Option, none, some, list_eq, if◌then◌else◌, Bool-cases,
  inl, inr, map,
}
use avt_tracker.Base.Text.{Text}
use avt_tracker.Storage.{Schema, DeviceRepository, ReportRepository, Database, given_or}
use avt_tracker.Storage.Columns.{Column, last_given, values_for, column_in}
use avt_tracker.Storage.Histories.{
  reports-call_all, Calls, call_all, call_all_lem, patches, entities,
}
use mathlib.Core.List.{map-append}

-- What the last call of a device that says something says.
unfoldable pub latest :
    {Call A : Type 0} → (Call → Text) → (Call → Option A) → Text → List Call → Option A
latest device_of given key [] = none
latest device_of given key (call ∷ calls) =
    given_or (latest device_of given key calls)
      (if list_eq (device_of call) key then given call else none)

-- What the calls add, in order.
unfoldable pub added : {Call A : Type 0} → (Call → List A) → List Call → List A
added adds [] = []
added adds (call ∷ calls) = adds call ++ added adds calls

last_given-append :
    {A : Type 0} (xs ys : List (Option A))
    → last_given (xs ++ ys) ≡ given_or (last_given ys) (last_given xs)
last_given-append [] ys = given_or-none (last_given ys)
  where
    given_or-none : {A : Type 0} (x : Option A) → x ≡ given_or x none
    given_or-none none = refl
    given_or-none (some a) = refl
last_given-append (x ∷ xs) ys =
    ap (λ (last : Option _). given_or last x) (last_given-append xs ys)
    ∙ regroup (last_given ys) (last_given xs) x
  where
    regroup :
        {A : Type 0} (a b c : Option A) → given_or (given_or a b) c ≡ given_or a (given_or b c)
    regroup none b c = refl
    regroup (some a) b c = refl

module _ (schema : Schema) (c : Column schema) (key : Text) where
  values_for-append :
      (xs ys : List schema.Patch)
      → values_for schema c key (xs ++ ys)
        ≡ values_for schema c key xs ++ values_for schema c key ys
  values_for-append [] ys = refl
  values_for-append (x ∷ xs) ys = elim (Bool-cases (list_eq (schema.key x) key)) [
    | inl same ↦ rw same (rw (values_for-append xs ys) refl)
    | inr other ↦ rw other (values_for-append xs ys)
  ]

  -- The value that one patch gives.
  pub given_by_patch :
      (patch : schema.Patch)
      → last_given (values_for schema c key (patch ∷ []))
        ≡ (if list_eq (schema.key patch) key then c.in_patch patch else none)
  given_by_patch patch = elim (Bool-cases (list_eq (schema.key patch) key)) [
    | inl same ↦ rw same refl
    | inr other ↦ rw other refl
  ]

module _ (schema : Schema) (Row : Type 0) (devices : DeviceRepository schema)
    (reports : ReportRepository Row) (service : Calls devices reports)
    (device_of : service.Call → Text) where
  -- A column of a device after the calls, where each call's patches say what `given` says.
  pub column-latest :
      (c : Column schema) (given : service.Call → Option c.Value) (key : Text)
      (says : (call : service.Call)
        → last_given (values_for schema c key (service.patches_at call))
          ≡ (if list_eq (device_of call) key then given call else none))
      (calls : List service.Call) (db : Database devices reports)
      → column_in schema devices c (
          devices.find_one_by key
            (call_all schema Row devices reports service calls db).device_table)
        ≡ given_or
            (latest device_of given key calls)
            (column_in schema devices c (devices.find_one_by key db.device_table))
  unfolding latest
  column-latest c given key says calls db =
      (call_all_lem schema Row devices reports service c key calls db).0
      ∙ ap
          (λ (last : Option c.Value).
            given_or last (column_in schema devices c (devices.find_one_by key db.device_table)))
          (all_say calls)
    where
      all_say :
          (calls : List service.Call)
          → last_given (values_for schema c key (patches schema Row devices reports service calls))
            ≡ latest device_of given key calls
      all_say [] = refl
      all_say (call ∷ calls) =
          ap last_given (
            values_for-append schema c key (service.patches_at call)
              (patches schema Row devices reports service calls))
          ∙ last_given-append (values_for schema c key (service.patches_at call))
              (values_for schema c key (patches schema Row devices reports service calls))
          ∙ rw (all_say calls, says call) refl

  -- What is read off the rows, where each call's entities hold what `adds` says.
  pub rows-added :
      {A : Type 0} (read : Row → A) (adds : service.Call → List A)
      (says : (call : service.Call) → map read (service.entities_at call) ≡ adds call)
      (calls : List service.Call) (db : Database devices reports)
      → map read (reports.rows (call_all schema Row devices reports service calls db).report_table)
        ≡ map read (reports.rows db.report_table) ++ added adds calls
  unfolding added
  rows-added read adds says calls db =
      ap (map read) (reports-call_all schema Row devices reports service calls db)
      ∙ map-append read (reports.rows db.report_table)
          (entities schema Row devices reports service calls)
      ∙ ap (λ ys. map read (reports.rows db.report_table) ++ ys) (all_add calls)
    where
      all_add :
          (calls : List service.Call)
          → map read (entities schema Row devices reports service calls) ≡ added adds calls
      all_add [] = refl
      all_add (call ∷ calls) =
          map-append read (service.entities_at call)
            (entities schema Row devices reports service calls)
          ∙ rw (all_add calls, says call) refl
