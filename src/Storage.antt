-- ===== src/Storage.antt =====
-- What the persistence services use of TypeORM's repositories: tables of devices, with `upsert`
-- and `findOneBy`, and tables of reports, with `save`.
pub mod Columns
pub mod InMemory
pub mod Histories
pub mod Latest
use avt_tracker.Base.{◌++◌, ℕ, List, [], ◌∷◌, Option, none, some, ◌≡◌, false, list_eq}
use avt_tracker.Base.Text.{Text}

-- A value that a patch may leave out.
abbrev pub given_or : {A : Type 0} → Option A → Option A → Option A
given_or none old = old
given_or (some a) old = some a

-- How the rows of a table of devices are made and patched: its key, the row that an insert makes
-- of a key alone, with every nullable column null, and the columns that a patch names set in a row.
pub record Schema : Type 1 where
  pub Row : Type 0
  pub Patch : Type 0
  pub key : Patch → Text
  pub blank : Text → Row
  pub patched : Patch → Row → Row

-- `INSERT … ON CONFLICT (key) DO UPDATE`
abbrev pub upserted : (schema : Schema) → schema.Patch → Option schema.Row → schema.Row
upserted schema patch none = schema.patched patch (schema.blank (schema.key patch))
upserted schema patch (some row) = schema.patched patch row

-- An upsert makes or patches the row with the patch's key, and leaves the other rows alone.
pub record DeviceRepository (schema : Schema) : Type 1 where
  pub Table : Type 0
  pub find_one_by : Text → Table → Option schema.Row
  pub upsert : schema.Patch → Table → Table
  pub find_upsert_same :
      (patch : schema.Patch) (table : Table)
      → find_one_by (schema.key patch) (upsert patch table)
        ≡ some (upserted schema patch (find_one_by (schema.key patch) table))
  pub find_upsert_other :
      (patch : schema.Patch) (other : Text) (table : Table)
      → list_eq (schema.key patch) other ≡ false
      → find_one_by other (upsert patch table) ≡ find_one_by other table

-- A table of reports: `save(create(row))` adds a row, and gives it back with the database's columns.
pub record ReportRepository (Row : Type 0) : Type 1 where
  pub Table : Type 0
  pub Saved : Type 0
  pub row_of : Saved → Row
  pub rows : Table → List Row
  pub save : Row → Table → Saved × Table
  pub row_of_save : (row : Row) (table : Table) → row_of (save row table).0 ≡ row
  pub rows_save : (row : Row) (table : Table) → rows (save row table).1 ≡ rows table ++ (row ∷ [])

-- The two tables of a persistence service.
pub record Database {schema : Schema} {Row : Type 0} (devices : DeviceRepository schema)
    (reports : ReportRepository Row) : Type 0 where
  pub device_table : devices.Table
  pub report_table : reports.Table
