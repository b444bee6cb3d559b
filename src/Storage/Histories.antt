-- ===== src/Storage/Histories.antt =====
-- A persistence service over a sequence of its calls: the columns of the devices, and the reports.
use avt_tracker.Base.{List, [], ◌∷◌, ◌++◌, ◌≡◌, refl, ap, ◌∙◌, append_assoc, append-nil, sym}
use avt_tracker.Base.Text.{Text}
use avt_tracker.Storage.{Schema, DeviceRepository, ReportRepository, Database, given_or}
use avt_tracker.Storage.Columns.{
  Column, last_given, values_for, upsert_all, column_in, column-upsert_all, upsert_all-append,
}

-- What a service does to its tables: each call upserts some patches and adds some rows.
pub record Calls {schema : Schema} {Row : Type 0} (devices : DeviceRepository schema)
    (reports : ReportRepository Row) : Type 1 where
  pub Call : Type 0
  pub call : Call → Database devices reports → Database devices reports
  pub patches_at : Call → List schema.Patch
  pub entities_at : Call → List Row
  pub devices_call :
      (c : Call) (db : Database devices reports)
      → (call c db).device_table ≡ upsert_all schema devices (patches_at c) db.device_table
  pub reports_call :
      (c : Call) (db : Database devices reports)
      → reports.rows (call c db).report_table ≡ reports.rows db.report_table ++ entities_at c

module _ (schema : Schema) (Row : Type 0) (devices : DeviceRepository schema)
    (reports : ReportRepository Row) (service : Calls devices reports) where
  abbrev pub call_all : List service.Call → Database devices reports → Database devices reports
  call_all [] db = db
  call_all (c ∷ calls) db = call_all calls (service.call c db)

  abbrev pub patches : List service.Call → List schema.Patch
  patches [] = []
  patches (c ∷ calls) = service.patches_at c ++ patches calls

  abbrev pub entities : List service.Call → List Row
  entities [] = []
  entities (c ∷ calls) = service.entities_at c ++ entities calls

  devices-call_all :
      (calls : List service.Call) (db : Database devices reports)
      → (call_all calls db).device_table ≡ upsert_all schema devices (patches calls) db.device_table
  devices-call_all [] db = refl
  devices-call_all (c ∷ calls) db =
      devices-call_all calls (service.call c db)
      ∙ rw (service.devices_call c db) (
          sym (
            upsert_all-append schema devices (service.patches_at c) (patches calls)
              db.device_table))

  pub reports-call_all :
      (calls : List service.Call) (db : Database devices reports)
      → reports.rows (call_all calls db).report_table
        ≡ reports.rows db.report_table ++ entities calls
  reports-call_all [] db = sym (append-nil (reports.rows db.report_table))
  reports-call_all (c ∷ calls) db =
      reports-call_all calls (service.call c db)
      ∙ rw (service.reports_call c db)
          (append_assoc (reports.rows db.report_table) (service.entities_at c) (entities calls))

  pub call_all_lem :
      (c : Column schema) (key : Text) (calls : List service.Call) (db : Database devices reports)
      → (column_in schema devices c (devices.find_one_by key (call_all calls db).device_table)
          ≡ given_or
              (last_given (values_for schema c key (patches calls)))
              (column_in schema devices c (devices.find_one_by key db.device_table)))
        × (reports.rows (call_all calls db).report_table
            ≡ reports.rows db.report_table ++ entities calls)
  call_all_lem c key calls db = (
    ap (λ table. column_in schema devices c (devices.find_one_by key table))
          (devices-call_all calls db)
        ∙ column-upsert_all schema devices c key (patches calls) db.device_table,
    reports-call_all calls db,
  )
