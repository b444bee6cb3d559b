-- ===== src/Storage/InMemory.antt =====
-- Repositories that are lists, for the tests.
use avt_tracker.Base.{List, [], ◌∷◌, ◌++◌, refl}
use avt_tracker.Base.Dict.{get, set, get-set_same, get-set_other}
use avt_tracker.Base.Text.{Text}
use avt_tracker.Storage.{Schema, DeviceRepository, ReportRepository, upserted}

abbrev pub device_map : (schema : Schema) → DeviceRepository schema
device_map schema = record {
  Table = List (Text × schema.Row);
  find_one_by = λ key table. get key table;
  upsert = λ patch table.
      set (schema.key patch) (upserted schema patch (get (schema.key patch) table)) table;
  find_upsert_same = λ patch table. get-set_same (schema.key patch) _ table;
  find_upsert_other = λ patch other table h. get-set_other (schema.key patch) other _ table h;
}

abbrev pub report_list : (Row : Type 0) → ReportRepository Row
report_list Row = record {
  Table = List Row;
  Saved = Row;
  row_of = λ row. row;
  rows = λ table. table;
  save = λ row table. (row, table ++ (row ∷ []));
  row_of_save = λ row table. refl;
  rows_save = λ row table. refl;
}
