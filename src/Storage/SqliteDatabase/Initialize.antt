-- ===== src/Storage/SqliteDatabase/Initialize.antt =====
-- `SQLiteDatabase::Initialize` of src/Utils/Storage/SQLiteDatabase.cpp: the new schema, and the migration of
-- an unversioned one.
pub mod Laws
pub mod Steps
pub mod Valid
pub mod Reads
pub mod Kept
pub mod Copied
pub mod Migrated
mod Examples
use watchlist.Prelude.{
  format_int, ℕ, Bool, true, false, not, List, [], ◌∷◌, ◌++◌, if◌then◌else◌, Bytes, bytes, equal,
  ◌==◌, length, is_empty,
}
use watchlist.Prelude.Int.{ℤ}
use watchlist.Storage.Item.{DatabaseItem, schema_error, Result, ok, err, Done, ◌>>=◌, ◌>>◌}
use watchlist.Storage.SqliteDatabase.{
  Sqlite, SqliteDatabase, check, bind_item, decode_rows, then_run, transaction,
}
use watchlist.Storage.SqliteDatabase.Catalogue.{
  Catalogue, is_number, same_number, current_schema_version, create_v1_items_sql,
  create_legacy_items_sql, create_unversioned_items_sql, v1_columns_sql, legacy_key_value_columns,
  items_table, same_all, same_column, normalize_sql, read_columns, read_create_sql,
  validate_only_items_object, validate_device_columns, validate_exact_create_sql,
  validate_v1_schema,
}

-- `CreateV1ItemsSql` with its first `items`, the name of the table, replaced.
unfoldable pub create_items_v1_sql : Bytes
unfolding bytes v1_columns_sql
create_items_v1_sql = bytes "CREATE TABLE items_v1" ++ v1_columns_sql

unfoldable pub drop_items_sql : Bytes
unfolding bytes
drop_items_sql = bytes "DROP TABLE items"

unfoldable pub rename_items_v1_sql : Bytes
unfolding bytes
rename_items_v1_sql = bytes "ALTER TABLE items_v1 RENAME TO items"

unfoldable pub set_version_sql : Bytes
unfolding bytes
set_version_sql = bytes "PRAGMA user_version = 1"

abbrev pub items_v1_table : Bytes
items_v1_table = bytes "items_v1"

-- A read that may throw, and what follows it.
abbrev pub read_then : {A D : Type 0} → Result A → (A → D → Done × D) → D → Done × D
read_then (ok a) f db = f a db
read_then (err e) f db = (err e, db)

module _ {q : Sqlite} (c : Catalogue q) where
  -- The version is set, and what was made is tested.
  unfoldable pub set_version : q.Db → Done × q.Db
  unfolding validate_v1_schema
  set_version db = then_run q (c.exec set_version_sql db) (λ db. (validate_v1_schema c db, db))

  unfoldable pub insert_v1 : List DatabaseItem → q.Db → Done × q.Db
  unfolding bind_item
  insert_v1 [] db = (ok tt, db)
  insert_v1 (item ∷ items) db =
      then_run q (c.insert_into items_v1_table (bind_item item) db) (insert_v1 items)

  unfoldable pub count_matches : List DatabaseItem → q.Db → Done
  unfolding check
  count_matches items db = do
    count ← c.count_of items_v1_table db
    check (not (count == length items))
        (schema_error (bytes "v1 migration row-count verification failed"))

  unfoldable pub replace_table : q.Db → Done × q.Db
  unfolding set_version
  replace_table db =
      then_run q (c.exec drop_items_sql db)
        (λ db. then_run q (c.exec rename_items_v1_sql db) (set_version))

  unfoldable pub copy_items : List DatabaseItem → q.Db → Done × q.Db
  unfolding insert_v1 count_matches replace_table
  copy_items items db = then_run q (c.exec create_items_v1_sql db) (λ db.
      then_run q (insert_v1 items db)
        (λ db. read_then (count_matches items db) (λ _. replace_table) db))

  unfoldable pub read_items : q.Db → Result (List DatabaseItem)
  unfolding decode_rows
  read_items db = do rows ← c.select_in_order db; decode_rows rows

  unfoldable pub migrate_rows : q.Db → Done × q.Db
  unfolding read_items copy_items
  migrate_rows db = read_then (read_items db) copy_items db

  unfoldable pub validate_unversioned : q.Db → Done
  unfolding validate_only_items_object validate_device_columns validate_exact_create_sql
  validate_unversioned db =
      validate_only_items_object c db
      >> (validate_device_columns c db
          >> validate_exact_create_sql c create_unversioned_items_sql
              (bytes "the supported unversioned device schema") db)

  unfoldable pub migrate_unversioned_device_schema : q.Db → Done × q.Db
  unfolding validate_unversioned migrate_rows transaction
  migrate_unversioned_device_schema db =
      read_then (validate_unversioned db) (λ _. transaction q migrate_rows) db

  unfoldable pub create_schema : q.Db → Done × q.Db
  unfolding set_version
  create_schema db = then_run q (c.exec create_v1_items_sql db) set_version

  unfoldable pub is_legacy : q.Db → Result Bool
  unfolding read_columns read_create_sql same_all normalize_sql
  is_legacy db = do
    columns ← read_columns c items_table db
    if same_all same_column columns legacy_key_value_columns
        then (read_create_sql c items_table db >>= λ sql.
            ok (equal (normalize_sql sql) (normalize_sql create_legacy_items_sql)))
        else ok false

  unfoldable pub initialize_new : List Bytes → q.Db → Done × q.Db
  unfolding create_schema transaction
  initialize_new objects db =
      if not (is_empty objects)
      then (err (schema_error (bytes "unversioned database contains unexpected objects")), db)
      else transaction q create_schema db

  unfoldable pub initialize_old : Bool → q.Db → Done × q.Db
  unfolding migrate_unversioned_device_schema
  initialize_old legacy db =
      if legacy
      then (
        err (
            schema_error
              (bytes "legacy key/value items schema is unsupported and was left unchanged")),
        db,
      )
      else migrate_unversioned_device_schema db

  unfoldable pub initialize_unversioned : Bool → q.Db → Done × q.Db
  unfolding initialize_new initialize_old is_legacy
  initialize_unversioned false db = read_then (c.user_objects db) initialize_new db
  initialize_unversioned true db = read_then (is_legacy db) initialize_old db

  unfoldable pub initialize_version : ℤ → q.Db → Done × q.Db
  unfolding initialize_unversioned validate_v1_schema format_int
  initialize_version version db =
      if same_number version current_schema_version
      then (validate_v1_schema c db, db)
      else if not (is_number 0 version)
      then (
        err (schema_error (bytes "unsupported database schema version: " ++ format_int version)),
        db,
      )
      else read_then (c.table_exists items_table db) initialize_unversioned db

  unfoldable pub with_result : Done × q.Db → SqliteDatabase q
  with_result (ok _, db) = record { database = db; initialized = true }
  with_result (err e, db) = record { database = db; initialized = false }

  unfoldable pub initialize : SqliteDatabase q → Done × SqliteDatabase q
  unfolding initialize_version with_result
  initialize s =
      let result = read_then (c.user_version s.database) initialize_version s.database in
      (result.0, with_result result)
