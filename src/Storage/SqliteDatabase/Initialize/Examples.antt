-- ===== src/Storage/SqliteDatabase/Initialize/Examples.antt =====
-- A database of two tables that does what the statements of `Initialize` in
-- src/Utils/Storage/SQLiteDatabase.cpp say, and the migration of two devices.
use watchlist.Prelude.{
  ℕ, true, false, none, some, List, [], ◌∷◌, ◌++◌, ◌≡◌, ◌⊎◌, refl, ap, Bytes, bytes, equal,
  equal_refl, is_space, to_lower, if◌then◌else◌, length,
}
use watchlist.Prelude.Int.{pos}
use watchlist.Storage.Item.{DatabaseItem, Failure, ok, err, Done}
use watchlist.Storage.Validation.{validate_item}
use watchlist.Storage.Utf8.{is_valid_utf8}
use watchlist.Storage.Address.{is_valid_ipv4}
use watchlist.Storage.SqliteDatabase.{
  bind_item, then_run, end_transaction, within_transaction, transaction, Sqlite, SqliteDatabase,
  Row, text, integer,
}
use watchlist.Storage.SqliteDatabase.Catalogue.{
  Catalogue, TableInfo, create_v1_items_sql, create_unversioned_items_sql, v1_columns_sql,
  legacy_key_value_columns, same_column, device_columns, normalize_sql,
}
use watchlist.Storage.SqliteDatabase.Initialize.{
  create_items_v1_sql, drop_items_sql, rename_items_v1_sql, set_version_sql, initialize,
  validate_unversioned, read_items, copy_items, is_legacy, initialize_version,
  initialize_unversioned, initialize_old, migrate_unversioned_device_schema, migrate_rows,
  with_result,
}
use watchlist.Storage.SqliteDatabase.Transactions.{KeepsTransactions}
use watchlist.Storage.SqliteDatabase.Initialize.Laws.{Stored, KeepsCatalogue}
use watchlist.Storage.SqliteDatabase.Initialize.Kept.{initialize-Thrown}
use watchlist.Storage.SqliteDatabase.Initialize.Migrated.{Initialized, initialize-Initialized}

record Disk : Type 0 where
  current : Stored
  backup : Stored

execute_sql : Bytes → Stored → Stored
execute_sql sql s =
    if equal sql set_version_sql
    then record s { version = pos 1 }
    else if equal sql drop_items_sql
    then record s { has_items = false }
    else if equal sql rename_items_v1_sql
    then record s {
      has_items = true;
      rows = s.staged;
      sql = some (some (bytes "CREATE TABLE \"items\"" ++ v1_columns_sql));
    }
    else if equal sql create_items_v1_sql
    then record s { staged = [] }
    else record s { rows = [] }

abbrev library : Sqlite
library = record {
  Db = Disk;
  insert_item = λ r db. (ok tt, db);
  upsert_row = λ r db. (ok tt, db);
  select_where = λ id db. ok none;
  select_all = λ db. ok db.current.rows;
  select_ordered = λ db. ok db.current.rows;
  exists_where = λ id db. ok false;
  count_rows = λ db. ok (length db.current.rows);
  delete_where = λ id db. (ok 0, db);
  delete_all = λ db. (ok tt, db);
  begin_transaction = λ db. (ok tt, record db { backup = db.current });
  commit = λ db. (ok tt, db);
  rollback = λ db. record db { current = db.backup };
}

abbrev catalogue : Catalogue library
catalogue = record {
  user_version = λ db. ok db.current.version;
  table_info = λ table db. ok db.current.columns;
  table_exists = λ table db. ok db.current.has_items;
  user_objects = λ db. ok db.current.objects;
  create_sql = λ table db. ok db.current.sql;
  index_list = λ table db. ok db.current.indexes;
  index_columns = λ name db. ok (db.current.index_columns name);
  select_in_order = λ db. ok db.current.rows;
  insert_into = λ table r db.
      (ok tt, record db { current = record (db.current) { staged = db.current.staged ++ r ∷ [] } });
  count_of = λ table db. ok (length db.current.staged);
  exec = λ sql db. (ok tt, record db { current = execute_sql sql db.current });
}

drop_lem : (s : Stored) → execute_sql drop_items_sql s ≡ record s { has_items = false }
unfolding execute_sql equal drop_items_sql set_version_sql bytes
drop_lem s = refl

rename_lem : (s : Stored) → (execute_sql rename_items_v1_sql s).rows ≡ s.staged
unfolding execute_sql equal drop_items_sql set_version_sql rename_items_v1_sql bytes
rename_lem s = refl

create_lem : (s : Stored) → (execute_sql create_items_v1_sql s).staged ≡ []
unfolding execute_sql equal drop_items_sql set_version_sql rename_items_v1_sql create_items_v1_sql
    bytes v1_columns_sql
create_lem s = refl

create_rows_lem : (s : Stored) → (execute_sql create_v1_items_sql s).rows ≡ []
unfolding execute_sql equal drop_items_sql set_version_sql rename_items_v1_sql create_items_v1_sql
    create_v1_items_sql bytes v1_columns_sql
create_rows_lem s = refl

version_lem : (s : Stored) → execute_sql set_version_sql s ≡ record s { version = pos 1 }
unfolding execute_sql
version_lem s = rw (equal_refl set_version_sql) refl

abbrev transactions : KeepsTransactions library Stored
transactions = record {
  stored = λ db. db.current;
  saved = λ db. db.backup;
  begin_stored = λ db. refl;
  begin_saved = λ db. refl;
  commit_stored = λ db. refl;
  commit_saved = λ db. refl;
  rollback_stored = λ db. refl;
}

catalogue-KeepsCatalogue : KeepsCatalogue library catalogue transactions
catalogue-KeepsCatalogue = record {
  version_read = λ db. refl;
  objects_read = λ db. refl;
  exists_read = λ db. refl;
  columns_read = λ db. refl;
  sql_read = λ db. refl;
  indexes_read = λ db. refl;
  index_read = λ name db. refl;
  rows_read = λ db. refl;
  exec_saved = λ sql db own. refl;
  set_version_lem = λ db. version_lem db.current;
  create_rows = λ db. create_rows_lem db.current;
  create_staged = λ db. create_lem db.current;
  drop_staged = λ db. ap (λ (s : Stored). s.staged) (drop_lem db.current);
  rename_rows = λ db. rename_lem db.current;
  insert_staged = λ r db. refl;
  insert_saved = λ r db. refl;
}

abbrev column : Bytes → Bytes → ℕ → ℕ → TableInfo
column name kind not_null key = record {
  name = name;
  declared_type = kind;
  not_null = pos not_null;
  primary_key = pos key;
}

abbrev row : Bytes → Row
row name = record {
  device_id = text name;
  name = text name;
  ip_address = text (bytes "10.0.0.7");
  port = integer (pos 80);
  alive = integer (pos 1);
}

abbrev item : Bytes → DatabaseItem
item name = record {
  id = name;
  name = name;
  ip_address = bytes "10.0.0.7";
  port = 80;
  alive = true;
}

abbrev two_items : List DatabaseItem
two_items = item (bytes "lamp") ∷ item (bytes "door") ∷ []

-- An unversioned database of two devices.
abbrev unversioned : Stored
unversioned = record {
  version = pos 0;
  objects = bytes "table:items" ∷ [];
  has_items = true;
  columns =
      column (bytes "id") (bytes "INTEGER") 0 1
      ∷ column (bytes "device_id") (bytes "TEXT") 1 0
      ∷ column (bytes "name") (bytes "TEXT") 1 0
      ∷ column (bytes "ip_address") (bytes "TEXT") 1 0
      ∷ column (bytes "port") (bytes "INTEGER") 1 0
      ∷ column (bytes "alive") (bytes "INTEGER") 1 0
      ∷ [];
  sql = some (some create_unversioned_items_sql);
  indexes = record { name = bytes "key"; unique = pos 1; partial = pos 0 } ∷ [];
  index_columns = λ name. bytes "device_id" ∷ [];
  rows = row (bytes "lamp") ∷ row (bytes "door") ∷ [];
  staged = [];
}

abbrev opened : Stored → SqliteDatabase library
opened s = record { database = record { current = s; backup = s }; initialized = false }

schema_tested : validate_unversioned catalogue (opened unversioned).database ≡ ok tt
unfolding validate_unversioned legacy_key_value_columns same_column equal bytes device_columns
    create_unversioned_items_sql is_space to_lower normalize_sql
schema_tested = refl

items_read : read_items catalogue (opened unversioned).database ≡ ok two_items
unfolding read_items equal bytes validate_item is_valid_utf8 is_valid_ipv4
items_read = refl

rows_copied : (copy_items catalogue two_items (opened unversioned).database).0 ≡ ok tt
unfolding copy_items bind_item equal bytes device_columns same_column is_space to_lower execute_sql
    create_items_v1_sql set_version_sql drop_items_sql rename_items_v1_sql create_v1_items_sql
    v1_columns_sql normalize_sql
rows_copied = refl

not_legacy : is_legacy catalogue (opened unversioned).database ≡ ok false
unfolding is_legacy legacy_key_value_columns same_column equal bytes
not_legacy = refl

commits :
    (x : Done × Disk)
    → x.0 ≡ ok tt
    → (end_transaction library (then_run library x library.commit)).0 ≡ ok tt
commits (ok _, db) h = refl
commits (err e, db) h = absurd cc

migrates : (initialize catalogue (opened unversioned)).0 ≡ ok tt
unfolding initialize initialize_version initialize_unversioned initialize_old
    migrate_unversioned_device_schema migrate_rows transaction within_transaction
migrates =
    simp (not_legacy, schema_tested, items_read)
      (commits (copy_items catalogue two_items (opened unversioned).database) rows_copied)

initialize-Initialized_example :
    Initialized library catalogue transactions catalogue-KeepsCatalogue unversioned
      (initialize catalogue (opened unversioned)).1.database.current
initialize-Initialized_example =
    initialize-Initialized library catalogue transactions catalogue-KeepsCatalogue
      (opened unversioned) migrates

-- A database of a later version is refused.
abbrev next_version : Stored
next_version = record unversioned { version = pos 2 }

initialize-Thrown_example :
    (((initialize catalogue (opened next_version)).0 ≡ ok tt)
      × ((initialize catalogue (opened next_version)).1.initialized ≡ true))
    ⊎ ((e : Failure) × ((initialize catalogue (opened next_version)).0 ≡ err e)
        × ((initialize catalogue (opened next_version)).1.database.current ≡ next_version)
        × ((initialize catalogue (opened next_version)).1.initialized ≡ false))
initialize-Thrown_example =
    initialize-Thrown library catalogue transactions catalogue-KeepsCatalogue (opened next_version)

refused : (initialize catalogue (opened next_version)).1.initialized ≡ false
unfolding initialize initialize_version with_result
refused = refl
