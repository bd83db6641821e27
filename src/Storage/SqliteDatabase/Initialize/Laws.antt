-- ===== src/Storage/SqliteDatabase/Initialize/Laws.antt =====
-- What src/Utils/Storage/SQLiteDatabase.cpp relies on of SQLite's catalogue, its statements on tables and its
-- transactions.
use watchlist.Prelude.{Bool, Option, List, [], ◌∷◌, ◌++◌, ◌≡◌, ◌⊎◌, Bytes}
use watchlist.Prelude.Int.{ℤ, pos}
use watchlist.Storage.Item.{Result, ok, err}
use watchlist.Storage.SqliteDatabase.{Sqlite, Row}
use watchlist.Storage.SqliteDatabase.Catalogue.{
  TableInfo, IndexInfo, Catalogue, items_table, create_v1_items_sql,
}
use watchlist.Storage.SqliteDatabase.Transactions.{Then, KeepsTransactions}
use watchlist.Storage.SqliteDatabase.Initialize.{
  create_items_v1_sql, drop_items_sql, rename_items_v1_sql, set_version_sql, items_v1_table,
}

-- What a database holds: its version, its objects, the table `items` with its rows, and the rows of
-- `items_v1`.
pub record Stored : Type 0 where
  pub version : ℤ
  pub objects : List Bytes
  pub has_items : Bool
  pub columns : List TableInfo
  pub sql : Option (Option Bytes)
  pub indexes : List IndexInfo
  pub index_columns : Bytes → List Bytes
  pub rows : List Row
  pub staged : List Row

-- A read gives what is there, or throws.
abbrev pub Returns : {A : Type 0} → Result A → A → Type 0
Returns (ok a) wanted = a ≡ wanted
Returns (err e) wanted = Unit

-- The statements that `Initialize` executes.
abbrev pub IsOwn : Bytes → Type 0
IsOwn sql =
    (sql ≡ create_v1_items_sql)
    ⊎ ((sql ≡ create_items_v1_sql)
        ⊎ ((sql ≡ drop_items_sql) ⊎ ((sql ≡ rename_items_v1_sql) ⊎ (sql ≡ set_version_sql))))

-- No statement in a transaction touches what a rollback brings back.
pub record KeepsCatalogue (q : Sqlite) (c : Catalogue q) (t : KeepsTransactions q Stored)
    : Type 0 where
  pub version_read : (db : q.Db) → Returns (c.user_version db) (t.stored db).version
  pub objects_read : (db : q.Db) → Returns (c.user_objects db) (t.stored db).objects
  pub exists_read : (db : q.Db) → Returns (c.table_exists items_table db) (t.stored db).has_items
  pub columns_read : (db : q.Db) → Returns (c.table_info items_table db) (t.stored db).columns
  pub sql_read : (db : q.Db) → Returns (c.create_sql items_table db) (t.stored db).sql
  pub indexes_read : (db : q.Db) → Returns (c.index_list items_table db) (t.stored db).indexes
  pub index_read :
      (name : Bytes) (db : q.Db)
      → Returns (c.index_columns name db) ((t.stored db).index_columns name)
  pub rows_read : (db : q.Db) → Returns (c.select_in_order db) (t.stored db).rows
  pub exec_saved : (sql : Bytes) (db : q.Db) → IsOwn sql → t.saved (c.exec sql db).1 ≡ t.saved db
  pub set_version_lem :
      (db : q.Db)
      → Then
          (c.exec set_version_sql db).0
          (t.stored (c.exec set_version_sql db).1 ≡ record (t.stored db) { version = pos 1 })
  pub create_rows :
      (db : q.Db)
      → Then
          (c.exec create_v1_items_sql db).0
          ((t.stored (c.exec create_v1_items_sql db).1).rows ≡ [])
  pub create_staged :
      (db : q.Db)
      → Then
          (c.exec create_items_v1_sql db).0
          ((t.stored (c.exec create_items_v1_sql db).1).staged ≡ [])
  pub drop_staged :
      (db : q.Db)
      → Then
          (c.exec drop_items_sql db).0
          ((t.stored (c.exec drop_items_sql db).1).staged ≡ (t.stored db).staged)
  pub rename_rows :
      (db : q.Db)
      → Then
          (c.exec rename_items_v1_sql db).0
          ((t.stored (c.exec rename_items_v1_sql db).1).rows ≡ (t.stored db).staged)
  pub insert_staged :
      (r : Row) (db : q.Db)
      → Then
          (c.insert_into items_v1_table r db).0
          ((t.stored (c.insert_into items_v1_table r db).1).staged ≡ (t.stored db).staged ++ r ∷ [])
  pub insert_saved :
      (r : Row) (db : q.Db) → t.saved (c.insert_into items_v1_table r db).1 ≡ t.saved db
