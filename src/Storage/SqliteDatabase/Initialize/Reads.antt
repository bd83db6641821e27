-- ===== src/Storage/SqliteDatabase/Initialize/Reads.antt =====
-- The schema tests of src/Utils/Storage/SQLiteDatabase.cpp find what a database holds.
use watchlist.Prelude.{
  ℕ, suc, ◌+◌, length, All, true, some, List, [], ◌∷◌, ◌≡◌, sym, ap, ◌∙◌, arith, map, Bytes, bytes,
  equal, equal_iff, ◌==◌,
}
use watchlist.Storage.Item.{ok, ◌>>◌}
use watchlist.Storage.SqliteDatabase.{Sqlite}
use watchlist.Storage.SqliteDatabase.Catalogue.{
  ColumnDefinition, IndexInfo, Catalogue, same_column, column_definition, device_columns,
  items_table, create_v1_items_sql, normalize_sql, read_columns, read_create_sql,
  validate_only_items_object, validate_index, validate_indexes, validate_unique_device_id,
  validate_device_columns, validate_exact_create_sql, validate_v1_schema,
}
use watchlist.Storage.SqliteDatabase.Rows.{bind_ok, then_ok}
use watchlist.Storage.SqliteDatabase.Initialize.Laws.{Stored, KeepsCatalogue}
use watchlist.Storage.SqliteDatabase.Initialize.Steps.{returned, check-ok}
use watchlist.Storage.SqliteDatabase.Transactions.{KeepsTransactions}
use watchlist.Storage.SqliteDatabase.Initialize.Valid.{
  IsKey, IsDeviceSchema, not-false, is_number-true, same_column-true, same_all-true,
  is_device_id_only-true, sql_of-ok, neither, first_ok, check_then, ok-injective, only_one,
}

module _ (q : Sqlite) (c : Catalogue q) (t : KeepsTransactions q Stored)
    (k : KeepsCatalogue q c t) where
  validate_only_items_object-ok :
      (db : q.Db)
      → validate_only_items_object c db ≡ ok tt
      → (t.stored db).objects ≡ bytes "table:items" ∷ []
  unfolding validate_only_items_object
  validate_only_items_object-ok db h =
      let (objects, read, test) = bind_ok (c.user_objects db) _ tt h in
      sym (returned (c.user_objects db) objects _ (k.objects_read db) read)
      ∙ same_all-true equal (λ x y. (equal_iff x y).0) objects _ (not-false _ (check-ok _ _ test))

  validate_index-ok :
      (index : IndexInfo) (db : q.Db)
      → validate_index c index db ≡ ok tt
      → IsKey (t.stored db).index_columns index
  unfolding validate_index
  validate_index-ok index db h =
      let (kind, rest) = check_then _ _ _ tt h in
      let (unique, partial) = neither _ _ kind in
      let (columns, read, test) = bind_ok (c.index_columns index.name db) _ tt rest in
      (
        is_number-true 1 index.unique (not-false _ unique),
        is_number-true 0 index.partial (not-false _ partial),
        sym (returned (c.index_columns index.name db) columns _ (k.index_read index.name db) read)
            ∙ is_device_id_only-true columns (not-false _ (check-ok _ _ test)),
      )

  validate_indexes-ok :
      (indexes : List IndexInfo) (count : ℕ) (db : q.Db)
      → validate_indexes c indexes count db ≡ ok tt
      → All (IsKey (t.stored db).index_columns) indexes × (count + length indexes ≡ 1)
  unfolding validate_indexes
  validate_indexes-ok [] count db h =
      let one : (count == 1) ≡ true = not-false _ (check-ok _ _ h) in (tt, ground (arith, one))
  validate_indexes-ok (x ∷ xs) count db h =
      let (later, total) =
        validate_indexes-ok xs (suc count) db (then_ok (validate_index c x db) _ tt h) in
      (
        (validate_index-ok x db (first_ok (validate_index c x db) _ tt h), later),
        omega (arith, total),
      )

  validate_unique_device_id-ok :
      (db : q.Db)
      → validate_unique_device_id c db ≡ ok tt
      → (index : IndexInfo) × ((t.stored db).indexes ≡ index ∷ [])
        × IsKey (t.stored db).index_columns index
  unfolding validate_unique_device_id
  validate_unique_device_id-ok db h =
      let (indexes, read, all) = bind_ok (c.index_list items_table db) _ tt h in
      let (keys, count) = validate_indexes-ok indexes 0 db all in
      let (index, single, key) = only_one _ indexes (omega (arith, count)) keys in
      (
        index,
        sym (returned (c.index_list items_table db) indexes _ (k.indexes_read db) read) ∙ single,
        key,
      )

  read_columns-ok :
      (db : q.Db) (columns : List ColumnDefinition)
      → read_columns c items_table db ≡ ok columns
      → map column_definition (t.stored db).columns ≡ columns
  unfolding read_columns
  read_columns-ok db columns h =
      let (rows, read, whole) = bind_ok (c.table_info items_table db) _ columns h in
      ap (map column_definition)
        (sym (returned (c.table_info items_table db) rows _ (k.columns_read db) read))
      ∙ ok-injective whole

  validate_device_columns-ok :
      (db : q.Db)
      → validate_device_columns c db ≡ ok tt
      → (map column_definition (t.stored db).columns ≡ device_columns)
        × (validate_unique_device_id c db ≡ ok tt)
  unfolding validate_device_columns
  validate_device_columns-ok db h =
      let (columns, read, tests) = bind_ok (read_columns c items_table db) _ tt h in
      let (same, index) = check_then _ _ (validate_unique_device_id c db) tt tests in
      (
        read_columns-ok db columns read
            ∙ same_all-true same_column same_column-true columns device_columns (not-false _ same),
        index,
      )

  validate_exact_create_sql-ok :
      (expected name : Bytes) (db : q.Db)
      → validate_exact_create_sql c expected name db ≡ ok tt
      → (sql : Bytes) × ((t.stored db).sql ≡ some (some sql))
        × (normalize_sql sql ≡ normalize_sql expected)
  unfolding validate_exact_create_sql read_create_sql
  validate_exact_create_sql-ok expected name db h =
      let (sql, read, test) = bind_ok (read_create_sql c items_table db) _ tt h in
      let (found, read, of) = bind_ok (c.create_sql items_table db) _ sql read in
      (
        sql,
        sym (returned (c.create_sql items_table db) found _ (k.sql_read db) read)
            ∙ sql_of-ok found sql of,
        (equal_iff (normalize_sql sql) (normalize_sql expected)).0
            (not-false _ (check-ok _ _ test)),
      )

  pub validate_v1_schema-ok :
      (db : q.Db) → validate_v1_schema c db ≡ ok tt → IsDeviceSchema (t.stored db)
  unfolding validate_v1_schema
  validate_v1_schema-ok db h =
      let rest : validate_device_columns c db >> _ ≡ ok tt =
        then_ok (validate_only_items_object c db) _ tt h in
      let (columns, index) =
        validate_device_columns-ok db (first_ok (validate_device_columns c db) _ tt rest) in
      record {
        only_items =
            validate_only_items_object-ok db (first_ok (validate_only_items_object c db) _ tt h);
        columns_lem = columns;
        one_index = validate_unique_device_id-ok db index;
        sql_lem =
            validate_exact_create_sql-ok create_v1_items_sql _ db
              (then_ok (validate_device_columns c db) _ tt rest);
      }
