-- ===== src/Storage/SqliteDatabase/Catalogue.antt =====
-- The schema tests of src/Utils/Storage/SQLiteDatabase.cpp, over the statements on SQLite's catalogue, which
-- are a parameter.
use watchlist.Prelude.{
  ℕ, suc, Bool, true, false, not, ◌&&◌, ◌||◌, Option, none, some, List, [], ◌∷◌, ◌++◌, map,
  if◌then◌else◌, Bytes, bytes, equal, ◌==◌, is_space, to_lower,
}
use watchlist.Prelude.Int.{ℤ, pos, negsuc}
use watchlist.Storage.Item.{schema_error, Result, ok, err, Done, ◌>>=◌, ◌>>◌}
use watchlist.Storage.SqliteDatabase.{Sqlite, Row, check}

abbrev pub current_schema_version : ℤ
current_schema_version = pos 1

unfoldable pub create_unversioned_items_sql : Bytes
unfolding bytes
create_unversioned_items_sql =
    bytes "CREATE TABLE items (id INTEGER PRIMARY KEY AUTOINCREMENT,device_id TEXT NOT NULL UNIQUE,"
    ++ bytes
        "name TEXT NOT NULL,ip_address TEXT NOT NULL,port INTEGER NOT NULL,alive INTEGER NOT NULL)"

unfoldable pub create_legacy_items_sql : Bytes
unfolding bytes
create_legacy_items_sql =
    bytes "CREATE TABLE items (id INTEGER PRIMARY KEY AUTOINCREMENT,item_key TEXT NOT NULL UNIQUE,"
    ++ bytes "item_value TEXT NOT NULL)"

-- What follows the name of the table in `CreateV1ItemsSql`.
unfoldable pub v1_columns_sql : Bytes
unfolding bytes
v1_columns_sql =
    bytes " (id INTEGER PRIMARY KEY AUTOINCREMENT,device_id TEXT NOT NULL UNIQUE CHECK("
    ++ (bytes "typeof(device_id) = 'text' AND length(CAST(device_id AS BLOB)) BETWEEN 1 AND 128),"
        ++ (bytes
              "name TEXT NOT NULL CHECK(typeof(name) = 'text' AND length(CAST(name AS BLOB)) BETWEEN 1 AND 256),"
            ++ (bytes
                  "ip_address TEXT NOT NULL CHECK(typeof(ip_address) = 'text' AND length(CAST(ip_address AS BLOB)) "
                ++ (bytes
                      "BETWEEN 1 AND 253),port INTEGER NOT NULL CHECK(typeof(port) = 'integer' AND port BETWEEN 0 AND 65535),"
                    ++ bytes
                        "alive INTEGER NOT NULL CHECK(typeof(alive) = 'integer' AND alive IN (0, 1)))"))))

unfoldable pub create_v1_items_sql : Bytes
unfolding bytes v1_columns_sql
create_v1_items_sql = bytes "CREATE TABLE items" ++ v1_columns_sql

pub record ColumnDefinition : Type 0 where
  pub name : Bytes
  pub declared_type : Bytes
  pub not_null : Bool
  pub primary_key : ℤ

-- The columns that the program reads of `PRAGMA table_info` and `PRAGMA index_list`.
pub record TableInfo : Type 0 where
  pub name : Bytes
  pub declared_type : Bytes
  pub not_null : ℤ
  pub primary_key : ℤ

pub record IndexInfo : Type 0 where
  pub name : Bytes
  pub unique : ℤ
  pub partial : ℤ

-- `create_sql` is none without a row, and holds none for NULL. `exec` runs a statement of the given text.
pub record Catalogue (q : Sqlite) : Type 0 where
  pub user_version : q.Db → Result ℤ
  pub table_info : Bytes → q.Db → Result (List TableInfo)
  pub table_exists : Bytes → q.Db → Result Bool
  pub user_objects : q.Db → Result (List Bytes)
  pub create_sql : Bytes → q.Db → Result (Option (Option Bytes))
  pub index_list : Bytes → q.Db → Result (List IndexInfo)
  pub index_columns : Bytes → q.Db → Result (List Bytes)
  pub select_in_order : q.Db → Result (List Row)
  pub insert_into : Bytes → Row → q.Db → Done × q.Db
  pub count_of : Bytes → q.Db → Result ℕ
  pub exec : Bytes → q.Db → Done × q.Db

abbrev pub is_number : ℕ → ℤ → Bool
is_number n (pos m) = m == n
is_number n (negsuc m) = false

abbrev pub column_definition : TableInfo → ColumnDefinition
column_definition r = record {
  name = r.name;
  declared_type = r.declared_type;
  not_null = not (is_number 0 r.not_null);
  primary_key = r.primary_key;
}

abbrev pub column : Bytes → Bytes → Bool → ℕ → ColumnDefinition
column name declared_type not_null key = record {
  name = name;
  declared_type = declared_type;
  not_null = not_null;
  primary_key = pos key;
}

unfoldable pub device_columns : List ColumnDefinition
device_columns =
    column (bytes "id") (bytes "INTEGER") false 1
    ∷ column (bytes "device_id") (bytes "TEXT") true 0
    ∷ column (bytes "name") (bytes "TEXT") true 0
    ∷ column (bytes "ip_address") (bytes "TEXT") true 0
    ∷ column (bytes "port") (bytes "INTEGER") true 0
    ∷ column (bytes "alive") (bytes "INTEGER") true 0
    ∷ []

unfoldable pub legacy_key_value_columns : List ColumnDefinition
legacy_key_value_columns =
    column (bytes "id") (bytes "INTEGER") false 1
    ∷ column (bytes "item_key") (bytes "TEXT") true 0
    ∷ column (bytes "item_value") (bytes "TEXT") true 0
    ∷ []

abbrev pub same_bit : Bool → Bool → Bool
same_bit true b = b
same_bit false b = not b

abbrev pub same_number : ℤ → ℤ → Bool
same_number (pos m) (pos n) = m == n
same_number (negsuc m) (negsuc n) = m == n
same_number (pos m) (negsuc n) = false
same_number (negsuc m) (pos n) = false

-- The `operator==` of a column definition, and that of vectors.
unfoldable pub same_column : ColumnDefinition → ColumnDefinition → Bool
same_column a b =
    equal a.name b.name
    && equal a.declared_type b.declared_type
    && same_bit a.not_null b.not_null
    && same_number a.primary_key b.primary_key

unfoldable pub same_all {ℓ} : {A : Type ℓ} → (A → A → Bool) → List A → List A → Bool
same_all same [] [] = true
same_all same [] (y ∷ ys) = false
same_all same (x ∷ xs) [] = false
same_all same (x ∷ xs) (y ∷ ys) = same x y && same_all same xs ys

abbrev pub is_dropped : ℕ → Bool
is_dropped c = is_space c || c == b'"' || c == b'`' || c == b'[' || c == b']' || c == b';'

unfoldable pub normalize_sql : Bytes → Bytes
normalize_sql [] = []
normalize_sql (c ∷ cs) =
    let rest = normalize_sql cs in if is_dropped c then rest else to_lower c ∷ rest

abbrev pub items_table : Bytes
items_table = bytes "items"

abbrev pub is_device_id_only : List Bytes → Bool
is_device_id_only [] = false
is_device_id_only (c ∷ []) = equal c (bytes "device_id")
is_device_id_only (c ∷ d ∷ cs) = false

unfoldable pub sql_of : Option (Option Bytes) → Result Bytes
sql_of (some (some sql)) = ok sql
sql_of (some none) = err (schema_error (bytes "items table has no CREATE TABLE definition"))
sql_of none = err (schema_error (bytes "items table has no CREATE TABLE definition"))

module _ {q : Sqlite} (c : Catalogue q) where
  unfoldable pub read_columns : Bytes → q.Db → Result (List ColumnDefinition)
  read_columns table db = do rows ← c.table_info table db; ok (map column_definition rows)

  unfoldable pub read_create_sql : Bytes → q.Db → Result Bytes
  unfolding sql_of
  read_create_sql table db = do found ← c.create_sql table db; sql_of found

  unfoldable pub validate_only_items_object : q.Db → Done
  unfolding check same_all
  validate_only_items_object db = do
    objects ← c.user_objects db
    check (not (same_all equal objects (bytes "table:items" ∷ [])))
        (schema_error (bytes "database contains an unexpected table, view, or trigger"))

  unfoldable pub validate_index : IndexInfo → q.Db → Done
  unfolding check
  validate_index index db =
      check (not (is_number 1 index.unique) || not (is_number 0 index.partial))
        (schema_error (bytes "items has an unexpected non-unique or partial index"))
      >> (c.index_columns index.name db >>= λ columns.
          check (not (is_device_id_only columns))
            (schema_error (bytes "items unique index must contain only device_id")))

  -- With the number of indexes so far.
  unfoldable pub validate_indexes : List IndexInfo → ℕ → q.Db → Done
  unfolding validate_index check
  validate_indexes [] count db =
      check (not (count == 1))
        (schema_error (bytes "items must have exactly one unique device_id index"))
  validate_indexes (index ∷ later) count db =
      validate_index index db >> validate_indexes later (suc count) db

  unfoldable pub validate_unique_device_id : q.Db → Done
  unfolding validate_indexes
  validate_unique_device_id db = do
    indexes ← c.index_list items_table db
    validate_indexes indexes 0 db

  unfoldable pub validate_device_columns : q.Db → Done
  unfolding read_columns check same_all validate_unique_device_id
  validate_device_columns db = read_columns items_table db >>= λ columns.
      check (not (same_all same_column columns device_columns)) (
        schema_error (
          bytes "items columns, types, nullability, or primary key do not match the device schema"))
      >> validate_unique_device_id db

  unfoldable pub validate_exact_create_sql : Bytes → Bytes → q.Db → Done
  unfolding read_create_sql check
  validate_exact_create_sql expected schema_name db = do
    sql ← read_create_sql items_table db
    check (not (equal (normalize_sql sql) (normalize_sql expected))) (
        schema_error (bytes "items CREATE TABLE definition does not exactly match " ++ schema_name))

  unfoldable pub validate_v1_schema : q.Db → Done
  unfolding validate_only_items_object validate_device_columns validate_exact_create_sql
  validate_v1_schema db =
      validate_only_items_object db
      >> (validate_device_columns db
          >> validate_exact_create_sql create_v1_items_sql (bytes "schema v1") db)
