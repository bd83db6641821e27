-- ===== src/Storage/SqliteDatabase/Replaces/Examples.antt =====
-- A table that holds at most two rows, with transactions, and `ReplaceAll` of src/Utils/Storage/SQLiteDatabase.cpp
-- with three items, where the last statement fails.
use watchlist.Prelude.{
  Bool, true, false, none, List, [], ◌∷◌, ◌++◌, ◌≡◌, ◌⊎◌, refl, map, Bytes, bytes, ltb, length,
  equal,
}
use watchlist.Storage.Item.{DatabaseItem, Failure, sqlite_error, ok, err, Done}
use watchlist.Storage.Validation.{validate_items, validate_item}
use watchlist.Storage.Utf8.{is_valid_utf8}
use watchlist.Storage.Address.{is_valid_ipv4}
use watchlist.Storage.SqliteDatabase.{
  Sqlite, SqliteDatabase, Row, bind_item, ensure_initialized, run_if, transaction,
  within_transaction, insert_all, replace_all,
}
use watchlist.Storage.SqliteDatabase.Transactions.{Then, KeepsTransactions}
use watchlist.Storage.SqliteDatabase.Replaces.{KeepsTable, replace_all-atomic}

record Disk : Type 0 where
  rows : List Row
  backup : List Row

abbrev insert_row : Bool → Row → Disk → Done × Disk
insert_row true r db = (ok tt, record db { rows = db.rows ++ r ∷ [] })
insert_row false r db = (err (sqlite_error (bytes "database or disk is full")), db)

abbrev library : Sqlite
library = record {
  Db = Disk;
  insert_item = λ r db. insert_row (ltb (length db.rows) 2) r db;
  upsert_row = λ r db. (ok tt, db);
  select_where = λ id db. ok none;
  select_all = λ db. ok db.rows;
  select_ordered = λ db. ok db.rows;
  exists_where = λ id db. ok false;
  count_rows = λ db. ok (length db.rows);
  delete_where = λ id db. (ok 0, db);
  delete_all = λ db. (ok tt, record db { rows = [] });
  begin_transaction = λ db. (ok tt, record db { backup = db.rows });
  commit = λ db. (ok tt, db);
  rollback = λ db. record db { rows = db.backup };
}

abbrev transactions : KeepsTransactions library (List Row)
transactions = record {
  stored = λ db. db.rows;
  saved = λ db. db.backup;
  begin_stored = λ db. refl;
  begin_saved = λ db. refl;
  commit_stored = λ db. refl;
  commit_saved = λ db. refl;
  rollback_stored = λ db. refl;
}

insert_row-rows :
    (room : Bool) (r : Row) (db : Disk)
    → Then (insert_row room r db).0 ((insert_row room r db).1.rows ≡ db.rows ++ r ∷ [])
insert_row-rows true r db = refl
insert_row-rows false r db = tt

insert_row-backup :
    (room : Bool) (r : Row) (db : Disk) → (insert_row room r db).1.backup ≡ db.backup
insert_row-backup true r db = refl
insert_row-backup false r db = refl

library-KeepsTable : KeepsTable library transactions
library-KeepsTable = record {
  insert_rows = λ r db. insert_row-rows (ltb (length db.rows) 2) r db;
  insert_saved = λ r db. insert_row-backup (ltb (length db.rows) 2) r db;
  delete_rows = λ db. refl;
  delete_saved = λ db. refl;
}

abbrev item : Bytes → DatabaseItem
item name = record {
  id = name;
  name = name;
  ip_address = bytes "10.0.0.7";
  port = 80;
  alive = true;
}

abbrev three_items : List DatabaseItem
three_items = item (bytes "a") ∷ item (bytes "b") ∷ item (bytes "c") ∷ []

abbrev lamp : SqliteDatabase library
lamp = record {
  database = record { rows = bind_item (item (bytes "lamp")) ∷ []; backup = [] };
  initialized = true;
}

rolled_back :
    (replace_all library three_items lamp).1.database.rows ≡ bind_item (item (bytes "lamp")) ∷ []
unfolding replace_all ensure_initialized run_if transaction within_transaction insert_all
    validate_items validate_item bytes is_valid_utf8 is_valid_ipv4 equal
rolled_back = refl

replace_all-atomic_example :
    (((replace_all library three_items lamp).0 ≡ ok tt)
      × ((replace_all library three_items lamp).1.database.rows ≡ map bind_item three_items)
      × (lamp.initialized ≡ true)
      × (validate_items three_items ≡ ok tt))
    ⊎ ((e : Failure) × ((replace_all library three_items lamp).0 ≡ err e)
        × ((replace_all library three_items lamp).1.database.rows ≡ lamp.database.rows))
replace_all-atomic_example =
    replace_all-atomic library transactions library-KeepsTable three_items lamp
