-- ===== src/Storage/SqliteDatabase.antt =====
-- The methods of src/Utils/Storage/SQLiteDatabase.cpp on items, over the SQLite library (SQLiteCpp, not
-- part of the repository), which is a parameter with one field for each statement.
pub mod Catalogue
pub mod Transactions
pub mod Initialize
pub mod Rows
pub mod Decoded
pub mod Refines
pub mod Replaces
mod Examples
use watchlist.Prelude.{
  ℕ, suc, Bool, true, false, not, ◌&&◌, ◌||◌, Option, none, some, List, [], ◌∷◌, if◌then◌else◌,
  Bytes, bytes, leb, ◌==◌, ltb,
}
use watchlist.Prelude.Int.{ℤ, pos, negsuc, ltb_ℤ, pos_part}
use watchlist.Storage.Item.{
  DatabaseItem, DatabaseField, Failure, validation_error, logic_error, Result, ok, err, Done, ◌>>=◌,
  ◌>>◌,
}
use watchlist.Storage.Interface.{IDatabase}
use watchlist.Storage.Validation.{validate_item, validate_items}

pub data Column : Type 0 where
  text : Bytes → Column
  integer : ℤ → Column
  other : Column

pub record Row : Type 0 where
  pub device_id : Column
  pub name : Column
  pub ip_address : Column
  pub port : Column
  pub alive : Column

pub record Sqlite : Type 1 where
  pub Db : Type 0
  pub insert_item : Row → Db → Done × Db
  pub upsert_row : Row → Db → Done × Db
  pub select_where : Bytes → Db → Result (Option Row)
  pub select_all : Db → Result (List Row)
  pub select_ordered : Db → Result (List Row)
  pub exists_where : Bytes → Db → Result Bool
  pub count_rows : Db → Result ℕ
  -- With the number of rows that were deleted.
  pub delete_where : Bytes → Db → Result ℕ × Db
  pub delete_all : Db → Done × Db
  pub begin_transaction : Db → Done × Db
  pub commit : Db → Done × Db
  pub rollback : Db → Db

abbrev pub bit : Bool → ℕ
bit true = 1
bit false = 0

unfoldable pub bind_item : DatabaseItem → Row
bind_item item = record {
  device_id = text item.id;
  name = text item.name;
  ip_address = text item.ip_address;
  port = integer (pos item.port);
  alive = integer (pos (bit item.alive));
}

unfoldable pub text_column : DatabaseField → Column → Result Bytes
text_column field (text s) = ok s
text_column field _ =
    err (validation_error field (bytes "persisted device text field has an invalid SQLite type"))

unfoldable pub integer_column : DatabaseField → Bytes → Column → Result ℤ
integer_column field message (integer n) = ok n
integer_column field message _ = err (validation_error field message)

unfoldable pub check : Bool → Failure → Done
check true failure = err failure
check false failure = ok tt

abbrev pub is_zero_or_one : ℤ → Bool
is_zero_or_one (pos n) = n == 0 || n == 1
is_zero_or_one (negsuc n) = false

-- The tests on the two numbers and on the item.
unfoldable pub checked_item : Bytes → Bytes → Bytes → ℤ → ℤ → Result DatabaseItem
unfolding check
checked_item id name address port alive =
    let item : DatabaseItem = record {
      id = id;
      name = name;
      ip_address = address;
      port = pos_part port;
      alive = pos_part alive == 1;
    } in
    check (ltb_ℤ port (pos 0) || ltb_ℤ (pos 65535) port)
      (validation_error DatabaseField.port (bytes "persisted port is outside 0-65535"))
    >> (check (not (is_zero_or_one alive))
          (validation_error DatabaseField.alive (bytes "persisted alive value is not 0 or 1"))
        >> (validate_item item >> ok item))

unfoldable pub decode_database_item : Row → Result DatabaseItem
unfolding text_column integer_column checked_item
decode_database_item row = do
  id ← text_column DatabaseField.id row.device_id
  name ← text_column DatabaseField.name row.name
  address ← text_column DatabaseField.address row.ip_address
  port ← integer_column DatabaseField.port (bytes "persisted port is not an integer") row.port
  alive ←
      integer_column DatabaseField.alive (bytes "persisted alive value is not an integer") row.alive
  checked_item id name address port alive

unfoldable pub decode_rows : List Row → Result (List DatabaseItem)
unfolding decode_database_item
decode_rows [] = ok []
decode_rows (row ∷ rows) = do
  item ← decode_database_item row
  items ← decode_rows rows
  ok (item ∷ items)

unfoldable pub decode_found : Option Row → Result (Option DatabaseItem)
unfolding decode_database_item
decode_found none = ok none
decode_found (some row) = do item ← decode_database_item row; ok (some item)

module _ (q : Sqlite) where
  pub record SqliteDatabase : Type 0 where
    pub database : q.Db
    pub initialized : Bool

  unfoldable pub ensure_initialized : SqliteDatabase → Done
  ensure_initialized s =
      if not s.initialized
      then err
          (logic_error (bytes "SQLiteDatabase::Initialize must succeed before storage operations"))
      else ok tt

  -- A statement behind tests that may throw.
  run_if :
      {A : Type 0} → Done → (q.Db → Result A × q.Db) → SqliteDatabase → Result A × SqliteDatabase
  run_if (err e) f s = (err e, s)
  run_if (ok _) f s = let (r, db) = f s.database in (r, record s { database = db })

  unfoldable pub add_item : DatabaseItem → SqliteDatabase → Done × SqliteDatabase
  unfolding ensure_initialized run_if bind_item
  add_item item s =
      run_if (ensure_initialized s >> validate_item item) (q.insert_item (bind_item item)) s

  unfoldable pub upsert_item : DatabaseItem → SqliteDatabase → Done × SqliteDatabase
  unfolding ensure_initialized run_if bind_item
  upsert_item item s =
      run_if (ensure_initialized s >> validate_item item) (q.upsert_row (bind_item item)) s

  unfoldable pub get_item : Bytes → SqliteDatabase → Result (Option DatabaseItem)
  unfolding ensure_initialized decode_found
  get_item id s = do ensure_initialized s; found ← q.select_where id s.database; decode_found found

  unfoldable pub get_all_items : SqliteDatabase → Result (List DatabaseItem)
  unfolding ensure_initialized decode_rows
  get_all_items s = do ensure_initialized s; rows ← q.select_all s.database; decode_rows rows

  unfoldable pub get_all_sorted_by_id : SqliteDatabase → Result (List DatabaseItem)
  unfolding ensure_initialized decode_rows
  get_all_sorted_by_id s = do
    ensure_initialized s
    rows ← q.select_ordered s.database
    decode_rows rows

  unfoldable pub contains_item : Bytes → SqliteDatabase → Result Bool
  unfolding ensure_initialized
  contains_item id s = do ensure_initialized s; q.exists_where id s.database

  unfoldable pub count_items : SqliteDatabase → Result ℕ
  unfolding ensure_initialized
  count_items s = do ensure_initialized s; q.count_rows s.database

  was_removed : Result ℕ × q.Db → Result Bool × q.Db
  was_removed (ok n, db) = (ok (ltb 0 n), db)
  was_removed (err e, db) = (err e, db)

  unfoldable pub remove_item : Bytes → SqliteDatabase → Result Bool × SqliteDatabase
  unfolding ensure_initialized run_if was_removed
  remove_item id s = run_if (ensure_initialized s) (λ db. was_removed (q.delete_where id db)) s

  unfoldable pub clear : SqliteDatabase → Done × SqliteDatabase
  unfolding ensure_initialized run_if
  clear s = run_if (ensure_initialized s) q.delete_all s

  -- A statement behind one that may have thrown.
  abbrev pub then_run : Done × q.Db → (q.Db → Done × q.Db) → Done × q.Db
  then_run (ok _, db) f = f db
  then_run (err e, db) f = (err e, db)

  -- `SQLite::Transaction`: what is not committed is rolled back by the destructor.
  abbrev pub end_transaction : Done × q.Db → Done × q.Db
  end_transaction (ok _, db) = (ok tt, db)
  end_transaction (err e, db) = (err e, q.rollback db)

  within_transaction : (q.Db → Done × q.Db) → Done × q.Db → Done × q.Db
  within_transaction body (err e, db) = (err e, db)
  within_transaction body (ok _, db) = end_transaction (then_run (body db) q.commit)

  unfoldable pub transaction : (q.Db → Done × q.Db) → q.Db → Done × q.Db
  unfolding within_transaction
  transaction body db = within_transaction body (q.begin_transaction db)

  unfoldable pub insert_all : List DatabaseItem → q.Db → Done × q.Db
  unfolding bind_item
  insert_all [] db = (ok tt, db)
  insert_all (item ∷ items) db = then_run (q.insert_item (bind_item item) db) (insert_all items)

  unfoldable pub replace_all : List DatabaseItem → SqliteDatabase → Done × SqliteDatabase
  unfolding ensure_initialized run_if transaction insert_all
  replace_all items s =
      run_if (ensure_initialized s >> validate_items items)
        (transaction (λ db. then_run (q.delete_all db) (insert_all items))) s
