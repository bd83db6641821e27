-- ===== src/Storage/SqliteDatabase/Examples.antt =====
-- A list of rows that does what the SQL statements of src/Utils/Storage/SQLiteDatabase.cpp say.
use watchlist.Prelude.{
  ◌↔◌, Bool, true, false, Option, none, some, List, [], ◌∷◌, ◌≡◌, refl, ap, ◌∙◌, arith, Bool-cases,
  inl, inr, if◌then◌else◌, has_value, Bytes, bytes, equal, equal_iff, length,
}
use watchlist.Storage.Item.{ok, err, Done, sqlite_error}
use watchlist.Storage.Interface.{Contract}
use watchlist.Storage.SqliteDatabase.{Column, text, integer, other, Row, Sqlite, SqliteDatabase}
use watchlist.Storage.SqliteDatabase.Rows.{
  find_row, is_text_of, with_row, without_row, KeepsRows, RowChanges, RowFree, as_item,
}
use watchlist.Storage.SqliteDatabase.Refines.{sqlite_database, sqlite_database-Contract}

abbrev key_taken : List Row → Column → Bool
key_taken db (text id) = has_value (find_row db id)
key_taken db (integer n) = true
key_taken db other = true

insert_row : Row → List Row → Done × List Row
insert_row r db =
    if key_taken db r.device_id then (err (sqlite_error (bytes "UNIQUE")), db) else (ok tt, r ∷ db)

remove_rows : Bytes → List Row → List Row
remove_rows id [] = []
remove_rows id (r ∷ rs) =
    let rest = remove_rows id rs in if is_text_of id r.device_id then rest else r ∷ rest

abbrev table : Sqlite
table = record {
  Db = List Row;
  insert_item = insert_row;
  upsert_row = λ r db. (ok tt, r ∷ db);
  select_where = λ id db. ok (find_row db id);
  select_all = λ db. ok db;
  select_ordered = λ db. ok db;
  exists_where = λ id db. ok (has_value (find_row db id));
  count_rows = λ db. ok (length db);
  delete_where = λ id db. (ok (if has_value (find_row db id) then 1 else 0), remove_rows id db);
  delete_all = λ db. (ok tt, []);
  begin_transaction = λ db. (ok tt, db);
  commit = λ db. (ok tt, db);
  rollback = λ db. db;
}

find_row-cons :
    (r : Row) (id : Bytes) (db : List Row) (x : Bytes)
    → r.device_id ≡ text id
    → find_row (r ∷ db) x ≡ with_row id r (find_row db) x
unfolding find_row
find_row-cons r id db x e =
    let test : is_text_of x r.device_id ≡ equal id x = ap (is_text_of x) e in simp test refl

insert_row-changes :
    (r : Row) (id : Bytes) (db : List Row)
    → r.device_id ≡ text id
    → RowChanges
        (insert_row r db).0
        (find_row db)
        (find_row (insert_row r db).1)
        (with_row id r (find_row db))
unfolding insert_row
insert_row-changes r id db e = elim (Bool-cases (key_taken db r.device_id)) [
  | inl taken ↦ rw taken (λ x. refl)
  | inr free ↦ rw free (λ x. find_row-cons r id db x e)
]

insert_row-free :
    (r : Row) (id : Bytes) (db : List Row)
    → r.device_id ≡ text id
    → RowFree (insert_row r db).0 (find_row db id)
unfolding insert_row
insert_row-free r id db e =
    let key : key_taken db r.device_id ≡ has_value (find_row db id) = ap (key_taken db) e in
    free (key_taken db r.device_id) (find_row db id) key
  where
    free :
        (b : Bool) (o : Option Row)
        → b ≡ has_value o
        → RowFree
            (if◌then◌else◌ {A = Done × List Row} b
              (err (sqlite_error (bytes "UNIQUE")), db)
              (ok tt, r ∷ db)).0
            o
    free true o h = tt
    free false none h = refl
    free false (some x) h = absurd cc

key_same : (id x : Bytes) (c : Column) → is_text_of id c ≡ true → is_text_of x c ≡ equal id x
key_same id x (text s) h = ap (λ (t : Bytes). equal t x) ((equal_iff s id).0 h)
key_same id x (integer n) h = absurd cc
key_same id x other h = absurd cc

key_other :
    (id x : Bytes) (c : Column)
    → is_text_of id c ≡ false
    → equal id x ≡ true
    → is_text_of x c ≡ false
key_other id x c h e = rw (← (equal_iff id x).0 e) h

find_row-remove_rows :
    (id : Bytes) (db : List Row) (x : Bytes)
    → find_row (remove_rows id db) x ≡ without_row id (find_row db) x
unfolding find_row remove_rows
find_row-remove_rows id [] x = ground arith
find_row-remove_rows id (r ∷ rs) x =
    let later : find_row (remove_rows id rs) x ≡ without_row id (find_row rs) x =
      find_row-remove_rows id rs x in
    elim (Bool-cases (is_text_of id r.device_id)) [
      | inl mine ↦ simp mine (later ∙ ground (arith, key_same id x r.device_id mine))
      | inr others ↦ simp others (ground (arith, later, key_other id x r.device_id others))
    ]

table-KeepsRows : KeepsRows table
table-KeepsRows = record {
  rows = find_row;
  insert_changes = insert_row-changes;
  insert_free = insert_row-free;
  upsert_changes = λ r id db e x. find_row-cons r id db x e;
  delete_changes = find_row-remove_rows;
  ordered_reads = λ db id. refl;
}

abbrev untouched : SqliteDatabase table → Done × SqliteDatabase table
untouched s = (ok tt, s)

sqlite_database-Contract_example :
    (contract : Contract (sqlite_database table untouched)) × ((s : SqliteDatabase table)
      → contract.IsOpen s ↔ (s.initialized ≡ true))
    × ((s : SqliteDatabase table) (id : Bytes)
        → contract.view s id ≡ as_item (table-KeepsRows.rows s.database id))
sqlite_database-Contract_example = sqlite_database-Contract table table-KeepsRows untouched
