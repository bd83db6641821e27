-- ===== src/Storage/SqliteDatabase/Rows.antt =====
-- The rows of the table `items` as items, and what the program relies on of SQLite's statements.
use watchlist.Prelude.{
  ℕ, Bool, true, false, not, ◌||◌, Option, none, some, List, [], ◌∷◌, ◌≡◌, refl, ap, arith,
  Bool-cases, inl, inr, if◌then◌else◌, Bytes, bytes, equal, ◌==◌,
}
use watchlist.Prelude.Int.{ℤ, pos, pos_part, ltb_ℤ}
use watchlist.Storage.Item.{
  DatabaseItem, DatabaseField, Result, ok, err, ◌>>=◌, ◌>>◌, Done, validation_error,
}
use watchlist.Storage.Interface.{find_item}
use watchlist.Storage.SqliteDatabase.{
  Column, text, integer, other, Row, Sqlite, bit, bind_item, text_column, integer_column, check,
  decode_database_item, decode_rows, checked_item, is_zero_or_one,
}
use watchlist.Storage.Validation.{validate_item}

abbrev pub Rows : Type 0
Rows = Bytes → Option Row

abbrev pub is_text_of : Bytes → Column → Bool
is_text_of id (text s) = equal s id
is_text_of id (integer n) = false
is_text_of id other = false

unfoldable pub find_row : List Row → Rows
find_row [] id = none
find_row (r ∷ rs) id = if is_text_of id r.device_id then some r else find_row rs id

abbrev pub with_row : Bytes → Row → Rows → Rows
with_row target r rows id = if equal target id then some r else rows id

abbrev pub without_row : Bytes → Rows → Rows
without_row target rows id = if equal target id then none else rows id

abbrev pub RowChanges : {A : Type 0} → Result A → Rows → Rows → Rows → Type 0
RowChanges (ok a) before after wanted = (id : Bytes) → after id ≡ wanted id
RowChanges (err e) before after wanted = (id : Bytes) → after id ≡ before id

abbrev pub RowReads : Result (List Row) → Rows → Type 0
RowReads (ok rows) stored = (id : Bytes) → find_row rows id ≡ stored id
RowReads (err e) stored = Unit

abbrev pub RowFree : {A : Type 0} → Result A → Option Row → Type 0
RowFree (ok a) o = o ≡ none
RowFree (err e) o = Unit

-- Each statement does what SQL says on success, and nothing when it fails; the unique index on
-- `device_id` keeps an insert from replacing a row.
pub record KeepsRows (q : Sqlite) : Type 0 where
  pub rows : q.Db → Rows
  pub insert_changes :
      (r : Row) (id : Bytes) (db : q.Db)
      → r.device_id ≡ text id
      → RowChanges
          (q.insert_item r db).0
          (rows db)
          (rows (q.insert_item r db).1)
          (with_row id r (rows db))
  pub insert_free :
      (r : Row) (id : Bytes) (db : q.Db)
      → r.device_id ≡ text id
      → RowFree (q.insert_item r db).0 (rows db id)
  pub upsert_changes :
      (r : Row) (id : Bytes) (db : q.Db)
      → r.device_id ≡ text id
      → RowChanges
          (q.upsert_row r db).0
          (rows db)
          (rows (q.upsert_row r db).1)
          (with_row id r (rows db))
  pub delete_changes :
      (id : Bytes) (db : q.Db)
      → RowChanges
          (q.delete_where id db).0
          (rows db)
          (rows (q.delete_where id db).1)
          (without_row id (rows db))
  pub ordered_reads : (db : q.Db) → RowReads (q.select_ordered db) (rows db)

abbrev pub text_or_empty : Column → Bytes
text_or_empty (text s) = s
text_or_empty (integer n) = []
text_or_empty other = []

abbrev pub number_or_zero : Column → ℕ
number_or_zero (text s) = 0
number_or_zero (integer n) = pos_part n
number_or_zero other = 0

-- The item that a row stands for, whatever its columns are.
abbrev pub item_of : Row → DatabaseItem
item_of row = record {
  id = text_or_empty row.device_id;
  name = text_or_empty row.name;
  ip_address = text_or_empty row.ip_address;
  port = number_or_zero row.port;
  alive = number_or_zero row.alive == 1;
}

abbrev pub as_item : Option Row → Option DatabaseItem
as_item none = none
as_item (some r) = some (item_of r)

pub item_of-bind_item : (i : DatabaseItem) → item_of (bind_item i) ≡ i
unfolding bind_item
item_of-bind_item i = rw (alive_lem i.alive) refl
  where
    alive_lem : (b : Bool) → (bit b == 1) ≡ b
    alive_lem true = refl
    alive_lem false = refl

pub bind_ok :
    {A B : Type 0} (m : Result A) (f : A → Result B) (b : B)
    → m >>= f ≡ ok b
    → (a : A) × (m ≡ ok a) × (f a ≡ ok b)
bind_ok (ok a) f b h = (a, refl, h)
bind_ok (err e) f b h = absurd cc

pub then_ok : {B : Type 0} (m : Done) (k : Result B) (b : B) → m >> k ≡ ok b → k ≡ ok b
then_ok (ok _) k b h = h
then_ok (err e) k b h = absurd cc

pub checked_item-ok :
    (id name address : Bytes) (port alive : ℤ) (i : DatabaseItem)
    → checked_item id name address port alive ≡ ok i
    → i ≡ record {
      id = id;
      name = name;
      ip_address = address;
      port = pos_part port;
      alive = pos_part alive == 1;
    }
unfolding checked_item
checked_item-ok id name address port alive i h =
    let last : ok item ≡ ok i = then_ok (validate_item item) (ok item) i (
      then_ok
        (check (not (is_zero_or_one alive))
          (validation_error DatabaseField.alive (bytes "persisted alive value is not 0 or 1")))
        (validate_item item >> ok item) i
        (then_ok
          (check (ltb_ℤ port (pos 0) || ltb_ℤ (pos 65535) port)
            (validation_error DatabaseField.port (bytes "persisted port is outside 0-65535")))
          _ i h)) in
    ground (arith, last)
  where
    item : DatabaseItem
    item = record {
      id = id;
      name = name;
      ip_address = address;
      port = pos_part port;
      alive = pos_part alive == 1;
    }

-- A row that is decoded stands for the item that it is decoded to, under its own id.
decode_columns :
    (a b c d e : Column) (i : DatabaseItem)
    → decode_database_item (record { device_id = a; name = b; ip_address = c; port = d; alive = e })
      ≡ ok i
    → (i ≡ item_of (record { device_id = a; name = b; ip_address = c; port = d; alive = e }))
      × (a ≡ text i.id)
unfolding decode_database_item text_column integer_column
decode_columns (text a) (text b) (text c) (integer d) (integer e) i h =
    let same = checked_item-ok a b c d e i h in (same, rw same refl)
decode_columns _ _ _ _ _ i h = absurd cc

pub decode_rows-cons :
    (r : Row) (rs : List Row) (items : List DatabaseItem)
    → decode_rows (r ∷ rs) ≡ ok items
    → (i : DatabaseItem) × (is : List DatabaseItem) × (decode_database_item r ≡ ok i)
      × (decode_rows rs ≡ ok is)
      × (items ≡ i ∷ is)
unfolding decode_rows
decode_rows-cons r rs items h =
    let (i, e, later) =
      bind_ok (decode_database_item r) (λ i. decode_rows rs >>= λ is. ok (i ∷ is)) items h in
    let (is, e', last) = bind_ok (decode_rows rs) (λ is. ok (i ∷ is)) items later in
    (i, is, e, e', ground (arith, last))

found_lem :
    (i : DatabaseItem) (is : List DatabaseItem) (r : Row) (rs : List Row) (id : Bytes)
    → i ≡ item_of r
    → r.device_id ≡ text i.id
    → find_item is id ≡ as_item (find_row rs id)
    → find_item (i ∷ is) id ≡ as_item (find_row (r ∷ rs) id)
unfolding find_item find_row
found_lem i is r rs id same key rest =
    let test : is_text_of id r.device_id ≡ equal i.id id = ap (is_text_of id) key in
    elim (Bool-cases (equal i.id id)) [
      | inl e ↦ simp (test, e) (ap some same)
      | inr e ↦ simp (test, e) rest
    ]

pub find_item-decode_rows :
    (rows : List Row) (items : List DatabaseItem) (id : Bytes)
    → decode_rows rows ≡ ok items
    → find_item items id ≡ as_item (find_row rows id)
find_item-decode_rows [] [] id h = unfold find_item find_row in refl
find_item-decode_rows [] (i ∷ items) id h = absurd (unfold decode_rows in cc)
find_item-decode_rows (r ∷ rs) items id h =
    let (i, is, e, e', whole) = decode_rows-cons r rs items h in
    let (same, key) = decode_columns r.device_id r.name r.ip_address r.port r.alive i e in
    rw whole (found_lem i is r rs id same key (find_item-decode_rows rs is id e'))
