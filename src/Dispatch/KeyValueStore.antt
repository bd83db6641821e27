-- ===== src/Dispatch/KeyValueStore.antt =====
-- src/Watchlist/Storage/KeyValueStore.cpp over the SQLite library (SQLiteCpp, not part of the
-- repository), which is a parameter: one field for each statement that the class runs.
use watchlist.Prelude.{Option, Bytes}
use watchlist.Storage.Item.{Result, ok, err, Done}

pub record KvSqlite : Type 1 where
  pub File : Type 0
  -- `SQLite::Database(path, OPEN_READWRITE | OPEN_CREATE)`
  pub open_or_create : File → Done × File
  -- `CREATE TABLE IF NOT EXISTS kv_store (...)`
  pub create_table : File → Done × File
  -- `INSERT INTO kv_store ... ON CONFLICT(key) DO UPDATE SET ...`
  pub insert_or_update : Bytes → Bytes → File → Done × File
  -- `SELECT value FROM kv_store WHERE key = ?`, with the first row if there is one.
  pub select_value : Bytes → File → Result (Option Bytes)

module _ (q : KvSqlite) where
  -- A statement that follows another one: not reached when that one threw.
  abbrev pub and_then : Done × q.File → (q.File → Done × q.File) → Done × q.File
  and_then (ok _, f) next = next f
  and_then (err e, f) next = (err e, f)

  -- The constructor.
  unfoldable pub open_store : q.File → Done × q.File
  open_store f = q.open_or_create f

  unfoldable pub initialize_store : q.File → Done × q.File
  initialize_store f = q.create_table f

  unfoldable pub upsert : Bytes → Bytes → q.File → Done × q.File
  upsert key value f = q.insert_or_update key value f

  unfoldable pub get : Bytes → q.File → Result (Option Bytes)
  get key f = q.select_value key f
