-- ===== src/Storage/SqliteDatabase/Initialize/Kept.antt =====
-- An `Initialize` of src/Utils/Storage/SQLiteDatabase.cpp that throws.
use watchlist.Prelude.{
  Bool, true, false, List, [], ◌∷◌, ◌≡◌, ◌⊎◌, inl, inr, refl, ◌∙◌, Bool-cases, Bytes,
}
use watchlist.Prelude.Int.{ℤ}
use watchlist.Storage.Item.{DatabaseItem, Failure, ok, err, Done}
use watchlist.Storage.SqliteDatabase.{Sqlite, SqliteDatabase, bind_item, then_run}
use watchlist.Storage.SqliteDatabase.Catalogue.{
  Catalogue, is_number, same_number, current_schema_version, items_table, create_v1_items_sql,
  validate_v1_schema,
}
use watchlist.Storage.SqliteDatabase.Initialize.{
  create_items_v1_sql, drop_items_sql, rename_items_v1_sql, set_version_sql, items_v1_table,
  read_then, set_version, insert_v1, count_matches, replace_table, copy_items, read_items,
  migrate_rows, validate_unversioned, migrate_unversioned_device_schema, create_schema, is_legacy,
  initialize_new, initialize_old, initialize_unversioned, initialize_version, with_result,
  initialize,
}
use watchlist.Storage.SqliteDatabase.Initialize.Laws.{Stored, KeepsCatalogue}
use watchlist.Storage.SqliteDatabase.Initialize.Steps.{read_then-Thrown, read_then-always}
use watchlist.Storage.SqliteDatabase.Transactions.{
  Thrown, KeepsTransactions, then_run-always, transaction-Thrown,
}

module _ (q : Sqlite) (c : Catalogue q) (t : KeepsTransactions q Stored)
    (k : KeepsCatalogue q c t) where
  -- A step that leaves alone what a rollback brings back.
  abbrev Saves : (q.Db → Done × q.Db) → Type 0
  Saves f = (db : q.Db) → t.saved (f db).1 ≡ t.saved db

  then_run-Saves :
      (x : Done × q.Db) (db : q.Db) (f : q.Db → Done × q.Db)
      → t.saved x.1 ≡ t.saved db
      → Saves f
      → t.saved (then_run q x f).1 ≡ t.saved db
  then_run-Saves x db f h later =
      then_run-always q x f (λ y. t.saved y ≡ t.saved db) h (λ y e. later y ∙ e)

  set_version-Saves : Saves (set_version c)
  unfolding set_version
  set_version-Saves db =
      then_run-Saves (c.exec set_version_sql db) db (λ y. (validate_v1_schema c y, y))
        (k.exec_saved set_version_sql db (inr (inr (inr (inr refl))))) (λ y. refl)

  insert_v1-Saves : (items : List DatabaseItem) → Saves (insert_v1 c items)
  unfolding insert_v1
  insert_v1-Saves [] db = refl
  insert_v1-Saves (i ∷ is) db =
      then_run-Saves (c.insert_into items_v1_table (bind_item i) db) db (insert_v1 c is)
        (k.insert_saved (bind_item i) db) (insert_v1-Saves is)

  replace_table-Saves : Saves (replace_table c)
  unfolding replace_table
  replace_table-Saves db =
      then_run-Saves (c.exec drop_items_sql db) db _
        (k.exec_saved drop_items_sql db (inr (inr (inl refl))))
        (λ y.
          then_run-Saves (c.exec rename_items_v1_sql y) y (set_version c)
            (k.exec_saved rename_items_v1_sql y (inr (inr (inr (inl refl))))) set_version-Saves)

  copy_items-Saves : (items : List DatabaseItem) → Saves (copy_items c items)
  unfolding copy_items
  copy_items-Saves items db =
      then_run-Saves (c.exec create_items_v1_sql db) db _
        (k.exec_saved create_items_v1_sql db (inr (inl refl)))
        (λ y. then_run-Saves (insert_v1 c items y) y _ (insert_v1-Saves items y) (λ z.
          read_then-always (count_matches c items z) (λ _. replace_table c) z
            (λ x. t.saved x ≡ t.saved z) refl (λ _. replace_table-Saves z)))

  migrate_rows-Saves : Saves (migrate_rows c)
  unfolding migrate_rows
  migrate_rows-Saves db =
      read_then-always (read_items c db) (copy_items c) db (λ x. t.saved x ≡ t.saved db) refl
        (λ items. copy_items-Saves items db)

  create_schema-Saves : Saves (create_schema c)
  unfolding create_schema
  create_schema-Saves db =
      then_run-Saves (c.exec create_v1_items_sql db) db (set_version c)
        (k.exec_saved create_v1_items_sql db (inl refl)) set_version-Saves

  -- A step that throws leaves what the database holds.
  abbrev Undoes : Done × q.Db → q.Db → Type 0
  Undoes x db = Thrown x.0 (t.stored x.1 ≡ t.stored db)

  thrown_here : (r : Done) (db : q.Db) → Undoes (r, db) db
  thrown_here (ok _) db = tt
  thrown_here (err e) db = refl

  initialize_old-Undoes : (legacy : Bool) (db : q.Db) → Undoes (initialize_old c legacy db) db
  unfolding initialize_old migrate_unversioned_device_schema
  initialize_old-Undoes true db = refl
  initialize_old-Undoes false db =
      read_then-Thrown (validate_unversioned c db) _ db (λ y. t.stored y ≡ t.stored db) refl
        (λ _. transaction-Thrown q t (migrate_rows c) db migrate_rows-Saves)

  initialize_new-Undoes :
      (objects : List Bytes) (db : q.Db) → Undoes (initialize_new c objects db) db
  unfolding initialize_new
  initialize_new-Undoes [] db = transaction-Thrown q t (create_schema c) db create_schema-Saves
  initialize_new-Undoes (o ∷ os) db = refl

  initialize_unversioned-Undoes :
      (exists : Bool) (db : q.Db) → Undoes (initialize_unversioned c exists db) db
  unfolding initialize_unversioned
  initialize_unversioned-Undoes false db =
      read_then-Thrown (c.user_objects db) (initialize_new c) db (λ y. t.stored y ≡ t.stored db)
        refl (λ objects. initialize_new-Undoes objects db)
  initialize_unversioned-Undoes true db =
      read_then-Thrown (is_legacy c db) (initialize_old c) db (λ y. t.stored y ≡ t.stored db) refl
        (λ legacy. initialize_old-Undoes legacy db)

  initialize_version-Undoes :
      (version : ℤ) (db : q.Db) → Undoes (initialize_version c version db) db
  unfolding initialize_version
  initialize_version-Undoes version db =
      elim (Bool-cases (same_number version current_schema_version)) [
        | inl e ↦ rw e (thrown_here (validate_v1_schema c db) db)
        | inr e ↦ elim (Bool-cases (is_number 0 version)) [
          | inl z ↦
              simp (e, z)
                (read_then-Thrown (c.table_exists items_table db) (initialize_unversioned c) db
                  (λ y. t.stored y ≡ t.stored db) refl (λ b. initialize_unversioned-Undoes b db))
          | inr z ↦ simp (e, z) refl
        ]
      ]

  -- An `Initialize` that throws, at whatever statement or test of the schema, leaves everything that
  -- the database holds as it was, and the object uninitialized, also if it was initialized before. One
  -- that does not throw leaves the object initialized.
  pub initialize-Thrown :
      (s : SqliteDatabase q)
      → (((initialize c s).0 ≡ ok tt) × ((initialize c s).1.initialized ≡ true))
        ⊎ ((e : Failure) × ((initialize c s).0 ≡ err e)
            × (t.stored (initialize c s).1.database ≡ t.stored s.database)
            × ((initialize c s).1.initialized ≡ false))
  unfolding initialize with_result
  initialize-Thrown s =
      ends (read_then (c.user_version s.database) (initialize_version c) s.database) (
        read_then-Thrown (c.user_version s.database) (initialize_version c) s.database
          (λ y. t.stored y ≡ t.stored s.database) refl
          (λ version. initialize_version-Undoes version s.database))
    where
      ends :
          (x : Done × q.Db)
          → Undoes x s.database
          → ((x.0 ≡ ok tt) × ((with_result c x).initialized ≡ true))
            ⊎ ((e : Failure) × (x.0 ≡ err e)
                × (t.stored (with_result c x).database ≡ t.stored s.database)
                × ((with_result c x).initialized ≡ false))
      ends (ok _, db) h = inl (refl, refl)
      ends (err e, db) h = inr (e, refl, h, refl)
