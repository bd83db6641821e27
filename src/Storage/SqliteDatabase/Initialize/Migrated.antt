-- ===== src/Storage/SqliteDatabase/Initialize/Migrated.antt =====
-- An `Initialize` of src/Utils/Storage/SQLiteDatabase.cpp that succeeds.
use mathlib.Core.Path.{subst}
use watchlist.Prelude.{
  Bool, true, false, List, [], ◌∷◌, ◌≡◌, ◌⊎◌, inl, inr, refl, sym, ◌∙◌, Bool-cases, Bytes,
}
use watchlist.Prelude.Int.{ℤ, pos}
use watchlist.Storage.Item.{ok, err, Done}
use watchlist.Storage.SqliteDatabase.{Sqlite, SqliteDatabase}
use watchlist.Storage.SqliteDatabase.Catalogue.{
  Catalogue, is_number, same_number, current_schema_version, items_table, validate_v1_schema,
}
use watchlist.Storage.SqliteDatabase.Initialize.{
  read_then, migrate_rows, validate_unversioned, migrate_unversioned_device_schema, create_schema,
  is_legacy, initialize_new, initialize_old, initialize_unversioned, initialize_version,
  with_result, initialize,
}
use watchlist.Storage.SqliteDatabase.Initialize.Laws.{Stored, KeepsCatalogue}
use watchlist.Storage.SqliteDatabase.Initialize.Steps.{returned, read_then-Then}
use watchlist.Storage.SqliteDatabase.Transactions.{
  Then, Then-intro, KeepsTransactions, transaction-Then,
}
use watchlist.Storage.SqliteDatabase.Initialize.Reads.{validate_v1_schema-ok}
use watchlist.Storage.SqliteDatabase.Initialize.Valid.{
  IsDeviceSchema, is_number-true, same_number-true,
}
use watchlist.Storage.SqliteDatabase.Initialize.Copied.{
  Copied, IsV1, create_schema-IsV1, IsCopy, migrate_rows-IsCopy,
}

module _ (q : Sqlite) (c : Catalogue q) (t : KeepsTransactions q Stored)
    (k : KeepsCatalogue q c t) where
  -- What an `Initialize` that succeeds makes of a database.
  pub record Initialized (before after : Stored) : Type 0 where
    pub version_lem : after.version ≡ pos 1
    pub schema_lem : IsDeviceSchema after
    pub rows_lem :
        ((before.version ≡ pos 1) × (after ≡ before))
        ⊎ (((before.version ≡ pos 0)
              × (before.has_items ≡ false)
              × (before.objects ≡ [])
              × (after.rows ≡ []))
            ⊎ ((before.version ≡ pos 0)
                × (before.has_items ≡ true)
                × Copied before.rows after.rows))

  abbrev Ends : Done × q.Db → Stored → Type 0
  Ends x before = Then x.0 (Initialized before (t.stored x.1))

  initialize_old-Initialized :
      (legacy : Bool) (db : q.Db)
      → (t.stored db).version ≡ pos 0
      → (t.stored db).has_items ≡ true
      → Ends (initialize_old c legacy db) (t.stored db)
  unfolding initialize_old migrate_unversioned_device_schema
  initialize_old-Initialized true db v e = tt
  initialize_old-Initialized false db v e =
      read_then-Then (validate_unversioned c db) _ db (λ z. Initialized (t.stored db) (t.stored z))
        (λ _ _.
          transaction-Then q t (migrate_rows c) db (Initialized (t.stored db))
            (λ y same. migrated y same (migrate_rows c y) (migrate_rows-IsCopy q c t k y)))
    where
      migrated :
          (y : q.Db)
          → t.stored y ≡ t.stored db
          → (x : Done × q.Db) → Then x.0 (IsCopy q c t k (t.stored y).rows (t.stored x.1))
          → Ends x (t.stored db)
      migrated y same (ok _, z) (rows, (version, schema, kept), copied) = record {
        version_lem = version;
        schema_lem = schema;
        rows_lem = inr (
            inr (
              v,
              e,
              subst (Copied (t.stored db).rows) (sym kept)
                  (subst (λ (s : Stored). Copied s.rows rows) same copied),
            ));
      }
      migrated y same (err _, z) h = tt

  initialize_new-Initialized :
      (objects : List Bytes) (db : q.Db)
      → (t.stored db).version ≡ pos 0
      → (t.stored db).has_items ≡ false
      → objects ≡ (t.stored db).objects
      → Ends (initialize_new c objects db) (t.stored db)
  unfolding initialize_new
  initialize_new-Initialized [] db v e o =
      transaction-Then q t (create_schema c) db (Initialized (t.stored db))
        (λ y same. created (create_schema c y) (create_schema-IsV1 q c t k y))
    where
      created : (x : Done × q.Db) → Then x.0 (IsV1 q c t k [] (t.stored x.1)) → Ends x (t.stored db)
      created (ok _, z) (version, schema, empty) = record {
        version_lem = version;
        schema_lem = schema;
        rows_lem = inr (inl (v, e, sym o, empty));
      }
      created (err _, z) h = tt
  initialize_new-Initialized (x ∷ xs) db v e o = tt

  initialize_unversioned-Initialized :
      (exists : Bool) (db : q.Db)
      → (t.stored db).version ≡ pos 0
      → exists ≡ (t.stored db).has_items
      → Ends (initialize_unversioned c exists db) (t.stored db)
  unfolding initialize_unversioned
  initialize_unversioned-Initialized false db v e =
      read_then-Then (c.user_objects db) (initialize_new c) db
        (λ z. Initialized (t.stored db) (t.stored z))
        (λ objects h.
          initialize_new-Initialized objects db v (sym e)
            (returned (c.user_objects db) objects _ (k.objects_read db) h))
  initialize_unversioned-Initialized true db v e =
      read_then-Then (is_legacy c db) (initialize_old c) db
        (λ z. Initialized (t.stored db) (t.stored z))
        (λ legacy h. initialize_old-Initialized legacy db v (sym e))

  initialize_version-Initialized :
      (version : ℤ) (db : q.Db)
      → version ≡ (t.stored db).version
      → Ends (initialize_version c version db) (t.stored db)
  unfolding initialize_version
  initialize_version-Initialized version db v =
      elim (Bool-cases (same_number version current_schema_version)) [
        | inl e ↦ rw e (
            Then-intro (validate_v1_schema c db) _ (λ h.
              let current : (t.stored db).version ≡ pos 1 = sym v ∙ same_number-true version _ e in
              record {
                version_lem = current;
                schema_lem = validate_v1_schema-ok q c t k db h;
                rows_lem = inl (current, refl);
              }))
        | inr e ↦ elim (Bool-cases (is_number 0 version)) [
          | inl z ↦
              simp (e, z)
                (read_then-Then (c.table_exists items_table db) (initialize_unversioned c) db
                  (λ y. Initialized (t.stored db) (t.stored y))
                  (λ b h.
                    initialize_unversioned-Initialized b db (sym v ∙ is_number-true 0 version z)
                      (returned (c.table_exists items_table db) b _ (k.exists_read db) h)))
          | inr z ↦ simp (e, z) tt
        ]
      ]

  -- After an `Initialize` that succeeds, the database has version 1 and exactly the schema of devices:
  -- its only object is the table `items`, with the expected columns, one unique index on `device_id`
  -- and the expected text of its definition. A database of version 1 is what it was; one of version 0
  -- was either empty and has no devices now, or had a table `items`, every row of which could be
  -- decoded to an item; the table now has the rows of these items in the same order, and the same items
  -- are decoded from them.
  pub initialize-Initialized :
      (s : SqliteDatabase q)
      → (initialize c s).0 ≡ ok tt
      → Initialized (t.stored s.database) (t.stored (initialize c s).1.database)
  unfolding initialize with_result
  initialize-Initialized s h =
      ends (read_then (c.user_version s.database) (initialize_version c) s.database)
        (read_then-Then (c.user_version s.database) (initialize_version c) s.database
          (λ y. Initialized (t.stored s.database) (t.stored y))
          (λ version read.
            initialize_version-Initialized version s.database
              (returned (c.user_version s.database) version _ (k.version_read s.database) read)))
        h
    where
      ends :
          (x : Done × q.Db)
          → Ends x (t.stored s.database)
          → x.0 ≡ ok tt
          → Initialized (t.stored s.database) (t.stored (with_result c x).database)
      ends (ok _, z) o e = o
      ends (err f, z) o e = absurd cc
