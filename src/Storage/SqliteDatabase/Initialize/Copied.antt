-- ===== src/Storage/SqliteDatabase/Initialize/Copied.antt =====
-- The tables that `Initialize` of src/Utils/Storage/SQLiteDatabase.cpp makes.
use mathlib.Core.Path.{subst}
use watchlist.Prelude.{List, [], ◌∷◌, ◌++◌, ◌≡◌, refl, sym, ap, ◌∙◌, append_assoc, append-nil, map}
use watchlist.Prelude.Int.{pos}
use watchlist.Storage.Item.{DatabaseItem, ok}
use watchlist.Storage.SqliteDatabase.{Sqlite, Row, bind_item, decode_rows}
use watchlist.Storage.SqliteDatabase.Catalogue.{Catalogue, create_v1_items_sql, validate_v1_schema}
use watchlist.Storage.SqliteDatabase.Rows.{bind_ok}
use watchlist.Storage.SqliteDatabase.Decoded.{decode_rows-bind_item}
use watchlist.Storage.SqliteDatabase.Initialize.{
  create_items_v1_sql, drop_items_sql, rename_items_v1_sql, set_version_sql, items_v1_table,
  set_version, insert_v1, count_matches, replace_table, copy_items, read_items, migrate_rows,
  create_schema,
}
use watchlist.Storage.SqliteDatabase.Initialize.Laws.{Stored, KeepsCatalogue}
use watchlist.Storage.SqliteDatabase.Initialize.Steps.{returned, read_then-Then}
use watchlist.Storage.SqliteDatabase.Transactions.{
  Then-map, Then, Then-intro, KeepsTransactions, then_run-Then,
}
use watchlist.Storage.SqliteDatabase.Initialize.Reads.{validate_v1_schema-ok}
use watchlist.Storage.SqliteDatabase.Initialize.Valid.{IsDeviceSchema}

-- The rows afterwards are those of the items that the rows before are decoded to, and are decoded to the
-- same items.
abbrev pub Copied : List Row → List Row → Type 0
Copied before after =
    (items : List DatabaseItem) × (decode_rows before ≡ ok items)
    × (after ≡ map bind_item items)
    × (decode_rows after ≡ ok items)

module _ (q : Sqlite) (c : Catalogue q) (t : KeepsTransactions q Stored)
    (k : KeepsCatalogue q c t) where
  abbrev pub IsV1 : List Row → Stored → Type 0
  IsV1 rows s = (s.version ≡ pos 1) × IsDeviceSchema s × (s.rows ≡ rows)

  set_version-IsV1 :
      (db : q.Db)
      → Then (set_version c db).0 (IsV1 (t.stored db).rows (t.stored (set_version c db).1))
  unfolding set_version
  set_version-IsV1 db =
      then_run-Then q (c.exec set_version_sql db) _
        (λ y. t.stored y ≡ record (t.stored db) { version = pos 1 })
        (λ z. IsV1 (t.stored db).rows (t.stored z)) (k.set_version_lem db)
        (λ y e. Then-intro (validate_v1_schema c y) _ (λ h. (
          ap (λ (s : Stored). s.version) e,
          validate_v1_schema-ok q c t k y h,
          ap (λ (s : Stored). s.rows) e,
        )))

  pub create_schema-IsV1 :
      (db : q.Db) → Then (create_schema c db).0 (IsV1 [] (t.stored (create_schema c db).1))
  unfolding create_schema
  create_schema-IsV1 db =
      then_run-Then q (c.exec create_v1_items_sql db) (set_version c) (λ y. (t.stored y).rows ≡ [])
        (λ z. IsV1 [] (t.stored z)) (k.create_rows db)
        (λ y e.
          subst (λ rows. Then (set_version c y).0 (IsV1 rows (t.stored (set_version c y).1))) e
            (set_version-IsV1 y))

  insert_v1-staged :
      (items : List DatabaseItem) (db : q.Db)
      → Then
          (insert_v1 c items db).0
          ((t.stored (insert_v1 c items db).1).staged ≡ (t.stored db).staged ++ map bind_item items)
  unfolding insert_v1
  insert_v1-staged [] db = sym (append-nil (t.stored db).staged)
  insert_v1-staged (i ∷ is) db =
      then_run-Then q (c.insert_into items_v1_table (bind_item i) db) (insert_v1 c is)
        (λ y. (t.stored y).staged ≡ (t.stored db).staged ++ bind_item i ∷ [])
        (λ z. (t.stored z).staged ≡ (t.stored db).staged ++ map bind_item (i ∷ is))
        (k.insert_staged (bind_item i) db)
        (λ y e.
          Then-map (insert_v1 c is y).0 _ _
            (λ h.
              h
              ∙ ap (λ rows. rows ++ map bind_item is) e
              ∙ append_assoc (t.stored db).staged (bind_item i ∷ []) (map bind_item is))
            (insert_v1-staged is y))

  replace_table-IsV1 :
      (db : q.Db)
      → Then (replace_table c db).0 (IsV1 (t.stored db).staged (t.stored (replace_table c db).1))
  unfolding replace_table
  replace_table-IsV1 db =
      then_run-Then q (c.exec drop_items_sql db) _ (λ y. (t.stored y).staged ≡ (t.stored db).staged)
        (λ z. IsV1 (t.stored db).staged (t.stored z)) (k.drop_staged db)
        (λ y e.
          then_run-Then q (c.exec rename_items_v1_sql y) (set_version c)
            (λ z. (t.stored z).rows ≡ (t.stored y).staged)
            (λ z. IsV1 (t.stored db).staged (t.stored z)) (k.rename_rows y)
            (λ z f.
              subst (λ rows. Then (set_version c z).0 (IsV1 rows (t.stored (set_version c z).1)))
                (f ∙ e) (set_version-IsV1 z)))

  copy_items-IsV1 :
      (items : List DatabaseItem) (db : q.Db)
      → Then
          (copy_items c items db).0
          (IsV1 (map bind_item items) (t.stored (copy_items c items db).1))
  unfolding copy_items
  copy_items-IsV1 items db =
      then_run-Then q (c.exec create_items_v1_sql db) _ (λ y. (t.stored y).staged ≡ []) wanted
        (k.create_staged db)
        (λ y e.
          then_run-Then q (insert_v1 c items y) _
            (λ z. (t.stored z).staged ≡ (t.stored y).staged ++ map bind_item items) wanted
            (insert_v1-staged items y)
            (λ z f.
              read_then-Then (count_matches c items z) (λ _. replace_table c) z wanted
                (λ _ _.
                  subst
                    (λ rows.
                      Then (replace_table c z).0 (IsV1 rows (t.stored (replace_table c z).1)))
                    (f ∙ ap (λ rows. rows ++ map bind_item items) e) (replace_table-IsV1 z))))
    where
      wanted : q.Db → Type 0
      wanted z = IsV1 (map bind_item items) (t.stored z)

  abbrev pub IsCopy : List Row → Stored → Type 0
  IsCopy before s = (rows : List Row) × IsV1 rows s × Copied before rows

  pub migrate_rows-IsCopy :
      (db : q.Db)
      → Then (migrate_rows c db).0 (IsCopy (t.stored db).rows (t.stored (migrate_rows c db).1))
  unfolding migrate_rows read_items
  migrate_rows-IsCopy db =
      read_then-Then (read_items c db) (copy_items c) db
        (λ z. IsCopy (t.stored db).rows (t.stored z))
        (λ items h.
          let (rows, read, decoded) = bind_ok (c.select_in_order db) _ items h in
          let here : decode_rows (t.stored db).rows ≡ ok items =
            ap decode_rows (sym (returned (c.select_in_order db) rows _ (k.rows_read db) read))
            ∙ decoded in
          Then-map (copy_items c items db).0 _ _
            (λ h. (
              map bind_item items,
              h,
              (items, here, refl, decode_rows-bind_item (t.stored db).rows items here),
            ))
            (copy_items-IsV1 items db))
