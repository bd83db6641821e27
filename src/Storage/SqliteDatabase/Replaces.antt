-- ===== src/Storage/SqliteDatabase/Replaces.antt =====
-- `ReplaceAll` of src/Utils/Storage/SQLiteDatabase.cpp as one operation on the rows of `items`, in the order
-- of their row numbers.
mod Examples
use watchlist.Prelude.{
  Bool, true, false, not, List, [], ◌∷◌, ◌++◌, ◌≡◌, ◌⊎◌, inl, inr, refl, sym, ap, ◌∙◌, append-nil,
  append_assoc, map, if◌then◌else◌, bytes,
}
use watchlist.Storage.Item.{DatabaseItem, Failure, logic_error, ok, err, Done, ◌>>◌}
use watchlist.Storage.Validation.{validate_items}
use watchlist.Storage.SqliteDatabase.{
  Sqlite, SqliteDatabase, Row, bind_item, ensure_initialized, run_if, then_run, transaction,
  insert_all, replace_all,
}
use watchlist.Storage.SqliteDatabase.Transactions.{
  Then, Then-map, Thrown, KeepsTransactions, then_run-Then, then_run-always, transaction-Then,
  transaction-Thrown,
}

-- What the two statements do to the rows; neither touches what a rollback brings back.
pub record KeepsTable (q : Sqlite) (t : KeepsTransactions q (List Row)) : Type 0 where
  pub insert_rows :
      (r : Row) (db : q.Db)
      → Then (q.insert_item r db).0 (t.stored (q.insert_item r db).1 ≡ t.stored db ++ r ∷ [])
  pub insert_saved : (r : Row) (db : q.Db) → t.saved (q.insert_item r db).1 ≡ t.saved db
  pub delete_rows : (db : q.Db) → Then (q.delete_all db).0 (t.stored (q.delete_all db).1 ≡ [])
  pub delete_saved : (db : q.Db) → t.saved (q.delete_all db).1 ≡ t.saved db

module _ (q : Sqlite) (t : KeepsTransactions q (List Row)) (k : KeepsTable q t) where
  insert_all-rows :
      (items : List DatabaseItem) (db : q.Db)
      → Then
          (insert_all q items db).0
          (t.stored (insert_all q items db).1 ≡ t.stored db ++ map bind_item items)
  unfolding insert_all
  insert_all-rows [] db = sym (append-nil (t.stored db))
  insert_all-rows (i ∷ is) db =
      then_run-Then q (q.insert_item (bind_item i) db) (insert_all q is)
        (λ y. t.stored y ≡ t.stored db ++ bind_item i ∷ [])
        (λ z. t.stored z ≡ t.stored db ++ map bind_item (i ∷ is)) (k.insert_rows (bind_item i) db)
        (λ y e.
          Then-map (insert_all q is y).0 _ _
            (λ h.
              h
              ∙ ap (λ rows. rows ++ map bind_item is) e
              ∙ append_assoc (t.stored db) (bind_item i ∷ []) (map bind_item is))
            (insert_all-rows is y))

  insert_all-saved :
      (items : List DatabaseItem) (db : q.Db) → t.saved (insert_all q items db).1 ≡ t.saved db
  unfolding insert_all
  insert_all-saved [] db = refl
  insert_all-saved (i ∷ is) db =
      then_run-always q (q.insert_item (bind_item i) db) (insert_all q is)
        (λ y. t.saved y ≡ t.saved db) (k.insert_saved (bind_item i) db)
        (λ y e. insert_all-saved is y ∙ e)

  abbrev replacing : List DatabaseItem → q.Db → Done × q.Db
  replacing items db = then_run q (q.delete_all db) (insert_all q items)

  replacing-rows :
      (items : List DatabaseItem) (db : q.Db)
      → Then (replacing items db).0 (t.stored (replacing items db).1 ≡ map bind_item items)
  replacing-rows items db =
      then_run-Then q (q.delete_all db) (insert_all q items) (λ y. t.stored y ≡ [])
        (λ z. t.stored z ≡ map bind_item items) (k.delete_rows db)
        (λ y e.
          Then-map (insert_all q items y).0 _ _
            (λ h. h ∙ ap (λ rows. rows ++ map bind_item items) e) (insert_all-rows items y))

  replacing-saved :
      (items : List DatabaseItem) (db : q.Db) → t.saved (replacing items db).1 ≡ t.saved db
  replacing-saved items db =
      then_run-always q (q.delete_all db) (insert_all q items) (λ y. t.saved y ≡ t.saved db)
        (k.delete_saved db) (λ y e. insert_all-saved items y ∙ e)

  -- The transaction behind tests.
  run_if-atomic :
      (items : List DatabaseItem) (m : Done) (s : SqliteDatabase q)
      → let x = run_if q m (transaction q (replacing items)) s in
        ((x.0 ≡ ok tt) × (t.stored x.1.database ≡ map bind_item items) × (m ≡ ok tt))
        ⊎ ((e : Failure) × (x.0 ≡ err e) × (t.stored x.1.database ≡ t.stored s.database))
  unfolding run_if
  run_if-atomic items (err e) s = inr (e, refl, refl)
  run_if-atomic items (ok _) s =
      ends (transaction q (replacing items) s.database)
        (transaction-Then q t (replacing items) s.database (λ rows. rows ≡ map bind_item items)
          (λ y _. replacing-rows items y))
        (transaction-Thrown q t (replacing items) s.database (replacing-saved items))
    where
      ends :
          (x : Done × q.Db)
          → Then x.0 (t.stored x.1 ≡ map bind_item items)
          → Thrown x.0 (t.stored x.1 ≡ t.stored s.database)
          → ((x.0 ≡ ok tt)
              × (t.stored x.1 ≡ map bind_item items)
              × (◌≡◌ {A = Done} (ok tt) (ok tt)))
            ⊎ ((e : Failure) × (x.0 ≡ err e) × (t.stored x.1 ≡ t.stored s.database))
      ends (ok _, z) done undone = inl (refl, done, refl)
      ends (err e, z) done undone = inr (e, refl, undone)

  tested :
      (s : SqliteDatabase q) (m : Done)
      → ensure_initialized q s >> m ≡ ok tt
      → (s.initialized ≡ true) × (m ≡ ok tt)
  unfolding ensure_initialized
  tested s m h = passed s.initialized refl h
    where
      passed :
          (b : Bool)
          → s.initialized ≡ b
          → (if not b
                then err (
                    logic_error
                      (bytes "SQLiteDatabase::Initialize must succeed before storage operations"))
                else ok tt)
              >> m
            ≡ ok tt
          → (s.initialized ≡ true) × (m ≡ ok tt)
      passed true e h = (e, h)
      passed false e h = absurd cc

  -- `ReplaceAll` either succeeds, on an initialized database with items that pass the validation, and
  -- then the table holds exactly the rows of these items in their order; or it throws, at the tests or
  -- at any statement, and then the table is what it was.
  pub replace_all-atomic :
      (items : List DatabaseItem) (s : SqliteDatabase q)
      → (((replace_all q items s).0 ≡ ok tt)
          × (t.stored (replace_all q items s).1.database ≡ map bind_item items)
          × (s.initialized ≡ true)
          × (validate_items items ≡ ok tt))
        ⊎ ((e : Failure) × ((replace_all q items s).0 ≡ err e)
            × (t.stored (replace_all q items s).1.database ≡ t.stored s.database))
  unfolding replace_all
  replace_all-atomic items s =
      elim (run_if-atomic items (ensure_initialized q s >> validate_items items) s) [
        | inl (done, rows, passed) ↦
            let (opened, valid) = tested s (validate_items items) passed in
            inl (done, rows, opened, valid)
        | inr undone ↦ inr undone
      ]
